-- ===== src/Entropy/History.antt =====
-- The mixer over its life: from its creation through any sequence of outputs and refreshes.
use falcon_vanity_generator.Base.{
  ℕ, zero, suc, ◌+◌, ◌%◌, ◌^◌, ◌<◌, Option, none, some, List, [], ◌∷◌, map, length, drop, get_elem?,
  All, ◌≡◌, refl, sym, ap, ◌∙◌, arith, some_inj,
}
use falcon_vanity_generator.Base.Endian.{from_le}
use falcon_vanity_generator.Crates.{Crates}
use falcon_vanity_generator.Entropy.{EntropyMix, mix_buffer, next, refresh}
use falcon_vanity_generator.Entropy.Buffer.{IsMix, mix_buffer-counter}
use falcon_vanity_generator.Entropy.Probe.{new_mix}
use falcon_vanity_generator.Entropy.Ready.{IsReady, refresh-IsReady, new_mix-IsReady}

-- A call of `next`, with what the OS and the CPU gave, or of `refresh`.
pub data MixOp : Type 0 where
  draw : Option (List ℕ) → List ℕ → MixOp
  renew : List ℕ → List (Option (List ℕ)) → MixOp

-- The inputs have the lengths of their arrays.
unfoldable pub IsOp : MixOp → Type 0
IsOp (draw none cpu) = Unit {0}
IsOp (draw (some os) cpu) = (length os ≡ 32) × (length cpu ≡ 32)
IsOp (renew jitter responses) = length jitter ≡ 32

-- The outputs of a sequence of calls, and the buffers that are hashed for them.
unfoldable pub outputs : Crates → EntropyMix → List MixOp → List (List ℕ)
outputs x m [] = []
outputs x m (draw os cpu ∷ ops) =
    let r = next x m os cpu in
    let rest = outputs x r.0 ops in elim r.1 [ none ↦ rest | some out ↦ out ∷ rest ]
outputs x m (renew jitter responses ∷ ops) = outputs x (refresh m jitter responses) ops

unfoldable pub buffers : Crates → EntropyMix → List MixOp → List (List ℕ)
buffers x m [] = []
buffers x m (draw none cpu ∷ ops) = buffers x m ops
buffers x m (draw (some os) cpu ∷ ops) =
    mix_buffer m os cpu m.ctr ∷ buffers x (next x m (some os) cpu).0 ops
buffers x m (renew jitter responses ∷ ops) = buffers x (refresh m jitter responses) ops

outputs-buffers :
    (x : Crates) (m : EntropyMix) (ops : List MixOp)
    → outputs x m ops ≡ map x.sha512_256 (buffers x m ops)
unfolding outputs buffers next
outputs-buffers x m [] = refl
outputs-buffers x m (draw none cpu ∷ ops) = outputs-buffers x m ops
outputs-buffers x m (draw (some os) cpu ∷ ops) =
    ap (λ l. x.sha512_256 (mix_buffer m os cpu m.ctr) ∷ l)
      (outputs-buffers x (next x m (some os) cpu).0 ops)
outputs-buffers x m (renew jitter responses ∷ ops) =
    outputs-buffers x (refresh m jitter responses) ops

-- Buffer `i` has the counter of the mixer plus `i` in its last 8 bytes.
buffers-counter :
    (x : Crates) (ops : List MixOp) (m : EntropyMix) (i : ℕ) (b : List ℕ)
    → IsReady m
    → All IsOp ops
    → m.ctr + length ops < 2 ^ 64
    → get_elem? (buffers x m ops) i ≡ some b
    → from_le (drop 184 b) ≡ m.ctr + i
unfolding buffers next IsOp refresh
buffers-counter x [] m i b g h fits e = cc
buffers-counter x (draw none cpu ∷ ops) m i b g h fits e =
    buffers-counter x ops m i b g h.1 (omega (arith, fits)) e
buffers-counter x (draw (some os) cpu ∷ ops) m zero b g h fits e =
    let here : mix_buffer m os cpu m.ctr ≡ b = some_inj e in
    let (os_ok, cpu_ok) = h.0 in
    let ready : IsMix m os cpu = record {
      os_length = os_ok;
      cpu_length = cpu_ok;
      tpm_length = g.tpm_length;
      jitter_length = g.jitter_length;
      extra_length = g.extra_length;
    } in
    ap (λ l. from_le (drop 184 l)) (sym here)
    ∙ mix_buffer-counter m os cpu m.ctr ready (omega (arith, fits))
    ∙ omega arith
buffers-counter x (draw (some os) cpu ∷ ops) m (suc i) b g h fits e =
    let small : (m.ctr + 1) % 2 ^ 64 ≡ m.ctr + 1 = omega (arith, fits) in
    let after : IsReady (record m { ctr = (m.ctr + 1) % 2 ^ 64 }) = record {
      tpm_length = g.tpm_length;
      jitter_length = g.jitter_length;
      extra_length = g.extra_length;
    } in
    omega (
      arith,
      small,
      buffers-counter x ops (record m { ctr = (m.ctr + 1) % 2 ^ 64 }) i b after h.1
          (omega (arith, fits, small)) e,
    )
buffers-counter x (renew jitter responses ∷ ops) m i b g h fits e =
    buffers-counter x ops (refresh m jitter responses) i b
      (refresh-IsReady m jitter responses h.0 g) h.1 (omega (arith, fits)) e

-- If a mixer is made, the inputs of its calls have the lengths of their arrays, and the calls are
-- fewer than 2^64, then its outputs are the hashes of buffers of which no two are the same, whatever
-- the sources give and wherever it is refreshed.
pub outputs-distinct :
    (x : Crates) (device : Option (List (Option (List ℕ)))) (delta : ℕ → ℕ)
    (extra : Option (List ℕ)) (m : EntropyMix) (ops : List MixOp)
    → new_mix x device delta extra ≡ some m
    → All IsOp ops
    → length ops < 2 ^ 64
    → (outputs x m ops ≡ map x.sha512_256 (buffers x m ops))
      × ((i j : ℕ) (b : List ℕ)
          → get_elem? (buffers x m ops) i ≡ some b
          → get_elem? (buffers x m ops) j ≡ some b
          → i ≡ j)
outputs-distinct x device delta extra m ops made good few =
    let (ready, zero_ctr) = new_mix-IsReady x device delta extra m made in
    (
      outputs-buffers x m ops,
      λ i j b at_i at_j.
          let ci = buffers-counter x ops m i b ready good (omega (arith, zero_ctr, few)) at_i in
          let cj = buffers-counter x ops m j b ready good (omega (arith, zero_ctr, few)) at_j in
          omega (arith, ci, cj),
    )
