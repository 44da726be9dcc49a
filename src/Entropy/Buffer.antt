-- ===== src/Entropy/Buffer.antt =====
-- The layout of the buffer that the mix hashes.
use falcon_vanity_generator.Base.{
  ℕ, zero, suc, ◌+◌, ◌*◌, ◌^◌, ◌<◌, Option, none, some, List, [], ◌++◌, append-nil, append_assoc,
  length, take, drop, replicate, ◌≡◌, refl, sym, ap, ap₂, ◌∙◌, ◌≢◌, arith, length-append,
  take-append_self, drop-append_self, drop-drop,
}
use falcon_vanity_generator.Base.Endian.{from_le, to_le, length-to_le, from_le-to_le}
use falcon_vanity_generator.Entropy.{EntropyMix, mix_tag, copy_at, with_extra, mix_buffer}

abbrev pub extra_or_zeros : Option (List ℕ) → List ℕ
extra_or_zeros none = replicate 32 0
extra_or_zeros (some e) = e

-- The contributions have the lengths of their arrays.
pub record IsMix (m : EntropyMix) (os cpu : List ℕ) : Type 0 where
  pub os_length : length os ≡ 32
  pub cpu_length : length cpu ≡ 32
  pub tpm_length : length m.cached.tpm ≡ 32
  pub jitter_length : length m.cached.jitter ≡ 32
  pub extra_length : length (extra_or_zeros m.extra) ≡ 32

abbrev zeros : ℕ → List ℕ
zeros n = replicate n 0

drop-zeros : (m n : ℕ) → drop m (zeros (n + m)) ≡ zeros n
drop-zeros zero n = ap zeros (omega arith)
drop-zeros (suc m) n =
    ap (λ (k : ℕ). drop (suc m) (zeros k)) (let q : n + suc m ≡ suc (n + m) = omega arith in q)
    ∙ drop-zeros m n

-- Writing over zeros, right behind what has been written.
copy_at-zeros :
    (buf done bytes : List ℕ) (from left : ℕ)
    → buf ≡ done ++ replicate (left + length bytes) 0
    → length done ≡ from
    → copy_at buf from bytes ≡ (done ++ bytes) ++ replicate left 0
unfolding copy_at
copy_at-zeros buf done bytes from left e here =
    ap₂ (λ front back. front ++ bytes ++ back) front back
  where
    front : take from buf ≡ done
    front =
        ap (take from) e
        ∙ ap (λ k. take k (done ++ zeros (left + length bytes))) (sym here)
        ∙ take-append_self done (zeros (left + length bytes))

    back : drop (from + length bytes) buf ≡ replicate left 0
    back =
        sym (drop-drop from (length bytes) buf)
        ∙ ap (λ l. drop (length bytes) (drop from l)) e
        ∙ ap (λ k. drop (length bytes) (drop k (done ++ zeros (left + length bytes)))) (sym here)
        ∙ ap (drop (length bytes)) (drop-append_self done (zeros (left + length bytes)))
        ∙ drop-zeros (length bytes) left

-- Without user entropy its place stays zero.
with_extra-zeros :
    (buf done : List ℕ) (e : Option (List ℕ))
    → buf ≡ done ++ replicate 40 0
    → length done ≡ 152
    → length (extra_or_zeros e) ≡ 32
    → with_extra buf e ≡ (done ++ extra_or_zeros e) ++ replicate 8 0
unfolding with_extra
with_extra-zeros buf done none eb here full =
    eb ∙ sym (append_assoc done (replicate 32 0) (replicate 8 0))
with_extra-zeros buf done (some e) eb here full =
    copy_at-zeros buf done e 152 8
      (eb ∙ ap (λ (k : ℕ). done ++ zeros k) {x = 40} {y = 8 + length e} (omega arith)) here

-- The buffer holds the tag, then what the OS, the CPU, the TPM and the jitter gave, the hash of the
-- user's entropy or zeros, and the counter in 8 bytes, in this order and without overlap.
pub mix_buffer-layout :
    (m : EntropyMix) (os cpu : List ℕ) (ctr : ℕ)
    → IsMix m os cpu
    → mix_buffer m os cpu ctr
      ≡ mix_tag
        ++ os
        ++ cpu
        ++ m.cached.tpm
        ++ m.cached.jitter
        ++ extra_or_zeros m.extra
        ++ to_le 8 ctr
unfolding mix_buffer with_extra
mix_buffer-layout m os cpu ctr good =
    copy_at-zeros _ d5 (to_le 8 ctr) 184 0
      (e5 ∙ pad d5 8 (0 + length (to_le 8 ctr)) (omega (arith, length-to_le 8 ctr)))
      (omega (arith, length-append d4 x, good.extra_length, l4))
    ∙ append-nil _
  where
    tpm : List ℕ
    tpm = m.cached.tpm

    jitter : List ℕ
    jitter = m.cached.jitter

    x : List ℕ
    x = extra_or_zeros m.extra

    d2 : List ℕ
    d2 = mix_tag ++ os

    d3 : List ℕ
    d3 = d2 ++ cpu

    d4 : List ℕ
    d4 = (d3 ++ tpm) ++ jitter

    d5 : List ℕ
    d5 = d4 ++ x

    l2 : length d2 ≡ 56
    l2 = omega (arith, length-append mix_tag os, good.os_length)

    l3 : length d3 ≡ 88
    l3 = omega (arith, l2, length-append d2 cpu, good.cpu_length)

    l3' : length (d3 ++ tpm) ≡ 120
    l3' = omega (arith, l3, length-append d3 tpm, good.tpm_length)

    l4 : length d4 ≡ 152
    l4 = omega (arith, l3', length-append (d3 ++ tpm) jitter, good.jitter_length)

    pad : (d : List ℕ) (n k : ℕ) → n ≡ k → d ++ replicate n 0 ≡ d ++ replicate k 0
    pad d n k e = ap (λ (i : ℕ). d ++ replicate i 0) e

    e1 : copy_at (replicate (24 + 5 * 32 + 8) 0) 0 mix_tag ≡ mix_tag ++ replicate 168 0
    e1 = copy_at-zeros _ [] mix_tag 0 168 refl refl

    e2 : copy_at (copy_at (replicate (24 + 5 * 32 + 8) 0) 0 mix_tag) 24 os ≡ d2 ++ replicate 136 0
    e2 =
        copy_at-zeros _ mix_tag os 24 136
          (e1 ∙ pad mix_tag 168 (136 + length os) (omega (arith, good.os_length))) refl

    e3 :
        copy_at (copy_at (copy_at (replicate (24 + 5 * 32 + 8) 0) 0 mix_tag) 24 os) 56 cpu
        ≡ d3 ++ replicate 104 0
    e3 =
        copy_at-zeros _ d2 cpu 56 104
          (e2 ∙ pad d2 136 (104 + length cpu) (omega (arith, good.cpu_length))) l2

    e3' :
        copy_at
          (copy_at (copy_at (copy_at (replicate (24 + 5 * 32 + 8) 0) 0 mix_tag) 24 os) 56 cpu)
          88
          tpm
        ≡ (d3 ++ tpm) ++ replicate 72 0
    e3' =
        copy_at-zeros _ d3 tpm 88 72
          (e3 ∙ pad d3 104 (72 + length tpm) (omega (arith, good.tpm_length))) l3

    e4 :
        copy_at
          (copy_at
            (copy_at (copy_at (copy_at (replicate (24 + 5 * 32 + 8) 0) 0 mix_tag) 24 os) 56 cpu)
            88
            tpm)
          120
          jitter
        ≡ d4 ++ replicate 40 0
    e4 =
        copy_at-zeros _ (d3 ++ tpm) jitter 120 40
          (e3' ∙ pad (d3 ++ tpm) 72 (40 + length jitter) (omega (arith, good.jitter_length))) l3'

    e5 :
        with_extra
          (copy_at
            (copy_at
              (copy_at (copy_at (copy_at (replicate (24 + 5 * 32 + 8) 0) 0 mix_tag) 24 os) 56 cpu)
              88
              tpm)
            120
            jitter)
          m.extra
        ≡ d5 ++ replicate 8 0
    e5 = with_extra-zeros _ d4 m.extra e4 l4 good.extra_length

pub mix_buffer-counter :
    (m : EntropyMix) (os cpu : List ℕ) (ctr : ℕ)
    → IsMix m os cpu
    → ctr < 2 ^ 64
    → from_le (drop 184 (mix_buffer m os cpu ctr)) ≡ ctr
mix_buffer-counter m os cpu ctr good small =
    ap (λ l. from_le (drop 184 l)) (mix_buffer-layout m os cpu ctr good)
    ∙ ap from_le (
        ap (λ (k : ℕ). drop k (before ++ to_le 8 ctr)) {x = 184} {y = length before}
          (omega (arith, full))
        ∙ drop-append_self before (to_le 8 ctr))
    ∙ from_le-to_le 8 ctr (omega arith)
  where
    before : List ℕ
    before = mix_tag ++ os ++ cpu ++ m.cached.tpm ++ m.cached.jitter ++ extra_or_zeros m.extra

    full : length before ≡ 184
    full = omega (
      arith,
      length-append mix_tag os,
      length-append (mix_tag ++ os) cpu,
      length-append (mix_tag ++ os ++ cpu) m.cached.tpm,
      length-append (mix_tag ++ os ++ cpu ++ m.cached.tpm) m.cached.jitter,
      length-append (mix_tag ++ os ++ cpu ++ m.cached.tpm ++ m.cached.jitter)
          (extra_or_zeros m.extra),
      good.os_length,
      good.cpu_length,
      good.tpm_length,
      good.jitter_length,
      good.extra_length,
    )

-- Outputs with different counters hash different buffers, whatever the sources gave.
pub mix_buffer-distinct :
    (m n : EntropyMix) (os cpu os' cpu' : List ℕ) (i j : ℕ)
    → IsMix m os cpu
    → IsMix n os' cpu'
    → i < 2 ^ 64
    → j < 2 ^ 64
    → i ≢ j
    → mix_buffer m os cpu i ≢ mix_buffer n os' cpu' j
mix_buffer-distinct m n os cpu os' cpu' i j good good' hi hj differ e = differ (
    sym (mix_buffer-counter m os cpu i good hi)
    ∙ ap (λ l. from_le (drop 184 l)) e
    ∙ mix_buffer-counter n os' cpu' j good' hj)
