-- ===== src/Entropy/Probe.antt =====
-- crates/pq-vanity/src/entropy.rs: `EntropyMix::new`, `cpu_drng_fill` on x86_64 and `jitter32`, on
-- what the machine answers.
use falcon_vanity_generator.Base.{
  ℕ, zero, suc, ◌+◌, ◌-◌, ◌*◌, ◌/◌, ◌%◌, ◌^◌, bit_xor, Bool, true, false, not, Option, none, some,
  List, [], ◌∷◌, ◌++◌, codes, length, get_or, set, replicate, ◌≡◌, if◌then◌else◌, ◌>>=◌, is_some,
}
use falcon_vanity_generator.Base.Endian.{to_le}
use falcon_vanity_generator.Crates.{Crates}
use falcon_vanity_generator.Entropy.{
  EntropyMix, TpmOutcome, complete, failed, waiting, tpm2_get_random,
}

-- The answers of `_rdseed64_step` for one word, at most 64 of them read: the first value.
unfoldable pub rdseed_word : ℕ → List (Option ℕ) → Option ℕ
rdseed_word zero answers = none
rdseed_word (suc tries) [] = none
rdseed_word (suc tries) (none ∷ answers) = rdseed_word tries answers
rdseed_word (suc tries) (some v ∷ answers) = some v

-- The chunks of 8 bytes, one list of answers for each: the bytes, and whether any were filled.
unfoldable pub fill_words : List (List (Option ℕ)) → List ℕ × Bool
fill_words [] = ([], false)
fill_words (answers ∷ more) =
    let rest = fill_words more in
    elim (rdseed_word 64 answers) [
      | none ↦ (replicate 8 0 ++ rest.0, rest.1)
      | some v ↦ (to_le 8 v ++ rest.0, true)
    ]

-- What the CPU answers: whether it has the instruction, and the answers for each of four words.
pub record Cpu : Type 0 where
  pub detected : Bool
  pub answers : List (List (Option ℕ))
  pub words : length answers ≡ 4

unfoldable pub cpu_drng_fill : Cpu → List ℕ × Bool
cpu_drng_fill c = if not c.detected then (replicate 32 0, false) else fill_words c.answers

-- One round of the loop: a scattered increment, and the low bits of the time `d` that it took.
unfoldable pub jitter_round : ℕ → ℕ → ℕ → List ℕ → List ℕ
jitter_round acc i d samples =
    let at = (acc / 2 ^ 33) % length samples in
    let bumped = set samples at ((get_or samples at 0 + 1) % 2 ^ 8) in
    set bumped i (bit_xor (get_or bumped i 0) (bit_xor (d % 2 ^ 8) ((d / 2 ^ 8) % 2 ^ 8)))

unfoldable pub next_acc : ℕ → ℕ
next_acc acc = (acc * 6364136223846793005 % 2 ^ 64 + 1442695040888963407) % 2 ^ 64

-- `left` rounds from round `i` on; `delta i` is the time of round `i` in nanoseconds.
unfoldable pub jitter_rounds : (ℕ → ℕ) → ℕ → ℕ → ℕ → List ℕ → List ℕ
jitter_rounds delta zero i acc samples = samples
jitter_rounds delta (suc left) i acc samples =
    jitter_rounds delta left (i + 1) (next_acc acc)
      (jitter_round (next_acc acc) i (delta i) samples)

unfoldable pub jitter32 : Crates → (ℕ → ℕ) → List ℕ
jitter32 x delta = x.sha512_256 (jitter_rounds delta 4096 0 0x9e3779b97f4a7c15 (replicate 4096 0))

-- The device file, if it opens: whether it answered, and the bytes that are then in `tpm_init`.
-- `none` is a device that has yet to answer.
unfoldable pub probed : TpmOutcome → Option (Bool × List ℕ)
probed (complete b) = some (true, b)
probed (failed e out) = some (false, out ++ replicate (32 - length out) 0)
probed (waiting out) = none

unfoldable pub tpm_probe : Option (List (Option (List ℕ))) → Option (Bool × List ℕ)
tpm_probe none = some (false, replicate 32 0)
tpm_probe (some responses) = probed (tpm2_get_random responses [])

unfoldable pub hash_extra : Crates → Option (List ℕ) → Option (List ℕ)
hash_extra x none = none
hash_extra x (some e) = some (x.sha512_256 e)

unfoldable pub new_mix :
    Crates → Option (List (Option (List ℕ))) → (ℕ → ℕ) → Option (List ℕ) → Option EntropyMix
new_mix x device delta extra = tpm_probe device >>= λ t. some (record {
  tpm_live = t.0;
  cached = record { tpm = t.1; jitter = jitter32 x delta };
  extra = hash_extra x extra;
  ctr = 0;
})

-- The `desc` of the source set.
unfoldable pub sources : Cpu → Bool → Option (List ℕ) → List ℕ
sources c tpm_live extra =
    let cpu = if (cpu_drng_fill c).1 then codes "+rdseed" else [] in
    let tpm = if tpm_live then codes "+tpm2" else [] in
    codes "getrandom"
    ++ cpu
    ++ codes "+jitter"
    ++ tpm
    ++ (if is_some extra then codes "+extra" else [])
