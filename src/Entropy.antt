-- ===== src/Entropy.antt =====
-- crates/pq-vanity/src/entropy.rs: the buffer that the mix hashes, its cached contributions, and
-- the TPM protocol. The operating system's generator, the CPU's and the timing jitter are inputs.
pub mod Buffer
pub mod Tpm
pub mod Probe
pub mod Ready
pub mod History
use falcon_vanity_generator.Base.{
  ℕ, zero, suc, ◌+◌, ◌-◌, ◌*◌, ◌/◌, ◌%◌, ◌^◌, ◌≤◌, ◌<◌, bit_and, bit_or, bit_xor, Bool, true, false,
  not, ◌&&◌, ◌||◌, Option, none, some, List, [], ◌∷◌, ◌++◌, map, append-nil, append_assoc, String,
  codes, length, take, drop, get_elem?, get_or, set, replicate, All, ◌≡◌, refl, sym, ap, ap₂, ◌∙◌,
  ◌≢◌, ◌↔◌, ◌⊎◌, inl, inr, arith, ltb, leb, ◌==◌, if◌then◌else◌, ltb→lt, leb→le, Bool-cases,
  Option-cases, ◌>>=◌, is_some, length-append, take-append-drop, length-take, length-drop, take_all,
  take-take, take-append_le, take-append_self, drop-append_le, drop-append_self, drop-drop,
  length-replicate, All-append, All-take, All-drop, length-map, take-map, drop-map,
  get_or-get_elem?, starts_with, ends_with, list_eq, list_eq_iff, starts_with_iff, ends_with_iff,
  ends_with-nil, ==_iff, Bool_ext, some_inj,
}
use falcon_vanity_generator.Base.Endian.{to_le}
use falcon_vanity_generator.Base.Digits.{value}
use falcon_vanity_generator.Crates.{Crates}

abbrev pub mix_tag : List ℕ
mix_tag = codes "pq-vanity/entropy-mix/v1"

pub record Cached : Type 0 where
  pub tpm : List ℕ
  pub jitter : List ℕ

pub record EntropyMix : Type 0 where
  pub tpm_live : Bool
  pub cached : Cached
  pub extra : Option (List ℕ)
  pub ctr : ℕ

-- `buf[from..from + bytes.len()].copy_from_slice(bytes)`
unfoldable pub copy_at : List ℕ → ℕ → List ℕ → List ℕ
copy_at buf from bytes = take from buf ++ bytes ++ drop (from + length bytes) buf

unfoldable pub with_extra : List ℕ → Option (List ℕ) → List ℕ
with_extra buf none = buf
with_extra buf (some e) = copy_at buf 152 e

-- The buffer of `next`: what the OS and the CPU gave, and the counter.
unfoldable pub mix_buffer : EntropyMix → List ℕ → List ℕ → ℕ → List ℕ
mix_buffer m os cpu ctr =
    let tagged = copy_at (replicate (24 + 5 * 32 + 8) 0) 0 mix_tag in
    let from_os = copy_at tagged 24 os in
    let from_cpu = copy_at from_os 56 cpu in
    let from_tpm = copy_at from_cpu 88 m.cached.tpm in
    let from_jitter = copy_at from_tpm 120 m.cached.jitter in
    copy_at (with_extra from_jitter m.extra) 184 (to_le 8 ctr)

-- `none` from the OS generator is its failure, which comes before the counter is read.
unfoldable pub next : Crates → EntropyMix → Option (List ℕ) → List ℕ → EntropyMix × Option (List ℕ)
next x m none cpu = (m, none)
next x m (some os) cpu =
    (record m { ctr = (m.ctr + 1) % 2 ^ 64 }, some (x.sha512_256 (mix_buffer m os cpu m.ctr)))

pub data TpmError : Type 0 where
  io_error short_response bad_length : TpmError
  tpm_rc : ℕ → TpmError

-- The bytes are there, the device failed with some bytes there, or it has yet to answer.
pub data TpmOutcome : Type 0 where
  complete : List ℕ → TpmOutcome
  failed : TpmError → List ℕ → TpmOutcome
  waiting : List ℕ → TpmOutcome

-- What the bytes of one response add to `filled`.
unfoldable pub tpm_response : List ℕ → List ℕ → TpmOutcome
tpm_response filled resp =
    let n = length resp in
    let rc = value 256 0 (take 4 (drop 6 resp)) in
    let blen = value 256 0 (take 2 (drop 10 resp)) in
    let wanted = 32 - length filled in
    if ltb n 12
    then failed short_response filled
    else if not (rc == 0)
    then failed (tpm_rc rc) filled
    else if blen == 0 || ltb n (12 + blen)
    then failed bad_length filled
    else waiting (filled ++ take (if leb blen wanted then blen else wanted) (drop 12 resp))

-- The loop, on the responses to come; `none` is an error of the write or of the read.
unfoldable pub tpm2_get_random : List (Option (List ℕ)) → List ℕ → TpmOutcome
tpm2_get_random [] filled = if ltb (length filled) 32 then waiting filled else complete filled
tpm2_get_random (none ∷ rs) filled =
    if ltb (length filled) 32 then failed io_error filled else complete filled
tpm2_get_random (some resp ∷ rs) filled =
    if ltb (length filled) 32
    then elim (tpm_response filled resp) [
      | waiting more ↦ tpm2_get_random rs more
      | failed e out ↦ failed e out
      | complete out ↦ complete out
    ]
    else complete filled

unfoldable pub refreshed : Cached → List ℕ → Option TpmOutcome → Cached
refreshed c jitter (some (complete b)) = record { tpm = b; jitter = jitter }
refreshed c jitter (some (failed e out)) = record c { jitter = jitter }
refreshed c jitter (some (waiting out)) = record c { jitter = jitter }
refreshed c jitter none = record c { jitter = jitter }

-- `refresh`, with the new jitter and the responses of the TPM, if there is one.
unfoldable pub refresh : EntropyMix → List ℕ → List (Option (List ℕ)) → EntropyMix
refresh m jitter responses = record m {
  cached =
      refreshed m.cached jitter (if m.tpm_live then some (tpm2_get_random responses []) else none);
}
