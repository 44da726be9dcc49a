-- ===== src/Targets/Device.antt =====
-- The target matcher of the kernels (`ed_match_targets` of cuda/ed25519_vanity.cu and
-- `pq_match_targets` of cuda/pq_vanity.cu, which do the same), on one 32-byte address.
pub mod Reads
pub mod Agrees
use falcon_vanity_generator.Base.{
  ℕ, zero, suc, ◌+◌, ◌-◌, ◌*◌, ◌/◌, ◌%◌, ◌^◌, ◌≤◌, ◌<◌, bit_and, bit_or, bit_xor, Bool, true, false,
  not, ◌&&◌, ◌||◌, Option, none, some, List, [], ◌∷◌, ◌++◌, map, append-nil, append_assoc, String,
  codes, length, take, drop, get_elem?, get_or, set, replicate, All, ◌≡◌, refl, sym, ap, ap₂, ◌∙◌,
  ◌≢◌, ◌↔◌, ◌⊎◌, inl, inr, arith, ltb, leb, ◌==◌, if◌then◌else◌, ltb→lt, leb→le, Bool-cases,
  Option-cases, ◌>>=◌, is_some, length-append, take-append-drop, length-take, length-drop, take_all,
  take-append_le, take-append_self, drop-append_le, drop-append_self, drop-drop, length-replicate,
  All-append, All-take, All-drop, length-map, take-map, drop-map, get_or-get_elem?, starts_with,
  ends_with, list_eq, list_eq_iff, starts_with_iff, ends_with_iff,
}
use falcon_vanity_generator.Base.Digits.{value}
use falcon_vanity_generator.Crates.{Crates}
use falcon_vanity_generator.Targets.{DeviceWords}

-- `v = (v << 8) | p[i]` over eight bytes.
unfoldable pub be64 : List ℕ → ℕ
be64 p = value 256 0 (take 8 p)

-- The casts to u32 and to u64 around the shift are written out.
unfoldable pub device_lo : Crates → List ℕ → ℕ
device_lo x addr32 =
    let sum = x.sha512_256 addr32 in
    bit_or (be64 (drop 24 addr32) % 2 ^ 32 * 2 ^ 32 % 2 ^ 64) (be64 (drop 24 sum) % 2 ^ 32)

-- One round of the loop: does this entry of the table match?
unfoldable pub entry_matches : Crates → List ℕ → DeviceWords → Bool
entry_matches x addr32 w =
    if not (bit_and (be64 addr32) w.pmask == w.pval)
    then false
    else if w.smask == 0
    then true
    else bit_and (device_lo x addr32) w.smask == w.sval

unfoldable pub match_targets : Crates → List ℕ → List DeviceWords → Bool
match_targets x addr32 [] = false
match_targets x addr32 (w ∷ ws) =
    let rest = match_targets x addr32 ws in if entry_matches x addr32 w then true else rest
