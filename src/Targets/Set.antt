-- ===== src/Targets/Set.antt =====
-- crates/pq-vanity/src/targets.rs: the target list, its retirement flags and its two matchers.
pub mod Match
pub mod Table
pub mod Claim
pub mod Tally
pub mod Found
use falcon_vanity_generator.Base.{
  ℕ, zero, suc, ◌+◌, ◌-◌, ◌*◌, ◌/◌, ◌%◌, ◌^◌, ◌≤◌, ◌<◌, bit_and, bit_or, bit_xor, Bool, true, false,
  not, ◌&&◌, ◌||◌, Option, none, some, List, [], ◌∷◌, ◌++◌, map, append-nil, append_assoc, String,
  codes, length, take, drop, get_elem?, get_or, set, replicate, All, ◌≡◌, refl, sym, ap, ap₂, ◌∙◌,
  ◌≢◌, ◌↔◌, ◌⊎◌, inl, inr, arith, ltb, leb, ◌==◌, if◌then◌else◌, ltb→lt, leb→le, Bool-cases,
  Option-cases, ◌>>=◌, is_some, length-append, take-append-drop, length-take, length-drop, take_all,
  take-take, take-append_le, take-append_self, drop-append_le, drop-append_self, drop-drop,
  length-replicate, All-append, All-take, All-drop, length-map, take-map, drop-map,
  get_or-get_elem?, starts_with, ends_with, list_eq, list_eq_iff, starts_with_iff, ends_with_iff,
  ends_with-nil, ==_iff, Bool_ext,
}
use falcon_vanity_generator.Crates.{Crates}
use falcon_vanity_generator.Address.{Address, to_address_string}
use falcon_vanity_generator.Targets.{
  Target, DeviceWords, matches_display, device_words, IsTarget, FitsGpu, addr_only_chars,
  gpu_max_prefix, gpu_max_suffix, max_targets,
}

-- The atomics of `active` hold one flag for each target; threads interleave whole operations.
pub record TargetSet : Type 0 where
  pub list : List Target
  pub active : List Bool
  pub retire : Bool
  pub max_prefix : ℕ

-- The flags are as many as the targets, so no index of a target is out of range.
unfoldable pub is_active : TargetSet → ℕ → Bool
is_active s i = get_or s.active i false

-- `any` over the indices from `i` on, one for each target left.
unfoldable pub any_active_from : TargetSet → List Target → ℕ → Bool
any_active_from s [] i = false
any_active_from s (t ∷ ts) i = is_active s i || any_active_from s ts (i + 1)

unfoldable pub any_active : TargetSet → Bool
any_active s = any_active_from s s.list 0

unfoldable pub default_count : TargetSet → ℕ
default_count s = if s.retire then length s.list else 1

unfoldable pub check_gpu : List Target → Bool
check_gpu [] = true
check_gpu (t ∷ ts) =
    (leb (length t.prefix) gpu_max_prefix && leb (length t.suffix) gpu_max_suffix) && check_gpu ts

-- `compare_exchange(true, false)` on the flag.
unfoldable pub claim : TargetSet → ℕ → TargetSet × Bool
claim s i =
    if not s.retire
    then (s, true)
    else if is_active s i
    then (record s { active = set s.active i false }, true)
    else (s, false)

-- The table of the active targets; `none` is a panic of `device_words`.
unfoldable pub device_table_from : TargetSet → List Target → ℕ → Option (List DeviceWords)
device_table_from s [] i = some []
device_table_from s (t ∷ ts) i =
    let rest = device_table_from s ts (i + 1) in
    if is_active s i then (device_words t >>= λ w. rest >>= λ ws. some (w ∷ ws)) else rest

unfoldable pub device_table : TargetSet → Option (List DeviceWords)
device_table s = device_table_from s s.list 0

unfoldable pub first_match_display_from : TargetSet → List ℕ → List Target → ℕ → Option ℕ
first_match_display_from s display [] i = none
first_match_display_from s display (t ∷ ts) i =
    let rest = first_match_display_from s display ts (i + 1) in
    if is_active s i && matches_display t display then some i else rest

unfoldable pub first_match_display : TargetSet → List ℕ → Option ℕ
first_match_display s display = first_match_display_from s display s.list 0

-- `get_or_insert_with` on the display string: what is there, or the string built now.
unfoldable pub display_or : Crates → Address → Option (List ℕ) → List ℕ
display_or x addr none = to_address_string x addr
display_or x addr (some d) = d

-- The loop of `first_match`; `display` is what has been built of the display string.
unfoldable pub first_match_from :
    Crates → TargetSet → Address → List ℕ → List Target → ℕ → Option (List ℕ) → Option ℕ
first_match_from x s addr head [] i display = none
first_match_from x s addr head (t ∷ ts) i display =
    let short = leb (length t.prefix) addr_only_chars in
    let d = display_or x addr display in
    let display' = if short then display else some d in
    let prefix_ok = if short then starts_with head t.prefix else starts_with d t.prefix in
    let skip = first_match_from x s addr head ts (i + 1) display in
    let wrong_prefix = first_match_from x s addr head ts (i + 1) display' in
    let wrong_suffix = first_match_from x s addr head ts (i + 1) (some d) in
    if not (is_active s i)
    then skip
    else if not prefix_ok
    then wrong_prefix
    else if length t.suffix == 0
    then some i
    else if ends_with d t.suffix
    then some i
    else wrong_suffix

unfoldable pub first_match : Crates → TargetSet → Address → Option ℕ
first_match x s addr =
    let shorter = if leb s.max_prefix addr_only_chars then s.max_prefix else addr_only_chars in
    let head_bytes = (shorter * 5 + 7) / 8 in
    first_match_from x s addr (x.base32_encode (take head_bytes addr.bytes)) s.list 0 none

-- What `parse` establishes and every claim keeps.
pub record IsTargetSet (s : TargetSet) : Type 0 where
  pub targets : All IsTarget s.list
  pub prefixes : All (λ t. length t.prefix ≤ s.max_prefix) s.list
  pub flags : length s.active ≡ length s.list
  pub some_target : 1 ≤ length s.list
  pub room : length s.list ≤ max_targets
