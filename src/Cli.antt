-- ===== src/Cli.antt =====
-- crates/pq-vanity/src/search.rs, `hex_lower`, and crates/pq-vanity/src/main.rs,
-- `load_extra_entropy`: texts of the command line. `none` is a panic of `unwrap`.
pub mod ParseHex
pub mod Args
pub mod Derive
pub mod Start
use falcon_vanity_generator.Base.{
  ℕ, zero, suc, ◌+◌, ◌-◌, ◌*◌, ◌/◌, ◌%◌, ◌^◌, ◌≤◌, ◌<◌, bit_and, bit_or, bit_xor, Bool, true, false,
  not, ◌&&◌, ◌||◌, Option, none, some, List, [], ◌∷◌, ◌++◌, map, append-nil, append_assoc, String,
  codes, length, take, drop, get_elem?, get_or, set, replicate, All, ◌≡◌, refl, sym, ap, ap₂, ◌∙◌,
  ◌≢◌, ◌↔◌, ◌⊎◌, inl, inr, arith, ltb, leb, ◌==◌, if◌then◌else◌, ltb→lt, leb→le, Bool-cases,
  Option-cases, ◌>>=◌, is_some, length-append, take-append-drop, length-take, length-drop, take_all,
  take-take, take-append_le, take-append_self, drop-append_le, drop-append_self, drop-drop,
  length-replicate, All-append, All-take, All-drop, length-map, take-map, drop-map,
  get_or-get_elem?, starts_with, ends_with, list_eq, list_eq_iff, starts_with_iff, ends_with_iff,
  ends_with-nil, ==_iff, Bool_ext, some_inj,
}
use falcon_vanity_generator.Base.Results.{Result, ok, err}

-- `char::from_digit(d, 16)`
unfoldable pub from_digit : ℕ → Option ℕ
from_digit d = if ltb d 10 then some (48 + d) else if ltb d 16 then some (87 + d) else none

unfoldable pub hex_lower : List ℕ → Option (List ℕ)
hex_lower [] = some []
hex_lower (b ∷ bs) =
    let rest = hex_lower bs in
    from_digit (b / 2 ^ 4) >>= λ h.
    from_digit (bit_and b 0xf) >>= λ l. rest >>= λ r. some (h ∷ l ∷ r)

pub data ExtraError : Type 0 where
  unreadable extra_empty : ExtraError

unfoldable pub not_empty : List ℕ → Result ExtraError (Option (List ℕ))
not_empty [] = err extra_empty
not_empty (b ∷ bs) = ok (some (b ∷ bs))

-- The argument as bytes, and the file that it names: `none` if there is no such file, and what
-- reading it gives.
unfoldable pub load_extra_entropy :
    Option (List ℕ) → (List ℕ → Option (Option (List ℕ))) → Result ExtraError (Option (List ℕ))
load_extra_entropy none file = ok none
load_extra_entropy (some v) file = elim (file v) [
  | none ↦ not_empty v
  | some none ↦ err unreadable
  | some (some bytes) ↦ not_empty bytes
]
