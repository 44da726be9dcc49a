-- ===== src/Targets/Parse.antt =====
-- crates/pq-vanity/src/targets.rs: `TargetSet::parse` and its helpers.
pub mod Longest
pub mod Accepts
pub mod Expand
use falcon_vanity_generator.Base.{
  ℕ, zero, suc, ◌+◌, ◌-◌, ◌*◌, ◌/◌, ◌%◌, ◌^◌, ◌≤◌, ◌<◌, bit_and, bit_or, bit_xor, Bool, true, false,
  not, ◌&&◌, ◌||◌, Option, none, some, List, [], ◌∷◌, ◌++◌, map, append-nil, append_assoc, String,
  codes, length, take, drop, get_elem?, get_or, set, replicate, All, ◌≡◌, refl, sym, ap, ap₂, ◌∙◌,
  ◌≢◌, ◌↔◌, ◌⊎◌, inl, inr, arith, ltb, leb, ◌==◌, if◌then◌else◌, ltb→lt, leb→le, Bool-cases,
  Option-cases, ◌>>=◌, is_some, length-append, take-append-drop, length-take, length-drop, take_all,
  take-take, take-append_le, take-append_self, drop-append_le, drop-append_self, drop-drop,
  length-replicate, All-append, All-take, All-drop, length-map, take-map, drop-map,
  get_or-get_elem?, starts_with, ends_with, list_eq, list_eq_iff, starts_with_iff, ends_with_iff,
  ends_with-nil, ==_iff, Bool_ext,
}
use falcon_vanity_generator.Base.Results.{Result, ok, err, bind, ensure, collect}
use falcon_vanity_generator.Text.{trim, to_ascii_uppercase, split, split_once}
use falcon_vanity_generator.Base32.{base32_alphabet, find}
use falcon_vanity_generator.Targets.{Target, last_chars, last_char?, display_len, max_targets}
use falcon_vanity_generator.Targets.Set.{TargetSet}

-- The messages of the source, one constructor each.
pub data ParseError : Type 0 where
  empty_entry : ParseError
  bad_character : ℕ → ParseError
  no_separator : ParseError
  empty_pattern : ParseError
  impossible_end : ParseError
  too_long : ParseError
  no_targets : ParseError
  too_many_targets : ℕ → ParseError

unfoldable pub is_empty : List ℕ → Bool
is_empty [] = true
is_empty (c ∷ cs) = false

unfoldable pub split_entry : List ℕ → Result ParseError (List ℕ)
split_entry piece =
    let s = to_ascii_uppercase (trim piece) in
    bind (ensure (not (is_empty s)) empty_entry) (λ _. ok s)

unfoldable pub split_list : List ℕ → Result ParseError (List (List ℕ))
split_list arg = collect split_entry (split arg b',')

unfoldable pub check_chars : List ℕ → Result ParseError (Unit {0})
check_chars [] = ok tt
check_chars (c ∷ cs) =
    let rest = check_chars cs in
    if is_some (find base32_alphabet c) then rest else err (bad_character c)

-- Two dots, an ellipsis, a hyphen: the first separator that occurs at all.
unfoldable pub split_pair : List ℕ → Result ParseError (List ℕ × List ℕ)
split_pair entry = elim (split_once entry (codes "..")) [
  | some r ↦ ok r
  | none ↦ elim (split_once entry (0x2026 ∷ [])) [
    | some r ↦ ok r
    | none ↦ elim (split_once entry (codes "-")) [ some r ↦ ok r | none ↦ err no_separator ]
  ]
]

unfoldable pub pair_target : List ℕ → Result ParseError Target
pair_target e = bind (split_pair e) (λ r. ok (record { prefix = r.0; suffix = r.1 }))

unfoldable pub with_suffixes : List ℕ → List (List ℕ) → List Target
with_suffixes p [] = []
with_suffixes p (s ∷ ss) = record { prefix = p; suffix = s } ∷ with_suffixes p ss

-- The two nested loops over the prefixes and the suffixes.
unfoldable pub product : List (List ℕ) → List (List ℕ) → List Target
product [] ss = []
product (p ∷ ps) ss = with_suffixes p ss ++ product ps ss

unfoldable pub split_option : Option (List ℕ) → Result ParseError (List (List ℕ))
split_option none = ok ([] ∷ [])
split_option (some arg) = split_list arg

-- The first half of `parse`: the list before any check.
unfoldable pub expand :
    Option (List ℕ) → Option (List ℕ) → Option (List ℕ) → Result ParseError (List Target)
expand prefix suffix (some pattern) = bind (split_list pattern) (collect pair_target)
expand prefix suffix none =
    bind (split_option prefix) (λ ps. bind (split_option suffix) (λ ss. ok (product ps ss)))

unfoldable pub target_eq : Target → Target → Bool
target_eq t u = list_eq t.prefix u.prefix && list_eq t.suffix u.suffix

unfoldable pub contains : List Target → Target → Bool
contains [] t = false
contains (u ∷ us) t = target_eq u t || contains us t

unfoldable pub check_last : List ℕ → Result ParseError (Unit {0})
check_last suffix = elim (last_char? suffix) [
  | none ↦ ok tt
  | some c ↦ ensure (is_some (find last_chars c)) impossible_end
]

-- The checks of one round of the loop. All characters are ASCII once the first two have passed, so
-- the lengths in bytes are the lengths here.
unfoldable pub check_target : Target → Result ParseError (Unit {0})
check_target t = bind (check_chars t.prefix) (λ _. bind (check_chars t.suffix) (λ _.
    bind (ensure (not (is_empty t.prefix) || not (is_empty t.suffix)) empty_pattern) (λ _.
      bind (check_last t.suffix)
        (λ _. ensure (leb (length t.prefix + length t.suffix) display_len) too_long))))

-- The loop; `dedup` is what it has kept.
unfoldable pub dedup_loop : List Target → List Target → Result ParseError (List Target)
dedup_loop dedup [] = ok dedup
dedup_loop dedup (t ∷ ts) =
    bind (check_target t) (λ _. dedup_loop (if contains dedup t then dedup else dedup ++ t ∷ []) ts)

unfoldable pub longest_prefix : List Target → ℕ
longest_prefix [] = 0
longest_prefix (t ∷ ts) =
    if ltb (longest_prefix ts) (length t.prefix) then length t.prefix else longest_prefix ts

unfoldable pub finish : Bool → List Target → Result ParseError TargetSet
finish keep_found dedup = bind (ensure (ltb 0 (length dedup)) no_targets) (λ _.
    bind (ensure (leb (length dedup) max_targets) (too_many_targets (length dedup))) (λ _.
      ok (record {
        list = dedup;
        active = replicate (length dedup) true;
        retire = ltb 1 (length dedup) && not keep_found;
        max_prefix = longest_prefix dedup;
      })))

unfoldable pub parse :
    Option (List ℕ) → Option (List ℕ) → Option (List ℕ) → Bool → Result ParseError TargetSet
parse prefix suffix pattern keep_found =
    bind (expand prefix suffix pattern) (λ list. bind (dedup_loop [] list) (finish keep_found))

pairs_listed :
    expand none none (some (codes "abcd-wxya, EF..qe,ALGO-,-ZZ4"))
    ≡ ok (
        record { prefix = codes "ABCD"; suffix = codes "WXYA" }
        ∷ record { prefix = codes "EF"; suffix = codes "QE" }
        ∷ record { prefix = codes "ALGO"; suffix = [] }
        ∷ record { prefix = []; suffix = codes "ZZ4" }
        ∷ [])
unfolding expand split_list split_entry collect split to_ascii_uppercase trim pair_target split_pair
    split_once is_empty
pairs_listed = refl
