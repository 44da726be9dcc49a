-- ===== src/Targets/Parse/Accepts.antt =====
-- What `TargetSet::parse` accepts: its checks, its deduplication and the set it builds.
use falcon_vanity_generator.Base.{
  ℕ, ◌≤◌, Bool, true, false, not, ◌&&◌, ◌||◌, Option, List, [], ◌∷◌, ◌++◌, length, replicate, All,
  ◌≡◌, refl, sym, ap, ◌∙◌, ◌↔◌, inl, inr, arith, ltb, leb, ◌==◌, Bool-cases, length-replicate,
  All-append, list_eq_iff,
}
use mathlib.Core.Path.{subst}
use native.Mathlib.Nat.{le_refl}
use falcon_vanity_generator.Base.Results.{ok, err, Result-cases, bind-eq-ok}
use falcon_vanity_generator.Targets.{Target, IsTarget, InAlphabet, ends_well, max_targets}
use falcon_vanity_generator.Targets.Set.{TargetSet, IsTargetSet}
use falcon_vanity_generator.Targets.Parse.Longest.{longest_prefix-le, longest_prefix-reached}
use falcon_vanity_generator.Targets.Parse.{
  ParseError, is_empty, check_chars, check_last, check_target, target_eq, contains, dedup_loop,
  longest_prefix, finish, expand, parse,
}

check_chars_iff : (s : List ℕ) → (check_chars s ≡ ok tt) ↔ All InAlphabet s
unfolding check_chars
check_chars_iff [] = (λ h. tt, λ h. refl)
check_chars_iff (c ∷ cs) = ground (arith, check_chars_iff cs)

check_last_iff : (s : List ℕ) → (check_last s ≡ ok tt) ↔ (ends_well s ≡ true)
unfolding check_last ends_well
check_last_iff s = ground arith

is_empty-length : (s : List ℕ) → is_empty s ≡ (length s == 0)
unfolding is_empty
is_empty-length [] = refl
is_empty-length (c ∷ cs) = ground arith

-- The checks of the loop accept exactly the targets that `IsTarget` describes.
check_target-IsTarget : (t : Target) → check_target t ≡ ok tt → IsTarget t
unfolding check_target
check_target-IsTarget t h = record {
  prefix_chars = (check_chars_iff t.prefix).0 (ground arith);
  suffix_chars = (check_chars_iff t.suffix).0 (ground arith);
  suffix_ends = (check_last_iff t.suffix).0 (ground arith);
  some_pattern = ground (arith, is_empty-length t.prefix, is_empty-length t.suffix);
  within_display = ground arith;
}

IsTarget-check_target : (t : Target) → IsTarget t → check_target t ≡ ok tt
unfolding check_target
IsTarget-check_target t good = ground (
  arith,
  (check_chars_iff t.prefix).1 good.prefix_chars,
  (check_chars_iff t.suffix).1 good.suffix_chars,
  (check_last_iff t.suffix).1 good.suffix_ends,
  is_empty-length t.prefix,
  is_empty-length t.suffix,
  good.some_pattern,
  good.within_display,
)

pub check_target_iff : (t : Target) → (check_target t ≡ ok tt) ↔ IsTarget t
check_target_iff t = (check_target-IsTarget t, IsTarget-check_target t)

pub target_eq_iff : (t u : Target) → (target_eq t u ≡ true) ↔ (t ≡ u)
unfolding target_eq
target_eq_iff t u = ground (arith, list_eq_iff t.prefix u.prefix, list_eq_iff t.suffix u.suffix)

-- No target stands twice.
abbrev pub Distinct : List Target → Type 0
Distinct [] = Unit
Distinct (t ∷ ts) = (contains ts t ≡ false) × Distinct ts

pub contains-append :
    (xs ys : List Target) (t : Target) → contains (xs ++ ys) t ≡ (contains xs t || contains ys t)
unfolding contains
contains-append [] ys t = refl
contains-append (x ∷ xs) ys t = ground (arith, contains-append xs ys t)

Distinct-append_one :
    (xs : List Target) (t : Target) → Distinct xs → contains xs t ≡ false → Distinct (xs ++ t ∷ [])
unfolding contains
Distinct-append_one [] t h no_t = (refl, tt)
Distinct-append_one (x ∷ xs) t h no_t = (
  ground (arith, contains-append xs (t ∷ []) x, target_eq_iff t x, target_eq_iff x t, h.0),
  Distinct-append_one xs t h.1 (ground arith),
)

-- The loop keeps what it had, keeps the elements apart, and adds exactly the accepted targets.
record Deduped (dedup list out : List Target) : Type 0 where
  distinct : Distinct out
  valid : All IsTarget out
  same : (t : Target) → contains out t ≡ (contains dedup t || contains list t)

module _ (dedup ts : List Target) (t : Target) where
  dedup_loop_old :
      check_target t ≡ ok tt
      → contains dedup t ≡ true
      → dedup_loop dedup (t ∷ ts) ≡ dedup_loop dedup ts
  unfolding dedup_loop
  dedup_loop_old passed old = rw (passed, old)

  dedup_loop_new :
      check_target t ≡ ok tt
      → contains dedup t ≡ false
      → dedup_loop dedup (t ∷ ts) ≡ dedup_loop (dedup ++ t ∷ []) ts
  unfolding dedup_loop
  dedup_loop_new passed new = rw (passed, new)

  dedup_loop_bad : (x : ParseError) → check_target t ≡ err x → dedup_loop dedup (t ∷ ts) ≡ err x
  unfolding dedup_loop
  dedup_loop_bad x failed = rw failed

dedup_loop-Deduped :
    (list dedup out : List Target)
    → Distinct dedup
    → All IsTarget dedup
    → dedup_loop dedup list ≡ ok out
    → Deduped dedup list out
unfolding contains
dedup_loop-Deduped [] dedup out d v e =
    let q : dedup ≡ out = unfold dedup_loop in cc in
    record {
      distinct = subst Distinct q d;
      valid = subst (All IsTarget) q v;
      same = λ t. ground (arith, ap (λ l. contains l t) q);
    }
dedup_loop-Deduped (t ∷ ts) dedup out d v e = elim (Result-cases (check_target t)) [
  | inl (_, passed) ↦ elim (Bool-cases (contains dedup t)) [
    | inl old ↦
        let r =
          dedup_loop-Deduped ts dedup out d v (sym (dedup_loop_old dedup ts t passed old) ∙ e) in
        record {
          distinct = r.distinct;
          valid = r.valid;
          same = λ u. ground (arith, r.same u, target_eq_iff t u);
        }
    | inr new ↦
        let r =
          dedup_loop-Deduped ts (dedup ++ t ∷ []) out (Distinct-append_one dedup t d new)
            (All-append IsTarget dedup (t ∷ []) v ((check_target_iff t).0 passed, tt))
            (sym (dedup_loop_new dedup ts t passed new) ∙ e) in
        record {
          distinct = r.distinct;
          valid = r.valid;
          same = λ u. ground (arith, r.same u, contains-append dedup (t ∷ []) u);
        }
  ]
  | inr (x, failed) ↦ cc (dedup_loop_bad dedup ts t x failed)
]

-- A set that `parse` returned, against the list that it was expanded from. `set` bounds the prefixes by
-- `max_prefix`, and `longest` is a target that reaches it.
pub record IsParsed (list : List Target) (keep_found : Bool) (s : TargetSet) : Type 0 where
  pub set : IsTargetSet s
  pub longest : (t : Target) × (contains s.list t ≡ true) × (length t.prefix ≡ s.max_prefix)
  pub distinct : Distinct s.list
  pub same : (t : Target) → contains s.list t ≡ contains list t
  pub all_active : s.active ≡ replicate (length s.list) true
  pub retire : s.retire ≡ (ltb 1 (length s.list) && not keep_found)

abbrev pub built : Bool → List Target → TargetSet
built keep_found dedup = record {
  list = dedup;
  active = replicate (length dedup) true;
  retire = ltb 1 (length dedup) && not keep_found;
  max_prefix = longest_prefix dedup;
}

finish-eq-ok :
    (keep_found : Bool) (dedup : List Target) (s : TargetSet)
    → finish keep_found dedup ≡ ok s
    → (built keep_found dedup ≡ s) × (1 ≤ length dedup) × (length dedup ≤ max_targets)
unfolding finish
finish-eq-ok keep_found dedup s e = elim (Bool-cases (ltb 0 (length dedup))) [
  | inl many ↦ elim (Bool-cases (leb (length dedup) max_targets)) [
    | inl few ↦ let h = rw (many, few) at e in (cc, ground arith, ground arith)
    | inr too_many ↦ let h = rw (many, too_many) at e in cc
  ]
  | inr empty ↦ let h = rw empty at e in cc
]

finish-IsParsed :
    (list dedup : List Target) (keep_found : Bool) (s : TargetSet)
    → Deduped [] list dedup
    → finish keep_found dedup ≡ ok s
    → IsParsed list keep_found s
unfolding finish
finish-IsParsed list dedup keep_found s r e =
    let (q, some_target, room) = finish-eq-ok keep_found dedup s e in
    subst (IsParsed list keep_found) q (record {
      set = record {
        targets = r.valid;
        prefixes = longest_prefix-le dedup (longest_prefix dedup) (le_refl _);
        flags = length-replicate (length dedup) true;
        some_target = some_target;
        room = room;
      };
      longest = longest_prefix-reached dedup some_target;
      distinct = r.distinct;
      same = λ t. unfold contains in r.same t;
      all_active = refl;
      retire = refl;
    })

-- `parse` succeeds only with a well-formed set: every target passes the checks (characters of the
-- alphabet, a suffix that ends in one of AEIMQUY4, some pattern, at most 58 characters), none stands
-- twice, they are the targets of the expanded options, `max_prefix` is the length of the longest prefix
-- among them, all are active, and they are retired after a hit exactly if there is more than one and
-- `--keep-found` is not given.
pub parse-IsParsed :
    (prefix suffix pattern : Option (List ℕ)) (keep_found : Bool) (s : TargetSet)
    → parse prefix suffix pattern keep_found ≡ ok s
    → (list : List Target) × (expand prefix suffix pattern ≡ ok list) × IsParsed list keep_found s
unfolding parse
parse-IsParsed prefix suffix pattern keep_found s e =
    let (list, expanded, rest) = bind-eq-ok (expand prefix suffix pattern) _ s e in
    let (dedup, kept, finished) = bind-eq-ok (dedup_loop [] list) (finish keep_found) s rest in
    (
      list,
      expanded,
      finish-IsParsed list dedup keep_found s (dedup_loop-Deduped list [] dedup tt tt kept)
          finished,
    )
