-- ===== src/Targets/Parse/Expand.antt =====
-- How the options become a list of targets, and when `parse` succeeds.
use falcon_vanity_generator.Base.{
  ℕ, ◌+◌, ◌≤◌, Bool, true, false, ◌&&◌, ◌||◌, Option, none, List, [], ◌∷◌, ◌++◌, length, All, ◌≡◌,
  refl, sym, ap, ◌∙◌, inl, inr, arith, ltb, leb, if◌then◌else◌, Bool-cases, length-append, list_eq,
}
use mathlib.Core.Path.{subst}
use falcon_vanity_generator.Base.Results.{ok, err, Result-cases, bind-eq-ok}
use falcon_vanity_generator.Targets.{Target, IsTarget, max_targets}
use falcon_vanity_generator.Targets.Set.{TargetSet}
use falcon_vanity_generator.Targets.Parse.{
  ParseError, split_option, with_suffixes, product, expand, check_target, target_eq, contains,
  dedup_loop, finish, parse,
}
use falcon_vanity_generator.Targets.Parse.Accepts.{
  built, check_target_iff, target_eq_iff, contains-append,
}

unfoldable pub mem : List (List ℕ) → List ℕ → Bool
mem [] s = false
mem (p ∷ ps) s = list_eq p s || mem ps s

contains-with_suffixes :
    (p : List ℕ) (ss : List (List ℕ)) (t : Target)
    → contains (with_suffixes p ss) t ≡ (list_eq p t.prefix && mem ss t.suffix)
unfolding with_suffixes contains mem target_eq
contains-with_suffixes p [] t = ground arith
contains-with_suffixes p (s ∷ ss) t = ground (arith, contains-with_suffixes p ss t)

contains-product :
    (ps ss : List (List ℕ)) (t : Target)
    → contains (product ps ss) t ≡ (mem ps t.prefix && mem ss t.suffix)
unfolding product mem contains
contains-product [] ss t = refl
contains-product (p ∷ ps) ss t = ground (
  arith,
  contains-append (with_suffixes p ss) (product ps ss) t,
  contains-with_suffixes p ss t,
  contains-product ps ss t,
)

-- Without `--pattern` the targets are all combinations of a listed prefix and a listed suffix,
-- where an option that is not given lists the empty text alone.
pub expand-product :
    (prefix suffix : Option (List ℕ)) (list : List Target)
    → expand prefix suffix none ≡ ok list
    → (ps ss : List (List ℕ)) × (split_option prefix ≡ ok ps)
      × (split_option suffix ≡ ok ss)
      × ((t : Target) → contains list t ≡ (mem ps t.prefix && mem ss t.suffix))
unfolding expand
expand-product prefix suffix list e =
    let (ps, eps, rest) = bind-eq-ok (split_option prefix) _ list e in
    let (ss, ess, done) = bind-eq-ok (split_option suffix) _ list rest in
    let q : product ps ss ≡ list = cc in
    (ps, ss, eps, ess, λ t. ap (λ l. contains l t) (sym q) ∙ contains-product ps ss t)

-- The loop on targets that pass, and on one that does not.
dedup_loop_passes :
    (list dedup : List Target)
    → All IsTarget list
    → (out : List Target) × (dedup_loop dedup list ≡ ok out)
      × (length dedup ≤ length out)
      × (length out ≤ length dedup + length list)
unfolding dedup_loop
dedup_loop_passes [] dedup h = (dedup, refl, omega arith, omega arith)
dedup_loop_passes (t ∷ ts) dedup h =
    let kept : List Target = if contains dedup t then dedup else dedup ++ t ∷ [] in
    let (out, e, lo, hi) = dedup_loop_passes ts kept h.1 in
    let (more, few) = kept_length in
    (out, rw ((check_target_iff t).1 h.0) e, omega (arith, more), omega (arith, few))
  where
    kept_length :
        let kept : List Target = if contains dedup t then dedup else dedup ++ t ∷ [] in
        (length dedup ≤ length kept) × (length kept ≤ length dedup + 1)
    kept_length = elim (Bool-cases (contains dedup t)) [
      | inl old ↦ rw old (omega arith)
      | inr new ↦ rw new (omega (arith, length-append dedup (t ∷ [])))
    ]

dedup_loop_fails :
    (list dedup : List Target) (t : Target)
    → contains list t ≡ true
    → ¬ IsTarget t
    → (x : ParseError) × (dedup_loop dedup list ≡ err x)
unfolding dedup_loop contains
dedup_loop_fails [] dedup t h bad = cc
dedup_loop_fails (u ∷ us) dedup t h bad = elim (Result-cases (check_target u)) [
  | inl (_, passed) ↦ elim (Bool-cases (contains us t)) [
    | inl later ↦
        let (x, e) =
          dedup_loop_fails us (if contains dedup u then dedup else dedup ++ u ∷ []) t later bad in
        (x, rw passed e)
    | inr not_later ↦
        let same : u ≡ t = (target_eq_iff u t).0 (ground arith) in
        absurd (bad (subst IsTarget same ((check_target_iff u).0 passed)))
  ]
  | inr (x, failed) ↦ (x, rw failed)
]

-- Options that expand to at least one and at most 1024 targets, each with characters of the alphabet
-- only, a suffix that is empty or ends in one of AEIMQUY4, some pattern, and at most 58 characters in
-- all, are accepted.
pub parse_accepts :
    (prefix suffix pattern : Option (List ℕ)) (keep_found : Bool) (list : List Target)
    → expand prefix suffix pattern ≡ ok list
    → All IsTarget list
    → 1 ≤ length list
    → length list ≤ max_targets
    → (s : TargetSet) × (parse prefix suffix pattern keep_found ≡ ok s)
unfolding parse finish
parse_accepts prefix suffix pattern keep_found [] e good pos few = absurd (omega arith)
parse_accepts prefix suffix pattern keep_found (t ∷ ts) e good pos few =
    let (out, eo, lo, hi) = dedup_loop_passes ts (t ∷ []) good.1 in
    let first : dedup_loop [] (t ∷ ts) ≡ ok out =
      unfold dedup_loop contains in rw ((check_target_iff t).1 good.0) eo in
    let enough : ltb 0 (length out) ≡ true = ground arith in
    let fits : leb (length out) max_targets ≡ true = ground arith in
    (built keep_found out, rw (e, first, enough, fits))

-- Options that expand to a list with a target that has another character, or a suffix that ends in
-- another one, or no pattern, or more than 58 characters in all, are refused.
pub parse_rejects :
    (prefix suffix pattern : Option (List ℕ)) (keep_found : Bool) (list : List Target) (t : Target)
    → expand prefix suffix pattern ≡ ok list
    → contains list t ≡ true
    → ¬ IsTarget t
    → (x : ParseError) × (parse prefix suffix pattern keep_found ≡ err x)
unfolding parse
parse_rejects prefix suffix pattern keep_found list t e h bad =
    let (x, failed) = dedup_loop_fails list [] t h bad in (x, rw (e, failed))
