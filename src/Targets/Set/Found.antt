-- ===== src/Targets/Set/Found.antt =====
-- What the display-string matcher finds.
use falcon_vanity_generator.Base.{
  ℕ, zero, suc, ◌+◌, true, false, ◌&&◌, none, some, List, [], ◌∷◌, get_elem?, ◌≡◌, sym, ap, ◌∙◌,
  inl, inr, arith, Bool-cases,
}
use falcon_vanity_generator.Targets.{Target, matches_display}
use falcon_vanity_generator.Targets.Set.{
  TargetSet, is_active, first_match_display, first_match_display_from,
}

-- Target `i` of the list is active and its pattern is on the display string.
pub record Matches (s : TargetSet) (display : List ℕ) (i : ℕ) : Type 0 where
  pub target : Target
  pub listed : get_elem? s.list i ≡ some target
  pub active : is_active s i ≡ true
  pub shown : matches_display target display ≡ true

module _ (s : TargetSet) (display : List ℕ) where
  -- An index of what is left of the list, as an index of the list.
  abbrev Suffix : List Target → ℕ → Type 0
  Suffix ts i = (k : ℕ) → get_elem? ts k ≡ get_elem? s.list (i + k)

  Suffix-tail : (t : Target) (ts : List Target) (i : ℕ) → Suffix (t ∷ ts) i → Suffix ts (i + 1)
  Suffix-tail t ts i h k = h (suc k) ∙ ap (get_elem? s.list) (omega arith)

  found_from :
      (ts : List Target) (i j : ℕ)
      → Suffix ts i
      → first_match_display_from s display ts i ≡ some j
      → Matches s display j
  unfolding first_match_display_from
  found_from [] i j h e = cc
  found_from (t ∷ ts) i j h e = elim (Bool-cases (is_active s i && matches_display t display)) [
    | inl hit ↦
        let same : i ≡ j = (let q = rw hit at e in cc) in
        record {
          target = t;
          listed = ap (get_elem? s.list) (omega arith) ∙ sym (h 0);
          active = ground arith;
          shown = ground arith;
        }
    | inr miss ↦ found_from ts (i + 1) j (Suffix-tail t ts i h) (rw miss at e)
  ]

  -- A target that the matcher returns is in the list, active, and on the display string.
  pub first_match_display-Matches :
      (j : ℕ) → first_match_display s display ≡ some j → Matches s display j
  unfolding first_match_display
  first_match_display-Matches j e =
      found_from s.list 0 j (λ k. ap (get_elem? s.list) (omega arith)) e

  missed_from :
      (ts : List Target) (i : ℕ)
      → first_match_display_from s display ts i ≡ none
      → (k : ℕ) (t : Target) → get_elem? ts k ≡ some t
      → (is_active s (i + k) && matches_display t display) ≡ false
  unfolding first_match_display_from
  missed_from [] i e k t h = cc
  missed_from (u ∷ us) i e k t h = elim (Bool-cases (is_active s i && matches_display u display)) [
    | inl hit ↦ (let q = rw hit at e in cc)
    | inr miss ↦ at_index k h miss (missed_from us (i + 1) (rw miss at e))
  ]
    where
      at_index :
          (k : ℕ)
          → get_elem? (u ∷ us) k ≡ some t
          → (is_active s i && matches_display u display) ≡ false
          → ((k : ℕ) (t : Target)
              → get_elem? us k ≡ some t
              → (is_active s (i + 1 + k) && matches_display t display) ≡ false)
          → (is_active s (i + k) && matches_display t display) ≡ false
      at_index zero h miss rest =
          let same : u ≡ t = cc in rw (let q : i + 0 ≡ i = omega arith in q, ← same) miss
      at_index (suc k) h miss rest =
          rw (let q : i + 1 + k ≡ i + suc k = omega arith in q) at (rest k t h)

  -- If the matcher returns nothing, no active target is on the display string.
  pub first_match_display-none :
      first_match_display s display ≡ none
      → (k : ℕ) (t : Target) → get_elem? s.list k ≡ some t
      → (is_active s k && matches_display t display) ≡ false
  unfolding first_match_display
  first_match_display-none e k t h =
      rw (let q : 0 + k ≡ k = omega arith in q) at (missed_from s.list 0 e k t h)
