-- ===== src/Text/Trims.antt =====
-- `trim` and the characters of a text.
use falcon_vanity_generator.Base.{
  ℕ, true, false, List, [], ◌∷◌, All, ◌≡◌, refl, inl, inr, arith, if◌then◌else◌, Bool-cases,
}
use falcon_vanity_generator.Text.{is_whitespace, trim_start, trim_end, trim}
use falcon_vanity_generator.Text.Words.{no_whitespace}

trim_end-no_whitespace : (s : List ℕ) → no_whitespace s ≡ true → trim_end s ≡ s
unfolding trim_end no_whitespace
trim_end-no_whitespace [] h = refl
trim_end-no_whitespace (c ∷ []) h = let e : is_whitespace c ≡ false = ground arith in rw e refl
trim_end-no_whitespace (c ∷ d ∷ cs) h = rw (trim_end-no_whitespace (d ∷ cs) (ground arith)) refl

pub trim-no_whitespace : (s : List ℕ) → no_whitespace s ≡ true → trim s ≡ s
unfolding trim trim_start no_whitespace
trim-no_whitespace [] h = trim_end-no_whitespace [] h
trim-no_whitespace (c ∷ cs) h =
    let e : is_whitespace c ≡ false = ground arith in rw e (trim_end-no_whitespace (c ∷ cs) h)

All-trim_start : (P : ℕ → Type 0) (s : List ℕ) → All P s → All P (trim_start s)
unfolding trim_start
All-trim_start P [] h = tt
All-trim_start P (c ∷ cs) h = elim (Bool-cases (is_whitespace c)) [
  | inl space ↦ rw space (All-trim_start P cs h.1)
  | inr other ↦ rw other h
]

All-trim_end : (P : ℕ → Type 0) (s : List ℕ) → All P s → All P (trim_end s)
unfolding trim_end
All-trim_end P [] h = tt
All-trim_end P (c ∷ cs) h = go (trim_end cs) (All-trim_end P cs h.1)
  where
    go :
        (r : List ℕ)
        → All P r
        → All P (elim r [ [] ↦ if is_whitespace c then [] else c ∷ [] | d ∷ ds ↦ c ∷ d ∷ ds ])
    go (d ∷ ds) q = (h.0, q)
    go [] q = elim (Bool-cases (is_whitespace c)) [
      | inl space ↦ rw space tt
      | inr other ↦ rw other (h.0, tt)
    ]

-- What holds of every character holds of those that are left.
pub All-trim : (P : ℕ → Type 0) (s : List ℕ) → All P s → All P (trim s)
unfolding trim
All-trim P s h = All-trim_end P (trim_start s) (All-trim_start P s h)
