-- ===== src/Text/Words.antt =====
-- `split_whitespace` and `char::is_whitespace` of Rust's standard library, on lists of characters.
use falcon_vanity_generator.Base.{
  ℕ, Bool, true, false, not, ◌&&◌, List, [], ◌∷◌, ◌++◌, ◌≡◌, refl, arith, if◌then◌else◌,
}
use falcon_vanity_generator.Text.{is_whitespace}

-- The pieces between whitespace characters, one more than there are such characters.
unfoldable pub pieces : List ℕ → List (List ℕ)
pieces [] = [] ∷ []
pieces (c ∷ cs) =
    let rest = pieces cs in
    if is_whitespace c then [] ∷ rest else elim rest [ [] ↦ (c ∷ []) ∷ [] | p ∷ ps ↦ (c ∷ p) ∷ ps ]

unfoldable pub non_empty : List (List ℕ) → List (List ℕ)
non_empty [] = []
non_empty ([] ∷ ps) = non_empty ps
non_empty ((c ∷ cs) ∷ ps) = (c ∷ cs) ∷ non_empty ps

unfoldable pub split_whitespace : List ℕ → List (List ℕ)
split_whitespace s = non_empty (pieces s)

-- A word: at least one character, none of them whitespace.
unfoldable pub no_whitespace : List ℕ → Bool
no_whitespace [] = true
no_whitespace (c ∷ cs) = not (is_whitespace c) && no_whitespace cs

unfoldable pub is_word : List ℕ → Bool
is_word [] = false
is_word (c ∷ cs) = no_whitespace (c ∷ cs)

pieces-append_space :
    (w s : List ℕ) → no_whitespace w ≡ true → pieces (w ++ b' ' ∷ s) ≡ w ∷ pieces s
unfolding pieces no_whitespace
pieces-append_space [] s h = unfold is_whitespace in refl
pieces-append_space (c ∷ cs) s h =
    let other : is_whitespace c ≡ false = ground arith in
    let rest : no_whitespace cs ≡ true = ground arith in
    rw (other, pieces-append_space cs s rest) refl

pieces-word : (w : List ℕ) → no_whitespace w ≡ true → pieces w ≡ w ∷ []
unfolding pieces no_whitespace
pieces-word [] h = refl
pieces-word (c ∷ cs) h =
    let other : is_whitespace c ≡ false = ground arith in
    let rest : no_whitespace cs ≡ true = ground arith in rw (other, pieces-word cs rest) refl

pub split_whitespace-append_space :
    (w s : List ℕ) → is_word w ≡ true → split_whitespace (w ++ b' ' ∷ s) ≡ w ∷ split_whitespace s
unfolding split_whitespace is_word non_empty
split_whitespace-append_space [] s h = cc
split_whitespace-append_space (c ∷ cs) s h = rw (pieces-append_space (c ∷ cs) s h) refl

pub split_whitespace-word : (w : List ℕ) → is_word w ≡ true → split_whitespace w ≡ w ∷ []
unfolding split_whitespace is_word non_empty
split_whitespace-word [] h = cc
split_whitespace-word (c ∷ cs) h = rw (pieces-word (c ∷ cs) h) refl
