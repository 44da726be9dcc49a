-- ===== src/Base32/Chars.antt =====
-- The alphabet as a bijection between its characters and the values below 32.
use falcon_vanity_generator.Base.{
  sym, ◌∙◌, ◌≤◌, ◌+◌, ℕ, zero, suc, ◌<◌, Bool, true, false, ◌&&◌, Option, none, some, List, [], ◌∷◌,
  map, length, All, ◌==◌, ◌≡◌, refl, ap, arith, get_elem?, get_or-get_elem?, Option-cases, inl, inr,
}
use native.Mathlib.Decide.{ℕ_discrete}
use falcon_vanity_generator.Base32.{base32_alphabet, find, char_of}

-- A test of every number of a range: `left` of them from `start` on.
unfoldable pub holds_from : ℕ → ℕ → (ℕ → Bool) → Bool
holds_from start zero test = true
holds_from start (suc left) test = test start && holds_from (suc start) left test

pub holds_from_lem :
    (left start i : ℕ) (test : ℕ → Bool)
    → start ≤ i
    → i < start + left
    → holds_from start left test ≡ true
    → test i ≡ true
unfolding holds_from
holds_from_lem zero start i test lo hi e = absurd (omega arith)
holds_from_lem (suc left) start i test lo hi e = elim (ℕ_discrete start i) [
  | yes here ↦ ap test (sym here) ∙ ground arith
  | no later ↦ holds_from_lem left (suc start) i test (omega arith) (omega arith) (ground arith)
]

found_at : ℕ → Option ℕ → Bool
found_at i none = false
found_at i (some j) = i == j

found_at_sound : (i : ℕ) (o : Option ℕ) → found_at i o ≡ true → o ≡ some i
unfolding found_at
found_at_sound i none h = cc
found_at_sound i (some j) h = ground arith

find_table : holds_from 0 32 (λ i. found_at i (find base32_alphabet (char_of i))) ≡ true
unfolding holds_from found_at find char_of
find_table = refl

-- The character of a value below 32 is found at that value.
pub find-char_of : (i : ℕ) → i < 32 → find base32_alphabet (char_of i) ≡ some i
find-char_of i h = found_at_sound i _ (holds_from_lem 32 0 i _ (omega arith) h find_table)

-- A character is found only where it stands.
pub get_elem?-find :
    (xs : List ℕ) (c i : ℕ) → find xs c ≡ some i → (get_elem? xs i ≡ some c) × (i < length xs)
unfolding find
get_elem?-find [] c i h = cc
get_elem?-find (x ∷ xs) c i h = elim (Option-cases (find xs c)) [
  | inl e ↦ ground arith
  | inr (j, e) ↦ ground (arith, get_elem?-find xs c j e)
]

-- The value of a character of the alphabet, and the character of that value.
pub char_of-find : (c i : ℕ) → find base32_alphabet c ≡ some i → (char_of i ≡ c) × (i < 32)
unfolding char_of
char_of-find c i h =
    let (there, below) = get_elem?-find base32_alphabet c i h in
    (get_or-get_elem? base32_alphabet i c 0 there, below)

pub char_of-injective : (i j : ℕ) → i < 32 → j < 32 → char_of i ≡ char_of j → i ≡ j
char_of-injective i j hi hj e =
    cc (find-char_of i hi, find-char_of j hj, ap (find base32_alphabet) e)

pub map-char_of-injective :
    (xs ys : List ℕ)
    → All (λ g. g < 32) xs
    → All (λ g. g < 32) ys
    → map char_of xs ≡ map char_of ys
    → xs ≡ ys
map-char_of-injective [] [] hx hy e = refl
map-char_of-injective [] (y ∷ ys) hx hy e = cc
map-char_of-injective (x ∷ xs) [] hx hy e = cc
map-char_of-injective (x ∷ xs) (y ∷ ys) hx hy e =
    ground (arith, char_of-injective x y, map-char_of-injective xs ys)
