-- ===== src/Mnemonic/Words.antt =====
-- The word list of crates/pq-core/src/mnemonic.rs, its order, and the indices of its words.
use falcon_vanity_generator.Base.{
  get_elem?-below, ℕ, zero, suc, ◌<◌, Bool, true, false, ◌&&◌, ◌||◌, Option, none, some, List, [],
  ◌∷◌, length, get_elem?, ◌≡◌, refl, ap, inl, inr, arith, ltb, ◌==◌, if◌then◌else◌, Bool-cases,
  Option-cases, ◌>>=◌, list_eq, list_eq_iff,
}
use falcon_vanity_generator.Text.{is_whitespace}
use falcon_vanity_generator.Text.Words.{split_whitespace, pieces, non_empty, is_word, no_whitespace}
use falcon_vanity_generator.Mnemonic.Wordlist.{wordlist_raw}

-- `WORDLIST_RAW.split_whitespace().collect()`
unfoldable pub wordlist : List (List ℕ)
wordlist = split_whitespace wordlist_raw

-- `iter().position(|x| x == w)`
unfoldable pub position : List (List ℕ) → List ℕ → Option ℕ
position [] w = none
position (x ∷ xs) w =
    let rest = position xs w >>= λ i. some (suc i) in if list_eq x w then some 0 else rest

unfoldable pub text_ltb : List ℕ → List ℕ → Bool
text_ltb xs [] = false
text_ltb [] (y ∷ ys) = true
text_ltb (x ∷ xs) (y ∷ ys) = ltb x y || (x == y && text_ltb xs ys)

-- All of them words, and each before the next.
unfoldable pub ascending_from : List ℕ → List (List ℕ) → Bool
ascending_from w [] = true
ascending_from w (v ∷ vs) = (is_word v && text_ltb w v) && ascending_from v vs

wordlist_ascends : ascending_from [] wordlist ≡ true
unfolding ascending_from text_ltb is_word no_whitespace is_whitespace wordlist wordlist_raw
    split_whitespace pieces non_empty
wordlist_ascends = refl

-- The assertion of `wordlist()`.
pub length-wordlist : length wordlist ≡ 2048
unfolding is_whitespace wordlist wordlist_raw split_whitespace pieces non_empty
length-wordlist = refl

text_ltb_trans : (u v w : List ℕ) → text_ltb u v ≡ true → text_ltb v w ≡ true → text_ltb u w ≡ true
unfolding text_ltb
text_ltb_trans u [] w h k = cc
text_ltb_trans u (y ∷ ys) [] h k = cc
text_ltb_trans [] (y ∷ ys) (z ∷ zs) h k = refl
text_ltb_trans (x ∷ xs) (y ∷ ys) (z ∷ zs) h k = ground (arith, text_ltb_trans xs ys zs)

text_ltb_irrefl : (w : List ℕ) → text_ltb w w ≡ false
unfolding text_ltb
text_ltb_irrefl [] = refl
text_ltb_irrefl (x ∷ xs) = ground (arith, text_ltb_irrefl xs)

-- In an ascending list everything stands after the bound, and is a word.
ascending-get :
    (ws : List (List ℕ)) (b w : List ℕ) (i : ℕ)
    → ascending_from b ws ≡ true
    → get_elem? ws i ≡ some w
    → (text_ltb b w ≡ true) × (is_word w ≡ true)
unfolding ascending_from
ascending-get [] b w i h e = cc
ascending-get (v ∷ vs) b w zero h e =
    let q : v ≡ w = cc in
    let after : text_ltb b v ≡ true = ground arith in
    let word : is_word v ≡ true = ground arith in (rw q at after, rw q at word)
ascending-get (v ∷ vs) b w (suc i) h e =
    let (after, word) = ascending-get vs v w i (ground arith) e in
    (text_ltb_trans b v w (ground arith) after, word)

ascending-position :
    (ws : List (List ℕ)) (b w : List ℕ) (i : ℕ)
    → ascending_from b ws ≡ true
    → get_elem? ws i ≡ some w
    → position ws w ≡ some i
unfolding ascending_from position
ascending-position [] b w i h e = cc
ascending-position (v ∷ vs) b w zero h e = let q : v ≡ w = cc in rw ((list_eq_iff v w).1 q) refl
ascending-position (v ∷ vs) b w (suc i) h e = elim (Bool-cases (list_eq v w)) [
  | inl same ↦
      let after = ascending-get vs v w i (ground arith) e in
      let q = (list_eq_iff v w).0 same in cc (text_ltb_irrefl w, after.0, q)
  | inr other ↦ rw (other, ascending-position vs v w i (ground arith) e) refl
]

-- A word of the list is found at its index, and nowhere else.
pub position-get :
    (w : List ℕ) (i : ℕ) → get_elem? wordlist i ≡ some w → position wordlist w ≡ some i
position-get w i e = ascending-position wordlist [] w i wordlist_ascends e

pub get_elem?-is_word : (w : List ℕ) (i : ℕ) → get_elem? wordlist i ≡ some w → is_word w ≡ true
get_elem?-is_word w i e = (ascending-get wordlist [] w i wordlist_ascends e).1

pub get_elem?-position :
    (ws : List (List ℕ)) (w : List ℕ) (i : ℕ)
    → position ws w ≡ some i
    → (get_elem? ws i ≡ some w) × (i < length ws)
unfolding position
get_elem?-position [] w i e = cc
get_elem?-position (v ∷ vs) w i e = elim (Bool-cases (list_eq v w)) [
  | inl same ↦
      (let q = rw same at e in
        let z : 0 ≡ i = cc in
        let v_w = (list_eq_iff v w).0 same in rw (← z) (ap some v_w, omega arith))
  | inr other ↦ elim (Option-cases (position vs w)) [
    | inl none_left ↦ (let q = rw (other, none_left) at e in cc)
    | inr (j, found) ↦
        let q = rw (other, found) at e in
        let z : suc j ≡ i = cc in
        let (g, lt) = get_elem?-position vs w j found in rw (← z) (g, omega arith)
  ]
]

-- Every value below 2048 has a word.
pub wordlist_get : (v : ℕ) → v < 2048 → (w : List ℕ) × (get_elem? wordlist v ≡ some w)
wordlist_get v lt = get_elem?-below wordlist v (rw length-wordlist lt)
