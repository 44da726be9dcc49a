-- ===== src/Mnemonic/Codec/Indices.antt =====
-- The indices of words.
use falcon_vanity_generator.Base.{
  ℕ, suc, ◌<◌, some, List, [], ◌∷◌, length, get_elem?, All, ◌≡◌, refl, sym, ap, ap₂, ◌∙◌, inl, inr,
  Option-cases, some_inj,
}
use mathlib.Core.Path.{subst}
use falcon_vanity_generator.Base.Results.{ok, bind, collect, bind-eq-ok}
use falcon_vanity_generator.Mnemonic.Words.{wordlist, position, get_elem?-position, length-wordlist}
use falcon_vanity_generator.Mnemonic.Codec.{word_index}

word_index-ok :
    (w : List ℕ) (v : ℕ) → word_index w ≡ ok v → (get_elem? wordlist v ≡ some w) × (v < 2048)
unfolding word_index
word_index-ok w v h = elim (Option-cases (position wordlist w)) [
  | inl e ↦ (let q = rw (e, word_index) at h in cc)
  | inr (i, e) ↦
      let q = rw (e, word_index) at h in
      let z : i ≡ v = cc in
      let (at, lt) = get_elem?-position wordlist w i e in
      let both : (get_elem? wordlist i ≡ some w) × (i < 2048) = (at, rw length-wordlist at lt) in
      rw z at both
]

collect-cons :
    (w : List ℕ) (ws : List (List ℕ)) (vs : List ℕ)
    → collect word_index (w ∷ ws) ≡ ok vs
    → (v : ℕ) × (us : List ℕ) × (word_index w ≡ ok v)
      × (collect word_index ws ≡ ok us)
      × (v ∷ us ≡ vs)
unfolding collect
collect-cons w ws vs h =
    let (v, found, more) =
      bind-eq-ok (word_index w) (λ y. bind (collect word_index ws) (λ ys. ok (y ∷ ys))) vs h in
    let (us, rest, last) = bind-eq-ok (collect word_index ws) (λ ys. ok (v ∷ ys)) vs more in
    (v, us, found, rest, cc)

-- The indices of words: below 2048, and as many as the words.
pub collect-below :
    (ws : List (List ℕ)) (vs : List ℕ)
    → collect word_index ws ≡ ok vs
    → All (λ v. v < 2048) vs × (length vs ≡ length ws)
unfolding collect
collect-below [] vs h =
    let z : [] ≡ vs = cc in subst (λ vs. All (λ v. v < 2048) vs × (length vs ≡ 0)) z (tt, refl)
collect-below (w ∷ ws) vs h =
    let (v, us, found, rest, z) = collect-cons w ws vs h in
    let (below, count) = collect-below ws us rest in
    subst (λ vs. All (λ v. v < 2048) vs × (length vs ≡ suc (length ws))) z
      (((word_index-ok w v found).1, below), ap suc count)

-- No other words have the same indices.
pub collect-inj :
    (us ws : List (List ℕ)) (vs : List ℕ)
    → collect word_index us ≡ ok vs
    → collect word_index ws ≡ ok vs
    → us ≡ ws
unfolding collect
collect-inj [] [] vs h k = refl
collect-inj [] (w ∷ ws) vs h k = let (v, rest, found, more, z) = collect-cons w ws vs k in cc
collect-inj (u ∷ us) [] vs h k = let (v, rest, found, more, z) = collect-cons u us vs h in cc
collect-inj (u ∷ us) (w ∷ ws) vs h k =
    let (a, as_, at_u, more_u, zu) = collect-cons u us vs h in
    let (b, bs, at_w, more_w, zw) = collect-cons w ws vs k in
    let (same, rest) = cons-inj a b as_ bs (zu ∙ sym zw) in
    let eq_u = (word_index-ok u a at_u).0 in
    let eq_w = (word_index-ok w b at_w).0 in
    ap₂ (λ x xs. x ∷ xs) (some_inj (sym eq_u ∙ ap (get_elem? wordlist) same ∙ eq_w))
      (collect-inj us ws as_ more_u (more_w ∙ ap ok (sym rest)))
  where
    cons-inj : (a b : ℕ) (p q : List ℕ) → a ∷ p ≡ b ∷ q → (a ≡ b) × (p ≡ q)
    cons-inj a b p q e = (cc, cc)
