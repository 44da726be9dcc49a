-- ===== src/Targets/Set/Match.antt =====
-- The lazy matcher of the CPU paths agrees with the display-string matcher.
use falcon_vanity_generator.Base.{
  ℕ, ◌+◌, ◌*◌, ◌/◌, ◌≤◌, true, ◌&&◌, Option, none, some, List, [], ◌∷◌, map, length, take, All, ◌≡◌,
  refl, sym, ap, ◌∙◌, arith, leb, ◌==◌, if◌then◌else◌, length-take, take-take, take-append_le,
  All-take, take-map, starts_with, ends_with, ends_with-nil,
}
use falcon_vanity_generator.Base.Digits.{IsByte}
use falcon_vanity_generator.Crates.{Crates}
use falcon_vanity_generator.Address.{Address, IsAddress, checksum, to_address_string}
use falcon_vanity_generator.Address.Display.{full, display-eq-groups, length-bits-full}
use falcon_vanity_generator.Base32.{bits, groups, char_of, base32_nopad}
use falcon_vanity_generator.Base32.Groups.{bits-append, length-bits, take-bits, take-groups}
use falcon_vanity_generator.Targets.{Target, matches_display, addr_only_chars}
use falcon_vanity_generator.Targets.Set.{
  TargetSet, first_match, first_match_from, first_match_display, first_match_display_from,
  display_or, IsTargetSet,
}

starts_with-take : (xs ys : List ℕ) → starts_with xs ys ≡ starts_with (take (length ys) xs) ys
unfolding starts_with
starts_with-take xs [] = refl
starts_with-take [] (y ∷ ys) = refl
starts_with-take (x ∷ xs) (y ∷ ys) = ap (λ b. (x == y) && b) (starts_with-take xs ys)

ends_with_empty : (xs ys : List ℕ) → length ys ≡ 0 → ends_with xs ys ≡ true
ends_with_empty xs [] h = ends_with-nil xs
ends_with_empty xs (y ∷ ys) h = absurd (omega arith)

module _ (x : Crates) (a : Address) (ok : IsAddress a) where
  -- The leading characters that the leading bytes determine.
  head_chars :
      (k p : ℕ)
      → k ≤ 32
      → 5 * p ≤ 8 * k
      → take p (x.base32_encode (take k a.bytes)) ≡ take p (to_address_string x a)
  unfolding base32_nopad
  head_chars k p hk hp =
      ap (take p) (x.base32_encode_lem (take k a.bytes) (All-take IsByte k a.bytes ok.1))
      ∙ take-map char_of p (groups (bits (take k a.bytes)))
      ∙ ap (map char_of) same_groups
      ∙ sym (take-map char_of p (groups (bits (full x a))))
      ∙ ap (take p) (sym (display-eq-groups x a ok))
    where
      same_bits : take (5 * p) (bits (take k a.bytes)) ≡ take (5 * p) (bits (full x a))
      same_bits =
          ap (take (5 * p)) (sym (take-bits k a.bytes))
          ∙ take-take (5 * p) (8 * k) (bits a.bytes) hp
          ∙ sym (
              take-append_le (5 * p) (bits a.bytes) (bits (checksum x a))
                (omega (arith, length-bits a.bytes, ok.0)))
          ∙ ap (take (5 * p)) (sym (bits-append a.bytes (checksum x a)))

      same_groups : take p (groups (bits (take k a.bytes))) ≡ take p (groups (bits (full x a)))
      same_groups =
          take-groups p (bits (take k a.bytes))
            (omega (arith, length-bits (take k a.bytes), length-take k a.bytes (rw ok.0 hk)))
          ∙ ap groups same_bits
          ∙ sym (take-groups p (bits (full x a)) (omega (arith, length-bits-full x a ok)))

  -- What stands built of the display string is the display string.
  abbrev Built : Option (List ℕ) → Type 0
  Built display = display_or x a display ≡ to_address_string x a

  first_match_from-agrees :
      (s : TargetSet) (head : List ℕ) (ts : List Target) (i : ℕ) (display : Option (List ℕ))
      → Built display
      → All
          (λ t.
            length t.prefix ≤ addr_only_chars
            → starts_with head t.prefix ≡ starts_with (to_address_string x a) t.prefix)
          ts
      → first_match_from x s a head ts i display
        ≡ first_match_display_from s (to_address_string x a) ts i
  unfolding first_match_from first_match_display_from matches_display display_or
  first_match_from-agrees s head [] i display built h = refl
  first_match_from-agrees s head (t ∷ ts) i display built h = ground (
    arith,
    built,
    h.0,
    ends_with_empty (to_address_string x a) t.suffix,
    first_match_from-agrees s head ts (i + 1) display built h.1,
    first_match_from-agrees s head ts (i + 1) (some (display_or x a display)) built h.1,
  )

  -- The two matchers find the same target, for every address and every state of the flags.
  pub first_match-agrees :
      (s : TargetSet)
      → IsTargetSet s
      → first_match x s a ≡ first_match_display s (to_address_string x a)
  unfolding first_match first_match_display
  first_match-agrees s good =
      first_match_from-agrees s (x.base32_encode (take k a.bytes)) s.list 0 none
        (unfold display_or in refl) (heads s.list good.prefixes)
    where
      k : ℕ
      k = ((if leb s.max_prefix addr_only_chars then s.max_prefix else addr_only_chars) * 5 + 7) / 8

      head_agrees :
          (p : List ℕ)
          → length p ≤ s.max_prefix
          → length p ≤ addr_only_chars
          → starts_with (x.base32_encode (take k a.bytes)) p ≡ starts_with (to_address_string x a) p
      head_agrees p short fits =
          starts_with-take (x.base32_encode (take k a.bytes)) p
          ∙ ap (λ (l : List ℕ). starts_with l p)
              (head_chars k (length p) (ground arith) (ground arith))
          ∙ sym (starts_with-take (to_address_string x a) p)

      heads :
          (ts : List Target)
          → All (λ t. length t.prefix ≤ s.max_prefix) ts
          → All
              (λ t.
                length t.prefix ≤ addr_only_chars
                → starts_with (x.base32_encode (take k a.bytes)) t.prefix
                  ≡ starts_with (to_address_string x a) t.prefix)
              ts
      heads [] h = tt
      heads (t ∷ ts) h = (λ fits. head_agrees t.prefix h.0 fits, heads ts h.1)
