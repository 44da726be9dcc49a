-- ===== src/Classic/Seeds.antt =====
-- The seeds of a run.
use falcon_vanity_generator.Base.{
  ℕ, ◌+◌, ◌%◌, ◌^◌, ◌<◌, List, ◌++◌, length, take, drop, All, ◌≡◌, sym, ap, ◌∙◌, ◌≢◌, arith,
  take-append-drop, length-take, length-drop, take_all, drop-append_self, All-take, All-drop,
}
use falcon_vanity_generator.Base.Digits.{IsByte}
use falcon_vanity_generator.Base.Endian.{from_le, to_le, from_le-to_le, to_le-from_le}
use falcon_vanity_generator.Classic.{seed_at, run_start}

module _ (base : List ℕ) (full : length base ≡ 32) where
  -- Counters below 2^64 give different seeds.
  pub seed_at-injective :
      (m n : ℕ) → m < 2 ^ 64 → n < 2 ^ 64 → seed_at base m ≡ seed_at base n → m ≡ n
  unfolding seed_at
  seed_at-injective m n hm hn e =
      sym (from_le-to_le 8 m (omega arith))
      ∙ ap from_le (sym (tail m) ∙ ap (drop 24) e ∙ tail n)
      ∙ from_le-to_le 8 n (omega arith)
    where
      tail : (k : ℕ) → drop 24 (take 24 base ++ to_le 8 k) ≡ to_le 8 k
      tail k =
          let q : length (take 24 base) ≡ 24 = length-take 24 base (omega arith) in
          ap (λ j. drop j (take 24 base ++ to_le 8 k)) (sym q)
          ∙ drop-append_self (take 24 base) (to_le 8 k)

  -- Different keys of a run that is shorter than 2^64 have different seeds, also where the counter
  -- wraps.
  pub seed_at-distinct :
      (i j : ℕ)
      → i < 2 ^ 64
      → j < 2 ^ 64
      → i ≢ j
      → seed_at base ((run_start base + i) % 2 ^ 64) ≢ seed_at base ((run_start base + j) % 2 ^ 64)
  seed_at-distinct i j hi hj differ e =
      let same =
        seed_at-injective ((run_start base + i) % 2 ^ 64) ((run_start base + j) % 2 ^ 64)
          (omega arith) (omega arith) e in
      differ (omega arith)

  -- The first seed of a run is the output of the mix itself.
  pub seed_at-run_start : All IsByte base → seed_at base (run_start base) ≡ base
  unfolding seed_at run_start
  seed_at-run_start bytes =
      ap (λ l. take 24 base ++ l)
        (ap (λ k. to_le k (from_le (take 8 (drop 24 base)))) (sym eight)
          ∙ to_le-from_le (take 8 (drop 24 base))
              (All-take IsByte 8 (drop 24 base) (All-drop IsByte 24 base bytes))
          ∙ take_all 8 (drop 24 base) (omega (arith, length-drop 24 base)))
      ∙ take-append-drop 24 base
    where
      eight : length (take 8 (drop 24 base)) ≡ 8
      eight = length-take 8 (drop 24 base) (omega (arith, length-drop 24 base))
