-- ===== src/Search/Protocol/Weights.antt =====
-- Sums over the workers, and what one step of one worker does to them.
use falcon_vanity_generator.Base.{
  ℕ, zero, suc, ◌+◌, ◌-◌, ◌≤◌, some, List, [], ◌∷◌, length, get_elem?, set, replicate, ◌≡◌, refl,
  ap, arith,
}
use falcon_vanity_generator.Search.Protocol.{Pc, searching}

unfoldable pub total : (Pc → ℕ) → List Pc → ℕ
total w [] = 0
total w (pc ∷ ts) = w pc + total w ts

pub total-set :
    (w : Pc → ℕ) (ts : List Pc) (k : ℕ) (pc pc' : Pc)
    → get_elem? ts k ≡ some pc
    → total w (set ts k pc') + w pc ≡ total w ts + w pc'
unfolding total
total-set w [] k pc pc' e = cc
total-set w (t ∷ ts) zero pc pc' e = let q : t ≡ pc = cc in omega (arith, ap w q)
total-set w (t ∷ ts) (suc k) pc pc' e = omega (arith, total-set w ts k pc pc' e)

pub total-le : (w : Pc → ℕ) (ts : List Pc) → ((pc : Pc) → w pc ≤ 1) → total w ts ≤ length ts
unfolding total
total-le w [] h = omega arith
total-le w (t ∷ ts) h = omega (arith, h t, total-le w ts h)

pub total-ge :
    (w : Pc → ℕ) (ts : List Pc) (k : ℕ) (pc : Pc) → get_elem? ts k ≡ some pc → w pc ≤ total w ts
unfolding total
total-ge w [] k pc e = cc
total-ge w (t ∷ ts) zero pc e = let q : t ≡ pc = cc in omega (arith, ap w q)
total-ge w (t ∷ ts) (suc k) pc e = omega (arith, total-ge w ts k pc e)

pub length-set : (ts : List Pc) (k : ℕ) (pc : Pc) → length (set ts k pc) ≡ length ts
length-set [] k pc = refl
length-set (t ∷ ts) zero pc = refl
length-set (t ∷ ts) (suc k) pc = ap suc (length-set ts k pc)

-- The sum apart from one worker.
pub others :
    (w : Pc → ℕ) (ts : List Pc) (k : ℕ) (pc : Pc)
    → get_elem? ts k ≡ some pc
    → (R : ℕ) × (total w ts ≡ w pc + R) × ((pc' : Pc) → total w (set ts k pc') ≡ w pc' + R)
others w ts k pc at =
    let ge = total-ge w ts k pc at in
    (total w ts - w pc, omega arith, λ pc'. omega (arith, total-set w ts k pc pc' at))

pub total-replicate : (w : Pc → ℕ) (n : ℕ) → w searching ≡ 0 → total w (replicate n searching) ≡ 0
unfolding total
total-replicate w zero h = refl
total-replicate w (suc n) h = omega (arith, h, total-replicate w n h)
