-- ===== src/Base/Digits.antt =====
-- Numbers from digits, the highest first: `value b acc ds` goes on from the number `acc`.
use Prim.Native.Nat.{ℕ, suc, ◌+◌, ◌*◌, ◌%◌, ◌^◌, ◌≤◌, ◌<◌}
use mathlib.Core.Path.{◌≡◌, refl, ap, ap₂, ◌∙◌}
use mathlib.Core.List.{List, [], ◌∷◌, ◌++◌}
use native.Mathlib.Nat.{pow-suc, pow-zero, mul-le-mul_right, mod-eq_of_lt, mul-add-mod_self_right}
use native.Mathlib.Omega.{arith}
use falcon_vanity_generator.Base.Lists.{length, All}

unfoldable pub value : ℕ → ℕ → List ℕ → ℕ
value b acc [] = acc
value b acc (d ∷ ds) = value b (acc * b + d) ds

abbrev pub IsBit : ℕ → Type 0
IsBit d = d < 2

abbrev pub IsByte : ℕ → Type 0
IsByte d = d < 256

pub value-append :
    (b acc : ℕ) (xs ys : List ℕ) → value b acc (xs ++ ys) ≡ value b (value b acc xs) ys
unfolding value
value-append b acc [] ys = refl
value-append b acc (x ∷ xs) ys = value-append b (acc * b + x) xs ys

-- What stands before the digits moves up by their number.
pub value-shift : (b acc : ℕ) (ds : List ℕ) → value b acc ds ≡ acc * b ^ length ds + value b 0 ds
unfolding value
value-shift b acc [] = omega (arith, pow-zero b, ap (λ (t : ℕ). acc * t) (pow-zero b))
value-shift b acc (d ∷ ds) = omega (
  arith,
  value-shift b (acc * b + d) ds,
  value-shift b (0 * b + d) ds,
  ap (λ (t : ℕ). acc * t) (pow-suc b (length ds)),
)

pub value-lt : (b : ℕ) (ds : List ℕ) → All (λ d. d < b) ds → value b 0 ds < b ^ length ds
unfolding value
value-lt b [] h = omega (arith, pow-zero b)
value-lt b (d ∷ ds) h = omega (
  arith,
  value-shift b (0 * b + d) ds,
  value-lt b ds h.1,
  pow-suc b (length ds),
  mul-le-mul_right (b ^ length ds) (let e : suc d ≤ b = h.0 in e),
)

digit_unique : (b a a' x y : ℕ) → x < b → y < b → a * b + x ≡ a' * b + y → (a ≡ a') × (x ≡ y)
digit_unique b a a' x y hx hy h = grind (arith, mod_step a x hx, mod_step a' y hy)
  where
    mod_step : (c z : ℕ) → z < b → (c * b + z) % b ≡ z
    mod_step c z hz = mul-add-mod_self_right c b z ∙ mod-eq_of_lt hz

-- Numerals of the same length with the same value are the same, digit by digit.
pub value-injective :
    (b acc acc' : ℕ) (xs ys : List ℕ)
    → length xs ≡ length ys
    → All (λ d. d < b) xs
    → All (λ d. d < b) ys
    → value b acc xs ≡ value b acc' ys
    → (acc ≡ acc') × (xs ≡ ys)
unfolding value
value-injective b acc acc' [] [] e hx hy h = (h, refl)
value-injective b acc acc' [] (y ∷ ys) e hx hy h = absurd (omega arith)
value-injective b acc acc' (x ∷ xs) [] e hx hy h = absurd (omega arith)
value-injective b acc acc' (x ∷ xs) (y ∷ ys) e hx hy h =
    let (heads, tails) =
      value-injective b (acc * b + x) (acc' * b + y) xs ys (omega arith) hx.1 hy.1 h in
    let (top, last) = digit_unique b acc acc' x y hx.0 hy.0 heads in (top, ap₂ ◌∷◌ last tails)
