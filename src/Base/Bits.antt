-- ===== src/Base/Bits.antt =====
-- `|` of disjoint fields, and `&` with a mask of low or of high bits, as arithmetic.
use Prim.Native.Nat.{
  ℕ, zero, suc, ◌+◌, ◌-◌, ◌*◌, ◌/◌, ◌%◌, ◌^◌, ◌≤◌, ◌<◌, min, max, bit_and, bit_or,
}
use Prim.Native.Nat.{digits, bit_and-bitwise, bit_or-bitwise}
use mathlib.Core.Path.{◌≡◌, refl, sym, ap, ◌∙◌}
use native.Mathlib.Nat.{
  pow-suc, pow-zero, one-le-pow, mod-eq_of_lt, add-zero, add-suc, mul_assoc, mul-add-mod_self_right,
}
use native.Mathlib.Omega.{arith}

module _ (rest : ℕ → ℕ) (bit : ℕ → ℕ → ℕ) where
  -- Two counts of digits to go give the same digits once both are large enough.
  digits_agree : (x k l y : ℕ) → (x ≤ k) × (x ≤ l) → digits rest bit k x y ≡ digits rest bit l x y
  digits_agree (suc x) zero l y h = absurd (omega arith)
  digits_agree (suc x) (suc k) zero y h = absurd (omega arith)
  digits_agree (suc x) (suc k) (suc l) y h =
      let tail = digits_agree (suc x / 2) k l (y / 2) (omega arith, omega arith) in
      ap (λ d. d * 2 + bit (suc x % 2) (y % 2)) tail
  digits_agree zero zero zero y h = refl
  digits_agree zero zero (suc l) y h = refl
  digits_agree zero (suc k) zero y h = refl
  digits_agree zero (suc k) (suc l) y h = refl

  -- The lowest digit of a number that is not 0, and the digits above it.
  digits_lowest :
      (x y : ℕ)
      → bit (suc x % 2) (y % 2) + 2 * digits rest bit (suc x / 2) (suc x / 2) (y / 2)
        ≡ digits rest bit (suc x) (suc x) y
  digits_lowest x y =
      let same = digits_agree (suc x / 2) x (suc x / 2) (y / 2) (omega arith, omega arith) in
      omega (arith, ap (λ d. d * 2 + bit (suc x % 2) (y % 2)) same)

pub bit_or-lowest : (a b : ℕ) → bit_or a b ≡ bit_or (a / 2) (b / 2) * 2 + max (a % 2) (b % 2)
bit_or-lowest zero b = omega (arith, bit_or-bitwise 0 b, bit_or-bitwise 0 (b / 2))
bit_or-lowest (suc a) b = omega (
  arith,
  bit_or-bitwise (suc a) b,
  bit_or-bitwise (suc a / 2) (b / 2),
  digits_lowest (λ b. b) max a b,
)

pub bit_and-lowest : (a b : ℕ) → bit_and a b ≡ bit_and (a / 2) (b / 2) * 2 + min (a % 2) (b % 2)
bit_and-lowest zero b = omega (arith, bit_and-bitwise 0 b, bit_and-bitwise 0 (b / 2))
bit_and-lowest (suc a) b = omega (
  arith,
  bit_and-bitwise (suc a) b,
  bit_and-bitwise (suc a / 2) (b / 2),
  digits_lowest (λ b. 0) min a b,
)

bit_and-zero_below : (n a : ℕ) → a ≤ n → bit_and a 0 ≡ 0
bit_and-zero_below zero a h = ground (arith, bit_and-bitwise 0 0)
bit_and-zero_below (suc n) a h =
    ground (arith, bit_and-lowest a 0, bit_and-zero_below n (a / 2) (omega arith))

bit_or-zero_below : (n a : ℕ) → a ≤ n → bit_or a 0 ≡ a
bit_or-zero_below zero a h = ground (arith, bit_or-bitwise 0 0)
bit_or-zero_below (suc n) a h =
    ground (arith, bit_or-lowest a 0, bit_or-zero_below n (a / 2) (omega arith))

pub bit_and-zero : (a : ℕ) → bit_and a 0 ≡ 0
bit_and-zero a = bit_and-zero_below a a (omega arith)

pub bit_or-zero : (a : ℕ) → bit_or a 0 ≡ a
bit_or-zero a = bit_or-zero_below a a (omega arith)

double-pow : (q k : ℕ) → q * 2 ^ suc k ≡ 2 * (q * 2 ^ k)
double-pow q k = omega (arith, ap (λ (t : ℕ). q * t) (pow-suc 2 k))

-- A field above `k` low bits, from either side.
pub bit_or_high : (k q r : ℕ) → r < 2 ^ k → bit_or (q * 2 ^ k) r ≡ q * 2 ^ k + r
bit_or_high zero q r h = ground (arith, bit_or-zero q)
bit_or_high (suc k) q r h =
    ground (
      arith,
      bit_or-lowest (q * 2 ^ suc k) r,
      double-pow q k,
      bit_or_high k q (r / 2) (omega arith),
    )

pub bit_or_low : (k q r : ℕ) → r < 2 ^ k → bit_or r (q * 2 ^ k) ≡ q * 2 ^ k + r
bit_or_low zero q r h = ground (arith, bit_or-bitwise 0 q)
bit_or_low (suc k) q r h =
    ground
      (arith, bit_or-lowest r (q * 2 ^ suc k), double-pow q k, bit_or_low k q (r / 2) (omega arith))

low_field : (k q r : ℕ) → r < 2 ^ k → bit_and (q * 2 ^ k + r) (2 ^ k - 1) ≡ r
low_field zero q r h = ground (arith, bit_and-zero (q * 2 ^ 0 + r))
low_field (suc k) q r h = ground (
  arith,
  bit_and-lowest (q * 2 ^ suc k + r) (2 ^ suc k - 1),
  double-pow q k,
  pow-suc 2 k,
  low_field k q (r / 2) (omega arith),
)

-- The mask `(1 << k) - 1` keeps the remainder by `2 ^ k`.
pub bit_and_low : (k x : ℕ) → bit_and x (2 ^ k - 1) ≡ x % 2 ^ k
bit_and_low k x = ground (arith, one-le-pow k 2, low_field k (x / 2 ^ k) (x % 2 ^ k))

-- A mask of `w` bits above `k` zeros clears the `k` low bits.
pub bit_and_high :
    (k w q r : ℕ)
    → r < 2 ^ k
    → q < 2 ^ w
    → bit_and (q * 2 ^ k + r) ((2 ^ w - 1) * 2 ^ k) ≡ q * 2 ^ k
bit_and_high zero w q r h hq =
    ground (arith, bit_and_low w (q * 2 ^ 0 + r), mod-eq_of_lt {n = q} {m = 2 ^ w} hq)
bit_and_high (suc k) w q r h hq = ground (
  arith,
  bit_and-lowest (q * 2 ^ suc k + r) ((2 ^ w - 1) * 2 ^ suc k),
  double-pow q k,
  double-pow (2 ^ w - 1) k,
  pow-suc 2 k,
  bit_and_high k w q (r / 2) (omega arith) hq,
)

pub pow-add : (b m n : ℕ) → b ^ (m + n) ≡ b ^ m * b ^ n
pow-add b m zero = ground (arith, pow-zero b, ap (λ (t : ℕ). b ^ t) (add-zero m))
pow-add b m (suc n) =
    ap (λ (t : ℕ). b ^ t) (add-suc m n)
    ∙ pow-suc b (m + n)
    ∙ ap (λ (t : ℕ). t * b) (pow-add b m n)
    ∙ mul_assoc (b ^ m) (b ^ n) b
    ∙ ap (λ (t : ℕ). b ^ m * t) (sym (pow-suc b n))

shl_product : (p q : ℕ) → 0 < p → 0 < q → (p * q - 1) * q % (p * q) ≡ (p - 1) * q
shl_product zero q hp hq = elim hp [ ]
shl_product (suc p) zero hp hq = elim hq [ ]
shl_product (suc p) (suc q) hp hq =
    ap (λ (t : ℕ). t * suc q % (suc p * suc q)) less
    ∙ ap (λ (t : ℕ). t % (suc p * suc q)) spread
    ∙ mul-add-mod_self_right q (suc p * suc q) (p * suc q)
    ∙ mod-eq_of_lt (omega arith)
    ∙ ap (λ (t : ℕ). t * suc q) (omega arith)
  where
    less : suc p * suc q - 1 ≡ p * q + p + q
    less = omega arith

    spread : (p * q + p + q) * suc q ≡ q * (suc p * suc q) + p * suc q
    spread = omega arith

-- `u64::MAX << k` on `w + k` bits drops what passes the top.
pub shl_max : (w k : ℕ) → (2 ^ (w + k) - 1) * 2 ^ k % 2 ^ (w + k) ≡ (2 ^ w - 1) * 2 ^ k
shl_max w k =
    rw (pow-add 2 w k)
      (shl_product (2 ^ w) (2 ^ k) (one-le-pow w 2 (omega arith)) (one-le-pow k 2 (omega arith)))
