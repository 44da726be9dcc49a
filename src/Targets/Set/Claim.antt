-- ===== src/Targets/Set/Claim.antt =====
-- Claims: in retiring mode each target is granted once, whoever asks and in whatever order.
use falcon_vanity_generator.Base.{
  ℕ, zero, suc, ◌+◌, Bool, true, false, not, ◌&&◌, ◌||◌, List, [], ◌∷◌, get_or, set, ◌≡◌, ◌∙◌,
  arith, ◌==◌, if◌then◌else◌,
}
use falcon_vanity_generator.Targets.Set.{TargetSet, is_active, claim}

-- A sequence of claims, in the order in which the flags see them: the set it leaves, and how often
-- target `j` was granted.
unfoldable pub claims : TargetSet → List ℕ → TargetSet
claims s [] = s
claims s (i ∷ is) = claims (claim s i).0 is

unfoldable pub grants : ℕ → TargetSet → List ℕ → ℕ
grants j s [] = 0
grants j s (i ∷ is) = (if i == j && (claim s i).1 then 1 else 0) + grants j (claim s i).0 is

unfoldable pub asked : ℕ → List ℕ → Bool
asked j [] = false
asked j (i ∷ is) = i == j || asked j is

pub get_or-set :
    (xs : List Bool) (i j : ℕ)
    → get_or (set xs i false) j false ≡ (if i == j then false else get_or xs j false)
get_or-set [] i j = ground arith
get_or-set (x ∷ xs) zero zero = ground arith
get_or-set (x ∷ xs) zero (suc j) = ground arith
get_or-set (x ∷ xs) (suc i) zero = ground arith
get_or-set (x ∷ xs) (suc i) (suc j) = ground (arith, get_or-set xs i j)

-- A claim keeps the targets and the mode, and in retiring mode it turns one flag off.
pub claim-is_active :
    (s : TargetSet) (i j : ℕ)
    → s.retire ≡ true
    → is_active (claim s i).0 j ≡ (if i == j then false else is_active s j)
unfolding claim is_active
claim-is_active s i j h = ground (arith, get_or-set s.active i j)

pub claim_granted : (s : TargetSet) (i : ℕ) → s.retire ≡ true → (claim s i).1 ≡ is_active s i
unfolding claim
claim_granted s i h = ground arith

pub claim-retire : (s : TargetSet) (i : ℕ) → (claim s i).0.retire ≡ s.retire
unfolding claim
claim-retire s i = ground arith

-- In retiring mode a sequence of claims grants target `j` exactly once if `j` was active and was
-- asked for, and never otherwise.
pub grants_once :
    (j : ℕ) (s : TargetSet) (is : List ℕ)
    → s.retire ≡ true
    → grants j s is ≡ (if is_active s j && asked j is then 1 else 0)
unfolding grants asked
grants_once j s [] h = ground arith
grants_once j s (i ∷ is) h = ground (
  arith,
  claim_granted s i h,
  claim-is_active s i j h,
  grants_once j (claim s i).0 is (claim-retire s i ∙ h),
)

-- The flags after a sequence of claims in retiring mode.
pub claims-is_active :
    (j : ℕ) (s : TargetSet) (is : List ℕ)
    → s.retire ≡ true
    → is_active (claims s is) j ≡ (is_active s j && not (asked j is))
unfolding claims asked
claims-is_active j s [] h = ground arith
claims-is_active j s (i ∷ is) h =
    ground
      (arith, claim-is_active s i j h, claims-is_active j (claim s i).0 is (claim-retire s i ∙ h))

-- Without retirement every claim is granted and changes nothing.
pub claim-keep : (s : TargetSet) (i : ℕ) → s.retire ≡ false → claim s i ≡ (s, true)
unfolding claim
claim-keep s i h = rw h

pub claim-list : (s : TargetSet) (i : ℕ) → (claim s i).0.list ≡ s.list
unfolding claim
claim-list s i = ground arith
