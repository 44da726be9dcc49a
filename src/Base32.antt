-- ===== src/Base32.antt =====
-- The base32 alphabet of Algorand addresses (`BASE32_ALPHABET` of crates/pq-vanity/src/search.rs)
-- and RFC 4648 base32 without padding, the documented behaviour of `BASE32_NOPAD.encode`.
pub mod Groups
pub mod Chars
use falcon_vanity_generator.Base.{
  ℕ, zero, suc, ◌+◌, ◌*◌, ◌/◌, ◌%◌, Option, none, some, List, [], ◌∷◌, ◌++◌, map, codes, get_or,
  ◌==◌, if◌then◌else◌, ◌>>=◌, ◌≡◌, refl,
}
use mathlib.Core.Option

abbrev pub base32_alphabet : List ℕ
base32_alphabet = codes "ABCDEFGHIJKLMNOPQRSTUVWXYZ234567"

-- `str::find` of a character: where it stands first.
unfoldable pub find : List ℕ → ℕ → Option ℕ
find [] c = none
find (x ∷ xs) c = let rest = Option.map suc (find xs c) in if x == c then some 0 else rest

-- The bits of a byte, the highest first.
abbrev pub byte_bits : ℕ → List ℕ
byte_bits b =
    (b / 128 % 2)
    ∷ (b / 64 % 2)
    ∷ (b / 32 % 2)
    ∷ (b / 16 % 2)
    ∷ (b / 8 % 2)
    ∷ (b / 4 % 2)
    ∷ (b / 2 % 2)
    ∷ (b % 2)
    ∷ []

unfoldable pub bits : List ℕ → List ℕ
bits [] = []
bits (b ∷ bs) = byte_bits b ++ bits bs

-- Groups of five bits; the last one is filled up with zeros.
unfoldable pub groups : List ℕ → List ℕ
groups [] = []
groups (a ∷ []) = (a * 16) ∷ []
groups (a ∷ b ∷ []) = (a * 16 + b * 8) ∷ []
groups (a ∷ b ∷ c ∷ []) = (a * 16 + b * 8 + c * 4) ∷ []
groups (a ∷ b ∷ c ∷ d ∷ []) = (a * 16 + b * 8 + c * 4 + d * 2) ∷ []
groups (a ∷ b ∷ c ∷ d ∷ e ∷ r) = (a * 16 + b * 8 + c * 4 + d * 2 + e) ∷ groups r

unfoldable pub char_of : ℕ → ℕ
char_of i = get_or base32_alphabet i 0

unfoldable pub base32_nopad : List ℕ → List ℕ
unfolding bits groups char_of
base32_nopad bs = map char_of (groups (bits bs))

-- The test vector "foobar" of RFC 4648.
foobar_vector : base32_nopad (codes "foobar") ≡ codes "MZXW6YTBOI"
unfolding base32_nopad
foobar_vector = refl
