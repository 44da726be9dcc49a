-- ===== src/Text.antt =====
-- The text functions of Rust's standard library that the parsers use, over lists of characters.
pub mod Words
pub mod Radix
pub mod Trims
use falcon_vanity_generator.Base.{
  ℕ, ◌-◌, Bool, ◌&&◌, ◌||◌, Option, none, some, List, [], ◌∷◌, map, length, drop, leb, ◌==◌,
  if◌then◌else◌, ◌>>=◌, starts_with,
}

-- `char::is_whitespace`: the code points of Unicode's White_Space property.
unfoldable pub is_whitespace : ℕ → Bool
is_whitespace c =
    (leb 9 c && leb c 13)
    || c == 32
    || c == 0x85
    || c == 0xA0
    || c == 0x1680
    || (leb 0x2000 c && leb c 0x200A)
    || c == 0x2028
    || c == 0x2029
    || c == 0x202F
    || c == 0x205F
    || c == 0x3000

unfoldable pub trim_start : List ℕ → List ℕ
trim_start [] = []
trim_start (c ∷ cs) = let rest = trim_start cs in if is_whitespace c then rest else c ∷ cs

-- Whitespace at the end goes where nothing else follows it.
unfoldable pub trim_end : List ℕ → List ℕ
trim_end [] = []
trim_end (c ∷ cs) = elim (trim_end cs) [
  | [] ↦ if is_whitespace c then [] else c ∷ []
  | d ∷ ds ↦ c ∷ d ∷ ds
]

unfoldable pub trim : List ℕ → List ℕ
unfolding is_whitespace trim_start trim_end
trim s = trim_end (trim_start s)

unfoldable pub to_ascii_upper : ℕ → ℕ
to_ascii_upper c = if leb b'a' c && leb c b'z' then c - 32 else c

unfoldable pub to_ascii_uppercase : List ℕ → List ℕ
unfolding to_ascii_upper
to_ascii_uppercase s = map to_ascii_upper s

-- `split(sep)`: the pieces between separators, one more than there are separators.
unfoldable pub split : List ℕ → ℕ → List (List ℕ)
split [] sep = [] ∷ []
split (c ∷ cs) sep =
    let rest = split cs sep in
    if c == sep then [] ∷ rest else elim rest [ [] ↦ (c ∷ []) ∷ [] | p ∷ ps ↦ (c ∷ p) ∷ ps ]

-- `split_once(sep)`: what stands before and after the first occurrence of a text.
unfoldable pub split_once : List ℕ → List ℕ → Option (List ℕ × List ℕ)
unfolding starts_with
split_once [] sep = if starts_with [] sep then some ([], []) else none
split_once (c ∷ cs) sep =
    let rest = split_once cs sep >>= λ r. some (c ∷ r.0, r.1) in
    if starts_with (c ∷ cs) sep then some ([], drop (length sep) (c ∷ cs)) else rest
