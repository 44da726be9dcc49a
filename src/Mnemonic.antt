-- ===== src/Mnemonic.antt =====
-- crates/pq-core/src/mnemonic.rs: the packing of bytes into 11-bit values and back.
pub mod Packing
pub mod Unpacking
pub mod Wordlist
pub mod Words
pub mod Codec
use falcon_vanity_generator.Base.{
  ℕ, zero, suc, ◌+◌, ◌-◌, ◌*◌, ◌/◌, ◌%◌, ◌^◌, ◌≤◌, ◌<◌, bit_and, bit_or, bit_xor, Bool, true, false,
  not, ◌&&◌, ◌||◌, Option, none, some, List, [], ◌∷◌, ◌++◌, map, append-nil, append_assoc, String,
  codes, length, take, drop, get_elem?, get_or, set, replicate, All, ◌≡◌, refl, sym, ap, ap₂, ◌∙◌,
  ◌≢◌, ◌↔◌, ◌⊎◌, inl, inr, arith, ltb, leb, ◌==◌, if◌then◌else◌, ltb→lt, leb→le, Bool-cases,
  Option-cases, ◌>>=◌, is_some, length-append, take-append-drop, length-take, length-drop, take_all,
  take-take, take-append_le, take-append_self, drop-append_le, drop-append_self, drop-drop,
  length-replicate, All-append, All-take, All-drop, length-map, take-map, drop-map,
  get_or-get_elem?, starts_with, ends_with, list_eq, list_eq_iff, starts_with_iff, ends_with_iff,
  ends_with-nil, ==_iff, Bool_ext, some_inj,
}

-- The loop of `to_uint11_array`: what it pushes from the state of its u32 buffer on.
unfoldable pub uint11_loop : ℕ → ℕ → List ℕ → List ℕ
uint11_loop buffer bits [] = if not (bits == 0) then bit_and buffer 0x7ff ∷ [] else []
uint11_loop buffer bits (b ∷ bs) =
    let buffer' = bit_or buffer (b * 2 ^ bits % 2 ^ 32) in
    let bits' = bits + 8 in
    let full = leb 11 bits' in
    let rest =
      uint11_loop (if full then buffer' / 2 ^ 11 else buffer') (if full then bits' - 11 else bits')
        bs in
    if full then bit_and buffer' 0x7ff ∷ rest else rest

unfoldable pub to_uint11_array : List ℕ → List ℕ
to_uint11_array bytes = uint11_loop 0 0 bytes

-- The inner loop of `to_byte_array`, on fuel: what it pushes, and the buffer and the bits it leaves.
unfoldable pub drain : ℕ → ℕ → ℕ → List ℕ × ℕ × ℕ
drain zero buffer bits = ([], buffer, bits)
drain (suc fuel) buffer bits =
    let rest = drain fuel (buffer / 2 ^ 8) (bits - 8) in
    if leb 8 bits then (bit_and buffer 0xff ∷ rest.0, rest.1, rest.2) else ([], buffer, bits)

-- Its outer loop. Fuel of one more than the bits that are there is enough for the inner one.
unfoldable pub byte_loop : ℕ → ℕ → List ℕ → List ℕ
byte_loop buffer bits [] = if not (bits == 0) then (buffer % 2 ^ 8) ∷ [] else []
byte_loop buffer bits (v ∷ vs) =
    let r = drain (bits + 12) (bit_or buffer (v * 2 ^ bits % 2 ^ 32)) (bits + 11) in
    r.0 ++ byte_loop r.1 r.2 vs

unfoldable pub to_byte_array : List ℕ → List ℕ
to_byte_array vals = byte_loop 0 0 vals
