-- ===== src/Encode.antt =====
-- `EncodeConverter` (onnxruntime/src/encode_converter.cpp): UTF-8 and UTF-16 of the basic plane.
-- A byte string is the list of its bytes, a UTF-16 string the list of its 16-bit units.
use Prim.Native.Nat.{bit_and, bit_or}
use asr_2pass.Prelude.{
  ℕ, zero, suc, ◌+◌, ◌-◌, ◌*◌, ◌/◌, ◌%◌, ◌^◌, Bool, true, false, ◌&&◌, ◌||◌, not, if◌then◌else◌,
  Option, none, some, List, [], ◌∷◌, ◌++◌, map, ltb, leb, ◌==◌, length, drop, get_or,
}
use asr_2pass.Prelude.Bytes.{has_bits, isalpha, isalnum, ispunct, isblank}
pub mod RoundTrip
pub mod Classes

-- `SwapEndian`, on 16-bit units.
unfoldable pub swap_endian : List ℕ → List ℕ
swap_endian = map (λ u. bit_or (u / 2 ^ 8) (u * 2 ^ 8 % 2 ^ 16))

-- One unit: `Utf16ToUtf8(pu16, pu8)`, and `MyUtf16ToUtf8`, which has the same body. The list is
-- `pu8[0], ...`, and its length the result.
unfoldable pub utf16_to_utf8 : ℕ → List ℕ
utf16_to_utf8 u =
    if leb u 0x7f
    then bit_and u 0x7f ∷ []
    else if leb 0x80 u && leb u 0x7ff
    then bit_or 0xc0 (bit_and (u / 2 ^ 6) 0x1f) ∷ bit_or 0x80 (bit_and u 0x3f) ∷ []
    else if leb 0x800 u
    then bit_or 0xe0 (bit_and (u / 2 ^ 12) 0x0f)
      ∷ bit_or 0x80 (bit_and (u / 2 ^ 6) 0x3f)
      ∷ bit_or 0x80 (bit_and u 0x3f)
      ∷ []
    else []

-- A string into a buffer of `olen` bytes, of which `out` are written. A unit that does not fit is
-- left out, and the loop goes on with the next.
unfoldable pub utf16_to_utf8_buf : List ℕ → ℕ → List ℕ → List ℕ
utf16_to_utf8_buf [] olen out = out
utf16_to_utf8_buf (u ∷ us) olen out =
    let bytes = utf16_to_utf8 u in
    let rest =
      utf16_to_utf8_buf us olen
        (if leb (length out + length bytes) olen then out ++ bytes else out) in
    if ltb (length out) olen then rest else out

-- `Utf16ToUtf8(u16str)`
unfoldable pub utf16_to_utf8_string : List ℕ → List ℕ
unfolding utf16_to_utf8_buf utf16_to_utf8
utf16_to_utf8_string us = utf16_to_utf8_buf us (length us * 3 + 1) []

abbrev pub is_2_byte_utf16 : ℕ → Bool
is_2_byte_utf16 u = leb 0x80 u && leb u 0x7ff

abbrev pub is_3_byte_utf16 : ℕ → Bool
is_3_byte_utf16 u = leb 0x800 u

-- The units that the two long forms stand for.
unfoldable pub join_3 : ℕ → ℕ → ℕ → ℕ
join_3 b0 b1 b2 =
    bit_or (bit_or (bit_and b0 0x0f * 2 ^ 4) (bit_and b1 0x3c / 2 ^ 2) * 2 ^ 8 % 2 ^ 16)
      (bit_or (bit_and b1 0x03 * 2 ^ 6) (bit_and b2 0x3f))

unfoldable pub join_2 : ℕ → ℕ → ℕ
join_2 b0 b1 =
    bit_or (bit_and b0 0x1c / 2 ^ 2 * 2 ^ 8 % 2 ^ 16)
      (bit_or (bit_and b0 0x03 * 2 ^ 6) (bit_and b1 0x3f))

abbrev pub def_uni_char : ℕ
def_uni_char = 0x25a1

-- `Utf8ToUtf16(pu8, pu16)` on a string that ends in a NUL, which is read as 0: the unit, `none` where
-- none is written, and the number of bytes.
unfoldable pub utf8_to_utf16_unbounded : List ℕ → Option ℕ × ℕ
unfolding join_3 join_2
utf8_to_utf16_unbounded s =
    let b0 = get_or s 0 0 in
    let b1 = get_or s 1 0 in
    let b2 = get_or s 2 0 in
    if has_bits b0 0xf0 0xe0
    then (
      some (
          if has_bits b1 0xc0 0x80 && has_bits b2 0xc0 0x80 then join_3 b0 b1 b2 else def_uni_char),
      3,
    )
    else if has_bits b0 0xe0 0xc0
    then (some (if has_bits b1 0xc0 0x80 then join_2 b0 b1 else def_uni_char), 2)
    else if has_bits b0 0x80 0
    then (some b0, 1)
    else (none, 0)

-- `ToUni`
unfoldable pub to_uni : List ℕ → Option ℕ × ℕ
unfolding utf8_to_utf16_unbounded
to_uni s = utf8_to_utf16_unbounded s

-- `Utf8ToUtf16(pu8, ilen, pu16)` on the first three bytes: the unit and the number of bytes. `ilen`
-- is at least 1, and a byte is read only where `ilen` covers it.
unfoldable pub decode_first : ℕ → ℕ → ℕ → ℕ → ℕ × ℕ
unfolding join_3 join_2
decode_first b0 b1 b2 ilen =
    if has_bits b0 0xf0 0xe0 && leb 3 ilen
    then (if has_bits b1 0xc0 0x80 && has_bits b2 0xc0 0x80
        then (if not (is_3_byte_utf16 (join_3 b0 b1 b2)) then (0, 1) else (join_3 b0 b1 b2, 3))
        else (0, 1))
    else if has_bits b0 0xe0 0xc0 && leb 2 ilen
    then (if has_bits b1 0xc0 0x80
        then (if not (is_2_byte_utf16 (join_2 b0 b1)) then (0, 1) else (join_2 b0 b1, 2))
        else (0, 1))
    else if has_bits b0 0x80 0
    then (b0, 1)
    else (0, 1)

unfoldable pub utf8_to_utf16_first : List ℕ → ℕ × ℕ
unfolding decode_first
utf8_to_utf16_first s = decode_first (get_or s 0 0) (get_or s 1 0) (get_or s 2 0) (length s)

-- `MyUtf8ToUtf16`: the same without the tests for overlong forms.
unfoldable pub my_utf8_to_utf16 : List ℕ → ℕ × ℕ
unfolding join_3 join_2
my_utf8_to_utf16 s =
    let b0 = get_or s 0 0 in
    let b1 = get_or s 1 0 in
    let b2 = get_or s 2 0 in
    if has_bits b0 0xf0 0xe0 && leb 3 (length s)
    then (if has_bits b1 0xc0 0x80 && has_bits b2 0xc0 0x80 then (join_3 b0 b1 b2, 3) else (0, 1))
    else if has_bits b0 0xe0 0xc0 && leb 2 (length s)
    then (if has_bits b1 0xc0 0x80 then (join_2 b0 b1, 2) else (0, 1))
    else if has_bits b0 0x80 0
    then (b0, 1)
    else (0, 1)

-- The string form, with `olen` units of room; each round reads a byte at least, so the length of the
-- string is enough fuel. A round that read nothing would end the loop.
unfoldable pub utf8_to_utf16_buf : ℕ → List ℕ → ℕ → List ℕ
utf8_to_utf16_buf fuel [] olen = []
utf8_to_utf16_buf zero (b ∷ s) olen = []
utf8_to_utf16_buf (suc fuel) (b ∷ s) olen =
    let (u, n) = utf8_to_utf16_first (b ∷ s) in
    let rest = utf8_to_utf16_buf fuel (drop n (b ∷ s)) (olen - 1) in
    if ltb 0 olen then (if n == 0 then [] else u ∷ rest) else []

-- `Utf8ToUtf16(u8str)`
unfoldable pub utf8_to_utf16_string : List ℕ → List ℕ
unfolding utf8_to_utf16_buf utf8_to_utf16_first
utf8_to_utf16_string s = utf8_to_utf16_buf (length s) s (length s + 1)

-- The step of `IsUTF8` and `GetUTF8Len`, on a string that ends in a NUL; 0 is the `break`.
unfoldable pub utf8_step : List ℕ → ℕ
utf8_step s =
    let b0 = get_or s 0 0 in
    let b1 = get_or s 1 0 in
    let b2 = get_or s 2 0 in
    if has_bits b0 0xf0 0xe0 && has_bits b1 0xc0 0x80 && has_bits b2 0xc0 0x80
    then 3
    else if has_bits b0 0xe0 0xc0 && has_bits b1 0xc0 0x80
    then 2
    else if has_bits b0 0x80 0
    then 1
    else 0

-- The loop of both: whether the string was read to its end, and the rounds made.
unfoldable pub utf8_scan : ℕ → List ℕ → ℕ → Bool × ℕ
unfolding utf8_step
utf8_scan fuel [] rlen = (true, rlen)
utf8_scan zero (b ∷ s) rlen = (false, rlen)
utf8_scan (suc fuel) (b ∷ s) rlen =
    let n = utf8_step (b ∷ s) in
    let rest = utf8_scan fuel (drop n (b ∷ s)) (rlen + 1) in if n == 0 then (false, rlen) else rest

-- `IsUTF8`
unfoldable pub is_utf8 : List ℕ → Bool
unfolding utf8_scan
is_utf8 s = (utf8_scan (length s) s 0).0

-- `GetUTF8Len`
unfoldable pub get_utf8_len : List ℕ → ℕ
unfolding utf8_scan
get_utf8_len s = let (whole, rlen) = utf8_scan (length s) s 0 in if whole then 0 else rlen

-- `Utf16ToUtf8Len`
unfoldable pub utf16_to_utf8_len : List ℕ → ℕ
utf16_to_utf8_len [] = 0
utf16_to_utf8_len (u ∷ us) =
    (if leb u 0x7f
      then 1
      else if leb 0x80 u && leb u 0x7ff
      then 2
      else if leb 0x800 u
      then 3
      else 0)
    + utf16_to_utf8_len us
