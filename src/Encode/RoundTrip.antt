-- ===== src/Encode/RoundTrip.antt =====
-- What is written as UTF-8 is read back (onnxruntime/src/encode_converter.cpp).
use Prim.Native.Nat.{bit_and, bit_or}
use asr_2pass.Prelude.{
  ℕ, zero, suc, ◌+◌, ◌-◌, ◌*◌, ◌/◌, ◌^◌, ◌≤◌, ◌<◌, ◌≡◌, refl, sym, ap, ◌∙◌, Bool, true, false, ◌&&◌,
  not, if◌then◌else◌, List, [], ◌∷◌, ◌++◌, ltb, leb, ◌==◌, length, length-append, drop, get_or,
  arith, Bool-cases, lt→ltb, le→leb, if-true, if-false, subst, inl, inr,
}
use native.Mathlib.Decide.{dec_le}
use mathlib.Core.List.{append_assoc, append-nil}
use asr_2pass.Prelude.Bytes.{has_bits, passes, passes_lem}
use asr_2pass.Encode.{
  utf16_to_utf8, utf16_to_utf8_buf, utf16_to_utf8_string, decode_first, utf8_to_utf16_first,
  utf8_to_utf16_buf, utf8_to_utf16_string, join_2, join_3, utf16_to_utf8_len,
}

abbrev pub AllU16 : List ℕ → Type 0
AllU16 [] = Unit {0}
AllU16 (u ∷ us) = (u < 65536) × AllU16 us

one_byte : ℕ → Bool
one_byte u =
    not (has_bits u 0xf0 0xe0)
    && not (has_bits u 0xe0 0xc0)
    && has_bits u 0x80 0
    && bit_and u 0x7f == u

two_bytes : ℕ → Bool
unfolding join_2
two_bytes u =
    let b0 = bit_or 0xc0 (bit_and (u / 2 ^ 6) 0x1f) in
    let b1 = bit_or 0x80 (bit_and u 0x3f) in
    not (has_bits b0 0xf0 0xe0)
    && has_bits b0 0xe0 0xc0
    && has_bits b1 0xc0 0x80
    && join_2 b0 b1 == u

three_bytes : ℕ → Bool
unfolding join_3
three_bytes u =
    let b0 = bit_or 0xe0 (bit_and (u / 2 ^ 12) 0x0f) in
    let b1 = bit_or 0x80 (bit_and (u / 2 ^ 6) 0x3f) in
    let b2 = bit_or 0x80 (bit_and u 0x3f) in
    has_bits b0 0xf0 0xe0 && has_bits b1 0xc0 0x80 && has_bits b2 0xc0 0x80 && join_3 b0 b1 b2 == u

one_byte_table : passes one_byte 128 ≡ true
unfolding passes one_byte
one_byte_table = refl

two_bytes_table : passes two_bytes 2048 ≡ true
unfolding passes two_bytes
two_bytes_table = refl

three_bytes_table : passes three_bytes 65536 ≡ true
unfolding passes three_bytes
three_bytes_table = refl

decode_three :
    (b0 b1 b2 u n : ℕ)
    → (has_bits b0 0xf0 0xe0
        && has_bits b1 0xc0 0x80
        && has_bits b2 0xc0 0x80
        && join_3 b0 b1 b2 == u)
      ≡ true
    → 0x800 ≤ u
    → 3 ≤ n
    → decode_first b0 b1 b2 n ≡ (u, 3)
unfolding decode_first
decode_three b0 b1 b2 u n h big len = ground arith

decode_two :
    (b0 b1 b2 u n : ℕ)
    → (not (has_bits b0 0xf0 0xe0)
        && has_bits b0 0xe0 0xc0
        && has_bits b1 0xc0 0x80
        && join_2 b0 b1 == u)
      ≡ true
    → 0x80 ≤ u
    → u ≤ 0x7ff
    → 2 ≤ n
    → decode_first b0 b1 b2 n ≡ (u, 2)
unfolding decode_first
decode_two b0 b1 b2 u n h lo hi len = ground arith

decode_one :
    (b0 b1 b2 n : ℕ)
    → (not (has_bits b0 0xf0 0xe0) && not (has_bits b0 0xe0 0xc0) && has_bits b0 0x80 0) ≡ true
    → decode_first b0 b1 b2 n ≡ (b0, 1)
unfolding decode_first
decode_one b0 b1 b2 n h = ground arith

-- The forms that a unit is written in.
data Form (u : ℕ) : List ℕ → Type 0 where
  one : one_byte u ≡ true → Form u (u ∷ [])
  two :
      (b0 b1 : ℕ) → ((b2 n : ℕ) → 2 ≤ n → decode_first b0 b1 b2 n ≡ (u, 2)) → Form u (b0 ∷ b1 ∷ [])
  three :
      (b0 b1 b2 : ℕ)
      → ((n : ℕ) → 3 ≤ n → decode_first b0 b1 b2 n ≡ (u, 3))
      → Form u (b0 ∷ b1 ∷ b2 ∷ [])

written_one : (u : ℕ) → leb u 0x7f ≡ true → utf16_to_utf8 u ≡ u ∷ []
unfolding utf16_to_utf8 one_byte
written_one u small =
    let table = passes_lem one_byte 128 u (ground arith) one_byte_table in
    let same : bit_and u 0x7f ≡ u = ground arith in if-true _ _ small ∙ ap (λ b. b ∷ []) same

Form-one : (u : ℕ) → leb u 0x7f ≡ true → Form u (u ∷ [])
Form-one u small = one (passes_lem one_byte 128 u (ground arith) one_byte_table)

Form-two : (u : ℕ) → leb u 0x7f ≡ false → u ≤ 0x7ff → Form u (utf16_to_utf8 u)
unfolding utf16_to_utf8 two_bytes
Form-two u big small =
    let b0 = bit_or 0xc0 (bit_and (u / 2 ^ 6) 0x1f) in
    let b1 = bit_or 0x80 (bit_and u 0x3f) in
    let table = passes_lem two_bytes 2048 u (ground arith) two_bytes_table in
    let fits : (leb 0x80 u && leb u 0x7ff) ≡ true = ground arith in
    subst (Form u) (sym (if-false _ _ big ∙ if-true _ _ fits))
      (two b0 b1 (λ b2 n len. decode_two b0 b1 b2 u n table (ground arith) small len))

Form-three : (u : ℕ) → u < 65536 → 0x800 ≤ u → Form u (utf16_to_utf8 u)
unfolding utf16_to_utf8 three_bytes
Form-three u h big =
    let b0 = bit_or 0xe0 (bit_and (u / 2 ^ 12) 0x0f) in
    let b1 = bit_or 0x80 (bit_and (u / 2 ^ 6) 0x3f) in
    let b2 = bit_or 0x80 (bit_and u 0x3f) in
    let table = passes_lem three_bytes 65536 u h three_bytes_table in
    let not_one : leb u 0x7f ≡ false = ground arith in
    let not_two : (leb 0x80 u && leb u 0x7ff) ≡ false = ground arith in
    let fits : leb 0x800 u ≡ true = ground arith in
    subst (Form u) (sym (if-false _ _ not_one ∙ if-false _ _ not_two ∙ if-true _ _ fits))
      (three b0 b1 b2 (λ n len. decode_three b0 b1 b2 u n table big len))

form : (u : ℕ) → u < 65536 → Form u (utf16_to_utf8 u)
form u h = elim (Bool-cases (leb u 0x7f)) [
  | inl small ↦ subst (Form u) (sym (written_one u small)) (Form-one u small)
  | inr big ↦ elim (dec_le u 0x7ff) [
    | yes small ↦ Form-two u big small
    | no more ↦ Form-three u h (omega arith)
  ]
]

Form-read :
    (u : ℕ) (bytes rest : List ℕ)
    → Form u bytes
    → (utf8_to_utf16_first (bytes ++ rest) ≡ (u, length bytes))
      × (0 < length bytes)
      × (length bytes ≤ 3)
unfolding utf8_to_utf16_first one_byte
Form-read u _ rest (one h) = (
  decode_one u (get_or rest 0 0) (get_or rest 1 0) (suc (length rest)) (ground arith),
  omega arith,
  omega arith,
)
Form-read u _ rest (two b0 b1 h) = (h _ _ (omega arith), omega arith, omega arith)
Form-read u _ rest (three b0 b1 b2 h) = (h _ (omega arith), omega arith, omega arith)

-- Every 16-bit unit is read back from the one to three bytes that it is written in, whatever follows.
pub utf8_to_utf16_first-utf16_to_utf8 :
    (u : ℕ) (rest : List ℕ)
    → u < 65536
    → (utf8_to_utf16_first (utf16_to_utf8 u ++ rest) ≡ (u, length (utf16_to_utf8 u)))
      × (0 < length (utf16_to_utf8 u))
      × (length (utf16_to_utf8 u) ≤ 3)
utf8_to_utf16_first-utf16_to_utf8 u rest h = Form-read u _ rest (form u h)

-- The bytes of a string, one unit after the other.
abbrev pub utf8_of : List ℕ → List ℕ
utf8_of [] = []
utf8_of (u ∷ us) = utf16_to_utf8 u ++ utf8_of us

length-utf8_of : (us : List ℕ) → AllU16 us → length (utf8_of us) ≤ length us * 3
length-utf8_of [] h = omega arith
length-utf8_of (u ∷ us) h = omega (
  arith,
  length-append (utf16_to_utf8 u) (utf8_of us),
  (utf8_to_utf16_first-utf16_to_utf8 u [] h.0).2,
  length-utf8_of us h.1,
)

written :
    (us : List ℕ) (olen : ℕ) (out : List ℕ)
    → AllU16 us
    → length out + length us * 3 < olen
    → utf16_to_utf8_buf us olen out ≡ out ++ utf8_of us
unfolding utf16_to_utf8_buf
written [] olen out h fit = sym (append-nil out)
written (u ∷ us) olen out h fit =
    let bytes = utf16_to_utf8 u in
    let short = (utf8_to_utf16_first-utf16_to_utf8 u [] h.0).2 in
    let room : ltb (length out) olen ≡ true = lt→ltb _ _ (omega arith) in
    let fits : leb (length out + length bytes) olen ≡ true = le→leb _ _ (omega (arith, short)) in
    if-true _ _ room
    ∙ ap (utf16_to_utf8_buf us olen) (if-true _ _ fits)
    ∙ written us olen (out ++ bytes) h.1 (omega (arith, short, length-append out bytes))
    ∙ append_assoc out bytes (utf8_of us)

drop-length : (xs ys : List ℕ) → drop (length xs) (xs ++ ys) ≡ ys
drop-length [] ys = refl
drop-length (x ∷ xs) ys = drop-length xs ys

round :
    (fuel u olen : ℕ) (bytes rest : List ℕ)
    → utf8_to_utf16_first (bytes ++ rest) ≡ (u, length bytes)
    → 0 < length bytes
    → 0 < olen
    → utf8_to_utf16_buf (suc fuel) (bytes ++ rest) olen ≡ u ∷ utf8_to_utf16_buf fuel rest (olen - 1)
unfolding utf8_to_utf16_buf
round fuel u olen [] rest e h room = elim h [ ]
round fuel u olen (b ∷ bytes) rest e h room =
    let s = bytes ++ rest in
    let after = λ (r : ℕ × ℕ).
      if ltb 0 olen
      then (if r.1 == 0 then [] else r.0 ∷ utf8_to_utf16_buf fuel (drop r.1 (b ∷ s)) (olen - 1))
      else [] in
    let taken : (suc (length bytes) == 0) ≡ false = ground arith in
    ap after e
    ∙ if-true _ _ (lt→ltb _ _ room)
    ∙ if-false _ _ taken
    ∙ ap (λ t. u ∷ utf8_to_utf16_buf fuel t (olen - 1)) (drop-length bytes rest)

read :
    (us : List ℕ) (fuel olen : ℕ)
    → AllU16 us
    → length us ≤ fuel
    → length us < olen
    → utf8_to_utf16_buf fuel (utf8_of us) olen ≡ us
unfolding utf8_to_utf16_buf
read [] fuel olen h enough room = refl
read (u ∷ us) zero olen h enough room = elim enough [ ]
read (u ∷ us) (suc fuel) olen h enough room =
    let (e, some_bytes, few) = utf8_to_utf16_first-utf16_to_utf8 u (utf8_of us) h.0 in
    round fuel u olen (utf16_to_utf8 u) (utf8_of us) e some_bytes (omega arith)
    ∙ ap (λ t. u ∷ t) (read us fuel (olen - 1) h.1 (omega arith) (omega arith))

length-le-utf8_of : (us : List ℕ) → AllU16 us → length us ≤ length (utf8_of us)
length-le-utf8_of [] h = omega arith
length-le-utf8_of (u ∷ us) h = omega (
  arith,
  length-append (utf16_to_utf8 u) (utf8_of us),
  (utf8_to_utf16_first-utf16_to_utf8 u [] h.0).1,
  length-le-utf8_of us h.1,
)

-- No unit of a 16-bit string is left out when it is written as UTF-8: the buffer is large enough.
pub utf16_to_utf8_string_complete : (us : List ℕ) → AllU16 us → utf16_to_utf8_string us ≡ utf8_of us
unfolding utf16_to_utf8_string
utf16_to_utf8_string_complete us h = written us (length us * 3 + 1) [] h (omega arith)

-- Every string of 16-bit units is read back whole from the UTF-8 that it is written in.
pub utf8_to_utf16_string-utf16_to_utf8_string :
    (us : List ℕ) → AllU16 us → utf8_to_utf16_string (utf16_to_utf8_string us) ≡ us
unfolding utf8_to_utf16_string
utf8_to_utf16_string-utf16_to_utf8_string us h =
    let e = utf16_to_utf8_string_complete us h in
    let long = length-le-utf8_of us h in
    ap utf8_to_utf16_string e
    ∙ read us (length (utf8_of us)) (length (utf8_of us) + 1) h long (omega arith)

len_one : (u : ℕ) → utf16_to_utf8_len (u ∷ []) ≡ length (utf16_to_utf8 u)
unfolding utf16_to_utf8_len utf16_to_utf8
len_one u = ground arith

-- The length that is computed ahead is that of the UTF-8 string.
pub utf16_to_utf8_len-utf8_of : (us : List ℕ) → utf16_to_utf8_len us ≡ length (utf8_of us)
unfolding utf16_to_utf8_len
utf16_to_utf8_len-utf8_of [] = refl
utf16_to_utf8_len-utf8_of (u ∷ us) =
    omega
      (arith, len_one u, length-append (utf16_to_utf8 u) (utf8_of us), utf16_to_utf8_len-utf8_of us)
