-- ===== src/Text.antt =====
-- The strings of onnxruntime/src/utf8-string.cpp, and the splitting of onnxruntime/src/util.cpp. A
-- string is the list of its bytes, and `none` stands for a run that does not return.
use Prim.Native.Nat.{bit_and, bit_or}
use asr_2pass.Prelude.{
  ℕ, zero, suc, ◌+◌, ◌*◌, ◌^◌, Bool, true, false, ◌&&◌, ◌||◌, not, if◌then◌else◌, Option, none,
  some, List, [], ◌∷◌, ◌++◌, leb, ◌==◌, length, drop, take, ◌>>=◌,
}
use asr_2pass.Prelude.Bytes.{has_bits, isalpha, within}
use asr_2pass.Encode.Classes.{is_empty, every}
pub mod Characters
pub mod Splitting

-- `char_length`; the program is stopped by `CHECK_LE` on a byte from 0xF8 on.
unfoldable pub char_length : ℕ → Option ℕ
char_length ch =
    if has_bits ch 0xf8 0xf8
    then none
    else if has_bits ch 0x80 0x00
    then some 1
    else if has_bits ch 0xe0 0xc0
    then some 2
    else if has_bits ch 0xf0 0xe0
    then some 3
    else if has_bits ch 0xf8 0xf0
    then some 4
    else some 1

-- `string_length`; a round goes on by a byte at least, so the length of the string is enough fuel.
unfoldable pub string_length : ℕ → List ℕ → Option ℕ
unfolding char_length
string_length fuel [] = some 0
string_length zero (ch ∷ str) = none
string_length (suc fuel) (ch ∷ str) =
    char_length ch >>= λ n. string_length fuel (drop n (ch ∷ str)) >>= λ len. some (suc len)

-- `string2chars`
unfoldable pub string2chars : ℕ → List ℕ → Option (List (List ℕ))
unfolding char_length
string2chars fuel [] = some []
string2chars zero (ch ∷ str) = none
string2chars (suc fuel) (ch ∷ str) = char_length ch >>= λ n.
    string2chars fuel (drop n (ch ∷ str)) >>= λ chars. some (take n (ch ∷ str) ∷ chars)

-- `" \n\r\t\f\v"`
abbrev pub is_whitespace : ℕ → Bool
is_whitespace ch = ch == 32 || ch == 10 || ch == 13 || ch == 9 || ch == 12 || ch == 11

-- `ltrim`: the string from the first character that is no white space on.
unfoldable pub ltrim : List ℕ → List ℕ
ltrim [] = []
ltrim (ch ∷ str) = let rest = ltrim str in if is_whitespace ch then rest else ch ∷ str

-- `rtrim`: the string to the last character that is no white space.
unfoldable pub rtrim : List ℕ → List ℕ
rtrim [] = []
rtrim (ch ∷ str) =
    let rest = rtrim str in if is_empty rest && is_whitespace ch then [] else ch ∷ rest

unfoldable pub trim : List ℕ → List ℕ
unfolding ltrim rtrim
trim str = rtrim (ltrim str)

abbrev pub starts_with : List ℕ → List ℕ → Bool
starts_with [] s = true
starts_with (d ∷ delim) [] = false
starts_with (d ∷ delim) (ch ∷ s) = d == ch && starts_with delim s

-- `std::string::find`
unfoldable pub find : List ℕ → List ℕ → Option ℕ
find delim [] = if is_empty delim then some 0 else none
find delim (ch ∷ s) =
    let later = find delim s >>= λ pos. some (suc pos) in
    if starts_with delim (ch ∷ s) then some 0 else later

-- What is done where `find` stands: the string is the last part, or the part before the delimiter is
-- followed by those of the rest.
abbrev pub split_at : Option ℕ → List ℕ → (ℕ → Option (List (List ℕ))) → Option (List (List ℕ))
split_at none s rest = some (s ∷ [])
split_at (some pos) s rest = rest pos >>= λ output. some (take pos s ∷ output)

-- `split_string`: with an empty delimiter the loop does not end.
unfoldable pub split_string : ℕ → List ℕ → List ℕ → Option (List (List ℕ))
unfolding find
split_string zero s delim = none
split_string (suc fuel) s delim =
    split_at (find delim s) s (λ pos. split_string fuel (drop (pos + length delim) s) delim)

-- `SplitStr`, of util.cpp: the string is kept, and the search goes on from `start`.
unfoldable pub split_str_from : ℕ → List ℕ → ℕ → List ℕ → Option (List (List ℕ))
unfolding find
split_str_from zero s start delimiter = none
split_str_from (suc fuel) s start delimiter =
    split_at (find delimiter (drop start s)) (drop start s)
      (λ pos. split_str_from fuel s (start + pos + length delimiter) delimiter)

-- The number of bytes of `SplitUTF8StringToChars` and `UTF8StringLength`: a byte that leads no
-- character keeps the number of the one before.
unfoldable pub next_bytes : ℕ → ℕ → ℕ
next_bytes bytes ch =
    if has_bits ch 0x80 0x00
    then 1
    else if has_bits ch 0xe0 0xc0
    then 2
    else if has_bits ch 0xf0 0xe0
    then 3
    else if has_bits ch 0xf8 0xf0
    then 4
    else bytes

-- The loop of `SplitUTF8StringToChars`
unfoldable pub split_chars : ℕ → ℕ → List ℕ → List (List ℕ)
unfolding next_bytes
split_chars fuel bytes [] = []
split_chars zero bytes (ch ∷ str) = []
split_chars (suc fuel) bytes (ch ∷ str) =
    let n = next_bytes bytes ch in take n (ch ∷ str) ∷ split_chars fuel n (drop n (ch ∷ str))

unfoldable pub split_utf8_string_to_chars : List ℕ → List (List ℕ)
unfolding split_chars
split_utf8_string_to_chars str = split_chars (length str) 1 str

-- The loop of `UTF8StringLength`
unfoldable pub count_chars : ℕ → ℕ → List ℕ → ℕ
unfolding next_bytes
count_chars fuel bytes [] = 0
count_chars zero bytes (ch ∷ str) = 0
count_chars (suc fuel) bytes (ch ∷ str) =
    let n = next_bytes bytes ch in suc (count_chars fuel n (drop n (ch ∷ str)))

unfoldable pub utf8_string_length : List ℕ → ℕ
unfolding count_chars
utf8_string_length str = count_chars (length str) 1 str

-- `IsAlpha`
unfoldable pub is_alpha : List ℕ → Bool
is_alpha str = every isalpha str

-- `Str2IntFunc`, on a string that ends in a NUL, and `IsChinese`.
unfoldable pub str2int_func : List ℕ → ℕ
str2int_func (a ∷ b ∷ c ∷ s) =
    if not (has_bits a 0xf0 0xe0) || not (has_bits b 0xc0 0x80) || not (has_bits c 0xc0 0x80)
    then 0
    else bit_or (bit_or (bit_and a 0x0f * 2 ^ 12) (bit_and b 0x3f * 2 ^ 6)) (bit_and c 0x3f)
str2int_func _ = 0

unfoldable pub is_chinese : List ℕ → Bool
unfolding str2int_func
is_chinese ch = length ch == 3 && within 19968 40959 (str2int_func ch)
