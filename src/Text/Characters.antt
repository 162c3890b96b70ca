-- ===== src/Text/Characters.antt =====
-- The characters of `SplitUTF8StringToChars` (onnxruntime/src/utf8-string.cpp) against the string and its length.
use asr_2pass.Prelude.{
  ℕ, zero, suc, ◌≤◌, ◌<◌, ◌≡◌, refl, ap, ◌∙◌, List, [], ◌∷◌, ◌++◌, length, drop, take, arith,
  take-append-drop, length-drop, Option, none, some, ◌>>=◌,
}
use asr_2pass.Encode.Classes.{concat}
use asr_2pass.Text.{
  string_length, next_bytes, split_chars, split_utf8_string_to_chars, count_chars,
  utf8_string_length, char_length, string2chars,
}

next_bytes-positive : (bytes ch : ℕ) → 0 < bytes → 0 < next_bytes bytes ch
unfolding next_bytes
next_bytes-positive bytes ch h = ground arith

drop-shorter : (n ch : ℕ) (str : List ℕ) → 0 < n → length (drop n (ch ∷ str)) ≤ length str
drop-shorter n ch str h = omega (arith, length-drop n (ch ∷ str))

split_chars-concat :
    (fuel bytes : ℕ) (str : List ℕ)
    → 0 < bytes
    → length str ≤ fuel
    → concat (split_chars fuel bytes str) ≡ str
unfolding split_chars
split_chars-concat fuel bytes [] h enough = refl
split_chars-concat zero bytes (ch ∷ str) h enough = absurd (omega arith)
split_chars-concat (suc fuel) bytes (ch ∷ str) h enough =
    let n = next_bytes bytes ch in
    let positive = next_bytes-positive bytes ch h in
    let shorter = drop-shorter n ch str positive in
    ap (λ t. take n (ch ∷ str) ++ t)
      (split_chars-concat fuel n (drop n (ch ∷ str)) positive (omega arith))
    ∙ take-append-drop n (ch ∷ str)

count_chars-split_chars :
    (fuel bytes : ℕ) (str : List ℕ)
    → count_chars fuel bytes str ≡ length (split_chars fuel bytes str)
unfolding split_chars count_chars
count_chars-split_chars fuel bytes [] = refl
count_chars-split_chars zero bytes (ch ∷ str) = refl
count_chars-split_chars (suc fuel) bytes (ch ∷ str) =
    let n = next_bytes bytes ch in ap suc (count_chars-split_chars fuel n (drop n (ch ∷ str)))

-- The characters of `SplitUTF8StringToChars` are together the string, whatever its bytes are, and
-- `UTF8StringLength` is their number.
pub split_utf8_string_to_chars-concat :
    (str : List ℕ)
    → (concat (split_utf8_string_to_chars str) ≡ str)
      × (utf8_string_length str ≡ length (split_utf8_string_to_chars str))
unfolding split_utf8_string_to_chars utf8_string_length
split_utf8_string_to_chars-concat str = (
  split_chars-concat (length str) 1 str (omega arith) (omega arith),
  count_chars-split_chars (length str) 1 str,
)

-- What follows a character is counted and collected alike.
collected :
    (rest : Option (List (List ℕ))) (c : List ℕ)
    → ((rest >>= λ chars. some (length chars)) >>= λ len. some (suc len))
      ≡ ((rest >>= λ chars. some (c ∷ chars)) >>= λ chars. some (length chars))
collected none c = refl
collected (some chars) c = refl

collected_round :
    (bytes : Option ℕ) (count : ℕ → Option ℕ) (collect : ℕ → Option (List (List ℕ)))
    → (head : ℕ → List ℕ) → ((n : ℕ) → count n ≡ (collect n >>= λ chars. some (length chars)))
    → (bytes >>= λ n. count n >>= λ len. some (suc len)) ≡ (
        (bytes >>= λ n. collect n >>= λ chars. some (head n ∷ chars)) >>= λ chars.
        some (length chars))
collected_round none count collect head same = refl
collected_round (some n) count collect head same =
    ap (λ t. t >>= λ len. some (suc len)) (same n) ∙ collected (collect n) (head n)

-- `string_length` and `string2chars` are stopped by the same strings, and on any other the length is
-- the number of the characters.
pub string_length-string2chars :
    (fuel : ℕ) (str : List ℕ)
    → string_length fuel str ≡ (string2chars fuel str >>= λ chars. some (length chars))
unfolding string_length string2chars
string_length-string2chars fuel [] = refl
string_length-string2chars zero (ch ∷ str) = refl
string_length-string2chars (suc fuel) (ch ∷ str) =
    collected_round (char_length ch) (λ n. string_length fuel (drop n (ch ∷ str)))
      (λ n. string2chars fuel (drop n (ch ∷ str))) (λ n. take n (ch ∷ str))
      (λ n. string_length-string2chars fuel (drop n (ch ∷ str)))
