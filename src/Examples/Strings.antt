-- ===== src/Examples/Strings.antt =====
-- The theorems on strings and timestamps (encode_converter.cpp, utf8-string.cpp and util.cpp of
-- onnxruntime/src) at concrete inputs.
use asr_2pass.Prelude.{
  ℕ, suc, ◌*◌, ◌≤◌, ◌<◌, ◌≡◌, refl, ◌>>=◌, List, [], ◌∷◌, length, some, Returns, arith, drop,
}
use asr_2pass.Prelude.Int.{pos, ◌+ℤ◌}
use asr_2pass.Encode.{utf8_to_utf16_string, utf16_to_utf8_string, utf16_to_utf8_len}
use asr_2pass.Encode.RoundTrip.{
  utf16_to_utf8_string_complete, utf8_to_utf16_string-utf16_to_utf8_string,
  utf16_to_utf8_len-utf8_of, utf8_of, AllU16,
}
use asr_2pass.Encode.Classes.{
  merge_english_word, merge_english_word-concat, utf8_to_charset, one, three,
  utf8_to_charset-concat_chars, concat,
}
use asr_2pass.Text.{
  string_length, string2chars, split_string, split_str_from, split_utf8_string_to_chars,
  utf8_string_length,
}
use asr_2pass.Text.Characters.{split_utf8_string_to_chars-concat, string_length-string2chars}
use asr_2pass.Text.Splitting.{split_string-join, split_str_from-split_string, join}
use asr_2pass.Timestamp.Words.{
  is_punctuation_str, split_chi_eng_characters, timestamp_split_chi_eng_characters,
}
use asr_2pass.Timestamp.Words.Spaces.{AllUnits, no_spaces, split_chi_eng_characters-concat}
use asr_2pass.Timestamp.Align.{align, backtrack, timestamp_add, edit_table}
use asr_2pass.Timestamp.Align.Distance.{edit_table-distance_rows, distance_rows}
use asr_2pass.Timestamp.Align.Walk.{align-Paired, NoPunctuation, Paired, words, spoken}
use asr_2pass.Timestamp.Smooth.{Timestamp, smooth, spread, timestamp_smooth}
use asr_2pass.Timestamp.Smooth.Counts.{smooth-counts}
use asr_2pass.Timestamp.Smooth.Whole.{timestamp_smooth-counts, spread-Chain, Chain}

-- "a b", "你", and others.
abbrev a_space_b : List ℕ
a_space_b = 97 ∷ 32 ∷ 98 ∷ []

abbrev ni : List ℕ
ni = 0xe4 ∷ 0xbd ∷ 0xa0 ∷ []

abbrev ni_units : List ℕ
ni_units = 0x4f60 ∷ 97 ∷ []

abbrev two_words : List (List ℕ)
two_words = (97 ∷ []) ∷ ni ∷ []

abbrev other_words : List (List ℕ)
other_words = (98 ∷ []) ∷ ni ∷ (49 ∷ []) ∷ []

abbrev two_times : List Timestamp
two_times = (pos 10, pos 40) ∷ (pos 40, pos 90) ∷ []

ni_units-AllU16 : AllU16 ni_units
ni_units-AllU16 = (omega arith, (omega arith, tt))

utf16_to_utf8_string_complete_example : utf16_to_utf8_string ni_units ≡ utf8_of ni_units
utf16_to_utf8_string_complete_example = utf16_to_utf8_string_complete ni_units ni_units-AllU16

utf8_to_utf16_string-utf16_to_utf8_string_example :
    utf8_to_utf16_string (utf16_to_utf8_string ni_units) ≡ ni_units
utf8_to_utf16_string-utf16_to_utf8_string_example =
    utf8_to_utf16_string-utf16_to_utf8_string ni_units ni_units-AllU16

utf16_to_utf8_len-utf8_of_example : utf16_to_utf8_len ni_units ≡ length (utf8_of ni_units)
utf16_to_utf8_len-utf8_of_example = utf16_to_utf8_len-utf8_of ni_units

merge_english_word-concat_example :
    (out : List (List ℕ)) × (merge_english_word two_words (0 ∷ 1 ∷ []) ≡ some out)
    × (concat out ≡ concat two_words)
merge_english_word-concat_example = merge_english_word-concat two_words (0 ∷ 1 ∷ []) (omega arith)

utf8_to_charset-concat_chars_example : utf8_to_charset 2 (concat two_words) ≡ some two_words
utf8_to_charset-concat_chars_example =
    utf8_to_charset-concat_chars 2 two_words
      (one (omega arith), (three (omega arith) (omega arith), tt)) (omega arith)

split_utf8_string_to_chars-concat_example :
    (concat (split_utf8_string_to_chars (97 ∷ ni)) ≡ 97 ∷ ni)
    × (utf8_string_length (97 ∷ ni) ≡ length (split_utf8_string_to_chars (97 ∷ ni)))
split_utf8_string_to_chars-concat_example = split_utf8_string_to_chars-concat (97 ∷ ni)

split_string-join_example :
    Returns (λ out. join (32 ∷ []) out ≡ a_space_b) (split_string 4 a_space_b (32 ∷ []))
split_string-join_example = split_string-join 4 a_space_b (32 ∷ []) (omega arith) (omega arith)

split_str_from-split_string_example :
    split_str_from 4 a_space_b 1 (32 ∷ []) ≡ split_string 4 (drop 1 a_space_b) (32 ∷ [])
split_str_from-split_string_example = split_str_from-split_string 4 a_space_b 1 (32 ∷ [])

-- "a b你"
abbrev some_units : List ℕ
some_units = 97 ∷ 32 ∷ 98 ∷ 0x4f60 ∷ []

some_units-AllUnits : AllUnits some_units
some_units-AllUnits = (
  omega arith,
  omega arith,
  (omega arith, omega arith, (omega arith, omega arith, (omega arith, omega arith, tt))),
)

split_chi_eng_characters-concat_example :
    (concat (split_chi_eng_characters (utf8_of some_units)) ≡ no_spaces (utf8_of some_units))
    × (concat (timestamp_split_chi_eng_characters (utf8_of some_units))
        ≡ no_spaces (utf8_of some_units))
split_chi_eng_characters-concat_example =
    split_chi_eng_characters-concat some_units some_units-AllUnits

two_words-NoPunctuation : NoPunctuation two_words
unfolding is_punctuation_str
two_words-NoPunctuation = (refl, (refl, tt))

other_words-NoPunctuation : NoPunctuation other_words
unfolding is_punctuation_str
other_words-NoPunctuation = (refl, (refl, (refl, tt)))

edit_table-distance_rows_example :
    edit_table two_words other_words ≡ distance_rows [] two_words other_words
edit_table-distance_rows_example = edit_table-distance_rows two_words other_words

align-Paired_example :
    Returns
      (λ a.
        Paired a.alignment_str1 a.alignment_str2
        × (spoken a.alignment_str1 ≡ two_words)
        × (spoken a.alignment_str2 ≡ other_words))
      (align two_words other_words)
align-Paired_example =
    align-Paired two_words other_words two_words-NoPunctuation other_words-NoPunctuation

smooth-counts_example :
    Returns
      (λ out. length out ≡ words ([] ∷ other_words))
      (smooth two_times ((99 ∷ []) ∷ [] ∷ ni ∷ [] ∷ []) ([] ∷ other_words))
smooth-counts_example =
    smooth-counts two_times ((99 ∷ []) ∷ [] ∷ ni ∷ [] ∷ []) ([] ∷ other_words)
      (refl, (refl, (refl, (refl, tt)))) (omega arith) (omega arith)

timestamp_smooth-counts_example :
    Returns
      (λ out. length out ≡ length other_words)
      (timestamp_smooth two_words other_words two_times)
timestamp_smooth-counts_example =
    timestamp_smooth-counts two_words other_words two_times two_words-NoPunctuation
      other_words-NoPunctuation (omega arith) (omega arith)

spread-Chain_example :
    (q : ℕ) × (q * 3 ≤ 80)
    × (80 < suc q * 3)
    × Chain q (pos 10) (spread 3 (pos 10) (pos 10 +ℤ pos 80)) (pos 10 +ℤ pos 80)
    × (length (spread 3 (pos 10) (pos 10 +ℤ pos 80)) ≡ 3)
spread-Chain_example = spread-Chain 3 80 (pos 10) (omega arith)

string_length-string2chars_example :
    string_length 4 (97 ∷ ni) ≡ (string2chars 4 (97 ∷ ni) >>= λ chars. some (length chars))
string_length-string2chars_example = string_length-string2chars 4 (97 ∷ ni)

-- The words "a" and "a", ",": the comma is left out of one alignment only, which is the shorter one.
align_uneven :
    align ((97 ∷ []) ∷ []) ((97 ∷ []) ∷ (44 ∷ []) ∷ [])
    ≡ some (record { alignment_str1 = [] ∷ (97 ∷ []) ∷ []; alignment_str2 = (97 ∷ []) ∷ [] })
unfolding align backtrack edit_table timestamp_add is_punctuation_str
align_uneven = refl
