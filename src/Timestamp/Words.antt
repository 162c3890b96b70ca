-- ===== src/Timestamp/Words.antt =====
-- The words of a text, as onnxruntime/src/util.cpp splits it into Chinese characters, words of other
-- letters and, for timestamps, digits and punctuation.
use asr_2pass.Prelude.{
  ℕ, ◌+◌, ◌≡◌, refl, ap, ◌∙◌, sym, Bool, true, false, ◌||◌, if◌then◌else◌, List, [], ◌∷◌, ◌++◌,
  ◌==◌, length, inl, inr, Bool-cases, ==_iff,
}
use mathlib.Core.List.{append_assoc, append-nil}
use asr_2pass.Prelude.Bytes.{within}
use asr_2pass.Encode.{utf8_to_utf16_buf, utf16_to_utf8}
use asr_2pass.Encode.Classes.{is_empty, every, any_of, is_chinese_character, concat, concat-push}
pub mod Spaces

-- `TimestampIsDigit`, `TimestampIsAlpha` and `TimestampIsPunctuation`, of a 16-bit unit.
unfoldable pub timestamp_is_digit : ℕ → Bool
timestamp_is_digit u16 = within 48 57 u16

unfoldable pub timestamp_is_alpha : ℕ → Bool
timestamp_is_alpha u16 = within 65 90 u16 || within 97 122 u16

unfoldable pub timestamp_is_punctuation : ℕ → Bool
timestamp_is_punctuation u16 =
    if u16 == 0x26 || u16 == 0x27 || u16 == 0x2d
    then false
    else within 0x21 0x2f u16
      || within 0x3a 0x40 u16
      || within 0x5b 0x60 u16
      || within 0x7b 0x7e u16
      || within 0x2000 0x206f u16
      || within 0x3000 0x303f u16

-- The bytes of u8"，。？、,?".
abbrev pub punctuation : List ℕ
punctuation =
    0xef ∷ 0xbc ∷ 0x8c ∷ 0xe3 ∷ 0x80 ∷ 0x82 ∷ 0xef ∷ 0xbc ∷ 0x9f ∷ 0xe3 ∷ 0x80 ∷ 0x81 ∷ 0x2c ∷ 0x3f
    ∷ []

-- `TimestampIsPunctuation`, of a string: the bytes are looked up one by one, and the empty string is
-- punctuation.
unfoldable pub is_punctuation_str : List ℕ → Bool
is_punctuation_str str = every (λ ch. any_of (λ p. p == ch) punctuation) str

-- A buffer read as a string that ends in a NUL.
abbrev pub c_str : List ℕ → List ℕ
c_str [] = []
c_str (b ∷ s) = let rest = c_str s in if b == 0 then [] else b ∷ rest

-- A unit as the string that `Utf16ToUtf8` leaves in `u8buf`.
unfoldable pub unit_str : ℕ → List ℕ
unfolding utf16_to_utf8
unit_str u = c_str (utf16_to_utf8 u)

-- The units of the input, in a buffer of `ilen + 1`.
unfoldable pub units_of : List ℕ → List ℕ
unfolding utf8_to_utf16_buf
units_of input_str = utf8_to_utf16_buf (length input_str) input_str (length input_str + 1)

abbrev pub keep_chinese : List ℕ → List (List ℕ)
keep_chinese [] = []
keep_chinese (u ∷ units) =
    let rest = keep_chinese units in if is_chinese_character u then unit_str u ∷ rest else rest

-- `KeepChineseCharacterAndSplit`
unfoldable pub keep_chinese_character_and_split : List ℕ → List (List ℕ)
unfolding units_of unit_str is_chinese_character
keep_chinese_character_and_split input_str = keep_chinese (units_of input_str)

-- `if(!eng_word.empty()) characters.push_back(eng_word)`
abbrev pub flush : List ℕ → List (List ℕ) → List (List ℕ)
flush eng_word characters = if is_empty eng_word then characters else characters ++ eng_word ∷ []

-- The loop that both splittings share: a unit that stands `alone` is a word, a space ends a word, and
-- any other unit goes on with the word at hand.
unfoldable pub split_units : (ℕ → Bool) → List ℕ → List ℕ → List (List ℕ) → List (List ℕ)
unfolding unit_str
split_units alone [] eng_word characters = flush eng_word characters
split_units alone (u ∷ units) eng_word characters =
    let as_word = split_units alone units [] (flush eng_word characters ++ unit_str u ∷ []) in
    let at_space = split_units alone units [] (flush eng_word characters) in
    let go_on = split_units alone units (eng_word ++ unit_str u) characters in
    if alone u then as_word else if u == 0x20 then at_space else go_on

-- `SplitChiEngCharacters`
unfoldable pub split_chi_eng_characters : List ℕ → List (List ℕ)
unfolding split_units units_of is_chinese_character
split_chi_eng_characters input_str = split_units is_chinese_character (units_of input_str) [] []

abbrev pub stands_alone : ℕ → Bool
stands_alone u = is_chinese_character u || timestamp_is_digit u || timestamp_is_punctuation u

-- `TimestampSplitChiEngCharacters`
unfoldable pub timestamp_split_chi_eng_characters : List ℕ → List (List ℕ)
unfolding split_units units_of is_chinese_character timestamp_is_digit timestamp_is_punctuation
timestamp_split_chi_eng_characters input_str = split_units stands_alone (units_of input_str) [] []

-- The text of the units, the spaces left out.
abbrev pub without_spaces : List ℕ → List ℕ
without_spaces [] = []
without_spaces (u ∷ units) =
    let rest = without_spaces units in if u == 0x20 then rest else unit_str u ++ rest

concat-flush :
    (eng_word : List ℕ) (characters : List (List ℕ))
    → concat (flush eng_word characters) ≡ concat characters ++ eng_word
concat-flush [] characters = sym (append-nil (concat characters))
concat-flush (b ∷ w) characters = concat-push characters (b ∷ w)

-- The three ways to go on from a unit, with what each of them has to give.
split_case :
    (lone space : Bool) (as_word at_space go_on : List (List ℕ)) (before text rest : List ℕ)
    → (lone ≡ true → space ≡ false)
    → concat as_word ≡ before ++ (text ++ rest)
    → concat at_space ≡ before ++ rest
    → concat go_on ≡ before ++ (text ++ rest)
    → concat (if lone then as_word else if space then at_space else go_on)
      ≡ before ++ (if space then rest else text ++ rest)
split_case true true x y z before text rest only hx hy hz = absurd (cc (only refl))
split_case true false x y z before text rest only hx hy hz = hx
split_case false true x y z before text rest only hx hy hz = hy
split_case false false x y z before text rest only hx hy hz = hz

no_space : (alone : ℕ → Bool) (u : ℕ) → alone 0x20 ≡ false → alone u ≡ true → (u == 0x20) ≡ false
no_space alone u h lone = elim (Bool-cases (u == 0x20)) [
  | inl e ↦ absurd (cc (h, lone, ap alone ((==_iff u 0x20).0 e)))
  | inr e ↦ e
]

pub split_units-concat :
    (alone : ℕ → Bool) (units eng_word : List ℕ) (characters : List (List ℕ))
    → alone 0x20 ≡ false
    → concat (split_units alone units eng_word characters)
      ≡ (concat characters ++ eng_word) ++ without_spaces units
unfolding split_units
split_units-concat alone [] eng_word characters h =
    concat-flush eng_word characters ∙ sym (append-nil (concat characters ++ eng_word))
split_units-concat alone (u ∷ units) eng_word characters h =
    let before = concat characters ++ eng_word in
    let rest = without_spaces units in
    let flushed = flush eng_word characters in
    split_case (alone u) (u == 0x20) (split_units alone units [] (flushed ++ unit_str u ∷ []))
      (split_units alone units [] flushed)
      (split_units alone units (eng_word ++ unit_str u) characters) before (unit_str u) rest
      (no_space alone u h)
      (split_units-concat alone units [] (flushed ++ unit_str u ∷ []) h
        ∙ ap (λ t. t ++ rest)
            (append-nil (concat (flushed ++ unit_str u ∷ []))
              ∙ concat-push flushed (unit_str u)
              ∙ ap (λ t. t ++ unit_str u) (concat-flush eng_word characters))
        ∙ append_assoc before (unit_str u) rest)
      (split_units-concat alone units [] flushed h
        ∙ ap (λ t. t ++ rest) (append-nil (concat flushed) ∙ concat-flush eng_word characters))
      (split_units-concat alone units (eng_word ++ unit_str u) characters h
        ∙ ap (λ t. t ++ rest) (sym (append_assoc (concat characters) eng_word (unit_str u)))
        ∙ append_assoc before (unit_str u) rest)
