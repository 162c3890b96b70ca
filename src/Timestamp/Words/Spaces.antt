-- ===== src/Timestamp/Words/Spaces.antt =====
-- The bytes of a text in the words that onnxruntime/src/util.cpp splits it into.
use asr_2pass.Prelude.{
  ℕ, ◌<◌, ◌≡◌, refl, ap, ◌∙◌, sym, Bool, true, false, ◌||◌, if◌then◌else◌, List, [], ◌∷◌, ◌++◌,
  ◌==◌, arith, inl, inr, Bool-cases, if-true, if-false,
}
use asr_2pass.Prelude.Bytes.{passes, passes_lem, same_bytes}
use asr_2pass.Encode.{utf16_to_utf8, utf8_to_utf16_string}
use asr_2pass.Encode.Classes.{concat, is_chinese_character}
use asr_2pass.Encode.RoundTrip.{
  AllU16, utf8_of, utf16_to_utf8_string_complete, utf8_to_utf16_string-utf16_to_utf8_string,
}
use asr_2pass.Timestamp.Words.{
  c_str, unit_str, units_of, without_spaces, split_units-concat, stands_alone,
  split_chi_eng_characters, timestamp_split_chi_eng_characters,
}

-- The bytes that are not 0x20.
abbrev pub no_spaces : List ℕ → List ℕ
no_spaces [] = []
no_spaces (b ∷ s) = let rest = no_spaces s in if b == 0x20 then rest else b ∷ rest

-- Units of 16 bits, of which none is 0.
abbrev pub AllUnits : List ℕ → Type 0
AllUnits [] = Unit {0}
AllUnits (u ∷ us) = (0 < u) × (u < 65536) × AllUnits us

AllUnits-AllU16 : (us : List ℕ) → AllUnits us → AllU16 us
AllUnits-AllU16 [] h = tt
AllUnits-AllU16 (u ∷ us) (p, h, hs) = (h, AllUnits-AllU16 us hs)

same_bytes-eq : (xs ys : List ℕ) → same_bytes xs ys ≡ true → xs ≡ ys
same_bytes-eq [] [] h = refl
same_bytes-eq [] (y ∷ ys) h = absurd (cc)
same_bytes-eq (x ∷ xs) [] h = absurd (cc)
same_bytes-eq (x ∷ xs) (y ∷ ys) h =
    let first : x ≡ y = ground arith in
    let rest : same_bytes xs ys ≡ true = ground arith in
    ap (λ z. z ∷ xs) first ∙ ap (λ zs. y ∷ zs) (same_bytes-eq xs ys rest)

no_spaces-append : (xs ys : List ℕ) → no_spaces (xs ++ ys) ≡ no_spaces xs ++ no_spaces ys
no_spaces-append [] ys = refl
no_spaces-append (x ∷ xs) ys = elim (Bool-cases (x == 0x20)) [
  | inl e ↦
      if-true _ _ e ∙ no_spaces-append xs ys ∙ sym (ap (λ t. t ++ no_spaces ys) (if-true _ _ e))
  | inr e ↦
      if-false _ _ e
      ∙ ap (λ t. x ∷ t) (no_spaces-append xs ys)
      ∙ sym (ap (λ t. t ++ no_spaces ys) (if-false _ _ e))
]

-- The bytes of a unit that are kept: none of a space, and all of any other unit.
kept_bytes : ℕ → Bool
unfolding utf16_to_utf8
kept_bytes u =
    u == 0
    || same_bytes (if u == 0x20 then [] else c_str (utf16_to_utf8 u)) (no_spaces (utf16_to_utf8 u))

kept_bytes_table : passes kept_bytes 65536 ≡ true
unfolding passes kept_bytes
kept_bytes_table = refl

unit_str-no_spaces :
    (u : ℕ)
    → 0 < u
    → u < 65536
    → (if u == 0x20 then [] else unit_str u) ≡ no_spaces (utf16_to_utf8 u)
unfolding unit_str kept_bytes
unit_str-no_spaces u p h =
    let other : (u == 0) ≡ false = ground arith in
    same_bytes-eq _ _ (
      ap
        (λ b.
          b
          || same_bytes (if u == 0x20 then [] else c_str (utf16_to_utf8 u))
              (no_spaces (utf16_to_utf8 u)))
        (sym other)
      ∙ passes_lem kept_bytes 65536 u h kept_bytes_table)

if-append :
    (b : Bool) (s rest : List ℕ) → (if b then rest else s ++ rest) ≡ (if b then [] else s) ++ rest
if-append true s rest = refl
if-append false s rest = refl

without_spaces-no_spaces : (us : List ℕ) → AllUnits us → without_spaces us ≡ no_spaces (utf8_of us)
without_spaces-no_spaces [] h = refl
without_spaces-no_spaces (u ∷ us) (p, h, hs) =
    if-append (u == 0x20) (unit_str u) (without_spaces us)
    ∙ ap (λ t. t ++ without_spaces us) (unit_str-no_spaces u p h)
    ∙ ap (λ t. no_spaces (utf16_to_utf8 u) ++ t) (without_spaces-no_spaces us hs)
    ∙ sym (no_spaces-append (utf16_to_utf8 u) (utf8_of us))

units_of-utf8_of : (us : List ℕ) → AllU16 us → units_of (utf8_of us) ≡ us
unfolding units_of utf8_to_utf16_string
units_of-utf8_of us h =
    ap units_of (sym (utf16_to_utf8_string_complete us h))
    ∙ utf8_to_utf16_string-utf16_to_utf8_string us h

-- For a text that is the UTF-8 of units of 16 bits, none of them 0, the words of
-- `SplitChiEngCharacters`, and those of `TimestampSplitChiEngCharacters`, are together the bytes of the
-- text in their order, without the bytes 0x20 and with all others.
pub split_chi_eng_characters-concat :
    (us : List ℕ)
    → AllUnits us
    → (concat (split_chi_eng_characters (utf8_of us)) ≡ no_spaces (utf8_of us))
      × (concat (timestamp_split_chi_eng_characters (utf8_of us)) ≡ no_spaces (utf8_of us))
unfolding split_chi_eng_characters timestamp_split_chi_eng_characters
split_chi_eng_characters-concat us h =
    let read = units_of-utf8_of us (AllUnits-AllU16 us h) in
    let bytes = ap without_spaces read ∙ without_spaces-no_spaces us h in
    (
      split_units-concat is_chinese_character (units_of (utf8_of us)) [] [] refl ∙ bytes,
      split_units-concat stands_alone (units_of (utf8_of us)) [] [] refl ∙ bytes,
    )
