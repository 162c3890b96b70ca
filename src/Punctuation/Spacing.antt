-- ===== src/Punctuation/Spacing.antt =====
-- The words with their spaces, and the strings without a last mark, of `CTTransformerOnline::AddPunc`
-- (onnxruntime/src/ct-transformer-online.cpp).
use asr_2pass.Prelude.{
  ℕ, ◌≤◌, ◌<◌, ◌≡◌, refl, Bool, List, [], ◌∷◌, ◌++◌, if_cases, arith, inl, inr, ◌⊎◌, true, false,
  ◌&&◌,
}
use asr_2pass.Punctuation.{starts_ascii}
use asr_2pass.Punctuation.Online.{with_spaces, without_last_mark}

-- The first byte is ASCII, or is not; an empty word begins with the NUL byte behind it.
abbrev pub FirstAscii : List ℕ → Type 0
FirstAscii [] = Unit {0}
FirstAscii (b ∷ w) = b < 128

abbrev pub FirstOther : List ℕ → Type 0
FirstOther [] = ⊥
FirstOther (b ∷ w) = 128 ≤ b

-- The words in their order, with a space behind a word that stands before another one if both begin with
-- ASCII, and as they are if not.
pub data Trailing : List (List ℕ) → List (List ℕ) → Type 0 where
  no_word : Trailing [] []
  last : {w : List ℕ} → Trailing (w ∷ []) (w ∷ [])
  spaced :
      {w v : List ℕ} {words out : List (List ℕ)}
      → FirstAscii w
      → FirstAscii v
      → Trailing (v ∷ words) out
      → Trailing (w ∷ v ∷ words) ((w ++ 32 ∷ []) ∷ out)
  as_is :
      {w v : List ℕ} {words out : List (List ℕ)}
      → FirstOther w ⊎ FirstOther v
      → Trailing (v ∷ words) out
      → Trailing (w ∷ v ∷ words) (w ∷ out)

starts_ascii-FirstAscii : (w : List ℕ) → starts_ascii w ≡ true → FirstAscii w
starts_ascii-FirstAscii [] h = tt
starts_ascii-FirstAscii (b ∷ w) h = ground arith

starts_ascii-FirstOther : (w : List ℕ) → starts_ascii w ≡ false → FirstOther w
starts_ascii-FirstOther [] h = absurd (cc)
starts_ascii-FirstOther (b ∷ w) h = ground arith

both : (a b : Bool) → (a && b) ≡ true → (a ≡ true) × (b ≡ true)
both true b h = (refl, h)
both false b h = absurd (cc)

not_both : (a b : Bool) → (a && b) ≡ false → (a ≡ false) ⊎ (b ≡ false)
not_both true b h = inr h
not_both false b h = inl refl

pub with_spaces-Trailing : (words : List (List ℕ)) → Trailing words (with_spaces words)
unfolding with_spaces
with_spaces-Trailing [] = no_word
with_spaces-Trailing (w ∷ []) = last
with_spaces-Trailing (w ∷ v ∷ words) =
    let rest = with_spaces-Trailing (v ∷ words) in
    if_cases (λ x. Trailing (w ∷ v ∷ words) (x ∷ with_spaces (v ∷ words)))
      (starts_ascii w && starts_ascii v) {x = w ++ 32 ∷ []} {y = w}
      (λ e.
        let (first, next) = both _ _ e in
        spaced (starts_ascii-FirstAscii w first) (starts_ascii-FirstAscii v next) rest)
      (λ e.
        as_is
          (elim (not_both (starts_ascii w) (starts_ascii v) e) [
            | inl h ↦ inl (starts_ascii-FirstOther w h)
            | inr h ↦ inr (starts_ascii-FirstOther v h)
          ])
          rest)

-- The strings without the last one if that is a mark, and all of them if not.
pub data Stripped (is_punc : List ℕ → Bool) : List (List ℕ) → List (List ℕ) → Type 0 where
  no_string : Stripped is_punc [] []
  mark : {s : List ℕ} → is_punc s ≡ true → Stripped is_punc (s ∷ []) []
  no_mark : {s : List ℕ} → is_punc s ≡ false → Stripped is_punc (s ∷ []) (s ∷ [])
  front_string :
      {s t : List ℕ} {strings out : List (List ℕ)}
      → Stripped is_punc (t ∷ strings) out
      → Stripped is_punc (s ∷ t ∷ strings) (s ∷ out)

pub without_last_mark-Stripped :
    (is_punc : List ℕ → Bool) (strings : List (List ℕ))
    → Stripped is_punc strings (without_last_mark is_punc strings)
unfolding without_last_mark
without_last_mark-Stripped is_punc [] = no_string
without_last_mark-Stripped is_punc (s ∷ []) =
    if_cases (Stripped is_punc (s ∷ [])) (is_punc s) (λ e. mark e) (λ e. no_mark e)
without_last_mark-Stripped is_punc (s ∷ t ∷ strings) =
    front_string (without_last_mark-Stripped is_punc (t ∷ strings))
