-- ===== src/Punctuation/Ending.antt =====
-- The end of a text with punctuation (`CTTransformer::AddPunc`, onnxruntime/src/ct-transformer.cpp).
use asr_2pass.Prelude.{
  ℕ, suc, ◌≡◌, refl, Bool, true, false, ◌&&◌, ◌||◌, not, List, [], ◌∷◌, length, Returns, returns,
  Returns-bind, if_cases, ◌⊎◌, inl, inr, arith,
}
use asr_2pass.Prelude.Bytes.{same_bytes}
use asr_2pass.Encode.Classes.{concat}
use asr_2pass.Punctuation.{
  Word, PuncModel, comma_index, period_index, question_index, dun_index, strings_of, close,
  add_punc,
}
use asr_2pass.Punctuation.Marks.{OneMarkEach, Punctuated, Punctuated-mini_sentences}

same_bytes_refl : (xs : List ℕ) → same_bytes xs xs ≡ true
same_bytes_refl [] = refl
same_bytes_refl (x ∷ xs) = ground (arith, same_bytes_refl xs)

abbrev pub Is : PuncModel → ℕ → List ℕ → Type 0
Is m index s = same_bytes s (m.id2punc index) ≡ true

abbrev pub IsNot : PuncModel → ℕ → List ℕ → Type 0
IsNot m index s = same_bytes s (m.id2punc index) ≡ false

-- The last one is a period or a question mark.
abbrev pub EndsWell : PuncModel → List (List ℕ) → Type 0
EndsWell m [] = ⊥
EndsWell m (s ∷ []) = Is m period_index s ⊎ Is m question_index s
EndsWell m (s ∷ t ∷ strings) = EndsWell m (t ∷ strings)

-- The strings, with the end of the last mini sentence: a period or a question mark is kept, a comma or a
-- pause is replaced by a period, and a period is added to anything else. All strings before it stay.
pub data Closed (m : PuncModel) : List (List ℕ) → List (List ℕ) → Type 0 where
  kept : {s : List ℕ} → Is m period_index s ⊎ Is m question_index s → Closed m (s ∷ []) (s ∷ [])
  replaced :
      {s : List ℕ}
      → Is m comma_index s ⊎ Is m dun_index s
      → Closed m (s ∷ []) (m.id2punc period_index ∷ [])
  added :
      {s : List ℕ}
      → IsNot m comma_index s
      → IsNot m dun_index s
      → IsNot m period_index s
      → IsNot m question_index s
      → Closed m (s ∷ []) (s ∷ m.id2punc period_index ∷ [])
  before :
      {s : List ℕ} {strings final : List (List ℕ)}
      → Closed m strings final
      → Closed m (s ∷ strings) (s ∷ final)

EndsWell-cons :
    (m : PuncModel) (s : List ℕ) (strings : List (List ℕ))
    → EndsWell m strings
    → EndsWell m (s ∷ strings)
EndsWell-cons m s [] h = absurd h
EndsWell-cons m s (t ∷ strings) h = h

either : (a b : Bool) → (not a && not b) ≡ false → (a ≡ true) ⊎ (b ≡ true)
either true b h = inl refl
either false true h = inr refl
either false false h = absurd (cc)

neither : (a b : Bool) → (not a && not b) ≡ true → (a ≡ false) × (b ≡ false)
neither true b h = absurd (cc)
neither false true h = absurd (cc)
neither false false h = (refl, refl)

one_of : (a b : Bool) → (a || b) ≡ true → (a ≡ true) ⊎ (b ≡ true)
one_of true b h = inl refl
one_of false b h = inr h

none_of : (a b : Bool) → (a || b) ≡ false → (a ≡ false) × (b ≡ false)
none_of true b h = absurd (cc)
none_of false b h = (refl, h)

close-Closed :
    (m : PuncModel) (s : List ℕ) (strings : List (List ℕ))
    → Closed m (s ∷ strings) (close m (s ∷ strings))
unfolding close
close-Closed m s [] =
    if_cases (Closed m (s ∷ []))
      (same_bytes s (m.id2punc comma_index) || same_bytes s (m.id2punc dun_index))
      (λ e. replaced (one_of _ _ e))
      (λ e.
        if_cases (Closed m (s ∷ []))
          (not (same_bytes s (m.id2punc period_index))
            && not (same_bytes s (m.id2punc question_index)))
          (λ k.
            let (no_comma, no_dun) = none_of _ _ e in
            let (no_period, no_question) = neither _ _ k in
            added no_comma no_dun no_period no_question)
          (λ k. kept (either _ _ k)))
close-Closed m s (t ∷ strings) = before (close-Closed m t strings)

Closed-EndsWell :
    (m : PuncModel) (strings final : List (List ℕ)) → Closed m strings final → EndsWell m final
Closed-EndsWell m _ _ (kept h) = h
Closed-EndsWell m _ _ (replaced h) = inl (same_bytes_refl (m.id2punc period_index))
Closed-EndsWell m _ _ (added h1 h2 h3 h4) = inl (same_bytes_refl (m.id2punc period_index))
Closed-EndsWell m _ _ (before {s = s} {strings = strings} {final = final} c) =
    EndsWell-cons m s final (Closed-EndsWell m strings final c)

-- What a text with words comes to: the words in their order, each with a mark behind it at most, closed
-- at the end, where a period or a question mark stands.
abbrev pub WellWritten : PuncModel → List Word → List ℕ → Type 0
WellWritten m tokens text =
    (strings : List (List ℕ)) × (final : List (List ℕ)) × Punctuated m (strings_of tokens) strings
    × Closed m strings final
    × EndsWell m final
    × (text ≡ concat final)

well_written :
    (m : PuncModel) (word : Word) (words : List Word) (strings : List (List ℕ))
    → Punctuated m (strings_of (word ∷ words)) strings
    → WellWritten m (word ∷ words) (concat (close m strings))
well_written m word words (s ∷ strings) p =
    let closed = close-Closed m s strings in
    (
      s ∷ strings,
      close m (s ∷ strings),
      p,
      closed,
      Closed-EndsWell m (s ∷ strings) (close m (s ∷ strings)) closed,
      refl,
    )
well_written m word words [] p = elim p [ ]

-- For a language other than "en-bpe", `AddPunc` returns for a text that has a word, if the network
-- gives one mark for each word. The text is the words in their order, each with a mark behind it at
-- most, of which only the end is changed: a comma or a pause there becomes a period, and a period is
-- added where none of these marks, no period and no question mark stands. So the text ends in a period
-- or a question mark.
pub add_punc_lem :
    (m : PuncModel) (word : Word) (words : List Word)
    → OneMarkEach m
    → Returns (WellWritten m (word ∷ words)) (add_punc m false (word ∷ words))
unfolding add_punc
add_punc_lem m word words each =
    Returns-bind
      (Punctuated-mini_sentences m (suc (length words)) (word ∷ words) [] each (omega arith)
        (omega arith))
      (λ strings p. returns (concat (close m strings)) (well_written m word words strings p))
