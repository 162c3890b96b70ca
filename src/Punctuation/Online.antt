-- ===== src/Punctuation/Online.antt =====
-- Punctuation as the words come (`CTTransformerOnline::AddPunc`,
-- onnxruntime/src/ct-transformer-online.cpp), from the tokenizer's words on, those of the cache first; the
-- network is that for a cache of its size.
use asr_2pass.Prelude.{
  ℕ, zero, suc, ◌-◌, Bool, ◌&&◌, ◌||◌, if◌then◌else◌, List, [], ◌∷◌, ◌++◌, map, length, take, drop,
  get_or, ltb, ◌==◌, Option, none, some, ◌>>=◌,
}
use asr_2pass.Prelude.Bytes.{same_bytes}
use asr_2pass.Punctuation.{
  Word, PuncModel, token_len, period_index, question_index, starts_ascii, strings_of, sentence_end,
}

-- The text of the cache and the new text: a space is put between letters.
unfoldable pub full_text : List ℕ → List ℕ → List ℕ
full_text [] input = input
full_text (b ∷ []) [] = b ∷ []
full_text (b ∷ []) (c ∷ input) =
    if ltb b 128 && ltb c 128 then b ∷ 32 ∷ c ∷ input else b ∷ c ∷ input
full_text (a ∷ b ∷ text) input = a ∷ full_text (b ∷ text) input

-- The loop over the batches: all words, and their marks.
unfoldable pub sentence_words :
    PuncModel → ℕ → List Word → List Word → Option (List (List ℕ) × List ℕ)
unfolding sentence_end
sentence_words m zero tokens remain = none
sentence_words m (suc fuel) tokens remain =
    let input = remain ++ take token_len tokens in
    let rest = drop token_len tokens in
    let marks = m.infer (map (λ word. word.1) input) in
    let (size, cut_marks) = sentence_end m marks (length input) in
    let more = sentence_words m fuel rest (drop size input) >>= λ (words, others).
    some (strings_of (take size input) ++ words, take size cut_marks ++ others) in
    if length rest == 0 then some (strings_of input, marks) else more

-- A space behind a word of letters before another one.
unfoldable pub with_spaces : List (List ℕ) → List (List ℕ)
with_spaces [] = []
with_spaces (word ∷ []) = word ∷ []
with_spaces (word ∷ next ∷ words) =
    let rest = with_spaces (next ∷ words) in
    (if starts_ascii word && starts_ascii next then word ++ (32 ∷ []) else word) ∷ rest

abbrev pub put_mark : PuncModel → ℕ → List (List ℕ) → List (List ℕ)
put_mark m p out = if same_bytes (m.id2punc p) (95 ∷ []) then out else m.id2punc p ∷ out

-- The words that are put out, with the number of those in the cache that are still to be skipped: the
-- mark behind the last of them is put out too.
unfoldable pub put_out : PuncModel → ℕ → List (List ℕ) → List ℕ → Option (List (List ℕ))
put_out m skip [] marks = some []
put_out m skip (word ∷ words) [] = none
put_out m zero (word ∷ words) (p ∷ marks) =
    put_out m zero words marks >>= λ out. some (word ∷ put_mark m p out)
put_out m (suc zero) (word ∷ words) (p ∷ marks) =
    put_out m zero words marks >>= λ out. some (put_mark m p out)
put_out m (suc (suc skip)) (word ∷ words) (p ∷ marks) = put_out m (suc skip) words marks

-- The loop from `i` down to 1 for the last sentence end; the words behind it are kept.
unfoldable pub last_end : List ℕ → ℕ → ℕ
last_end marks zero = 0
last_end marks (suc i) =
    let p = get_or marks (suc i) 0 in
    let before = last_end marks i in
    if p == period_index || p == question_index then suc (suc i) else before

-- The last string goes if it is a mark.
unfoldable pub without_last_mark : (List ℕ → Bool) → List (List ℕ) → List (List ℕ)
without_last_mark is_punc [] = []
without_last_mark is_punc (s ∷ []) = if is_punc s then [] else s ∷ []
without_last_mark is_punc (s ∷ t ∷ strings) = s ∷ without_last_mark is_punc (t ∷ strings)

-- `AddPunc`, of a cache of `cached` words: the strings that are put out, and the new cache.
unfoldable pub add_punc_online :
    PuncModel → (List ℕ → Bool) → ℕ → List Word → Option (List (List ℕ) × List (List ℕ))
unfolding sentence_words with_spaces put_out last_end without_last_mark
add_punc_online m is_punc cached [] = some ([], [])
add_punc_online m is_punc cached (token ∷ tokens) =
    sentence_words m (suc (length tokens)) (token ∷ tokens) [] >>= λ (words, marks).
    put_out m cached (with_spaces words) marks >>= λ out.
    some
      (without_last_mark is_punc out, drop (last_end marks (length marks - 2)) (with_spaces words))
