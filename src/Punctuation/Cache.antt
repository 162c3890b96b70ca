-- ===== src/Punctuation/Cache.antt =====
-- What a call of `CTTransformerOnline::AddPunc` (onnxruntime/src/ct-transformer-online.cpp) puts out and
-- keeps in the cache.
use asr_2pass.Prelude.{
  ℕ, zero, suc, ◌-◌, ◌≤◌, ◌<◌, ◌≡◌, refl, ap, ◌∙◌, subst, Bool, ◌||◌, List, [], ◌∷◌, ◌++◌, map,
  length, length-append, length-take, length-drop, length-map, take, drop, get_or, ◌==◌, Returns,
  returns, Returns-bind, Returns-mono, Returns-if, if_cases, arith, inl, inr, ◌⊎◌,
}
use asr_2pass.Prelude.Bytes.{same_bytes}
use asr_2pass.Punctuation.{
  Word, PuncModel, token_len, period_index, question_index, strings_of, sentence_end,
}
use asr_2pass.Punctuation.Marks.{
  OneMarkEach, Punctuated, done, bare, marked, length-sentence_end, strings_cut, strings_batch,
  take_all,
}
use asr_2pass.Punctuation.Spacing.{
  Trailing, Stripped, with_spaces-Trailing, without_last_mark-Stripped,
}
use asr_2pass.Punctuation.Online.{
  sentence_words, with_spaces, put_mark, put_out, last_end, without_last_mark, add_punc_online,
}

-- All the words, and a mark for each.
abbrev AllWords : List Word → List (List ℕ) × List ℕ → Type 0
AllWords tokens r = (r.0 ≡ strings_of tokens) × (length r.1 ≡ length r.0)

sentence_words-AllWords :
    (m : PuncModel) (fuel : ℕ) (tokens remain : List Word)
    → OneMarkEach m
    → 0 < length tokens
    → length tokens ≤ fuel
    → Returns (AllWords (remain ++ tokens)) (sentence_words m fuel tokens remain)
unfolding sentence_words
sentence_words-AllWords m zero tokens remain each some_token h = absurd (omega arith)
sentence_words-AllWords m (suc fuel) tokens remain each some_token h =
    let input = remain ++ take token_len tokens in
    let rest = drop token_len tokens in
    let marks = m.infer (map (λ word. word.1) input) in
    let fits = each (map (λ (word : Word). word.1) input) in
    let ids = length-map input (λ (word : Word). word.1) in
    let size = (sentence_end m marks (length input)).0 in
    let cut_marks = (sentence_end m marks (length input)).1 in
    Returns-if (length rest == 0)
      (λ e.
        returns (strings_of input, marks)
          (
            ap (λ xs. strings_of (remain ++ xs)) (take_all token_len tokens (ground arith)),
            omega (arith, fits, ids, length-map input (λ (word : Word). word.0)),
          ))
      (λ e.
        Returns-bind
          (sentence_words-AllWords m fuel rest (drop size input) each (ground arith)
            (omega (arith, length-drop token_len tokens)))
          (λ (words, others) (same, fit).
            returns (strings_of (take size input) ++ words, take size cut_marks ++ others)
              (
                ap (λ xs. strings_of (take size input) ++ xs) same
                    ∙ strings_cut size input rest
                    ∙ strings_batch token_len remain tokens,
                omega (
                  arith,
                  fits,
                  ids,
                  fit,
                  length-append (strings_of (take size input)) words,
                  length-append (take size cut_marks) others,
                  length-take size cut_marks,
                  length-take size input,
                  length-map (take size input) (λ (word : Word). word.0),
                  length-sentence_end m marks (length input),
                ),
              )))

Punctuated-put_out :
    (m : PuncModel) (words : List (List ℕ)) (marks : List ℕ)
    → length words ≤ length marks
    → Returns (Punctuated m words) (put_out m zero words marks)
unfolding put_out
Punctuated-put_out m [] marks h = returns [] done
Punctuated-put_out m (word ∷ words) [] h = absurd (omega arith)
Punctuated-put_out m (word ∷ words) (p ∷ marks) h =
    Returns-bind (Punctuated-put_out m words marks (omega arith)) (λ out q.
      returns (word ∷ put_mark m p out) (
        if_cases (λ tail. Punctuated m (word ∷ words) (word ∷ tail))
          (same_bytes (m.id2punc p) (95 ∷ [])) {x = out} {y = m.id2punc p ∷ out}
          (λ e. bare (inl refl) q) (λ e. marked p (inl refl) q)))

-- What is put out: nothing or, where words are skipped, one mark, and then the words that are not.
pub record Puts (m : PuncModel) (skip : ℕ) (words : List (List ℕ)) (out : List (List ℕ))
    : Type 0 where
  pub front : List (List ℕ)
  pub rest : List (List ℕ)
  pub parts : out ≡ front ++ rest
  pub one : (front ≡ []) ⊎ ((0 < skip) × (p : ℕ) × (front ≡ m.id2punc p ∷ []))
  pub new : Punctuated m (drop skip words) rest

marked_front :
    (m : PuncModel) (p : ℕ) (word : List ℕ) (words out : List (List ℕ))
    → Punctuated m words out
    → Puts m 1 (word ∷ words) (put_mark m p out)
marked_front m p word words out q =
    if_cases (Puts m 1 (word ∷ words)) (same_bytes (m.id2punc p) (95 ∷ [])) {x = out}
      {y = m.id2punc p ∷ out}
      (λ e. record { front = []; rest = out; parts = refl; one = inl refl; new = q })
      (λ e. record {
        front = m.id2punc p ∷ [];
        rest = out;
        parts = refl;
        one = inr (omega arith, p, refl);
        new = q;
      })

skip_more :
    (m : PuncModel) (skip : ℕ) (word : List ℕ) (words out : List (List ℕ))
    → Puts m skip words out
    → Puts m (suc skip) (word ∷ words) out
skip_more m skip word words out s = record {
  front = s.front;
  rest = s.rest;
  parts = s.parts;
  one = elim s.one [ inl e ↦ inl e | inr (h, p, e) ↦ inr (omega arith, p, e) ];
  new = s.new;
}

put_out-Puts :
    (m : PuncModel) (skip : ℕ) (words : List (List ℕ)) (marks : List ℕ)
    → length words ≤ length marks
    → Returns (Puts m skip words) (put_out m skip words marks)
unfolding put_out
put_out-Puts m zero words marks h =
    Returns-mono (Punctuated-put_out m words marks h)
      (λ out q. record { front = []; rest = out; parts = refl; one = inl refl; new = q })
put_out-Puts m (suc skip) [] marks h =
    returns [] (record { front = []; rest = []; parts = refl; one = inl refl; new = done })
put_out-Puts m (suc skip) (word ∷ words) [] h = absurd (omega arith)
put_out-Puts m (suc zero) (word ∷ words) (p ∷ marks) h =
    Returns-bind (Punctuated-put_out m words marks (omega arith))
      (λ out q. returns (put_mark m p out) (marked_front m p word words out q))
put_out-Puts m (suc (suc skip)) (word ∷ words) (p ∷ marks) h =
    Returns-mono (put_out-Puts m (suc skip) words marks (omega arith))
      (λ out s. skip_more m (suc skip) word words out s)

last_end-inside : (marks : List ℕ) (i : ℕ) → last_end marks i ≤ suc i
unfolding last_end
last_end-inside marks zero = omega arith
last_end-inside marks (suc i) =
    let p = get_or marks (suc i) 0 in
    if_cases (λ n. n ≤ suc (suc i)) (p == period_index || p == question_index) {x = suc (suc i)}
      {y = last_end marks i} (λ e. omega arith) (λ e. omega (arith, last_end-inside marks i))

end_inside : (marks : List ℕ) (n : ℕ) → 0 < n → last_end marks (n - 2) < n
unfolding last_end
end_inside marks zero h = absurd (omega arith)
end_inside marks (suc zero) h = omega arith
end_inside marks (suc (suc k)) h =
    let e : k ≡ suc (suc k) - 2 = omega arith in
    subst (λ j. last_end marks j < suc (suc k)) e (omega (arith, last_end-inside marks k))

length-with_spaces : (words : List (List ℕ)) → length (with_spaces words) ≡ length words
unfolding with_spaces
length-with_spaces [] = refl
length-with_spaces (word ∷ []) = refl
length-with_spaces (word ∷ next ∷ words) = ap suc (length-with_spaces (next ∷ words))

-- The outcome of a call: what is put out, less a mark at its end, and the words that stay in the cache.
pub record Online (m : PuncModel) (is_punc : List ℕ → Bool) (cached : ℕ) (words : List (List ℕ))
    (r : List (List ℕ) × List (List ℕ)) : Type 0 where
  pub spaced_words : List (List ℕ)
  pub trailing : Trailing words spaced_words
  pub strings : List (List ℕ)
  pub puts : Puts m cached spaced_words strings
  pub stripped : Stripped is_punc strings r.0
  pub taken : ℕ
  pub some_stay : taken < length words
  pub stay : r.1 ≡ drop taken spaced_words

some_word :
    (marks : List ℕ) (words : List (List ℕ)) {n : ℕ}
    → length marks ≡ length words
    → length words ≡ suc n
    → last_end marks (length marks - 2) < length words
some_word marks words fit one =
    omega (arith, fit, one, end_inside marks (length marks) (omega arith))

-- A call with some words, those of the cache first, returns if the network gives one mark for each.
-- The words get a space behind them where they and the next one begin with ASCII. The call puts out one
-- mark at most, and only behind a cache, then all the words behind the cache in their order, each with a
-- mark behind it at most, less the last string of all this if `is_punc` takes it for a mark; and the new
-- cache is the last words, one at least.
pub add_punc_online-Online :
    (m : PuncModel) (is_punc : List ℕ → Bool) (cached : ℕ) (token : Word) (tokens : List Word)
    → OneMarkEach m
    → Returns
        (Online m is_punc cached (strings_of (token ∷ tokens)))
        (add_punc_online m is_punc cached (token ∷ tokens))
unfolding add_punc_online
add_punc_online-Online m is_punc cached token tokens each =
    Returns-bind
      (sentence_words-AllWords m (suc (length tokens)) (token ∷ tokens) [] each (omega arith)
        (omega arith))
      (λ (words, marks) (same, fit).
        Returns-bind
          (put_out-Puts m cached (with_spaces words) marks
            (omega (arith, fit, length-with_spaces words)))
          (λ out puts.
            let kept = drop (last_end marks (length marks - 2)) (with_spaces words) in
            returns (without_last_mark is_punc out, kept)
              (subst (λ ws. Online m is_punc cached ws (without_last_mark is_punc out, kept)) same
                (record {
                  spaced_words = with_spaces words;
                  trailing = with_spaces-Trailing words;
                  strings = out;
                  puts = puts;
                  stripped = without_last_mark-Stripped is_punc out;
                  taken = last_end marks (length marks - 2);
                  some_stay =
                      some_word marks words fit
                        (ap length same ∙ length-map (token ∷ tokens) (λ (word : Word). word.0));
                  stay = refl;
                }))))
