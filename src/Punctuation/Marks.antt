-- ===== src/Punctuation/Marks.antt =====
-- The words of a text in what `CTTransformer::AddPunc` (onnxruntime/src/ct-transformer.cpp) makes of it.
use mathlib.Core.List.{append_assoc}
use asr_2pass.Prelude.{
  ℕ, zero, suc, ◌-◌, ◌≤◌, ◌<◌, ◌≡◌, refl, ap, ◌∙◌, sym, subst, false, ◌&&◌, if◌then◌else◌, List, [],
  ◌∷◌, ◌++◌, map, length, length-take, length-drop, length-set, take-append-drop, take, drop, set,
  ltb, ◌==◌, Option, none, some, maybe, Returns, returns, Returns-bind, Returns-if, length-map,
  if_cases, maybe_cases, ◌⊎◌, inl, inr, arith,
}
use asr_2pass.Prelude.Int.{ℤ}
use asr_2pass.Punctuation.{
  Word, PuncModel, token_len, notpunc_index, period_index, find_end, sentence_end, starts_ascii,
  words_with_punc, strings_of, mini_sentences, cache_pop_trigger_limit,
}

-- The network gives one mark for each id.
abbrev pub OneMarkEach : PuncModel → Type 0
OneMarkEach m = (ids : List ℤ) → length (m.infer ids) ≡ length ids

-- A word as it is written: after a space, or not.
abbrev pub Spaced : List ℕ → List ℕ → Type 0
Spaced word s = (s ≡ word) ⊎ (s ≡ 32 ∷ word)

-- The words in their order, each with a mark behind it at most.
pub data Punctuated (m : PuncModel) : List (List ℕ) → List (List ℕ) → Type 0 where
  done : Punctuated m [] []
  bare :
      {w s : List ℕ} {words out : List (List ℕ)}
      → Spaced w s
      → Punctuated m words out
      → Punctuated m (w ∷ words) (s ∷ out)
  marked :
      {w s : List ℕ} {words out : List (List ℕ)} (p : ℕ)
      → Spaced w s
      → Punctuated m words out
      → Punctuated m (w ∷ words) (s ∷ m.id2punc p ∷ out)

Punctuated-append :
    {m : PuncModel} {ws vs xs ys : List (List ℕ)}
    → Punctuated m ws xs
    → Punctuated m vs ys
    → Punctuated m (ws ++ vs) (xs ++ ys)
Punctuated-append done q = q
Punctuated-append (bare s p) q = bare s (Punctuated-append p q)
Punctuated-append (marked i s p) q = marked i s (Punctuated-append p q)

Punctuated-words_with_punc :
    (m : PuncModel) (before : Option (List ℕ)) (words : List (List ℕ)) (marks : List ℕ)
    → length words ≤ length marks
    → Returns (Punctuated m words) (words_with_punc m before words marks)
unfolding words_with_punc
Punctuated-words_with_punc m before [] marks h = returns [] done
Punctuated-words_with_punc m before (w ∷ words) [] h = absurd (omega arith)
Punctuated-words_with_punc m before (w ∷ words) (p ∷ marks) h =
    let s = if maybe false starts_ascii before && starts_ascii w then 32 ∷ w else w in
    let spaced =
      if_cases (Spaced w) (maybe false starts_ascii before && starts_ascii w) {x = 32 ∷ w} {y = w}
        (λ e. inr refl) (λ e. inl refl) in
    Returns-bind (Punctuated-words_with_punc m (some s) words marks (omega arith)) (λ out q.
      returns _ (
        if_cases (λ tail. Punctuated m (w ∷ words) (s ∷ tail)) (p == notpunc_index) {x = out}
          {y = m.id2punc p ∷ out} (λ e. bare spaced q) (λ e. marked p spaced q)))

abbrev SameLength : List ℕ → ℕ × List ℕ → Type 0
SameLength marks r = length (r.1) ≡ length marks

-- No mark is lost where a batch is cut.
pub length-sentence_end :
    (m : PuncModel) (marks : List ℕ) (size : ℕ)
    → length (sentence_end m marks size).1 ≡ length marks
unfolding sentence_end
length-sentence_end m marks size =
    let (end, comma) = find_end m marks (length marks - 2) none in
    let at_comma = maybe (0, marks) (λ i. (suc i, set marks i period_index)) comma in
    maybe_cases (SameLength marks) end
      {b = if ltb cache_pop_trigger_limit size then at_comma else (0, marks)}
      {f = λ i. (suc i, marks)}
      (λ e.
        if_cases (SameLength marks) (ltb cache_pop_trigger_limit size) {x = at_comma}
          {y = (0, marks)}
          (λ h.
            maybe_cases (SameLength marks) comma {b = (0, marks)}
              {f = λ i. (suc i, set marks i period_index)} (λ k. refl)
              (λ i k. length-set marks i period_index))
          (λ h. refl))
      (λ i e. refl)

map-append {ℓ κ} :
    {A : Type ℓ} {B : Type κ} (f : A → B) (xs ys : List A) → map f (xs ++ ys) ≡ map f xs ++ map f ys
map-append f [] ys = refl
map-append f (x ∷ xs) ys = ap (λ zs. f x ∷ zs) (map-append f xs ys)

-- The marks that go with the words of a mini sentence.
enough_marks :
    (n : ℕ) (input : List Word) (marks : List ℕ)
    → length input ≤ length marks
    → length (strings_of (take n input)) ≤ length (take n marks)
enough_marks n input marks h =
    omega (
      arith,
      length-map (take n input) (λ (w : Word). w.0),
      length-take n input,
      length-take n marks,
    )

-- The words that are kept, those that remain, and the others.
pub strings_cut :
    (n : ℕ) (input rest : List Word)
    → strings_of (take n input) ++ strings_of (drop n input ++ rest) ≡ strings_of (input ++ rest)
strings_cut n input rest =
    sym (map-append (λ (w : Word). w.0) (take n input) (drop n input ++ rest))
    ∙ ap strings_of (
        sym (append_assoc (take n input) (drop n input) rest)
        ∙ ap (λ xs. xs ++ rest) (take-append-drop n input))

pub strings_batch :
    (n : ℕ) (remain tokens : List Word)
    → strings_of (remain ++ take n tokens ++ drop n tokens) ≡ strings_of (remain ++ tokens)
strings_batch n remain tokens = ap strings_of (
    append_assoc remain (take n tokens) (drop n tokens)
    ∙ ap (λ xs. remain ++ xs) (take-append-drop n tokens))

pub take_all : (n : ℕ) (xs : List Word) → length (drop n xs) ≡ 0 → take n xs ≡ xs
take_all zero [] h = refl
take_all zero (x ∷ xs) h = absurd (omega arith)
take_all (suc n) [] h = refl
take_all (suc n) (x ∷ xs) h = ap (λ ys. x ∷ ys) (take_all n xs h)

-- The mini sentences of a text have its words, all of them, in their order, each with a mark behind it
-- at most; the network gives one mark for each word, and the fuel is the number of the words.
pub Punctuated-mini_sentences :
    (m : PuncModel) (fuel : ℕ) (tokens remain : List Word)
    → OneMarkEach m
    → 0 < length tokens
    → length tokens ≤ fuel
    → Returns (Punctuated m (strings_of (remain ++ tokens))) (mini_sentences m fuel tokens remain)
unfolding mini_sentences
Punctuated-mini_sentences m zero tokens remain each some_token h = absurd (omega arith)
Punctuated-mini_sentences m (suc fuel) tokens remain each some_token h =
    let input = remain ++ take token_len tokens in
    let rest = drop token_len tokens in
    let marks = m.infer (map (λ word. word.1) input) in
    let fits = each (map (λ (word : Word). word.1) input) in
    let size = (sentence_end m marks (length input)).0 in
    let cut_marks = (sentence_end m marks (length input)).1 in
    let kept = enough_marks size input cut_marks (
      omega (
        arith,
        length-sentence_end m marks (length input),
        fits,
        length-map input (λ (word : Word). word.1),
      )) in
    Returns-if (length rest == 0)
      (λ e.
        subst (λ ws. Returns (Punctuated m ws) (words_with_punc m none (strings_of input) marks))
          (ap (λ xs. strings_of (remain ++ xs)) (take_all token_len tokens (ground arith)))
          (Punctuated-words_with_punc m none (strings_of input) marks (
            omega (
              arith,
              fits,
              length-map input (λ (word : Word). word.1),
              length-map input (λ (word : Word). word.0),
            ))))
      (λ e.
        Returns-bind
          (Punctuated-words_with_punc m none (strings_of (take size input)) (take size cut_marks)
            kept)
          (λ out p.
            Returns-bind
              (Punctuated-mini_sentences m fuel rest (drop size input) each (ground arith)
                (omega (arith, length-drop token_len tokens)))
              (λ others q. returns (out ++ others) (
                subst (λ ws. Punctuated m ws (out ++ others))
                  (strings_cut size input rest ∙ strings_batch token_len remain tokens)
                  (Punctuated-append p q)))))
