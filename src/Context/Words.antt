-- ===== src/Context/Words.antt =====
-- The words that `SplitUTF8StringToWords` (onnxruntime/src/context_graph.cpp) finds in a context.
use asr_2pass.Prelude.{
  ℕ, zero, suc, ◌≤◌, ◌<◌, ◌≡◌, ap, ◌∙◌, sym, ◌⊎◌, inl, inr, if◌then◌else◌, subst, Bool, true, false,
  List, [], ◌∷◌, ◌++◌, length, length-drop, take, drop, Option, none, some, ◌>>=◌, maybe, if_cases,
  maybe_cases, Returns, returns, Returns-bind, arith,
}
use asr_2pass.Prelude.Bytes.{same_bytes}
use asr_2pass.Encode.Classes.{concat}
use asr_2pass.Text.{is_alpha}
use asr_2pass.Context.{as_symbol, longest, split_words}

-- A word as the table has it: words of letters begin with the mark "▁", but for the symbols of a
-- language model.
abbrev pub symbol_of : Bool → List ℕ → List ℕ
symbol_of true word = word
symbol_of false word = if is_alpha word then 0xe2 ∷ 0x96 ∷ 0x81 ∷ word else word

as_symbol-symbol_of : (lm : Bool) (word : List ℕ) → as_symbol lm word ≡ symbol_of lm word
as_symbol-symbol_of true word = ground arith
as_symbol-symbol_of false word = ground arith

-- The first `k` characters are no space and no word of the table.
abbrev pub NoWord : (List ℕ → Option ℕ) → Bool → List (List ℕ) → ℕ → Type 0
NoWord find lm chars k =
    (same_bytes (concat (take k chars)) (32 ∷ []) ≡ false)
    × (find (symbol_of lm (concat (take k chars))) ≡ none)

-- No more than `n` of the characters are a space or a word of the table.
abbrev pub NoLonger : (List ℕ → Option ℕ) → Bool → ℕ → List (List ℕ) → Type 0
NoLonger find lm n chars = (k : ℕ) → n < k → k ≤ length chars → NoWord find lm chars k

-- The words, and whether every character is in one: the characters in their order are spaces, words of
-- the table, each the longest one that begins there, and characters at which no word begins.
pub data Splits (find : List ℕ → Option ℕ) (lm : Bool)
    : List (List ℕ) → List (List ℕ) × Bool → Type 0 where
  nil : Splits find lm [] ([], true)
  space :
      {n : ℕ} {chars words : List (List ℕ)} {no_oov : Bool}
      → 0 < n
      → same_bytes (concat (take n chars)) (32 ∷ []) ≡ true
      → NoLonger find lm n chars
      → Splits find lm (drop n chars) (words, no_oov)
      → Splits find lm chars (words, no_oov)
  a_word :
      {n : ℕ} {chars words : List (List ℕ)} {no_oov : Bool} {id : ℕ}
      → 0 < n
      → find (symbol_of lm (concat (take n chars))) ≡ some id
      → NoLonger find lm n chars
      → Splits find lm (drop n chars) (words, no_oov)
      → Splits find lm chars (symbol_of lm (concat (take n chars)) ∷ words, no_oov)
  unknown :
      {c : List ℕ} {chars words : List (List ℕ)} {no_oov : Bool}
      → NoLonger find lm 0 (c ∷ chars)
      → Splits find lm chars (words, no_oov)
      → Splits find lm (c ∷ chars) (words, false)

-- What the loop from `end` down takes.
abbrev Taken : (List ℕ → Option ℕ) → Bool → List (List ℕ) → Option (ℕ × List (List ℕ)) → Type 0
Taken find lm chars none = NoLonger find lm 0 chars
Taken find lm chars (some (n, words)) =
    (0 < n)
    × ((words' : List (List ℕ)) (no_oov : Bool)
        → Splits find lm (drop n chars) (words', no_oov)
        → Splits find lm chars (words ++ words', no_oov))

one_shorter :
    (find : List ℕ → Option ℕ) (lm : Bool) (n : ℕ) (chars : List (List ℕ))
    → NoWord find lm chars (suc n)
    → NoLonger find lm (suc n) chars
    → NoLonger find lm n chars
one_shorter find lm n chars h longer k lt le = elim (eq_or_lt k lt) [
  | inl e ↦ subst (NoWord find lm chars) (sym e) h
  | inr more ↦ longer k more le
]
  where
    eq_or_lt : (k : ℕ) → n < k → (k ≡ suc n) ⊎ (suc n < k)
    eq_or_lt k lt = omega arith

longest-Taken :
    (find : List ℕ → Option ℕ) (lm : Bool) (n : ℕ) (chars : List (List ℕ))
    → NoLonger find lm n chars
    → Taken find lm chars (longest find lm n chars)
unfolding longest
longest-Taken find lm zero chars longer = longer
longest-Taken find lm (suc n) chars longer =
    let text = concat (take (suc n) chars) in
    let symbol = as_symbol-symbol_of lm text in
    let shorter = longest find lm n chars in
    let found : ℕ → Option (ℕ × List (List ℕ)) = λ id. some (suc n, as_symbol lm text ∷ []) in
    if_cases (Taken find lm chars) (same_bytes text (32 ∷ [])) {x = some (suc n, [])}
      {y = maybe shorter found (find (as_symbol lm text))}
      (λ e. (omega arith, λ words' no_oov s. space (omega arith) e longer s))
      (λ e.
        maybe_cases (Taken find lm chars) (find (as_symbol lm text)) {b = shorter} {f = found}
          (λ h.
            longest-Taken find lm n chars
              (one_shorter find lm n chars (e, ap find (sym symbol) ∙ h) longer))
          (λ id h. (
            omega arith,
            λ words' no_oov s.
                subst (λ w. Splits find lm chars (w ∷ words', no_oov)) (sym symbol)
                  (a_word (omega arith) (ap find (sym symbol) ∙ h) longer s),
          )))

after_piece :
    (find : List ℕ → Option ℕ) (lm : Bool) (fuel : ℕ) (c : List ℕ) (chars : List (List ℕ))
    (o : Option (ℕ × List (List ℕ)))
    → ((cs : List (List ℕ))
        → length cs ≤ fuel
        → Returns (Splits find lm cs) (split_words find lm fuel cs))
    → length chars ≤ fuel
    → Taken find lm (c ∷ chars) o
    → Returns (Splits find lm (c ∷ chars)) (
        maybe
          (split_words find lm fuel chars >>= λ (words, no_oov). some (words, false))
          (λ (n, word). split_words find lm fuel (drop n (c ∷ chars)) >>= λ (words, no_oov).
            some (word ++ words, no_oov))
          o)
after_piece find lm fuel c chars none ih h t =
    Returns-bind (ih chars h) (λ (words, no_oov) s. returns (words, false) (unknown t s))
after_piece find lm fuel c chars (some (n, word)) ih h (p, t) =
    Returns-bind (ih (drop n (c ∷ chars)) (omega (arith, length-drop n (c ∷ chars))))
      (λ (words, no_oov) s. returns (word ++ words, no_oov) (t words no_oov s))

-- With one round for each character, the splitting returns. The characters in their order are spaces,
-- words of the table, which are the words returned, each the longest one that begins there, and
-- characters at which neither a space nor a word of the table begins, of which there is none if `no_oov`
-- is returned.
pub split_words-Splits :
    (find : List ℕ → Option ℕ) (lm : Bool) (fuel : ℕ) (chars : List (List ℕ))
    → length chars ≤ fuel
    → Returns (Splits find lm chars) (split_words find lm fuel chars)
unfolding split_words
split_words-Splits find lm fuel [] h = returns ([], true) nil
split_words-Splits find lm zero (c ∷ chars) h = absurd (omega arith)
split_words-Splits find lm (suc fuel) (c ∷ chars) h =
    after_piece find lm fuel c chars (longest find lm (length (c ∷ chars)) (c ∷ chars))
      (λ cs k. split_words-Splits find lm fuel cs k) (omega arith)
      (longest-Taken find lm (length (c ∷ chars)) (c ∷ chars) (λ k lt le. absurd (omega arith)))
