-- ===== src/Context/Arcs.antt =====
-- The arcs that a state of the graph of one context has (`BuildContextGraph`,
-- onnxruntime/src/context_graph.cpp).
use mathlib.Core.List.{append-nil}
use asr_2pass.Prelude.{
  ℕ, zero, suc, ◌<◌, ◌≡◌, refl, ap, ◌∙◌, Bool, true, false, if◌then◌else◌, if-true, if-false, List,
  [], ◌∷◌, ◌++◌, length, ◌==◌, Option, arith,
}
use asr_2pass.Context.{Scores, Arc, word_score, escape_arcs, add_words, arcs_of}

lower : (a b : ℕ) → a < b → (a == b) ≡ false
lower a b h = ground arith

pub higher : (a b : ℕ) → b < a → (a == b) ≡ false
higher a b h = ground arith

pub same : (a : ℕ) → (a == a) ≡ true
same a = ground arith

module _ (S : Scores) where
  pub arcs_of-append :
      (state : ℕ) (arcs more : List (Arc S))
      → arcs_of S state (arcs ++ more) ≡ arcs_of S state arcs ++ arcs_of S state more
  arcs_of-append state [] more = refl
  arcs_of-append state (arc ∷ arcs) more =
      ap (λ rest. if arc.from == state then arc ∷ rest else rest) (arcs_of-append state arcs more)
      ∙ ite_append (arc.from == state) arc (arcs_of S state arcs) (arcs_of S state more)
    where
      ite_append :
          (b : Bool) (arc : Arc S) (xs ys : List (Arc S))
          → (if b then arc ∷ (xs ++ ys) else xs ++ ys) ≡ (if b then arc ∷ xs else xs) ++ ys
      ite_append true arc xs ys = refl
      ite_append false arc xs ys = refl

  -- The states that the arcs leave are below a number.
  abbrev pub Below : ℕ → List (Arc S) → Type 0
  Below n [] = Unit {0}
  Below n (arc ∷ arcs) = (arc.from < n) × Below n arcs

  pub Below-none : (n : ℕ) (arcs : List (Arc S)) → Below n arcs → arcs_of S n arcs ≡ []
  Below-none n [] h = refl
  Below-none n (arc ∷ arcs) (h, hs) = if-false _ _ (lower arc.from n h) ∙ Below-none n arcs hs

  pub Below-append :
      (n : ℕ) (arcs more : List (Arc S)) → Below n arcs → Below n more → Below n (arcs ++ more)
  Below-append n [] more h k = k
  Below-append n (arc ∷ arcs) more (h, hs) k = (h, Below-append n arcs more hs k)

  pub Below-suc : (n : ℕ) (arcs : List (Arc S)) → Below n arcs → Below (suc n) arcs
  Below-suc n [] h = tt
  Below-suc n (arc ∷ arcs) (h, hs) = (omega arith, Below-suc n arcs hs)

  pub escape_arcs-Below :
      (i prev n : ℕ) (escape : S.Score) → prev < n → Below n (escape_arcs S i prev escape)
  escape_arcs-Below zero prev n escape h = tt
  escape_arcs-Below (suc i) prev n escape h = (h, tt)

  -- The arcs of a state that has a word.
  pub own_escape :
      (i prev : ℕ) (escape : S.Score)
      → arcs_of S prev (escape_arcs S i prev escape) ≡ escape_arcs S i prev escape
  own_escape zero prev escape = refl
  own_escape (suc i) prev escape = if-true _ _ (same prev)

  other_escape :
      (i p q : ℕ) (escape : S.Score) → q < p → arcs_of S q (escape_arcs S i p escape) ≡ []
  other_escape zero p q escape h = refl
  other_escape (suc i) p q escape h = if-false _ _ (higher p q h)

  add_words-later :
      (find : List ℕ → Option ℕ) (inc cur : S.Score) (words : List (List ℕ)) (i p q : ℕ)
      (escape : S.Score) (states : ℕ)
      → q < p
      → p < states
      → arcs_of S q (add_words S find inc cur i p escape states words).0 ≡ []
  unfolding add_words
  add_words-later find inc cur [] i p q escape states h k = refl
  add_words-later find inc cur (w ∷ []) i p q escape states h k =
      if-false _ _ (higher p q h) ∙ other_escape i p q escape h
  add_words-later find inc cur (w ∷ v ∷ words) i p q escape states h k =
      let score = word_score S inc cur i w in
      let later =
        (add_words S find inc cur (suc i) states (S.add escape score) (suc states) (v ∷ words)).0 in
      if-false _ _ (higher p q h)
      ∙ arcs_of-append q (escape_arcs S i p escape) later
      ∙ ap (λ xs. xs ++ arcs_of S q later) (other_escape i p q escape h)
      ∙ add_words-later find inc cur (v ∷ words) (suc i) states q (S.add escape score) (suc states)
          (omega arith) (omega arith)

  abbrev pub word_arc : (List ℕ → Option ℕ) → S.Score → S.Score → ℕ → ℕ → ℕ → List ℕ → Arc S
  word_arc find inc cur i prev next w = record {
    from = prev;
    label = find w;
    weight = word_score S inc cur i w;
    nextstate = next;
  }

  -- A word with others behind it.
  pub add_words_more :
      (find : List ℕ → Option ℕ) (inc cur : S.Score) (w : List ℕ) (words : List (List ℕ))
      (i prev : ℕ) (escape : S.Score) (states : ℕ)
      → 0 < length words
      → (add_words S find inc cur i prev escape states (w ∷ words)).0
        ≡ (word_arc find inc cur i prev states w ∷ escape_arcs S i prev escape)
          ++ (add_words S find inc cur
              (suc i)
              states
              (S.add escape (word_score S inc cur i w))
              (suc states)
              words).0
  unfolding add_words
  add_words_more find inc cur w [] i prev escape states h = absurd (omega arith)
  add_words_more find inc cur w (v ∷ words) i prev escape states h = refl

  -- The arcs of a state: that of its word, and the escape.
  pub own_arcs :
      (find : List ℕ → Option ℕ) (inc cur : S.Score) (v : List ℕ) (more : List (List ℕ))
      (i prev : ℕ) (escape : S.Score) (states : ℕ)
      → prev < states
      → (next : ℕ) × (arcs_of S prev (add_words S find inc cur i prev escape states (v ∷ more)).0
          ≡ word_arc find inc cur i prev next v ∷ escape_arcs S i prev escape)
  unfolding add_words
  own_arcs find inc cur v [] i prev escape states h = (
    0,
    if-true _ _ (same prev)
        ∙ ap (λ xs. word_arc find inc cur i prev 0 v ∷ xs) (own_escape i prev escape),
  )
  own_arcs find inc cur v (u ∷ more) i prev escape states h =
      let score = word_score S inc cur i v in
      let later =
        (add_words S find inc cur (suc i) states (S.add escape score) (suc states) (u ∷ more)).0 in
      (
        states,
        if-true _ _ (same prev)
            ∙ ap (λ xs. word_arc find inc cur i prev states v ∷ xs)
                (arcs_of-append prev (escape_arcs S i prev escape) later
                  ∙ ap (λ xs. xs ++ arcs_of S prev later) (own_escape i prev escape)
                  ∙ ap (λ xs. escape_arcs S i prev escape ++ xs)
                      (add_words-later find inc cur (u ∷ more) (suc i) states prev
                        (S.add escape score) (suc states) h (omega arith))
                  ∙ append-nil (escape_arcs S i prev escape)),
      )
