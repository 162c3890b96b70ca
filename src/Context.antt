-- ===== src/Context.antt =====
-- The graph of the hotwords (`ContextGraph`, onnxruntime/src/context_graph.cpp). The symbol table and the
-- finite-state library are third party: the table is the function `find` (`none` is -1), and of a graph
-- there are its arcs. Scores are of a type with the operations that the code uses, and no law is assumed.
use asr_2pass.Prelude.{
  ℕ, zero, suc, ◌+◌, Bool, true, false, ◌&&◌, not, if◌then◌else◌, List, [], ◌∷◌, ◌++◌, length, take,
  drop, ltb, ◌==◌, get_elem?, Option, none, some, ◌>>=◌, maybe,
}
use asr_2pass.Prelude.Bytes.{same_bytes}
use asr_2pass.Encode.Classes.{concat}
use asr_2pass.Text.{split_utf8_string_to_chars, utf8_string_length, trim, is_alpha}
pub mod Words
pub mod Arcs
pub mod Escape
pub mod Positions

pub record Scores : Type 1 where
  pub Score : Type 0
  pub zero_score : Score
  pub of_int : ℕ → Score
  pub add : Score → Score → Score
  pub mul : Score → Score → Score
  pub neg : Score → Score

-- `ContextConfig`
pub record ContextConfig (S : Scores) : Type 0 where
  pub max_contexts : ℕ
  pub max_context_length : ℕ
  pub incremental_context_score : S.Score

abbrev pub space_symbol : List ℕ
space_symbol = 0xe2 ∷ 0x96 ∷ 0x81 ∷ []

-- A word as the table has it: with the mark of a word's begin if it is of letters.
abbrev pub as_symbol : Bool → List ℕ → List ℕ
as_symbol use_lm_symbols word =
    if is_alpha word && not use_lm_symbols then space_symbol ++ word else word

-- The loop from `end` down, with the characters from `start` on and `end - start`: what it takes, and
-- the word of it, if it is no space. `none` is a character that is in no word.
unfoldable pub longest : (List ℕ → Option ℕ) → Bool → ℕ → List (List ℕ) → Option (ℕ × List (List ℕ))
unfolding is_alpha
longest find lm zero chars = none
longest find lm (suc n) chars =
    let word = concat (take (suc n) chars) in
    let shorter = longest find lm n chars in
    let in_table =
      maybe shorter (λ id. some (suc n, as_symbol lm word ∷ [])) (find (as_symbol lm word)) in
    if same_bytes word (32 ∷ []) then some (suc n, []) else in_table

-- The loop from `start` up: the words, and whether every character is in one.
unfoldable pub split_words :
    (List ℕ → Option ℕ) → Bool → ℕ → List (List ℕ) → Option (List (List ℕ) × Bool)
unfolding longest
split_words find lm fuel [] = some ([], true)
split_words find lm zero (c ∷ chars) = none
split_words find lm (suc fuel) (c ∷ chars) =
    let skipped = split_words find lm fuel chars >>= λ (words, no_oov). some (words, false) in
    maybe skipped
      (λ (n, word). split_words find lm fuel (drop n (c ∷ chars)) >>= λ (words, no_oov).
        some (word ++ words, no_oov))
      (longest find lm (length (c ∷ chars)) (c ∷ chars))

-- `SplitUTF8StringToWords`
unfoldable pub split_utf8_string_to_words :
    (List ℕ → Option ℕ) → Bool → List ℕ → Option (List (List ℕ) × Bool)
unfolding split_words split_utf8_string_to_chars trim
split_utf8_string_to_words find lm str =
    let chars = split_utf8_string_to_chars (trim str) in split_words find lm (length chars) chars

-- An arc of the graph, with the state that it leaves; its label is what `find` gives.
pub record Arc (S : Scores) : Type 0 where
  pub from : ℕ
  pub label : Option ℕ
  pub weight : S.Score
  pub nextstate : ℕ

module _ (S : Scores) where
  abbrev pub word_score : S.Score → S.Score → ℕ → List ℕ → S.Score
  word_score inc cur i word =
      S.mul (S.add (S.mul (S.of_int i) inc) cur) (S.of_int (utf8_string_length word))

  abbrev pub escape_arcs : ℕ → ℕ → S.Score → List (Arc S)
  escape_arcs zero prev escape = []
  escape_arcs (suc i) prev escape =
      record { from = prev; label = some 0; weight = S.neg escape; nextstate = 0 } ∷ []

  -- The loop over the words of a context: the arcs that are added, and the number of states. `states` is
  -- the number before, and so the state that `AddState` gives next.
  unfoldable pub add_words :
      (List ℕ → Option ℕ)
      → S.Score
      → S.Score
      → ℕ
      → ℕ
      → S.Score
      → ℕ
      → List (List ℕ)
      → List (Arc S) × ℕ
  unfolding utf8_string_length
  add_words find inc cur i prev escape states [] = ([], states)
  add_words find inc cur i prev escape states (w ∷ []) = (
    record { from = prev; label = find w; weight = word_score inc cur i w; nextstate = 0 }
        ∷ escape_arcs i prev escape,
    states,
  )
  add_words find inc cur i prev escape states (w ∷ v ∷ words) =
      let score = word_score inc cur i w in
      let (arcs, states') =
        add_words find inc cur (suc i) states (S.add escape score) (suc states) (v ∷ words) in
      (
        record { from = prev; label = find w; weight = score; nextstate = states }
            ∷ (escape_arcs i prev escape ++ arcs),
        states',
      )

  -- The loop of `BuildContextGraph`, with the counter `count`: the arcs and the number of states.
  unfoldable pub build :
      (List ℕ → Option ℕ)
      → ContextConfig S
      → List S.Score
      → ℕ
      → List (List ℕ)
      → List (Arc S) × ℕ
      → Option (List (Arc S) × ℕ)
  unfolding add_words split_utf8_string_to_words
  build find config scores count [] graph = some graph
  build find config scores count (context ∷ contexts) (arcs, states) =
      let skipped = build find config scores count contexts (arcs, states) in
      let ignored = build find config scores (suc count) contexts (arcs, states) in
      let taken = get_elem? scores count >>= λ cur.
      (if ltb config.max_contexts (suc count)
        then some (arcs, states)
        else (split_utf8_string_to_words find false (trim context) >>= λ (words, no_oov).
            let (more, states') =
              add_words find config.incremental_context_score cur 0 0 S.zero_score states words in
            let added = build find config scores (suc count) contexts (arcs ++ more, states') in
            if no_oov then added else ignored)) in
      if ltb config.max_context_length (length context) then skipped else taken

  -- `BuildContextGraph` up to `Determinize`, of contexts that are not none: state 0 is the only one.
  unfoldable pub build_context_graph :
      (List ℕ → Option ℕ)
      → ContextConfig S
      → List S.Score
      → List (List ℕ)
      → Option (List (Arc S) × ℕ)
  unfolding build
  build_context_graph find config scores contexts = build find config scores 0 contexts ([], 1)

  abbrev pub arcs_of : ℕ → List (Arc S) → List (Arc S)
  arcs_of state [] = []
  arcs_of state (arc ∷ arcs) =
      let rest = arcs_of state arcs in if arc.from == state then arc ∷ rest else rest

  -- What `GetNextState` returns and writes; no score is one that is not written.
  pub record Next : Type 0 where
    pub next_state : ℕ
    pub score : Option S.Score
    pub is_start_boundary : Bool
    pub is_end_boundary : Bool

  -- The loop of `GetNextState` over the arcs of the state.
  unfoldable pub next_of : (ℕ → Bool) → ℕ → ℕ → List (Arc S) → Next
  next_of final cur_state word_id [] = record {
    next_state = 0;
    score = none;
    is_start_boundary = false;
    is_end_boundary = false;
  }
  next_of final cur_state word_id (arc ∷ arcs) =
      let rest = next_of final cur_state word_id arcs in
      let escape = record rest { score = maybe (some arc.weight) some rest.score } in
      let match_ : Next = record {
        next_state = arc.nextstate;
        score = some arc.weight;
        is_start_boundary = cur_state == 0;
        is_end_boundary = final arc.nextstate;
      } in
      maybe rest (λ id. if id == 0 then escape else if id == word_id then match_ else rest)
        arc.label

  unfoldable pub get_next_state : (ℕ → Bool) → List (Arc S) → ℕ → ℕ → Next
  unfolding next_of
  get_next_state final graph cur_state word_id =
      next_of final cur_state word_id (arcs_of cur_state graph)
