-- ===== src/Context/Positions.antt =====
-- Which score a context gets (`BuildContextGraph`, onnxruntime/src/context_graph.cpp).
use asr_2pass.Prelude.{
  ℕ, suc, ◌≡◌, refl, ap, ◌∙◌, false, if◌then◌else◌, List, [], ◌∷◌, ◌++◌, length, ltb, Option, some,
  ◌>>=◌, get_elem?, Bool-cases, inl, inr, sym, if-true, if-false,
}
use mathlib.Core.Path.{fun_ext}
use asr_2pass.Context.{Scores, ContextConfig, Arc, build, add_words, split_utf8_string_to_words}
use asr_2pass.Text.{trim}

module _ (S : Scores) where
  -- The contexts that are not too long.
  abbrev pub short : ContextConfig S → List (List ℕ) → List (List ℕ)
  short config [] = []
  short config (context ∷ contexts) =
      let rest = short config contexts in
      if ltb config.max_context_length (length context) then rest else context ∷ rest

  abbrev Rest : Type 0
  Rest = ℕ → List (Arc S) × ℕ → Option (List (Arc S) × ℕ)

  -- What the loop does with a context that is not too long.
  abbrev take_context :
      (List ℕ → Option ℕ)
      → ContextConfig S
      → List S.Score
      → ℕ
      → List ℕ
      → List (Arc S) × ℕ
      → Rest
      → Option (List (Arc S) × ℕ)
  take_context find config scores count context (arcs, states) rest =
      get_elem? scores count >>= λ cur.
      (if ltb config.max_contexts (suc count)
        then some (arcs, states)
        else (split_utf8_string_to_words find false (trim context) >>= λ (words, no_oov).
            let (more, states') =
              add_words S find config.incremental_context_score cur 0 0 S.zero_score states words in
            if no_oov
            then rest (suc count) (arcs ++ more, states')
            else rest (suc count) (arcs, states)))

  -- The graph is that of the contexts that are not too long: where one is left out, the scores of those
  -- behind it are those of the contexts before them.
  pub build-short :
      (find : List ℕ → Option ℕ) (config : ContextConfig S) (scores : List S.Score) (count : ℕ)
      (contexts : List (List ℕ)) (graph : List (Arc S) × ℕ)
      → build S find config scores count contexts graph
        ≡ build S find config scores count (short config contexts) graph
  unfolding build
  build-short find config scores count [] graph = refl
  build-short find config scores count (context ∷ contexts) graph =
      elim (Bool-cases (ltb config.max_context_length (length context))) [
        | inl long ↦
            if-true _ _ long
            ∙ build-short find config scores count contexts graph
            ∙ ap (λ cs. build S find config scores count cs graph) (sym (if-true _ _ long))
        | inr fits ↦
            if-false _ _ fits
            ∙ ap (take_context find config scores count context graph)
                (fun_ext (λ c. fun_ext (λ g. build-short find config scores c contexts g)))
            ∙ sym (if-false _ _ fits)
            ∙ ap (λ cs. build S find config scores count cs graph) (sym (if-false _ _ fits))
      ]
