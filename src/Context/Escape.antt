-- ===== src/Context/Escape.antt =====
-- A walk through the arcs of one context (`GetNextState` and `BuildContextGraph`,
-- onnxruntime/src/context_graph.cpp).
use mathlib.Core.List.{append_assoc}
use asr_2pass.Prelude.{
  if_cases, ℕ, zero, suc, ◌+◌, ◌<◌, ◌≡◌, refl, ap, ◌∙◌, sym, subst, Bool, false, if◌then◌else◌,
  if-true, if-false, List, [], ◌∷◌, ◌++◌, length, length-append, ◌==◌, Option, none, some, maybe,
  arith,
}
use asr_2pass.Context.{
  Scores, Arc, word_score, escape_arcs, add_words, arcs_of, Next, next_of, get_next_state,
}
use asr_2pass.Context.Arcs.{
  higher, same, arcs_of-append, Below, Below-none, Below-append, Below-suc, escape_arcs-Below,
  own_escape, word_arc, add_words_more, own_arcs,
}

module _ (S : Scores) where
  abbrev pub final : ℕ → Bool
  final state = state == 0

  -- A word is read: its arc is taken.
  reads :
      (cur_state id : ℕ) (arc : Arc S) (arcs : List (Arc S))
      → arc.label ≡ some (suc id)
      → next_of S final cur_state (suc id) (arc ∷ arcs) ≡ record {
        next_state = arc.nextstate;
        score = some arc.weight;
        is_start_boundary = cur_state == 0;
        is_end_boundary = final arc.nextstate;
      }
  unfolding next_of
  reads cur_state id arc arcs h =
      let rest = next_of S final cur_state (suc id) arcs in
      let escape : Next S = record rest { score = maybe (some arc.weight) some rest.score } in
      let match_ : Next S = record {
        next_state = arc.nextstate;
        score = some arc.weight;
        is_start_boundary = cur_state == 0;
        is_end_boundary = final arc.nextstate;
      } in
      ap (λ l. maybe rest (λ n. if n == 0 then escape else if n == suc id then match_ else rest) l)
        h
      ∙ if-false _ _ (higher (suc id) 0 (omega arith))
      ∙ if-true _ _ (same (suc id))

  -- The label is not the word's.
  abbrev pub Misses : ℕ → Option ℕ → Type 0
  Misses x = maybe (Unit {0}) (λ n. (n == x) ≡ false)

  abbrev Escapes : S.Score → Next S → Type 0
  Escapes e r = (r.next_state ≡ 0) × (r.score ≡ some e)

  Misses-cases :
      (e w : S.Score) (x : ℕ) (label : Option ℕ) (match_ rest : Next S)
      → Misses x label
      → Escapes e rest
      → Escapes e (
          maybe rest
            (λ n.
              if n == 0
              then record rest { score = maybe (some w) some rest.score }
              else if n == x
              then match_
              else rest)
            label)
  Misses-cases e w x none match_ rest m h = h
  Misses-cases e w x (some n) match_ rest m (h, k) =
      if_cases (Escapes e) (n == 0) {x = record rest { score = maybe (some w) some rest.score }}
        {y = if n == x then match_ else rest} (λ z. (h, ap (maybe (some w) some) k))
        (λ z. subst (Escapes e) (sym (if-false _ _ m)) (h, k))

  misses :
      (cur_state x i prev : ℕ) (escape : S.Score) (arc : Arc S)
      → Misses x arc.label
      → Escapes
          (S.neg escape)
          (next_of S final cur_state x (arc ∷ escape_arcs S (suc i) prev escape))
  unfolding next_of
  misses cur_state x i prev escape arc m =
      Misses-cases (S.neg escape) arc.weight x arc.label
        (record {
          next_state = arc.nextstate;
          score = some arc.weight;
          is_start_boundary = cur_state == 0;
          is_end_boundary = final arc.nextstate;
        })
        (next_of S final cur_state x (escape_arcs S (suc i) prev escape)) m (refl, refl)

  -- The states and scores of a walk.
  unfoldable pub walk : List (Arc S) → ℕ → List ℕ → ℕ × List (Option S.Score)
  unfolding get_next_state
  walk graph state [] = (state, [])
  walk graph state (id ∷ ids) =
      let next = get_next_state S final graph state id in
      let (end, scores) = walk graph next.next_state ids in (end, next.score ∷ scores)

  -- The words have these ids, and none is that of the empty word.
  abbrev pub HaveIds : (List ℕ → Option ℕ) → List (List ℕ) → List ℕ → Type 0
  HaveIds find [] [] = Unit {0}
  HaveIds find (w ∷ ws) (suc id ∷ ids) = (find w ≡ some (suc id)) × HaveIds find ws ids
  HaveIds find _ _ = ⊥

  -- The scores of the words, from the one with number `i` on, and then the sum of all with what was there
  -- before, taken back.
  abbrev pub given_and_taken :
      S.Score → S.Score → ℕ → S.Score → List (List ℕ) → List (Option S.Score)
  given_and_taken inc cur i sum [] = some (S.neg sum) ∷ []
  given_and_taken inc cur i sum (w ∷ ws) =
      let score = word_score S inc cur i w in
      some score ∷ given_and_taken inc cur (suc i) (S.add sum score) ws

  -- The walk ends at a word that is not the next one.
  ends :
      (graph : List (Arc S)) (x i prev : ℕ) (escape : S.Score) (arc : Arc S)
      → Misses x arc.label
      → arcs_of S prev graph ≡ arc ∷ escape_arcs S (suc i) prev escape
      → walk graph prev (x ∷ []) ≡ (0, some (S.neg escape) ∷ [])
  unfolding walk get_next_state
  ends graph x i prev escape arc m arcs =
      let (e, s) = misses prev x i prev escape arc m in
      ap (λ xs. let n = next_of S final prev x xs in (n.next_state, n.score ∷ [])) arcs
      ∙ (λ j. (e j, s j ∷ []))

  -- The walk goes on at the next word.
  goes_on :
      (graph : List (Arc S)) (id prev : ℕ) (ids : List ℕ) (arc : Arc S) (arcs : List (Arc S))
      → arc.label ≡ some (suc id)
      → arcs_of S prev graph ≡ arc ∷ arcs
      → walk graph prev (suc id ∷ ids)
        ≡ ((walk graph arc.nextstate ids).0, some arc.weight ∷ (walk graph arc.nextstate ids).1)
  unfolding walk get_next_state
  goes_on graph id prev ids arc arcs h own =
      ap
        (λ (n : Next S).
          ((walk graph n.next_state ids).0, n.score ∷ (walk graph n.next_state ids).1))
        (ap (next_of S final prev (suc id)) own ∙ reads prev id arc arcs h)

  own_first :
      (prev : ℕ) (before rest : List (Arc S)) (arc : Arc S) (i : ℕ) (escape : S.Score)
      → arc.from ≡ prev
      → arcs_of S prev before ≡ []
      → arcs_of S prev (before ++ (arc ∷ escape_arcs S i prev escape) ++ rest)
        ≡ arc ∷ (escape_arcs S i prev escape ++ arcs_of S prev rest)
  own_first prev before rest arc i escape h none_before =
      let own = arc ∷ escape_arcs S i prev escape in
      arcs_of-append S prev (before ++ own) rest
      ∙ ap (λ xs. xs ++ arcs_of S prev rest)
          (arcs_of-append S prev before own
            ∙ ap (λ xs. xs ++ arcs_of S prev own) none_before
            ∙ if-true _ _ (ap (λ n. n == prev) h ∙ same prev)
            ∙ ap (λ xs. arc ∷ xs) (own_escape S i prev escape))

  fails :
      (find : List ℕ → Option ℕ) (inc cur : S.Score) (ws : List (List ℕ)) (v : List ℕ)
      (more : List (List ℕ)) (ids : List ℕ) (x i prev : ℕ) (escape : S.Score) (states : ℕ)
      (before : List (Arc S))
      → HaveIds find ws ids
      → Misses x (find v)
      → prev < states
      → 0 < i + length ws
      → arcs_of S prev before ≡ []
      → Below S states before
      → walk
          (before ++ (add_words S find inc cur i prev escape states (ws ++ v ∷ more)).0)
          prev
          (ids ++ x ∷ [])
        ≡ (0, given_and_taken inc cur i escape ws)
  fails find inc cur [] v more (id ∷ ids) x i prev escape states before h m p q none_before below =
      elim h [ ]
  fails find inc cur (w ∷ ws) v more [] x i prev escape states before h m p q none_before below =
      elim h [ ]
  fails find inc cur (w ∷ ws) v more (zero ∷ ids) x i prev escape states before h m p q none_before
        below =
      elim h [ ]
  fails find inc cur [] v more [] x zero prev escape states before h m p q none_before below =
      absurd (omega arith)
  fails find inc cur [] v more [] x (suc i) prev escape states before h m p q none_before below =
      let arcs = (add_words S find inc cur (suc i) prev escape states (v ∷ more)).0 in
      let (next, own) = own_arcs S find inc cur v more (suc i) prev escape states p in
      ends (before ++ arcs) x i prev escape (word_arc S find inc cur (suc i) prev next v) m
        (arcs_of-append S prev before arcs ∙ ap (λ xs. xs ++ arcs_of S prev arcs) none_before ∙ own)
  fails find inc cur (w ∷ ws) v more (suc id ∷ ids) x i prev escape states before (h, hs) m p q
        none_before below =
      let score = word_score S inc cur i w in
      let arc = word_arc S find inc cur i prev states w in
      let own = arc ∷ escape_arcs S i prev escape in
      let rest =
        (add_words S find inc cur (suc i) states (S.add escape score) (suc states)
          (ws ++ v ∷ more)).0 in
      let below' =
        Below-append S states before own below (p, escape_arcs-Below S i prev states escape p) in
      ap (λ arcs. walk arcs prev (suc id ∷ (ids ++ x ∷ [])))
        (ap (λ xs. before ++ xs)
            (add_words_more S find inc cur w (ws ++ v ∷ more) i prev escape states
              (omega (arith, length-append ws (v ∷ more))))
          ∙ sym (append_assoc before own rest))
      ∙ goes_on (before ++ own ++ rest) id prev (ids ++ x ∷ []) arc
          (escape_arcs S i prev escape ++ arcs_of S prev rest) h
          (own_first prev before rest arc i escape refl none_before)
      ∙ ap (λ (r : ℕ × List (Option S.Score)). (r.0, some score ∷ r.1))
          (fails find inc cur ws v more ids x (suc i) states (S.add escape score) (suc states)
            (before ++ own) hs m (omega arith) (omega arith)
            (Below-none S states (before ++ own) below')
            (Below-suc S states (before ++ own) below'))

  -- In the graph of one context, a walk from the start along its first words, one at least, that then meets
  -- a word which is not the next one of the context ends in the start state; it is given the scores of
  -- these words, and then their sum is taken back.
  pub walk-add_words :
      (find : List ℕ → Option ℕ) (inc cur : S.Score) (ws : List (List ℕ)) (v : List ℕ)
      (more : List (List ℕ)) (ids : List ℕ) (x : ℕ)
      → 0 < length ws
      → HaveIds find ws ids
      → Misses x (find v)
      → walk (add_words S find inc cur 0 0 S.zero_score 1 (ws ++ v ∷ more)).0 0 (ids ++ x ∷ [])
        ≡ (0, given_and_taken inc cur 0 S.zero_score ws)
  walk-add_words find inc cur ws v more ids x some_word h m =
      fails find inc cur ws v more ids x 0 0 S.zero_score 1 [] h m (omega arith) (omega arith) refl
        tt
