-- ===== src/Timestamp/Align/Walk.antt =====
-- The walk back through the table of `TimestampSmooth` (onnxruntime/src/util.cpp), for texts that are
-- split into words that are no punctuation.
use asr_2pass.Prelude.{
  ℕ, zero, suc, ◌+◌, ◌≤◌, ◌<◌, ◌≡◌, refl, ap, ◌∙◌, sym, true, false, ◌&&◌, not, if◌then◌else◌, List,
  [], ◌∷◌, length, drop, get_or, Returns, returns, Returns-mono, Returns-if, ◌==◌, arith, if-true,
  subst,
}
use asr_2pass.Encode.Classes.{is_empty}
use asr_2pass.Timestamp.Words.{is_punctuation_str}
use asr_2pass.Timestamp.Align.Edges.{edit_table-left, edit_table-top}
use asr_2pass.Timestamp.Align.{
  timestamp_add, edit_table, dp_at, Alignments, add_pair, add_first, add_second, backtrack, align,
}

-- The number of the entries of an alignment that are words.
abbrev pub word : List ℕ → ℕ
word w = if is_empty w then 0 else 1

abbrev pub words : List (List ℕ) → ℕ
words [] = 0
words (w ∷ ws) = word w + words ws

-- These entries, in their order.
abbrev pub spoken : List (List ℕ) → List (List ℕ)
spoken [] = []
spoken ([] ∷ ws) = spoken ws
spoken ((b ∷ w) ∷ ws) = (b ∷ w) ∷ spoken ws

pub words-spoken : (ws : List (List ℕ)) → words ws ≡ length (spoken ws)
words-spoken [] = refl
words-spoken ([] ∷ ws) = omega (arith, words-spoken ws)
words-spoken ((b ∷ w) ∷ ws) = omega (arith, words-spoken ws)

-- The two alignments are as long as each other, and no two entries are both empty.
abbrev pub Paired : List (List ℕ) → List (List ℕ) → Type 0
Paired [] [] = Unit {0}
Paired (w1 ∷ ws1) (w2 ∷ ws2) = ((is_empty w1 && is_empty w2) ≡ false) × Paired ws1 ws2
Paired _ _ = ⊥

-- No word is punctuation, which an empty one would be.
abbrev pub NoPunctuation : List (List ℕ) → Type 0
NoPunctuation [] = Unit {0}
NoPunctuation (w ∷ ws) = (is_punctuation_str w ≡ false) × NoPunctuation ws

NoPunctuation-at :
    (ws : List (List ℕ)) (i : ℕ)
    → NoPunctuation ws
    → i < length ws
    → is_punctuation_str (get_or ws i []) ≡ false
NoPunctuation-at [] i h lt = absurd (omega arith)
NoPunctuation-at (w ∷ ws) zero (h, hs) lt = h
NoPunctuation-at (w ∷ ws) (suc i) (h, hs) lt = NoPunctuation-at ws i hs (omega arith)

spoken_word : (w : List ℕ) → is_punctuation_str w ≡ false → is_empty w ≡ false
unfolding is_punctuation_str
spoken_word [] h = absurd (ground arith)
spoken_word (b ∷ w) h = refl

timestamp_add-spoken :
    (ws : List (List ℕ)) (w : List ℕ) → is_punctuation_str w ≡ false → timestamp_add ws w ≡ w ∷ ws
unfolding timestamp_add
timestamp_add-spoken ws w h = if-true _ _ (ap not h)

drop_at :
    (ws : List (List ℕ)) (i : ℕ) → i < length ws → drop i ws ≡ get_or ws i [] ∷ drop (suc i) ws
drop_at [] i h = absurd (omega arith)
drop_at (w ∷ ws) zero h = refl
drop_at (w ∷ ws) (suc i) h = drop_at ws i (omega arith)

drop_all : (ws : List (List ℕ)) → drop (length ws) ws ≡ []
drop_all [] = refl
drop_all (w ∷ ws) = drop_all ws

-- The state of the walk: the first `i` and `j` words of the texts are left, and those behind them are in
-- the alignments.
record Walked (cs itn : List (List ℕ)) (i j : ℕ) (a : Alignments) : Type 0 where
  paired : Paired a.alignment_str1 a.alignment_str2
  first : spoken a.alignment_str1 ≡ drop i cs
  second : spoken a.alignment_str2 ≡ drop j itn

spoken-cons :
    (w : List ℕ) (ws : List (List ℕ)) → is_empty w ≡ false → spoken (w ∷ ws) ≡ w ∷ spoken ws
spoken-cons [] ws h = absurd (cc)
spoken-cons (b ∷ w) ws h = refl

-- The next word is put in front.
spoken_next :
    (texts ws : List (List ℕ)) (i : ℕ)
    → NoPunctuation texts
    → i < length texts
    → spoken ws ≡ drop (suc i) texts
    → spoken (timestamp_add ws (get_or texts i [])) ≡ drop i texts
spoken_next texts ws i clean inside h =
    let w = get_or texts i [] in
    let fair = NoPunctuation-at texts i clean inside in
    ap spoken (timestamp_add-spoken ws w fair)
    ∙ spoken-cons w ws (spoken_word w fair)
    ∙ ap (λ t. w ∷ t) h
    ∙ sym (drop_at texts i inside)

add_pair-Walked :
    (cs itn : List (List ℕ)) (i j : ℕ) (a : Alignments)
    → NoPunctuation cs
    → NoPunctuation itn
    → i < length cs
    → j < length itn
    → Walked cs itn (suc i) (suc j) a
    → Walked cs itn i j (add_pair (get_or cs i []) (get_or itn j []) a)
add_pair-Walked cs itn i j a pc pi hi hj s =
    let c = get_or cs i [] in
    let w = get_or itn j [] in
    let fair = NoPunctuation-at cs i pc hi in
    let ec = timestamp_add-spoken a.alignment_str1 c fair in
    let ew = timestamp_add-spoken a.alignment_str2 w (NoPunctuation-at itn j pi hj) in
    record {
      paired =
          subst (λ t. Paired t (timestamp_add a.alignment_str2 w)) (sym ec)
            (subst (λ t. Paired (c ∷ a.alignment_str1) t) (sym ew)
              (ap (λ b. b && is_empty w) (spoken_word c fair), s.paired));
      first = spoken_next cs a.alignment_str1 i pc hi s.first;
      second = spoken_next itn a.alignment_str2 j pi hj s.second;
    }

add_first-Walked :
    (cs itn : List (List ℕ)) (i j : ℕ) (a : Alignments)
    → NoPunctuation cs
    → i < length cs
    → Walked cs itn (suc i) j a
    → Walked cs itn i j (add_first (get_or cs i []) a)
add_first-Walked cs itn i j a pc hi s =
    let c = get_or cs i [] in
    let fair = NoPunctuation-at cs i pc hi in
    record {
      paired =
          subst (λ t. Paired t ([] ∷ a.alignment_str2))
            (sym (timestamp_add-spoken a.alignment_str1 c fair))
            (ap (λ b. b && true) (spoken_word c fair), s.paired);
      first = spoken_next cs a.alignment_str1 i pc hi s.first;
      second = s.second;
    }

add_second-Walked :
    (cs itn : List (List ℕ)) (i j : ℕ) (a : Alignments)
    → NoPunctuation itn
    → j < length itn
    → Walked cs itn i (suc j) a
    → Walked cs itn i j (add_second (get_or itn j []) a)
add_second-Walked cs itn i j a pi hj s =
    let w = get_or itn j [] in
    let fair = NoPunctuation-at itn j pi hj in
    record {
      paired =
          subst (λ t. Paired ([] ∷ a.alignment_str1) t)
            (sym (timestamp_add-spoken a.alignment_str2 w fair)) (spoken_word w fair, s.paired);
      first = s.first;
      second = spoken_next itn a.alignment_str2 j pi hj s.second;
    }

backtrack-Walked :
    (fuel : ℕ) (cs itn : List (List ℕ)) (i j : ℕ) (a : Alignments)
    → i + j < fuel
    → i ≤ length cs
    → j ≤ length itn
    → NoPunctuation cs
    → NoPunctuation itn
    → Walked cs itn i j a
    → Returns (Walked cs itn 0 0) (backtrack fuel (edit_table cs itn) cs itn i j a)
unfolding backtrack
backtrack-Walked zero cs itn i j a enough hi hj pc pi s = absurd (omega arith)
backtrack-Walked (suc fuel) cs itn zero zero a enough hi hj pc pi s = returns a s
backtrack-Walked (suc fuel) cs itn (suc i) zero a enough hi hj pc pi s =
    let below = edit_table-left cs itn (suc i) hi in
    let above = edit_table-left cs itn i (omega arith) in
    Returns-if (dp_at (edit_table cs itn) (suc i) 0 == suc (dp_at (edit_table cs itn) i 0))
      (λ e.
        backtrack-Walked fuel cs itn i zero _ (omega arith) (omega arith) hj pc pi
          (add_first-Walked cs itn i zero a pc hi s))
      (λ e. absurd (ground (arith, below, above)))
backtrack-Walked (suc fuel) cs itn zero (suc j) a enough hi hj pc pi s =
    let after = edit_table-top cs itn (suc j) hj in
    let before = edit_table-top cs itn j (omega arith) in
    Returns-if (dp_at (edit_table cs itn) 0 (suc j) == suc (dp_at (edit_table cs itn) 0 j))
      (λ e.
        backtrack-Walked fuel cs itn zero j _ (omega arith) hi (omega arith) pc pi
          (add_second-Walked cs itn zero j a pi hj s))
      (λ e. absurd (ground (arith, after, before)))
backtrack-Walked (suc fuel) cs itn (suc i) (suc j) a enough hi hj pc pi s =
    let pair =
      backtrack-Walked fuel cs itn i j _ (omega arith) (omega arith) (omega arith) pc pi
        (add_pair-Walked cs itn i j a pc pi hi hj s) in
    Returns-if (dp_at (edit_table cs itn) (suc i) (suc j) == dp_at (edit_table cs itn) i j)
      (λ e. pair)
      (λ e1.
        Returns-if
          (dp_at (edit_table cs itn) (suc i) (suc j) == suc (dp_at (edit_table cs itn) i (suc j)))
          (λ e.
            backtrack-Walked fuel cs itn i (suc j) _ (omega arith) (omega arith) hj pc pi
              (add_first-Walked cs itn i (suc j) a pc hi s))
          (λ e2.
            Returns-if
              (dp_at (edit_table cs itn) (suc i) (suc j)
                == suc (dp_at (edit_table cs itn) (suc i) j))
              (λ e.
                backtrack-Walked fuel cs itn (suc i) j _ (omega arith) hi (omega arith) pc pi
                  (add_second-Walked cs itn (suc i) j a pi hj s))
              (λ e3. pair)))

-- Of two texts with no punctuation, the walk back reads nothing outside the table, and ends. The two
-- alignments are as long as each other and no two entries are both empty, and without the empty entries
-- they are the two texts, word for word.
pub align-Paired :
    (characters itn : List (List ℕ))
    → NoPunctuation characters
    → NoPunctuation itn
    → Returns
        (λ a.
          Paired a.alignment_str1 a.alignment_str2
          × (spoken a.alignment_str1 ≡ characters)
          × (spoken a.alignment_str2 ≡ itn))
        (align characters itn)
unfolding align
align-Paired characters itn pc pi =
    Returns-mono
      (backtrack-Walked (length characters + length itn + 1) characters itn (length characters)
        (length itn) _ (omega arith) (omega arith) (omega arith) pc pi
        (record { paired = tt; first = sym (drop_all characters); second = sym (drop_all itn) }))
      (λ a s. (s.paired, s.first, s.second))
