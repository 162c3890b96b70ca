-- ===== src/Examples/Context.antt =====
-- The theorems on the graph of the hotwords (onnxruntime/src/context_graph.cpp) at concrete inputs.
use asr_2pass.Prelude.{ℕ, ◌≡◌, ◌++◌, refl, List, [], ◌∷◌, Option, some, none, Returns, false, arith}
use asr_2pass.Prelude.Int.{ℤ, pos, ◌+ℤ◌, ◌*ℤ◌, neg_ℤ, pos_part}
use asr_2pass.Context.{Scores, ContextConfig, split_words, add_words, build}
use asr_2pass.Context.Words.{Splits, split_words-Splits}
use asr_2pass.Context.Escape.{walk, walk-add_words, given_and_taken}
use asr_2pass.Context.Positions.{short, build-short}

abbrev integers : Scores
integers = record {
  Score = ℤ;
  zero_score = pos 0;
  of_int = pos;
  add = λ a b. a +ℤ b;
  mul = λ a b. a *ℤ b;
  neg = λ a. neg_ℤ (pos_part a);
}

-- A table with the characters of one byte.
abbrev table : List ℕ → Option ℕ
table [] = none
table (b ∷ []) = some b
table (a ∷ b ∷ word) = none

abbrev settings : ContextConfig integers
settings = record { max_contexts = 5000; max_context_length = 3; incremental_context_score = pos 0 }

-- `1 2` and a character that is not in the table.
abbrev chars : List (List ℕ)
chars = (49 ∷ []) ∷ (32 ∷ []) ∷ (50 ∷ []) ∷ (0xc2 ∷ 0xa0 ∷ []) ∷ []

split_words-Splits_example : Returns (Splits table false chars) (split_words table false 4 chars)
split_words-Splits_example = split_words-Splits table false 4 chars (omega arith)

-- The context of three words, of which the walk meets the first two.
walk-add_words_example :
    walk integers
      (add_words integers table
        (pos 0)
        (pos 3)
        0
        0
        (pos 0)
        1
        (((49 ∷ []) ∷ (50 ∷ []) ∷ []) ++ (51 ∷ []) ∷ [])).0
      0
      ((49 ∷ 50 ∷ []) ++ 52 ∷ [])
    ≡ (0, given_and_taken integers (pos 0) (pos 3) 0 (pos 0) ((49 ∷ []) ∷ (50 ∷ []) ∷ []))
walk-add_words_example =
    walk-add_words integers table (pos 0) (pos 3) ((49 ∷ []) ∷ (50 ∷ []) ∷ []) (51 ∷ []) []
      (49 ∷ 50 ∷ []) 52 (omega arith) (refl, (refl, tt)) refl

-- The first context is too long.
abbrev contexts : List (List ℕ)
contexts = (49 ∷ 50 ∷ 51 ∷ 52 ∷ []) ∷ (50 ∷ []) ∷ []

build-short_example :
    build integers table settings (pos 1 ∷ pos 2 ∷ []) 0 contexts ([], 1)
    ≡ build integers table settings
        (pos 1 ∷ pos 2 ∷ [])
        0
        (short integers settings contexts)
        ([], 1)
build-short_example = build-short integers table settings (pos 1 ∷ pos 2 ∷ []) 0 contexts ([], 1)
