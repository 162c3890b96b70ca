-- ===== src/Timestamp/Align.antt =====
-- The alignment of `TimestampSmooth` (onnxruntime/src/util.cpp): the table of edit distances between
-- the words of the text and of the normalised text, and the walk back through it.
use asr_2pass.Prelude.{
  ℕ, zero, suc, ◌+◌, ◌-◌, ◌≡◌, refl, ap, ◌∙◌, sym, Bool, true, false, ◌&&◌, ◌||◌, not,
  if◌then◌else◌, List, [], ◌∷◌, ◌++◌, leb, ltb, ◌==◌, length, get_or, min, Option, none, some,
  ◌>>=◌,
}
use asr_2pass.Prelude.Bytes.{same_bytes}
use asr_2pass.Timestamp.Words.{is_punctuation_str}
pub mod Distance
pub mod Walk
pub mod Edges

-- `TimestampAdd`
unfoldable pub timestamp_add : List (List ℕ) → List ℕ → List (List ℕ)
unfolding is_punctuation_str
timestamp_add alignment str_word =
    if not (is_punctuation_str str_word) then str_word ∷ alignment else alignment

-- `dp[0][j] = j`, from `j` on.
abbrev pub first_row : ℕ → List (List ℕ) → List ℕ
first_row j [] = j ∷ []
first_row j (w ∷ itn) = j ∷ first_row (suc j) itn

abbrev pub cell : Bool → ℕ → ℕ → ℕ → ℕ
cell same up left diagonal = if same then diagonal else suc (min (min up left) diagonal)

-- The cells after `left` in a row: `c` is the row's word, and the list of numbers is the row above.
abbrev pub next_cells : List ℕ → List (List ℕ) → List ℕ → ℕ → List ℕ
next_cells c [] above left = []
next_cells c (w ∷ itn) [] left = []
next_cells c (w ∷ itn) (diagonal ∷ []) left = []
next_cells c (w ∷ itn) (diagonal ∷ up ∷ above) left =
    cell (same_bytes c w) up left diagonal
    ∷ next_cells c itn (up ∷ above) (cell (same_bytes c w) up left diagonal)

-- The row of index `i` and those below it.
abbrev pub rows : ℕ → List (List ℕ) → List (List ℕ) → List ℕ → List (List ℕ)
rows i [] itn row = row ∷ []
rows i (c ∷ characters) itn row =
    row ∷ rows (suc i) characters itn (suc i ∷ next_cells c itn row (suc i))

-- `dp`
unfoldable pub edit_table : List (List ℕ) → List (List ℕ) → List (List ℕ)
edit_table characters itn = rows 0 characters itn (first_row 0 itn)

abbrev pub dp_at : List (List ℕ) → ℕ → ℕ → ℕ
dp_at dp i j = get_or (get_or dp i []) j 0

-- The two alignments, with their fronts first.
pub record Alignments : Type 0 where
  pub alignment_str1 : List (List ℕ)
  pub alignment_str2 : List (List ℕ)

abbrev pub add_pair : List ℕ → List ℕ → Alignments → Alignments
add_pair c w a = record {
  alignment_str1 = timestamp_add a.alignment_str1 c;
  alignment_str2 = timestamp_add a.alignment_str2 w;
}

abbrev pub add_first : List ℕ → Alignments → Alignments
add_first c a = record {
  alignment_str1 = timestamp_add a.alignment_str1 c;
  alignment_str2 = [] ∷ a.alignment_str2;
}

abbrev pub add_second : List ℕ → Alignments → Alignments
add_second w a = record {
  alignment_str1 = [] ∷ a.alignment_str1;
  alignment_str2 = timestamp_add a.alignment_str2 w;
}

-- The `while` loop. The index is above `i + j`, which falls in each round, so `i + j + 1` is enough
-- fuel. Where the last branch is taken at a border of the table, a word before the first is read.
unfoldable pub backtrack :
    ℕ → List (List ℕ) → List (List ℕ) → List (List ℕ) → ℕ → ℕ → Alignments → Option Alignments
unfolding timestamp_add
backtrack zero dp characters itn i j a = none
backtrack (suc fuel) dp characters itn zero zero a = some a
backtrack (suc fuel) dp characters itn (suc i) zero a =
    let c = get_or characters i [] in
    let first = backtrack fuel dp characters itn i zero (add_first c a) in
    if dp_at dp (suc i) 0 == suc (dp_at dp i 0) then first else none
backtrack (suc fuel) dp characters itn zero (suc j) a =
    let w = get_or itn j [] in
    let second = backtrack fuel dp characters itn zero j (add_second w a) in
    if dp_at dp 0 (suc j) == suc (dp_at dp 0 j) then second else none
backtrack (suc fuel) dp characters itn (suc i) (suc j) a =
    let c = get_or characters i [] in
    let w = get_or itn j [] in
    let pair = backtrack fuel dp characters itn i j (add_pair c w a) in
    let first = backtrack fuel dp characters itn i (suc j) (add_first c a) in
    let second = backtrack fuel dp characters itn (suc i) j (add_second w a) in
    if dp_at dp (suc i) (suc j) == dp_at dp i j
    then pair
    else if dp_at dp (suc i) (suc j) == suc (dp_at dp i (suc j))
    then first
    else if dp_at dp (suc i) (suc j) == suc (dp_at dp (suc i) j)
    then second
    else pair

-- The alignment of two lists of words.
unfoldable pub align : List (List ℕ) → List (List ℕ) → Option Alignments
unfolding edit_table backtrack
align characters itn =
    backtrack (length characters + length itn + 1) (edit_table characters itn) characters itn
      (length characters) (length itn) (record { alignment_str1 = []; alignment_str2 = [] })
