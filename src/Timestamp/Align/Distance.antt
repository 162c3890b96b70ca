-- ===== src/Timestamp/Align/Distance.antt =====
-- The table of `TimestampSmooth` (onnxruntime/src/util.cpp) against the recursive definition of the edit distance.
use asr_2pass.Prelude.{ℕ, suc, min, if◌then◌else◌, ◌≡◌, refl, ap, ◌∙◌, List, [], ◌∷◌, length}
use asr_2pass.Prelude.Bytes.{same_bytes}
use asr_2pass.Timestamp.Align.{first_row, next_cells, rows, edit_table}

-- The edit distance of two texts, each with its last word first: a pair of the same words costs
-- nothing, and otherwise the last words are replaced, or one of them is left out, each for 1.
unfoldable pub distance : List (List ℕ) → List (List ℕ) → ℕ
distance [] ys = length ys
distance (x ∷ xs) [] = suc (length xs)
distance (x ∷ xs) (y ∷ ys) =
    let left_out = distance xs (y ∷ ys) in
    let put_in = distance (x ∷ xs) ys in
    let without_both = distance xs ys in
    if same_bytes x y then without_both else suc (min (min left_out put_in) without_both)

-- The distances of `xs` from `ys` and from what it becomes word by word.
abbrev pub distances : List (List ℕ) → List (List ℕ) → List (List ℕ) → List ℕ
distances xs ys [] = distance xs ys ∷ []
distances xs ys (w ∷ itn) = distance xs ys ∷ distances xs (w ∷ ys) itn

-- A row of distances for each beginning of the text.
abbrev pub distance_rows : List (List ℕ) → List (List ℕ) → List (List ℕ) → List (List ℕ)
distance_rows xs [] itn = distances xs [] itn ∷ []
distance_rows xs (c ∷ characters) itn = distances xs [] itn ∷ distance_rows (c ∷ xs) characters itn

first_row-distances :
    (ys itn : List (List ℕ)) (j : ℕ) → j ≡ length ys → first_row j itn ≡ distances [] ys itn
unfolding distance
first_row-distances ys [] j e = ap (λ n. n ∷ []) e
first_row-distances ys (w ∷ itn) j e =
    ap (λ n. n ∷ first_row (suc j) itn) e
    ∙ ap (λ t. length ys ∷ t) (first_row-distances (w ∷ ys) itn (suc j) (ap suc e))

abbrev tail : List ℕ → List ℕ
tail [] = []
tail (n ∷ ns) = ns

next_cells-distances :
    (c : List ℕ) (xs ys itn : List (List ℕ))
    → next_cells c itn (distances xs ys itn) (distance (c ∷ xs) ys)
      ≡ tail (distances (c ∷ xs) ys itn)
unfolding distance
next_cells-distances c xs ys [] = refl
next_cells-distances c xs ys (w ∷ []) = refl
next_cells-distances c xs ys (w ∷ v ∷ itn) =
    ap (λ t. distance (c ∷ xs) (w ∷ ys) ∷ t) (next_cells-distances c xs (w ∷ ys) (v ∷ itn))

distances-tail :
    (xs itn : List (List ℕ)) → distance xs [] ∷ tail (distances xs [] itn) ≡ distances xs [] itn
distances-tail xs [] = refl
distances-tail xs (w ∷ itn) = refl

rows-distance_rows :
    (xs characters itn : List (List ℕ)) (i : ℕ)
    → i ≡ length xs
    → rows i characters itn (distances xs [] itn) ≡ distance_rows xs characters itn
unfolding distance
rows-distance_rows xs [] itn i e = refl
rows-distance_rows xs (c ∷ characters) itn i e =
    let next = suc i ∷ next_cells c itn (distances xs [] itn) (suc i) in
    let same : next ≡ distances (c ∷ xs) [] itn =
      ap (λ n. suc n ∷ next_cells c itn (distances xs [] itn) (suc n)) e
      ∙ ap (λ t. suc (length xs) ∷ t) (next_cells-distances c xs [] itn)
      ∙ distances-tail (c ∷ xs) itn in
    ap (λ t. distances xs [] itn ∷ t)
      (ap (λ r. rows (suc i) characters itn r) same
        ∙ rows-distance_rows (c ∷ xs) characters itn (suc i) (ap suc e))

-- The table holds, at each beginning of the text and of the normalised text, their edit distance as
-- it is defined by recursion on the words.
pub edit_table-distance_rows :
    (characters itn : List (List ℕ)) → edit_table characters itn ≡ distance_rows [] characters itn
unfolding edit_table
edit_table-distance_rows characters itn =
    ap (λ r. rows 0 characters itn r) (first_row-distances [] itn 0 refl)
    ∙ rows-distance_rows [] characters itn 0 refl
