-- ===== src/Timestamp/Align/Edges.antt =====
-- The first column and the first row of the table of `TimestampSmooth` (onnxruntime/src/util.cpp).
use asr_2pass.Prelude.{
  ℕ, zero, suc, ◌+◌, ◌≤◌, ◌≡◌, refl, ap, ◌∙◌, List, [], ◌∷◌, length, get_or, arith,
}
use asr_2pass.Timestamp.Align.{first_row, next_cells, rows, edit_table, dp_at}

first_row-at :
    (itn : List (List ℕ)) (j k : ℕ) → k ≤ length itn → get_or (first_row j itn) k 0 ≡ j + k
first_row-at [] j zero h = omega arith
first_row-at [] j (suc k) h = absurd (omega arith)
first_row-at (w ∷ itn) j zero h = omega arith
first_row-at (w ∷ itn) j (suc k) h = omega (arith, first_row-at itn (suc j) k (omega arith))

rows-top : (i : ℕ) (cs itn : List (List ℕ)) (row : List ℕ) → get_or (rows i cs itn row) 0 [] ≡ row
rows-top i [] itn row = refl
rows-top i (c ∷ cs) itn row = refl

rows-left :
    (i : ℕ) (cs itn : List (List ℕ)) (row : List ℕ) (k : ℕ)
    → get_or row 0 0 ≡ i
    → k ≤ length cs
    → get_or (get_or (rows i cs itn row) k []) 0 0 ≡ i + k
rows-left i [] itn row zero e h = omega (arith, e)
rows-left i [] itn row (suc k) e h = absurd (omega arith)
rows-left i (c ∷ cs) itn row zero e h = omega (arith, e)
rows-left i (c ∷ cs) itn row (suc k) e h =
    omega
      (arith, rows-left (suc i) cs itn (suc i ∷ next_cells c itn row (suc i)) k refl (omega arith))

pub edit_table-left :
    (cs itn : List (List ℕ)) (i : ℕ) → i ≤ length cs → dp_at (edit_table cs itn) i 0 ≡ i
unfolding edit_table
edit_table-left cs itn i h =
    omega (arith, rows-left 0 cs itn (first_row 0 itn) i (first_row-at itn 0 0 (omega arith)) h)

pub edit_table-top :
    (cs itn : List (List ℕ)) (j : ℕ) → j ≤ length itn → dp_at (edit_table cs itn) 0 j ≡ j
unfolding edit_table
edit_table-top cs itn j h =
    ap (λ r. get_or r j 0) (rows-top 0 cs itn (first_row 0 itn))
    ∙ first_row-at itn 0 j h
    ∙ (omega arith)
