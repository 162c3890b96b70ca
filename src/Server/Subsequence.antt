-- ===== src/Server/Subsequence.antt =====
-- Some of the bytes of a text, in their order: the audio that the server
-- (websocket/bin/websocket-server-2pass.cpp) passes on.
use asr_2pass.Prelude.{ℕ, List, [], ◌∷◌, ◌++◌}

-- Some of the elements, in their order.
pub data Sub : List ℕ → List ℕ → Type 0 where
  nil : Sub [] []
  keep : {x : ℕ} {xs ys : List ℕ} → Sub xs ys → Sub (x ∷ xs) (x ∷ ys)
  skip : {x : ℕ} {xs ys : List ℕ} → Sub xs ys → Sub xs (x ∷ ys)

pub Sub-refl : (xs : List ℕ) → Sub xs xs
Sub-refl [] = nil
Sub-refl (x ∷ xs) = keep (Sub-refl xs)

pub Sub-trans : {xs ys zs : List ℕ} → Sub xs ys → Sub ys zs → Sub xs zs
Sub-trans s nil = s
Sub-trans s (skip t) = skip (Sub-trans s t)
Sub-trans (keep s) (keep t) = keep (Sub-trans s t)
Sub-trans (skip s) (keep t) = skip (Sub-trans s t)

pub Sub-behind : (xs : List ℕ) {ys zs : List ℕ} → Sub ys zs → Sub (xs ++ ys) (xs ++ zs)
Sub-behind [] s = s
Sub-behind (x ∷ xs) s = keep (Sub-behind xs s)

pub Sub-without : (xs ys : List ℕ) → Sub ys (xs ++ ys)
Sub-without [] ys = Sub-refl ys
Sub-without (x ∷ xs) ys = skip (Sub-without xs ys)

pub Sub-end : {xs ys : List ℕ} (zs : List ℕ) → Sub xs ys → Sub (xs ++ zs) (ys ++ zs)
Sub-end zs nil = Sub-refl zs
Sub-end zs (keep s) = keep (Sub-end zs s)
Sub-end zs (skip s) = skip (Sub-end zs s)
