-- ===== src/Audio/TwoPass/Slices.antt =====
-- Parts of the audio that has been received, of which `Audio` (onnxruntime/src/audio.cpp) keeps the end.
use asr_2pass.Prelude.{
  ℕ, zero, suc, ◌+◌, ◌-◌, ◌≤◌, ◌≡◌, refl, ap, ◌∙◌, sym, Bool, List, [], ◌∷◌, ◌++◌, length,
  length-drop, take, drop, le→leb, if-true, some, ◌>>=◌, arith,
}
use asr_2pass.Audio.{AudioFrame, Audio, new_frame, copy}
use asr_2pass.Audio.TwoPass.{cut_frame}

module _ {ℓ} {A : Type ℓ} where
  drop-nil : (n : ℕ) → drop {A = A} n [] ≡ []
  drop-nil zero = refl
  drop-nil (suc n) = refl

  take-nil : (n : ℕ) → take {A = A} n [] ≡ []
  take-nil zero = refl
  take-nil (suc n) = refl

  pub drop-drop : (m n : ℕ) (xs : List A) → drop n (drop m xs) ≡ drop (m + n) xs
  drop-drop zero n xs = ap (λ k. drop k xs) (omega arith)
  drop-drop (suc m) n [] = drop-nil n ∙ sym (drop-nil (suc m + n))
  drop-drop (suc m) n (x ∷ xs) = drop-drop m n xs ∙ ap (λ k. drop k (x ∷ xs)) (sym next)
    where
      next : suc m + n ≡ suc (m + n)
      next = omega arith

  pub take-append-take : (m n : ℕ) (xs : List A) → take m xs ++ take n (drop m xs) ≡ take (m + n) xs
  take-append-take zero n xs = ap (λ k. take k xs) (omega arith)
  take-append-take (suc m) n [] = take-nil n ∙ sym (take-nil (suc m + n))
  take-append-take (suc m) n (x ∷ xs) =
      ap (λ t. x ∷ t) (take-append-take m n xs) ∙ ap (λ k. take k (x ∷ xs)) (sym next)
    where
      next : suc m + n ≡ suc (m + n)
      next = omega arith

  pub drop-append : (n : ℕ) (xs ys : List A) → n ≤ length xs → drop n (xs ++ ys) ≡ drop n xs ++ ys
  drop-append zero xs ys h = refl
  drop-append (suc n) [] ys h = absurd (omega arith)
  drop-append (suc n) (x ∷ xs) ys h = drop-append n xs ys (omega arith)

  pub take-append : (n : ℕ) (xs ys : List A) → n ≤ length xs → take n (xs ++ ys) ≡ take n xs
  take-append zero xs ys h = refl
  take-append (suc n) [] ys h = absurd (omega arith)
  take-append (suc n) (x ∷ xs) ys h = ap (λ t. x ∷ t) (take-append n xs ys (omega arith))

  -- The elements from the index `i` to the index `j`.
  unfoldable pub slice : List A → ℕ → ℕ → List A
  slice xs i j = take (j - i) (drop i xs)

  pub slice-append :
      (xs : List A) (i j k : ℕ) → i ≤ j → j ≤ k → slice xs i j ++ slice xs j k ≡ slice xs i k
  unfolding slice
  slice-append xs i j k h g =
      ap (λ t. take (j - i) (drop i xs) ++ take (k - j) t)
        (ap (λ n. drop n xs) up ∙ sym (drop-drop i (j - i) xs))
      ∙ take-append-take (j - i) (k - j) (drop i xs)
      ∙ ap (λ n. take n (drop i xs)) all
    where
      up : j ≡ i + (j - i)
      up = omega arith

      all : j - i + (k - j) ≡ k - i
      all = omega arith

  -- A part that is there already stays when more is received.
  pub slice-more :
      (xs ys : List A) (i j : ℕ) → i ≤ j → j ≤ length xs → slice (xs ++ ys) i j ≡ slice xs i j
  unfolding slice
  slice-more xs ys i j h g =
      ap (λ t. take (j - i) t) (drop-append i xs ys (omega arith))
      ∙ take-append (j - i) (drop i xs) ys (omega (arith, length-drop i xs))

module _ {A : Type 0} where
  -- The samples that are kept are the end of all that have been received.
  pub record Keeps (received : List A) (a : Audio A) : Type 0 where
    pub kept : a.all_samples ≡ drop a.offset received
    pub placed : a.offset ≤ length received

  pub copy-slice :
      (received : List A) (a : Audio A) (at len : ℕ)
      → Keeps received a
      → a.offset ≤ at
      → at + len ≤ length received
      → copy a.all_samples a.offset at len ≡ some (slice received at (at + len))
  unfolding copy slice
  copy-slice received a at len k from to =
      if-true _ _ (le→leb a.offset at from)
      ∙ if-true _ _ (le→leb (at - a.offset + len) (length a.all_samples) room)
      ∙ ap some (
          ap (λ t. take len (drop (at - a.offset) t)) k.kept
          ∙ ap (λ t. take len t)
              (drop-drop a.offset (at - a.offset) received ∙ ap (λ n. drop n received) there)
          ∙ ap (λ n. take n (drop at received)) whole)
    where
      room : at - a.offset + len ≤ length a.all_samples
      room = omega (arith, ap length k.kept, length-drop a.offset received, k.placed)

      there : a.offset + (at - a.offset) ≡ at
      there = omega arith

      whole : len ≡ at + len - at
      whole = omega arith

  -- The frame that `cut_frame` makes.
  abbrev pub a_frame : List A → ℕ → ℕ → Bool → ℕ → ℕ → AudioFrame A
  a_frame received at len is_final global_start global_end = record (new_frame len) {
    is_final = is_final;
    frame_data = slice received at (at + len);
    global_start = global_start;
    global_end = global_end;
  }

  pub cut_frame-slice :
      (received : List A) (a : Audio A) (at len : ℕ) (is_final : Bool) (global_start global_end : ℕ)
      → Keeps received a
      → a.offset ≤ at
      → at + len ≤ length received
      → cut_frame a at len is_final global_start global_end
        ≡ some (a_frame received at len is_final global_start global_end)
  unfolding cut_frame
  cut_frame-slice received a at len is_final global_start global_end k from to =
      ap
        (λ t. t >>= λ samples. some (record (new_frame len) {
          is_final = is_final;
          frame_data = samples;
          global_start = global_start;
          global_end = global_end;
        }))
        (copy-slice received a at len k from to)
