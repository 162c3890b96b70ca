-- ===== src/Audio/Batches.antt =====
-- The frames that are fetched for decoding, one by one and in batches (onnxruntime/src/audio.cpp).
use asr_2pass.Prelude.{
  ℕ, zero, suc, ◌+◌, ◌*◌, ◌≤◌, ◌<◌, ◌≡◌, refl, ap, ◌∙◌, sym, true, false, if◌then◌else◌, List, [],
  ◌∷◌, ◌++◌, length, take, drop, leb, ltb, ◌==◌, min, max, Option, none, some, ◌>>=◌, uncons, arith,
  Returns, returns, Returns-bind, Returns-if, ◌⊎◌, inl, inr, ltb→lt, subst, leb-false,
}
use asr_2pass.Audio.{AudioFrame, Audio}

-- What a fetch gives of a frame: where its samples start, and how many there are.
abbrev pub fetched : {A : Type 0} → AudioFrame A → ℕ × ℕ
fetched f = (f.start, f.len)

-- `Fetch`, of one frame; `none` is the return of 0.
unfoldable pub fetch : {A : Type 0} → Audio A → Option ((ℕ × ℕ) × Audio A)
fetch a = uncons a.frame_queue >>= λ (f, fs). some (fetched f, record a { frame_queue = fs })

-- `Fetch`, of at most `batch_size` frames.
unfoldable pub fetch_batch : {A : Type 0} → ℕ → Audio A → Option (List (AudioFrame A) × Audio A)
fetch_batch batch_size a =
    let batch_in = min (length a.frame_queue) batch_size in
    if batch_in == 0
    then none
    else some (take batch_in a.frame_queue, record a { frame_queue = drop batch_in a.frame_queue })

abbrev pub max_acc : ℕ → ℕ
max_acc seg_sample = 300 * 1000 * seg_sample

abbrev pub max_sent : ℕ → ℕ
max_sent seg_sample = 60 * 1000 * seg_sample

-- The loop of `FetchDynamic`, with the rounds that are left: the frames taken, and those that stay.
unfoldable pub dynamic_loop :
    {A : Type 0}
    → ℕ
    → ℕ
    → ℕ
    → ℕ
    → List (AudioFrame A)
    → Option (List (AudioFrame A) × List (AudioFrame A))
dynamic_loop seg zero max_len bs_acc queue = some ([], queue)
dynamic_loop seg (suc n) max_len bs_acc [] = none
dynamic_loop seg (suc n) max_len bs_acc (f ∷ queue) =
    let longest = max max_len f.len in
    let rest =
      dynamic_loop seg n longest (suc bs_acc) queue >>= λ (batch, stay). some (f ∷ batch, stay) in
    if leb (max_sent seg) f.len
    then (if bs_acc == 0 then some (f ∷ [], queue) else some ([], f ∷ queue))
    else if ltb (max_acc seg) (longest * suc bs_acc)
    then some ([], f ∷ queue)
    else rest

-- `FetchDynamic`; `max_batch` is `batch_size` on a GPU, and 1 elsewhere.
unfoldable pub fetch_dynamic : {A : Type 0} → ℕ → Audio A → Option (List (AudioFrame A) × Audio A)
unfolding dynamic_loop
fetch_dynamic max_batch a =
    dynamic_loop a.seg_sample (min max_batch (length a.frame_queue)) 0 0 a.frame_queue
    >>= λ (batch, stay).
        if length batch == 0 then none else some (batch, record a { frame_queue = stay })

first_fits :
    (seg max_len bs_acc len : ℕ)
    → bs_acc ≡ 0
    → max_len ≡ 0
    → leb (max_sent seg) len ≡ false
    → ltb (max_acc seg) (max max_len len * suc bs_acc) ≡ true
    → ⊥
first_fits seg max_len bs_acc len z none_yet short heavy =
    let small : len < max_sent seg = leb-false (max_sent seg) len short in
    let big = ltb→lt (max_acc seg) (max max_len len * suc bs_acc) heavy in
    let one : max max_len len * suc bs_acc ≡ len =
      ap (λ k. max max_len len * suc k) z ∙ ap (λ m. max m len * 1) none_yet ∙ (omega arith) in
    omega (arith, small, big, one)

module _ {A : Type 0} where
  abbrev pub longest_of : ℕ → List (AudioFrame A) → ℕ
  longest_of n [] = n
  longest_of n (f ∷ fs) = longest_of (max n f.len) fs

  -- The batch that is taken after `bs_acc` frames, of which the longest has `max_len` samples.
  record Taken (seg max_len bs_acc rounds : ℕ) (queue batch stay : List (AudioFrame A))
      : Type 0 where
    kept : batch ++ stay ≡ queue
    few : length batch ≤ rounds
    light :
        ((bs_acc ≡ 0) × (length batch ≡ 1))
        ⊎ ((batch ≡ []) ⊎ (longest_of max_len batch * (bs_acc + length batch) ≤ max_acc seg))
    some_frame : bs_acc ≡ 0 → max_len ≡ 0 → 0 < rounds → 0 < length batch

  heavier :
      (seg longest bs_acc : ℕ) (batch : List (AudioFrame A))
      → ((suc bs_acc ≡ 0) × (length batch ≡ 1))
        ⊎ ((batch ≡ []) ⊎ (longest_of longest batch * (suc bs_acc + length batch) ≤ max_acc seg))
      → longest * suc bs_acc ≤ max_acc seg
      → longest_of longest batch * (bs_acc + suc (length batch)) ≤ max_acc seg
  heavier seg longest bs_acc batch (inl (z, one)) fits = absurd (omega arith)
  heavier seg longest bs_acc batch (inr (inl e)) fits =
      subst (λ b. longest_of longest b * (bs_acc + suc (length b)) ≤ max_acc seg) (sym e)
        (subst (λ k. longest * k ≤ max_acc seg) (one_more bs_acc) fits)
    where
      one_more : (n : ℕ) → suc n ≡ n + suc 0
      one_more n = omega arith
  heavier seg longest bs_acc batch (inr (inr l)) fits =
      subst (λ k. longest_of longest batch * k ≤ max_acc seg) (moved bs_acc (length batch)) l
    where
      moved : (n m : ℕ) → suc n + m ≡ n + suc m
      moved n m = omega arith

  weight :
      (seg : ℕ) (batch : List (AudioFrame A))
      → 0 < length batch
      → (◌≡◌ {A = ℕ} 0 0 × (length batch ≡ 1))
        ⊎ ((batch ≡ []) ⊎ (longest_of 0 batch * (0 + length batch) ≤ max_acc seg))
      → (length batch ≡ 1) ⊎ (longest_of 0 batch * length batch ≤ max_acc seg)
  weight seg batch h (inl (z, one)) = inl one
  weight seg batch h (inr (inl e)) = absurd (omega (arith, ap length e))
  weight seg batch h (inr (inr l)) =
      inr (subst (λ n. longest_of 0 batch * n ≤ max_acc seg) (zero_plus (length batch)) l)
    where
      zero_plus : (n : ℕ) → 0 + n ≡ n
      zero_plus n = omega arith

  dynamic_loop-Taken :
      (seg rounds max_len bs_acc : ℕ) (queue : List (AudioFrame A))
      → rounds ≤ length queue
      → Returns
          (λ r. Taken seg max_len bs_acc rounds queue r.0 r.1)
          (dynamic_loop seg rounds max_len bs_acc queue)
  unfolding dynamic_loop
  dynamic_loop-Taken seg zero max_len bs_acc queue h = returns _ (record {
    kept = refl;
    few = omega arith;
    light = inr (inl refl);
    some_frame = λ a b c. absurd (omega arith);
  })
  dynamic_loop-Taken seg (suc n) max_len bs_acc [] h = absurd (omega arith)
  dynamic_loop-Taken seg (suc n) max_len bs_acc (f ∷ queue) h =
      let longest = max max_len f.len in
      Returns-if (leb (max_sent seg) f.len)
        (λ long.
          Returns-if (bs_acc == 0)
            (λ first. returns _ (record {
              kept = refl;
              few = omega arith;
              light = inl (ground arith, omega arith);
              some_frame = λ a b c. omega arith;
            }))
            (λ later. returns _ (record {
              kept = refl;
              few = omega arith;
              light = inr (inl refl);
              some_frame = λ a b c. absurd (ground arith);
            })))
        (λ short.
          Returns-if (ltb (max_acc seg) (longest * suc bs_acc))
            (λ heavy. returns _ (record {
              kept = refl;
              few = omega arith;
              light = inr (inl refl);
              some_frame = λ a b c. absurd (first_fits seg max_len bs_acc f.len a b short heavy);
            }))
            (λ light.
              Returns-bind (dynamic_loop-Taken seg n longest (suc bs_acc) queue (omega arith))
                (λ r t. returns _ (record {
                  kept = ap (λ q. f ∷ q) t.kept;
                  few = omega (arith, t.few);
                  light = inr (inr (heavier seg longest bs_acc r.0 t.light (ground arith)));
                  some_frame = λ a b c. omega arith;
                }))))

  -- What `FetchDynamic` takes from a queue that is not empty, with room for a frame: it returns 1; the
  -- frames come from the front of the queue, in their order, and the others stay; there is one at
  -- least and no more than `max_batch`; and either it is one frame, or the longest, as often as there
  -- are frames, is within the 300 seconds that a batch may have.
  pub fetch_dynamic_lem :
      (max_batch : ℕ) (a : Audio A)
      → 0 < max_batch
      → 0 < length a.frame_queue
      → Returns
          (λ r.
            (r.0 ++ r.1.frame_queue ≡ a.frame_queue)
            × (0 < length r.0)
            × (length r.0 ≤ max_batch)
            × ((length r.0 ≡ 1) ⊎ (longest_of 0 r.0 * length r.0 ≤ max_acc a.seg_sample)))
          (fetch_dynamic max_batch a)
  unfolding fetch_dynamic
  fetch_dynamic_lem max_batch a some_room some_frame =
      Returns-bind
        (dynamic_loop-Taken a.seg_sample (min max_batch (length a.frame_queue)) 0 0 a.frame_queue
          (omega arith))
        (λ (batch, stay) t.
          let one = t.some_frame refl refl (omega arith) in
          Returns-if (length batch == 0) (λ empty. absurd (ground (arith, one)))
            (λ full.
              returns _ (t.kept, one, omega (arith, t.few), weight a.seg_sample batch one t.light)))
