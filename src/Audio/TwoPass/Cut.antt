-- ===== src/Audio/TwoPass/Cut.antt =====
-- The loop of `Audio::Split` (onnxruntime/src/audio.cpp) that cuts the rest of a segment into chunks.
use asr_2pass.Prelude.{
  ℕ, zero, suc, ◌+◌, ◌-◌, ◌/◌, ◌≤◌, ◌<◌, ◌≡◌, refl, ap, ◌∙◌, sym, Bool, true, false, if◌then◌else◌,
  List, [], ◌∷◌, ◌++◌, length, take, drop, leb, ltb, min, ◌>>=◌, arith, subst, Returns, returns,
  Returns-mono, Returns-if, lt→ltb, not,
}
use mathlib.Core.List.{append-nil, append_assoc}
use asr_2pass.Audio.{AudioFrame, Audio}
use asr_2pass.Audio.TwoPass.{push_online, cut_rest}
use asr_2pass.Audio.TwoPass.Slices.{Keeps, slice, slice-append, a_frame, cut_frame-slice}

module _ {A : Type 0} where
  -- The samples of the frames, one frame after the other.
  abbrev pub samples_of : List (AudioFrame A) → List A
  samples_of [] = []
  samples_of (f ∷ fs) = f.frame_data ++ samples_of fs

  pub samples_of-append :
      (fs gs : List (AudioFrame A)) → samples_of (fs ++ gs) ≡ samples_of fs ++ samples_of gs
  samples_of-append [] gs = refl
  samples_of-append (f ∷ fs) gs =
      ap (λ t. f.frame_data ++ t) (samples_of-append fs gs)
      ∙ sym (append_assoc f.frame_data (samples_of fs) (samples_of gs))

  -- The last frame is final, and no other.
  abbrev pub LastIsFinal : List (AudioFrame A) → Type 0
  LastIsFinal [] = ⊥
  LastIsFinal (f ∷ []) = f.is_final ≡ true
  LastIsFinal (f ∷ g ∷ fs) = (f.is_final ≡ false) × LastIsFinal (g ∷ fs)

  abbrev pub NoneOrLast : Bool → List (AudioFrame A) → Type 0
  NoneOrLast true fs = LastIsFinal fs
  NoneOrLast false fs = fs ≡ []

  -- What the loop puts in the queue: `fs`, with the samples from `i` to `j`.
  pub record Cuts (received : List A) (i j : ℕ) (a b : Audio A) : Type 0 where
    pub frames : List (AudioFrame A)
    pub queued : b ≡ record a { asr_online_queue = a.asr_online_queue ++ frames }
    pub whole : samples_of frames ≡ slice received i j
    pub ended : NoneOrLast (ltb i j) frames

  no_cut : (received : List A) (i j : ℕ) (a : Audio A) → j ≡ i → Cuts received i j a a
  unfolding slice
  no_cut received i j a e = record {
    frames = [];
    queued = ap (λ q. record a { asr_online_queue = q }) (sym (append-nil a.asr_online_queue));
    whole = sym (ap (λ n. take n (drop i received)) (nothing e));
    ended = subst (λ c. NoneOrLast c []) (sym (at_end e)) refl;
  }
    where
      at_end : j ≡ i → ltb i j ≡ false
      at_end e = ground arith

      nothing : j ≡ i → j - i ≡ 0
      nothing e = omega arith

  chain_end :
      (more : Bool) (f : AudioFrame A) (fs : List (AudioFrame A))
      → NoneOrLast more fs
      → f.is_final ≡ not more
      → LastIsFinal (f ∷ fs)
  chain_end true f [] h e = absurd h
  chain_end true f (g ∷ fs) h e = (e, h)
  chain_end false f [] h e = e
  chain_end false f (g ∷ fs) h e = absurd (cc)

  one_cut :
      (received : List A) (i m j : ℕ) (a b : Audio A) (f : AudioFrame A)
      → i < m
      → m ≤ j
      → f.frame_data ≡ slice received i m
      → f.is_final ≡ not (ltb m j)
      → Cuts received m j (push_online f a) b
      → Cuts received i j a b
  one_cut received i m j a b f h g e last c = record {
    frames = f ∷ c.frames;
    queued =
        c.queued
        ∙ ap (λ q. record a { asr_online_queue = q })
            (append_assoc a.asr_online_queue (f ∷ []) c.frames);
    whole =
        ap (λ t. t ++ samples_of c.frames) e
        ∙ ap (λ t. slice received i m ++ t) c.whole
        ∙ slice-append received i m j (omega arith) g;
    ended =
        subst (λ b. NoneOrLast b (f ∷ c.frames)) (sym (lt→ltb i j (omega arith)))
          (chain_end (ltb m j) f c.frames c.ended last);
  }

  -- With one round more than there are samples to cut, and a step that moves on, the loop returns: its
  -- frames have the samples of the rest, in their order and each once, and the last frame is final, and
  -- no other.
  pub cut_rest-Cuts :
      (received : List A) (fuel start buff_len step sample_offset : ℕ) (a : Audio A)
      → Keeps received a
      → a.offset ≤ start
      → start + buff_len ≤ length received
      → 0 < step
      → sample_offset ≤ buff_len
      → buff_len < sample_offset + fuel
      → Returns
          (Cuts received (start + sample_offset) (start + buff_len) a)
          (cut_rest fuel start buff_len step sample_offset a)
  unfolding cut_rest
  cut_rest-Cuts received zero start buff_len step sample_offset a k from to moves inside enough =
      absurd (omega arith)
  cut_rest-Cuts received (suc fuel) start buff_len step sample_offset a k from to moves inside
        enough =
      let last = leb (buff_len - 1) (sample_offset + step) in
      let len = if last then buff_len - sample_offset else step in
      let i = start + sample_offset in
      let from_ms = i / a.seg_sample in
      let f = a_frame received i len last from_ms (from_ms + len / a.seg_sample) in
      let next = sample_offset + min len (buff_len - sample_offset) in
      Returns-if (ltb sample_offset buff_len)
        (λ more.
          let fits : sample_offset + len ≤ buff_len = ground arith in
          let some_len : 0 < len = ground arith in
          let ends : last ≡ not (ltb (i + len) (start + buff_len)) = ground arith in
          let there : start + next ≡ i + len = omega (arith, fits) in
          subst
            (λ r.
              Returns (Cuts received i (start + buff_len) a)
                (r >>= λ g. cut_rest fuel start buff_len len next (push_online g a)))
            (sym (
              cut_frame-slice received a i len last from_ms (from_ms + len / a.seg_sample) k
                (omega arith) (omega (arith, fits))))
            (Returns-mono
              (cut_rest-Cuts received fuel start buff_len len next (push_online f a)
                (record { kept = k.kept; placed = k.placed }) from to some_len (omega (arith, fits))
                (omega (arith, fits, some_len)))
              (λ b c.
                one_cut received i (i + len) (start + buff_len) a b f (omega (arith, some_len))
                  (omega (arith, fits)) refl ends
                  (subst (λ m. Cuts received m (start + buff_len) (push_online f a) b) there c))))
        (λ over. returns a (no_cut received i (start + buff_len) a (ground arith)))
