-- ===== src/Audio/TwoPass/Stream/Close.antt =====
-- The start and the end of a segment in `Audio::Split` (onnxruntime/src/audio.cpp).
use asr_2pass.Prelude.{
  ℕ, suc, ◌+◌, ◌-◌, ◌*◌, ◌≤◌, ◌<◌, ◌≡◌, refl, ap, ◌∙◌, sym, true, List, [], ◌∷◌, ◌++◌, length, take,
  drop, leb, ltb, Option, none, some, ◌>>=◌, arith, subst, Returns, returns, Returns-bind,
  Returns-mono, Returns-if,
}
use native.Mathlib.Nat.{mul-le-mul_right}
use asr_2pass.Audio.{AudioFrame, Audio}
use asr_2pass.Audio.TwoPass.{
  asr_two_pass, push_offline, on_segment, on_segment_end, close_offline, close_online, start_or_0,
}
use asr_2pass.Audio.TwoPass.Slices.{Keeps, slice, slice-append, a_frame, cut_frame-slice}
use asr_2pass.Audio.TwoPass.Cut.{samples_of, LastIsFinal, NoneOrLast, cut_rest-Cuts}
use asr_2pass.Audio.TwoPass.Stream.{Streaming}

module _ {A : Type 0} where
  -- The frames that close a segment from `from_ms` to `end_ms`, of which the first pass has had `sent`, up
  -- to `start_ms`: `frames` for the first pass, and `all` for the second one.
  pub record Closes (received sent : List A) (from_ms start_ms end_ms : ℕ) (a b : Audio A)
      : Type 0 where
    pub frames : List (AudioFrame A)
    pub all : AudioFrame A
    pub online : b.asr_online_queue ≡ a.asr_online_queue ++ frames
    pub offline : b.asr_offline_queue ≡ a.asr_offline_queue ++ all ∷ []
    pub remaining :
        samples_of frames ≡ slice received (start_ms * a.seg_sample) (end_ms * a.seg_sample)
    pub complete : all.frame_data ≡ slice received (from_ms * a.seg_sample) (end_ms * a.seg_sample)
    pub same : sent ++ samples_of frames ≡ all.frame_data
    pub ended : LastIsFinal frames
    pub final : all.is_final ≡ true
    pub times : (all.global_start ≡ from_ms) × (all.global_end ≡ end_ms)
    pub closed : (b.speech_start ≡ none) × (b.speech_offline_start ≡ none)

  -- The first pass at the end of a segment.
  close_online-slice :
      (received : List A) (chunk_len start_ms end_ms : ℕ) (a : Audio A)
      → Keeps received a
      → a.offset ≤ start_ms * a.seg_sample
      → start_ms * a.seg_sample ≤ end_ms * a.seg_sample
      → end_ms * a.seg_sample ≤ length received
      → 0 < chunk_len
      → Returns
          (λ b.
            (frames : List (AudioFrame A)) × (b
              ≡ record a { asr_online_queue = a.asr_online_queue ++ frames })
            × (samples_of frames ≡ slice received (start_ms * a.seg_sample) (end_ms * a.seg_sample))
            × LastIsFinal frames)
          (close_online chunk_len start_ms end_ms a)
  unfolding close_online slice
  close_online-slice received chunk_len start_ms end_ms a k from order to moves =
      let i = start_ms * a.seg_sample in
      let j = end_ms * a.seg_sample in
      let reach : i + (j - i) ≡ j = omega arith in
      let begin : i + 0 ≡ i = omega arith in
      Returns-if (ltb i j)
        (λ some_rest.
          let more : ltb (i + 0) (i + (j - i)) ≡ true = ground arith in
          Returns-mono
            (cut_rest-Cuts received (suc (j - i)) i (j - i) chunk_len 0 a k from (omega arith) moves
              (omega arith) (omega arith))
            (λ b c. (
              c.frames,
              c.queued,
              c.whole
                  ∙ ap (λ m. slice received m (i + (j - i))) begin
                  ∙ ap (slice received i) reach,
              subst (λ t. NoneOrLast t c.frames) more c.ended,
            )))
        (λ no_rest.
          let nothing : 0 ≡ j - i = ground arith in
          returns _ (_, refl, ap (λ n. take n (drop i received)) nothing, refl))

  -- The second pass at the end of a segment.
  offline_frame :
      (received : List A) (from_ms end_ms : ℕ) (a : Audio A)
      → Keeps received a
      → a.offset ≤ from_ms * a.seg_sample
      → from_ms * a.seg_sample ≤ end_ms * a.seg_sample
      → end_ms * a.seg_sample ≤ length received
      → Returns
          (λ b.
            b
            ≡ push_offline
                (a_frame received
                  (from_ms * a.seg_sample)
                  (end_ms * a.seg_sample - from_ms * a.seg_sample)
                  true
                  from_ms
                  end_ms)
                a)
          (close_offline end_ms (some from_ms) a)
  unfolding close_offline
  offline_frame received from_ms end_ms a k from order to =
      let i = from_ms * a.seg_sample in
      let j = end_ms * a.seg_sample in
      Returns-bind
        (Returns-if (leb i j)
          (λ yes.
            subst (Returns (λ f. f ≡ a_frame received i (j - i) true from_ms end_ms))
              (sym (cut_frame-slice received a i (j - i) true from_ms end_ms k from (omega arith)))
              (returns _ refl))
          (λ no. absurd (ground arith)))
        (λ f e. returns _ (ap (λ g. push_offline g a) e))

  -- A segment that is open is closed by an end at or behind what the first pass has had, of which the
  -- samples are there. The run returns; the first pass gets the samples from what it has had to the
  -- end, the last frame final and no other; the second one gets one final frame with the samples from
  -- the start of the segment to its end, which are just those that the first pass has had in all.
  pub on_segment_end-same_audio :
      (received sent : List A) (chunk_len end_ms : ℕ) (a : Audio A) (s : Streaming received sent a)
      → s.start_ms ≤ end_ms
      → end_ms * a.seg_sample ≤ length received
      → 0 < chunk_len
      → Returns
          (Closes received sent s.from_ms s.start_ms end_ms a)
          (on_segment asr_two_pass chunk_len none (some end_ms) a)
  unfolding on_segment on_segment_end close_offline
  on_segment_end-same_audio received sent chunk_len end_ms a s order to moves =
      let seg = a.seg_sample in
      let i = s.from_ms * seg in
      let m = s.start_ms * seg in
      let j = end_ms * seg in
      let first = mul-le-mul_right seg s.after in
      let rest = mul-le-mul_right seg order in
      let f = a_frame received i (j - i) true s.from_ms end_ms in
      let goal : Option ℕ → Option ℕ → Type 0 = λ start from.
        Returns (Closes received sent s.from_ms s.start_ms end_ms a) (
          close_offline end_ms from a >>= λ a1.
          close_online chunk_len (start_or_0 start from) end_ms a1 >>= λ a2.
          some (record a2 { speech_start = none; speech_offline_start = none })) in
      subst (λ o. goal o a.speech_offline_start) (sym s.opened)
        (subst (λ o. goal (some s.start_ms) o) (sym s.began)
          (Returns-bind
            (offline_frame received s.from_ms end_ms a s.keeps s.reach (omega (arith, first, rest))
              to)
            (λ a1 e1.
              Returns-bind
                (subst
                  (λ (c : Audio A).
                    Returns
                      (λ b.
                        (frames : List (AudioFrame A)) × (b
                          ≡ record c { asr_online_queue = c.asr_online_queue ++ frames })
                        × (samples_of frames ≡ slice received m j)
                        × LastIsFinal frames)
                      (close_online chunk_len s.start_ms end_ms c))
                  (sym e1)
                  (close_online-slice received chunk_len s.start_ms end_ms (push_offline f a)
                    (record { kept = s.keeps.kept; placed = s.keeps.placed })
                    (omega (arith, s.reach, first)) rest to moves))
                (λ b (frames, e2, whole, last). returns _ (record {
                  frames = frames;
                  all = f;
                  online =
                      ap (λ (c : Audio A). c.asr_online_queue) e2
                      ∙ ap (λ (c : Audio A). c.asr_online_queue ++ frames) e1;
                  offline =
                      ap (λ (c : Audio A). c.asr_offline_queue) e2
                      ∙ ap (λ (c : Audio A). c.asr_offline_queue) e1;
                  remaining = whole;
                  complete = ap (slice received i) (omega (arith, first, rest));
                  same =
                      ap (λ t. t ++ samples_of frames) s.has_sent
                      ∙ ap (λ t. slice received i m ++ t) whole
                      ∙ slice-append received i m j first rest
                      ∙ ap (slice received i) (omega (arith, first, rest));
                  ended = last;
                  final = refl;
                  times = (refl, refl);
                  closed = (refl, refl);
                })))))
