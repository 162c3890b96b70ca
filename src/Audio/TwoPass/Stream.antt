-- ===== src/Audio/TwoPass/Stream.antt =====
-- A segment of speech through both passes of `Audio::Split` (onnxruntime/src/audio.cpp): it is opened,
-- its chunks are sent while it goes on, and it is closed.
pub mod Close
pub mod Calls
use asr_2pass.Prelude.{
  ℕ, zero, suc, ◌+◌, ◌-◌, ◌*◌, ◌/◌, ◌≤◌, ◌<◌, ◌≡◌, refl, ap, ◌∙◌, sym, Bool, true, false,
  if◌then◌else◌, List, [], ◌∷◌, ◌++◌, map, length, length-append, length-drop, take, drop, leb, ltb,
  min, Option, none, some, ◌>>=◌, maybe, uncons, arith, subst, Returns, returns, Returns-bind,
  Returns-mono, Returns-if, le→leb, lt→ltb, leb→le, ltb→lt, if-true, if-false, Bool-cases, ◌⊎◌, inl,
  inr,
}
use mathlib.Core.List.{append-nil, append_assoc}
use native.Mathlib.Nat.{mul-le-mul_right, div-eq_of_eq-mul_left, add-mul}
use asr_2pass.Prelude.Int.{ℤ}
use asr_2pass.Audio.{AudioFrame, Audio, new_frame, load_pcmwav, load_pcmwav_online, pcm_samples}
use asr_2pass.Audio.TwoPass.{
  AsrType, asr_offline, asr_online, asr_two_pass, runs_online, runs_offline, push_online,
  push_offline, cut_frame, send_chunk, on_no_segment, on_segment_start, on_segment_end, on_segment,
  close_offline, close_online, start_or_0, erase_samples, hear, split,
}
use asr_2pass.Audio.TwoPass.Slices.{
  Keeps, slice, slice-append, slice-more, drop-drop, drop-append, a_frame, cut_frame-slice,
}
use asr_2pass.Audio.TwoPass.Cut.{
  samples_of, samples_of-append, LastIsFinal, NoneOrLast, Cuts, cut_rest-Cuts,
}

module _ {A : Type 0} where
  -- A segment is open: `sent` has gone to the first pass since it started.
  pub record Streaming (received sent : List A) (a : Audio A) : Type 0 where
    pub keeps : Keeps received a
    pub start_ms : ℕ
    pub from_ms : ℕ
    pub some_seg : 0 < a.seg_sample
    pub opened : a.speech_start ≡ some start_ms
    pub began : a.speech_offline_start ≡ some from_ms
    pub after : from_ms ≤ start_ms
    pub reach : a.offset ≤ from_ms * a.seg_sample
    pub inside : start_ms * a.seg_sample ≤ length received
    pub heard : a.speech_end * a.seg_sample ≤ length received
    pub has_sent : sent ≡ slice received (from_ms * a.seg_sample) (start_ms * a.seg_sample)

  abbrev pub NoneIsFinal : List (AudioFrame A) → Type 0
  NoneIsFinal [] = Unit {0}
  NoneIsFinal (f ∷ fs) = (f.is_final ≡ false) × NoneIsFinal fs

  -- The frames that a call adds to the first pass, and the segment that goes on.
  pub record Continues (received sent : List A) (a b : Audio A) : Type 0 where
    pub frames : List (AudioFrame A)
    pub queued : b.asr_online_queue ≡ a.asr_online_queue ++ frames
    pub offline : b.asr_offline_queue ≡ a.asr_offline_queue
    pub waiting : b.frame_queue ≡ a.frame_queue
    pub seg : b.seg_sample ≡ a.seg_sample
    pub rate : b.dest_sample_rate ≡ a.dest_sample_rate
    pub open_ended : NoneIsFinal frames
    pub streaming : Streaming received (sent ++ samples_of frames) b

  pub no_frames :
      (received sent : List A) (a : Audio A)
      → Streaming received sent a
      → Continues received sent a a
  no_frames received sent a s = record {
    frames = [];
    queued = sym (append-nil a.asr_online_queue);
    offline = refl;
    waiting = refl;
    seg = refl;
    rate = refl;
    open_ended = tt;
    streaming = subst (λ t. Streaming received t a) (sym (append-nil sent)) s;
  }

  send_chunk-Continues :
      (received sent : List A) (chunk_len k : ℕ) (a : Audio A)
      → chunk_len ≡ k * a.seg_sample
      → (s : Streaming received sent a)
      → Returns (Continues received sent a) (send_chunk asr_two_pass chunk_len (s.start_ms) a)
  unfolding send_chunk
  send_chunk-Continues received sent chunk_len k a whole s =
      let seg = a.seg_sample in
      let n = s.start_ms * seg in
      let next_ms = s.start_ms + chunk_len / seg in
      let from = mul-le-mul_right seg s.after in
      let quotient : chunk_len / seg ≡ k = div-eq_of_eq-mul_left s.some_seg whole in
      let there : next_ms * seg ≡ n + chunk_len =
        ap (λ q. (s.start_ms + q) * seg) quotient
        ∙ add-mul s.start_ms k seg
        ∙ ap (λ c. n + c) (sym whole) in
      let f = a_frame received n chunk_len false s.start_ms next_ms in
      Returns-if (leb (n + chunk_len) (a.speech_end * seg))
        (λ fits.
          let room : n + chunk_len ≤ a.speech_end * seg =
            leb→le (n + chunk_len) (a.speech_end * seg) fits in
          let here : n + chunk_len ≤ length received = omega (arith, s.heard, room) in
          subst
            (λ r.
              Returns (Continues received sent a)
                (r >>= λ g. some (record (push_online g a) { speech_start = some next_ms })))
            (sym (
              cut_frame-slice received a n chunk_len false s.start_ms next_ms s.keeps
                (omega (arith, s.reach, from)) here))
            (returns _ (record {
              frames = f ∷ [];
              queued = refl;
              offline = refl;
              waiting = refl;
              seg = refl;
              rate = refl;
              open_ended = (refl, tt);
              streaming = record {
                keeps = record { kept = s.keeps.kept; placed = s.keeps.placed };
                start_ms = next_ms;
                from_ms = s.from_ms;
                some_seg = s.some_seg;
                opened = refl;
                began = s.began;
                after = omega (arith, s.after);
                reach = s.reach;
                inside = omega (arith, there, here);
                heard = s.heard;
                has_sent =
                    ap (λ t. sent ++ t) (append-nil (slice received n (n + chunk_len)))
                    ∙ ap (λ t. t ++ slice received n (n + chunk_len)) s.has_sent
                    ∙ slice-append received (s.from_ms * seg) n (n + chunk_len) from (omega arith)
                    ∙ ap (λ m. slice received (s.from_ms * seg) m) (sym there);
              };
            })))
        (λ short. returns a (no_frames received sent a s))
