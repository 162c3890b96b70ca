-- ===== src/Vad/Segments/Speech.antt =====
-- A frame inside a segment (onnxruntime/src/e2e-vad.h): whatever the change, the call comes back
-- and the invariant holds behind the frame.
use asr_2pass.Prelude.{
  ℕ, suc, ◌*◌, ◌≤◌, ◌<◌, ◌≡◌, ◌≢◌, refl, sym, ap, subst, Bool, true, false, Option, ◌>>=◌, Returns,
  returns, Returns-if, List, arith, not, if-true,
}
use asr_2pass.Prelude.Int.{ℤ, pos, negsuc}
use asr_2pass.Vad.Window.{frame_state_sil, frame_state_invalid}
use asr_2pass.Vad.Model.{E2EVadModel, SpeechBuf, Message, in_speech_segment, end_point_detected}
use asr_2pass.Vad.Buffer.{frame_samples}
use asr_2pass.Vad.Detect.{
  on_voice_end, on_voice_detected, go_on, maybe_on_voice_end_if_last_frame, too_long, finish_frame,
  set_state, stop_here,
}
use asr_2pass.Vad.Segments.Voice.{
  InOrder, voiced, ended, on_voice_detected-Voices, on_voice_end-Closes,
}
use asr_2pass.Vad.Segments.Tracks.{
  IsConfigured, Ready, talking, Tracks, ended-Tracks, unended-Tracks, lookahead,
}

not-false : (b : Bool) → not b ≡ false → b ≡ true
not-false true h = refl
not-false false h = absurd (cc)

module _ {X : Type 0} where
  -- The run comes back, and the invariant holds before the frame behind `n`.
  abbrev pub Next : ℕ → ℕ → Option (E2EVadModel X) → Type 0
  Next frames n run = Returns (λ m1. Tracks frames (suc n) (finish_frame m1)) run

  -- A model inside a segment, at a frame that there is audio for.
  pub record Inside (frames n : ℕ) (m : E2EVadModel X) : Type 0 where
    pub configured : IsConfigured m
    pub all : frames * frame_samples m ≤ m.data_buf_all_size
    pub there : n < frames
    pub speaking : m.vad_state_machine ≡ in_speech_segment
    pub unset : m.confirmed_end_frame ≡ negsuc 0
    pub valid : m.windows_detector.pre_frame_state ≢ frame_state_invalid

  module _ (frames n : ℕ) (m : E2EVadModel X) (i : Inside frames n m) where
    open i use {configured, all, there, speaking, unset, valid}

    pub voiced-Ready :
        (l : ℕ) (size : ℤ) (segs : List SpeechBuf) (lines : List Message)
        → l ≤ n
        → InOrder m l size segs lines
        → Ready frames (suc n) (voiced m l size segs lines)
    voiced-Ready l size segs lines h o = record {
      configured = record {
        multi = configured.multi;
        extends = configured.extends;
        f_pos = configured.f_pos;
        window = configured.window;
        thres = configured.thres;
      };
      first = o.enough;
      all = all;
      calm = o.calm;
      laid = o.laid;
      behind = omega arith;
    }

    -- The segment ends with the frame `t + 1`.
    pub close-Next :
        (l t k : ℕ) (last : Bool) (size : ℤ) (segs : List SpeechBuf) (lines : List Message)
        → l ≤ t
        → suc t ≤ n
        → suc t ≡ k
        → InOrder m l size segs lines
        → Next frames n (on_voice_end (pos k) false last (voiced m l size segs lines) >>= stop_here)
    close-Next l t k last size segs lines le h e o =
        let c =
          on_voice_end-Closes frames m configured.f_pos all l t last size segs lines le
            (omega arith) unset o in
        let v = c.order in
        let m1 = ended frames m configured.f_pos all t c.size c.segs c.lines in
        subst
          (λ x.
            Next frames n
              (on_voice_end (pos x) false last (voiced m l size segs lines) >>= stop_here))
          e
          (subst (Next frames n) (ap (λ r. r >>= stop_here) (sym c.result)) (
            returns (set_state end_point_detected m1) (
              ended-Tracks frames (suc n) m1 (record {
                configured = record {
                  multi = configured.multi;
                  extends = configured.extends;
                  f_pos = configured.f_pos;
                  window = configured.window;
                  thres = configured.thres;
                };
                first = v.enough;
                all = all;
                calm = v.calm;
                laid = v.laid;
                behind = omega arith;
              }))))

    -- The frame itself is taken as speech.
    pub speak-Next :
        (l : ℕ) (size : ℤ) (segs : List SpeechBuf) (lines : List Message)
        → suc l ≡ n
        → (m.windows_detector.pre_frame_state ≡ frame_state_sil
            → m.continous_silence_frame_count ≤ lookahead m)
        → InOrder m l size segs lines
        → Next frames n (on_voice_detected n (voiced m l size segs lines))
    speak-Next l size segs lines e quiet o =
        let v =
          on_voice_detected-Voices frames m configured.f_pos all l l size segs lines (omega arith)
            o in
        let m1 = voiced m (suc l) v.size v.segs v.lines in
        subst (λ k. Next frames n (on_voice_detected k (voiced m l size segs lines))) e
          (subst (Next frames n) (sym v.result) (
            returns m1 (
              unended-Tracks frames (suc n) m1 (record {
                ready = voiced-Ready (suc l) v.size v.segs v.lines (omega arith) v.order;
                phase =
                    talking speaking unset refl v.order.ends valid (λ _. omega arith)
                      (λ sil. omega (arith, quiet sil));
              }))))

    -- On the last frame the segment ends.
    pub last_frame-Next :
        (l t : ℕ) (final : Bool) (size : ℤ) (segs : List SpeechBuf) (lines : List Message)
        → l ≤ t
        → suc t ≡ n
        → final ≡ true
        → InOrder m l size segs lines
        → Next frames n (maybe_on_voice_end_if_last_frame final n (voiced m l size segs lines))
    unfolding maybe_on_voice_end_if_last_frame
    last_frame-Next l t final size segs lines le e last o =
        subst (Next frames n) (sym (if-true _ _ last))
          (close-Next l t n true size segs lines le (omega arith) e o)

    -- The branch that the changes share.
    pub go_on-Next :
        (l : ℕ) (final : Bool) (size : ℤ) (segs : List SpeechBuf) (lines : List Message)
        → suc l ≡ n
        → (m.windows_detector.pre_frame_state ≡ frame_state_sil
            → m.continous_silence_frame_count ≤ lookahead m)
        → InOrder m l size segs lines
        → Next frames n (go_on n final (voiced m l size segs lines))
    unfolding go_on
    go_on-Next l final size segs lines e quiet o =
        Returns-if (too_long n (voiced m l size segs lines))
          (λ _. close-Next l l n false size segs lines (omega arith) (omega arith) e o)
          (λ _.
            Returns-if (not final) (λ _. speak-Next l size segs lines e quiet o)
              (λ last.
                last_frame-Next l l final size segs lines (omega arith) e (not-false final last) o))
