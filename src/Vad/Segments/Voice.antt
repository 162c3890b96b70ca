-- ===== src/Vad/Segments/Voice.antt =====
-- `OnVoiceDetected` and the loops that call it, `OnVoiceStart`, `OnVoiceEnd`
-- (onnxruntime/src/e2e-vad.h), while the segments are in order.
use asr_2pass.Prelude.{
  ℕ, zero, suc, ◌+◌, ◌-◌, ◌*◌, ◌≤◌, ◌<◌, ◌≡◌, sym, ap, ◌∙◌, subst, Bool, true, false, Option, some,
  ◌>>=◌, List, arith, inr, if-false, not,
}
use asr_2pass.Prelude.Int.{ℤ, pos, negsuc, pos_part, ◌-ℤ◌, eq_ℤ, ◌≤ℤ◌, ◌*ℤ◌}
use asr_2pass.Vad.Model.{E2EVadModel, SpeechBuf, Message}
use asr_2pass.Vad.Buffer.{frame_samples, pop_data_to_output_buf, back_ends_at}
use asr_2pass.Vad.Detect.{
  for_frames, on_voice_detected, voice_until, on_voice_end, close_segment, confirm_end,
}
use asr_2pass.Vad.Segments.Layout.{alarms, Laid}
use asr_2pass.Vad.Segments.Pop.{pos_part-sub}
use asr_2pass.Vad.Segments.Hand.{Brings, pop_data_to_output_buf-Brings, pos-*ℤ}

ends_scaled :
    (k f : ℕ) (segs : List SpeechBuf)
    → back_ends_at segs (pos (k * f)) ≡ true
    → back_ends_at segs (pos k *ℤ pos f) ≡ true
ends_scaled k f segs h = subst (λ t. back_ends_at segs t ≡ true) (sym (pos-*ℤ k f)) h

module _ {X : Type 0} where
  -- The model `m` with the frames up to `l` taken as speech.
  abbrev pub voiced : E2EVadModel X → ℕ → ℤ → List SpeechBuf → List Message → E2EVadModel X
  voiced m l size segs lines = record m {
    latest_confirmed_speech_frame = l;
    data_buf_start_frame = suc l;
    data_buf_size = size;
    output_data_buf = segs;
    stdout = lines;
  }

  -- The buffer behind the frame `l`: audio to go on with, no alarm, and segments in order of which
  -- the last ends after `l`.
  pub record InOrder (m : E2EVadModel X) (l : ℕ) (size : ℤ) (segs : List SpeechBuf)
      (lines : List Message) : Type 0 where
    pub enough : pos (frame_samples m) ≤ℤ size
    pub calm : alarms lines ≡ 0
    pub laid : Laid m.vad_opts.frame_in_ms 0 segs (suc l)
    pub ends : back_ends_at segs (pos (suc l * m.vad_opts.frame_in_ms)) ≡ true

  pub record Voices (m : E2EVadModel X) (l : ℕ) (run : Option (E2EVadModel X)) : Type 0 where
    pub size : ℤ
    pub segs : List SpeechBuf
    pub lines : List Message
    pub result : run ≡ some (voiced m l size segs lines)
    pub order : InOrder m l size segs lines

  pub confirm_end_unset :
      (e : ℤ) (m : E2EVadModel X)
      → m.confirmed_end_frame ≡ negsuc 0
      → confirm_end e m ≡ record m { confirmed_end_frame = e }
  unfolding confirm_end
  confirm_end_unset e m h = if-false _ _ (ap (λ c. not (eq_ℤ c (negsuc 0))) h)

  module _ (frames : ℕ) (m : E2EVadModel X) (f_pos : 0 < m.vad_opts.frame_in_ms)
      (all : frames * frame_samples m ≤ m.data_buf_all_size) where
    -- One frame, from any earlier `latest_confirmed_speech_frame`.
    pub on_voice_detected-Voices :
        (was i : ℕ) (size : ℤ) (segs : List SpeechBuf) (lines : List Message)
        → suc i < frames
        → InOrder m i size segs lines
        → Voices m (suc i) (
            on_voice_detected (suc i) (record m {
              latest_confirmed_speech_frame = was;
              data_buf_start_frame = suc i;
              data_buf_size = size;
              output_data_buf = segs;
              stdout = lines;
            }))
    unfolding on_voice_detected
    on_voice_detected-Voices was i size segs lines h o =
        let next = record m {
          latest_confirmed_speech_frame = suc i;
          data_buf_start_frame = suc i;
          data_buf_size = size;
          output_data_buf = segs;
          stdout = lines;
        } in
        let b : Brings next (suc i) _ =
          pop_data_to_output_buf-Brings frames (suc i) false false false next
            (record { first = o.enough; all = all }) h (omega arith) f_pos o.laid
            (inr (ends_scaled (suc i) m.vad_opts.frame_in_ms segs o.ends)) in
        record {
          size = b.size;
          segs = b.segs;
          lines = b.lines;
          result = b.result;
          order = record {
            enough = b.enough;
            calm = b.calm ∙ o.calm;
            laid = b.laid;
            ends = b.ends;
          };
        }

    -- The loop over `count` frames behind the frame `l`.
    pub for_frames-Voices :
        (count l t : ℕ) (size : ℤ) (segs : List SpeechBuf) (lines : List Message)
        → t ≡ l + count
        → t < frames
        → InOrder m l size segs lines
        → Voices m t (for_frames count (suc l) on_voice_detected (voiced m l size segs lines))
    unfolding for_frames
    for_frames-Voices zero l t size segs lines e h o =
        let same : l ≡ t = omega arith in
        record {
          size = size;
          segs = segs;
          lines = lines;
          result = ap (λ x. some (voiced m x size segs lines)) same;
          order = subst (λ x. InOrder m x size segs lines) same o;
        }
    for_frames-Voices (suc count) l t size segs lines e h o =
        let one : Voices m (suc l) (on_voice_detected (suc l) (voiced m l size segs lines)) =
          on_voice_detected-Voices l l size segs lines (omega arith) o in
        let rest =
          for_frames-Voices count (suc l) t one.size one.segs one.lines (omega arith) h one.order in
        record {
          size = rest.size;
          segs = rest.segs;
          lines = rest.lines;
          result =
              ap (λ r. r >>= for_frames count (suc (suc l)) on_voice_detected) one.result
              ∙ rest.result;
          order = rest.order;
        }

    -- The same with at least one frame, from any earlier `latest_confirmed_speech_frame`.
    pub for_frames-Voices_start :
        (was count l t : ℕ) (size : ℤ) (segs : List SpeechBuf) (lines : List Message)
        → t ≡ suc l + count
        → t < frames
        → InOrder m l size segs lines
        → Voices m t (
            for_frames (suc count) (suc l) on_voice_detected (record m {
              latest_confirmed_speech_frame = was;
              data_buf_start_frame = suc l;
              data_buf_size = size;
              output_data_buf = segs;
              stdout = lines;
            }))
    unfolding for_frames
    for_frames-Voices_start was count l t size segs lines e h o =
        let one = on_voice_detected-Voices was l size segs lines (omega arith) o in
        let rest = for_frames-Voices count (suc l) t one.size one.segs one.lines e h one.order in
        record {
          size = rest.size;
          segs = rest.segs;
          lines = rest.lines;
          result =
              ap (λ r. r >>= for_frames count (suc (suc l)) on_voice_detected) one.result
              ∙ rest.result;
          order = rest.order;
        }

    pub voice_until-Voices :
        (l t : ℕ) (size : ℤ) (segs : List SpeechBuf) (lines : List Message)
        → l ≤ t
        → t < frames
        → InOrder m l size segs lines
        → Voices m t (voice_until (pos (suc t)) (voiced m l size segs lines))
    unfolding voice_until
    voice_until-Voices l t size segs lines le h o =
        let count : pos_part (pos (suc t) -ℤ pos (suc l)) ≡ t - l =
          pos_part-sub (suc t) (suc l) ∙ omega arith in
        let v = for_frames-Voices (t - l) l t size segs lines (omega arith) h o in
        record {
          size = v.size;
          segs = v.segs;
          lines = v.lines;
          result =
              ap (λ k. for_frames k (suc l) on_voice_detected (voiced m l size segs lines)) count
              ∙ v.result;
          order = v.order;
        }

    abbrev pub ended : ℕ → ℤ → List SpeechBuf → List Message → E2EVadModel X
    ended t size segs lines = record m {
      latest_confirmed_speech_frame = t;
      confirmed_end_frame = pos (suc t);
      sil_frame = 0;
      data_buf_start_frame = suc (suc t);
      data_buf_size = size;
      output_data_buf = segs;
      stdout = lines;
      number_end_time_detected = m.number_end_time_detected + 1;
    }

    -- A segment has been closed by the frame `t + 1`.
    pub record Closes (t : ℕ) (run : Option (E2EVadModel X)) : Type 0 where
      pub size : ℤ
      pub segs : List SpeechBuf
      pub lines : List Message
      pub result : run ≡ some (ended t size segs lines)
      pub order : InOrder m (suc t) size segs lines

    close_segment-Closes :
        (t : ℕ) (last : Bool) (size : ℤ) (segs : List SpeechBuf) (lines : List Message)
        → suc t < frames
        → m.confirmed_end_frame ≡ negsuc 0
        → InOrder m t size segs lines
        → Closes t (close_segment (pos (suc t)) false last (voiced m t size segs lines))
    unfolding close_segment
    close_segment-Closes t last size segs lines h unset o =
        let m1 = voiced m t size segs lines in
        let m2 = record m1 { confirmed_end_frame = pos (suc t); sil_frame = 0 } in
        let b : Brings m2 (suc t) _ =
          pop_data_to_output_buf-Brings frames (suc t) false true last m2
            (record { first = o.enough; all = all }) h (omega arith) f_pos o.laid
            (inr (ends_scaled (suc t) m.vad_opts.frame_in_ms segs o.ends)) in
        record {
          size = b.size;
          segs = b.segs;
          lines = b.lines;
          result =
              ap (after last) (confirm_end_unset (pos (suc t)) m1 unset)
              ∙ ap (λ r. r >>= count) b.result;
          order = record {
            enough = b.enough;
            calm = b.calm ∙ o.calm;
            laid = b.laid;
            ends = b.ends;
          };
        }
      where
        count : E2EVadModel X → Option (E2EVadModel X)
        count m3 = some (record m3 { number_end_time_detected = m3.number_end_time_detected + 1 })

        after : Bool → E2EVadModel X → Option (E2EVadModel X)
        after last m2 =
            pop_data_to_output_buf m2.confirmed_end_frame 1 false true last
              (record m2 { sil_frame = 0 })
            >>= count

    pub on_voice_end-Closes :
        (l t : ℕ) (last : Bool) (size : ℤ) (segs : List SpeechBuf) (lines : List Message)
        → l ≤ t
        → suc t < frames
        → m.confirmed_end_frame ≡ negsuc 0
        → InOrder m l size segs lines
        → Closes t (on_voice_end (pos (suc t)) false last (voiced m l size segs lines))
    unfolding on_voice_end
    on_voice_end-Closes l t last size segs lines le h unset o =
        let v = voice_until-Voices l t size segs lines le (omega arith) o in
        let c = close_segment-Closes t last v.size v.segs v.lines h unset v.order in
        record {
          size = c.size;
          segs = c.segs;
          lines = c.lines;
          result = ap (λ r. r >>= close_segment (pos (suc t)) false last) v.result ∙ c.result;
          order = c.order;
        }
