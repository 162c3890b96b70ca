-- ===== src/Vad/Segments/Idle.antt =====
-- A frame outside a segment (onnxruntime/src/e2e-vad.h): a segment starts, silence goes on, or the
-- detector gives up.
use asr_2pass.Prelude.{
  ℕ, zero, suc, ◌+◌, ◌-◌, ◌≤◌, ◌<◌, ◌≡◌, refl, sym, ap, ◌∙◌, subst, true, false, Option, some,
  ◌>>=◌, returns, arith, not, if◌then◌else◌, if-true, if-false, max, inl,
}
use asr_2pass.Prelude.Int.{ℤ, pos, negsuc, eq_ℤ, ◌≤ℤ◌}
use asr_2pass.Vad.Window.{frame_state_speech}
use asr_2pass.Vad.Model.{E2EVadModel, start_point_not_detected, in_speech_segment}
use asr_2pass.Vad.Buffer.{frame_samples, pop_data_to_output_buf}
use asr_2pass.Vad.Detect.{
  for_frames, is_not_detected, on_silence_detected, on_voice_detected, on_voice_start,
  confirm_start, start_segment_at, set_state,
}
use asr_2pass.Vad.Segments.Pop.{Supplied, pop_data_buf_till_frame_lem}
use asr_2pass.Vad.Segments.Hand.{Brings, pop_data_to_output_buf-Brings}
use asr_2pass.Vad.Segments.Voice.{InOrder, voiced, for_frames-Voices_start}
use asr_2pass.Vad.Segments.Tracks.{Ready, talking, unended-Tracks}
use asr_2pass.Vad.Segments.Speech.{Next}

module _ {X : Type 0} where
  -- A model outside a segment, at a frame that there is audio for.
  pub record Outside (frames n : ℕ) (m : E2EVadModel X) : Type 0 where
    pub ready : Ready frames n m
    pub there : n < frames
    pub waiting : m.vad_state_machine ≡ start_point_not_detected
    pub no_start : m.confirmed_start_frame ≡ negsuc 0
    pub no_end : m.confirmed_end_frame ≡ negsuc 0

  pub confirm_start_unset :
      (k : ℕ) (m : E2EVadModel X)
      → m.confirmed_start_frame ≡ negsuc 0
      → confirm_start k m ≡ record m { confirmed_start_frame = pos k }
  unfolding confirm_start
  confirm_start_unset k m h = if-false _ _ (ap (λ c. not (eq_ℤ c (negsuc 0))) h)

  on_voice_start_lem :
      (k : ℕ) (m : E2EVadModel X)
      → m.confirmed_start_frame ≡ negsuc 0
      → m.vad_state_machine ≡ start_point_not_detected
      → on_voice_start k false m
        ≡ pop_data_to_output_buf
            (pos k)
            1
            true
            false
            false
            (record m { confirmed_start_frame = pos k })
  unfolding on_voice_start
  on_voice_start_lem k m h s =
      let m1 = record m { confirmed_start_frame = pos k } in
      ap
        (λ (x : E2EVadModel X).
          if is_not_detected x.vad_state_machine
          then pop_data_to_output_buf x.confirmed_start_frame 1 true false false x
          else some x)
        (confirm_start_unset k m h)
      ∙ if-true _ (some m1) (ap is_not_detected s)

  -- A segment starts at the frame `k`, and the frames up to `n` are its speech.
  pub start-Next :
      (frames n k : ℕ) (m : E2EVadModel X)
      → m.data_buf_start_frame ≤ k
      → k < n
      → m.windows_detector.pre_frame_state ≡ frame_state_speech
      → Outside frames n m
      → Next frames n (start_segment_at n k m)
  unfolding start_segment_at
  start-Next frames n k m late before speech u =
      let r = u.ready in
      let c = r.configured in
      let m1 = record m { confirmed_start_frame = pos k } in
      let b : Brings m1 k _ =
        pop_data_to_output_buf-Brings frames k true false false m1
          (record { first = r.first; all = r.all }) (omega (arith, u.there)) late c.f_pos r.laid
          (inl refl) in
      let m2 = record m1 { vad_state_machine = in_speech_segment } in
      let o : InOrder m2 k b.size b.segs b.lines = record {
        enough = b.enough;
        calm = b.calm ∙ r.calm;
        laid = b.laid;
        ends = b.ends;
      } in
      let v =
        for_frames-Voices_start frames m2 c.f_pos r.all m.latest_confirmed_speech_frame (n - suc k)
          k n b.size b.segs b.lines (omega arith) u.there o in
      let count : suc (n - suc k) ≡ n - k = omega arith in
      let rest = λ (x : E2EVadModel X).
        for_frames (n - k) (suc k) on_voice_detected (set_state in_speech_segment x) in
      let run = ap (λ r. r >>= rest) (on_voice_start_lem k m u.no_start u.waiting ∙ b.result) in
      let m3 = voiced m2 n v.size v.segs v.lines in
      let at = record m2 {
        data_buf_start_frame = suc k;
        data_buf_size = b.size;
        output_data_buf = b.segs;
        stdout = b.lines;
      } in
      let ran = run ∙ ap (λ j. for_frames j (suc k) on_voice_detected at) (sym count) ∙ v.result in
      subst (Next frames n) (sym ran) (
        returns m3 (
          unended-Tracks frames (suc n) m3 (record {
            ready = record {
              configured = record {
                multi = c.multi;
                extends = c.extends;
                f_pos = c.f_pos;
                window = c.window;
                thres = c.thres;
              };
              first = v.order.enough;
              all = r.all;
              calm = v.order.calm;
              laid = v.order.laid;
              behind = omega arith;
            };
            phase =
                talking refl u.no_end refl v.order.ends (λ e. cc) (λ _. refl) (λ e. absurd (cc));
          })))

  -- The model `m` with its buffer moved on through silence.
  abbrev pub silenced : E2EVadModel X → ℤ → ℕ → ℤ → E2EVadModel X
  silenced m last start size = record m {
    lastest_confirmed_silence_frame = last;
    data_buf_start_frame = start;
    data_buf_size = size;
  }

  pub record Silences (n : ℕ) (m : E2EVadModel X) (run : Option (E2EVadModel X)) : Type 0 where
    pub last : ℤ
    pub start : ℕ
    pub size : ℤ
    pub result : run ≡ some (silenced m last start size)
    pub enough : pos (frame_samples m) ≤ℤ size
    pub later : m.data_buf_start_frame ≤ start
    pub bounded : start ≤ max m.data_buf_start_frame n

  pub on_silence_detected-Silences :
      (frames t : ℕ) (m : E2EVadModel X)
      → Supplied frames m
      → t < frames
      → m.vad_state_machine ≡ start_point_not_detected
      → Silences t m (on_silence_detected t m)
  unfolding on_silence_detected
  on_silence_detected-Silences frames t m s h waiting =
      let m1 = record m { lastest_confirmed_silence_frame = pos t } in
      let (z, run, enough) =
        pop_data_buf_till_frame_lem frames t (max m.data_buf_start_frame t) m1
          (record { first = s.first; all = s.all }) h refl in
      record {
        last = pos t;
        start = max m.data_buf_start_frame t;
        size = z;
        result = if-true _ (some m1) (ap is_not_detected waiting) ∙ run;
        enough = enough;
        later = omega arith;
        bounded = omega arith;
      }

  pub silence_loop :
      (frames n count first : ℕ) (m : E2EVadModel X)
      → Supplied frames m
      → n < frames
      → m.vad_state_machine ≡ start_point_not_detected
      → first + count ≤ max first n
      → Silences n m (for_frames count first on_silence_detected m)
  unfolding for_frames
  silence_loop frames n zero first m s h waiting fit = record {
    last = m.lastest_confirmed_silence_frame;
    start = m.data_buf_start_frame;
    size = m.data_buf_size;
    result = refl;
    enough = s.first;
    later = omega arith;
    bounded = omega arith;
  }
  silence_loop frames n (suc count) first m s h waiting fit =
      let one = on_silence_detected-Silences frames first m s (omega arith) waiting in
      let m1 = silenced m one.last one.start one.size in
      let rest =
        silence_loop frames n count (suc first) m1 (record { first = one.enough; all = s.all }) h
          waiting (omega arith) in
      record {
        last = rest.last;
        start = rest.start;
        size = rest.size;
        result =
            ap (λ r. r >>= for_frames count (suc first) on_silence_detected) one.result
            ∙ rest.result;
        enough = rest.enough;
        later = omega (arith, one.later, rest.later);
        bounded = omega (arith, one.bounded, rest.bounded);
      }
