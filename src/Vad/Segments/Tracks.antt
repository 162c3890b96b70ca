-- ===== src/Vad/Segments/Tracks.antt =====
-- The invariant of `E2EVadModel` between two frames (onnxruntime/src/e2e-vad.h), and what a frame
-- that ends a segment leaves.
use asr_2pass.Prelude.{
  ℕ, suc, ◌+◌, ◌-◌, ◌*◌, ◌/◌, ◌≤◌, ◌<◌, ◌≡◌, ◌≢◌, refl, true, false, arith, ◌==◌, ◌&&◌, sym, ap,
  subst, if-true, if-false,
}
use asr_2pass.Prelude.Int.{pos, negsuc, ◌≤ℤ◌}
use asr_2pass.Vad.Window.{
  WindowDetector, FrameState, AudioChangeState, frame_state_speech, frame_state_sil,
  frame_state_invalid, sil2speech, speech2sil, speech2speech, sil2sil, detect_window, push_frame,
  classify, reset_window,
}
use asr_2pass.Vad.Window.Ring.{IsWindow, push_frame-IsWindow, reset_window-IsWindow}
use asr_2pass.Vad.Model.{
  E2EVadModel, start_point_not_detected, in_speech_segment, end_point_detected, reset_detection,
}
use asr_2pass.Vad.Buffer.{frame_samples, back_ends_at}
use asr_2pass.Vad.Detect.{finish_frame, set_state, is_end_detected}
use asr_2pass.Vad.Segments.Layout.{alarms, Laid}

-- One valid decision, by the state before and after it.
pub data WindowStep (w w' : WindowDetector) : AudioChangeState → Type 0 where
  to_speech :
      w.pre_frame_state ≡ frame_state_sil
      → w'.pre_frame_state ≡ frame_state_speech
      → w.sil_to_speech_frmcnt_thres ≤ w'.win_sum
      → WindowStep w w' sil2speech
  to_sil :
      w.pre_frame_state ≡ frame_state_speech
      → w'.pre_frame_state ≡ frame_state_sil
      → WindowStep w w' speech2sil
  stay_speech :
      w.pre_frame_state ≡ frame_state_speech
      → w'.pre_frame_state ≡ frame_state_speech
      → WindowStep w w' speech2speech
  stay_sil :
      w.pre_frame_state ≡ frame_state_sil
      → w'.pre_frame_state ≡ frame_state_sil
      → WindowStep w w' sil2sil

-- What the model needs of a window's decision.
pub record Moves (w w' : WindowDetector) (change : AudioChangeState) : Type 0 where
  pub step : WindowStep w w' change
  pub window : IsWindow w'
  pub thres : w'.sil_to_speech_frmcnt_thres ≡ w.sil_to_speech_frmcnt_thres
  pub size : w'.win_size_frame ≡ w.win_size_frame
  pub grows : w'.win_sum ≤ w.win_sum + 1

classify-WindowStep :
    (w : WindowDetector)
    → w.pre_frame_state ≢ frame_state_invalid
    → WindowStep w (classify w).0 (classify w).1
unfolding classify
classify-WindowStep w h = grind (arith, to_speech, to_sil, stay_speech, stay_sil)

classify_keeps :
    (w : WindowDetector)
    → IsWindow w
    → IsWindow (classify w).0
      × ((classify w).0.sil_to_speech_frmcnt_thres ≡ w.sil_to_speech_frmcnt_thres)
      × ((classify w).0.win_size_frame ≡ w.win_size_frame)
      × ((classify w).0.win_sum ≡ w.win_sum)
unfolding classify
classify_keeps w r = ground arith

push_frame-Moves :
    (w : WindowDetector) (v : ℕ)
    → v ≤ 1
    → IsWindow w
    → w.pre_frame_state ≢ frame_state_invalid
    → Moves w (classify (push_frame w v)).0 (classify (push_frame w v)).1
unfolding push_frame
push_frame-Moves w v h r valid =
    let p = push_frame w v in
    let (window, thres, size, sum) = classify_keeps p (push_frame-IsWindow w v h r) in
    record {
      step = moved (classify-WindowStep p valid) sum;
      window = window;
      thres = thres;
      size = size;
      grows = omega (arith, sum, h);
    }
  where
    moved :
        {w' : WindowDetector} {c : AudioChangeState}
        → WindowStep (push_frame w v) w' c
        → w'.win_sum ≡ (push_frame w v).win_sum
        → WindowStep w w' c
    moved (to_speech e e' h) sum = to_speech e e' h
    moved (to_sil e e') sum = to_sil e e'
    moved (stay_speech e e') sum = stay_speech e e'
    moved (stay_sil e e') sum = stay_sil e e'

pub detect_window-Moves :
    (w : WindowDetector) (f : FrameState)
    → f ≢ frame_state_invalid
    → IsWindow w
    → w.pre_frame_state ≢ frame_state_invalid
    → Moves w (detect_window f w).0 (detect_window f w).1
unfolding detect_window
detect_window-Moves w frame_state_invalid h r valid = absurd (h refl)
detect_window-Moves w frame_state_speech h r valid = push_frame-Moves w 1 (omega arith) r valid
detect_window-Moves w frame_state_sil h r valid = push_frame-Moves w 0 (omega arith) r valid

module _ {X : Type 0} where
  -- How the model must be set up: several utterances, segments carried on over short silences, a
  -- frame length, and a window that wants two speech frames at least.
  pub record IsConfigured (m : E2EVadModel X) : Type 0 where
    pub multi : m.vad_opts.detect_mode ≡ 1
    pub extends : (m.vad_opts.do_extend == 0) ≡ false
    pub f_pos : 0 < m.vad_opts.frame_in_ms
    pub window : IsWindow m.windows_detector
    pub thres : 2 ≤ m.windows_detector.sil_to_speech_frmcnt_thres

  -- What holds before the frame `n`, of `frames` that there is audio for, in any state.
  pub record Ready (frames n : ℕ) (m : E2EVadModel X) : Type 0 where
    pub configured : IsConfigured m
    pub first : pos (frame_samples m) ≤ℤ m.data_buf_size
    pub all : frames * frame_samples m ≤ m.data_buf_all_size
    pub calm : alarms m.stdout ≡ 0
    pub laid : Laid m.vad_opts.frame_in_ms 0 m.output_data_buf m.data_buf_start_frame
    pub behind : m.data_buf_start_frame ≤ n

  abbrev pub lookahead : E2EVadModel X → ℕ
  lookahead m = m.vad_opts.lookahead_time_end_point / m.vad_opts.frame_in_ms

  -- Outside a segment the window is in silence. In one, the last segment ends behind
  -- `latest_confirmed_speech_frame`, and the frames since are silence beyond the lookahead.
  pub data Phase (n : ℕ) (m : E2EVadModel X) : Type 0 where
    idle :
        m.vad_state_machine ≡ start_point_not_detected
        → m.windows_detector.pre_frame_state ≡ frame_state_sil
        → m.confirmed_start_frame ≡ negsuc 0
        → m.confirmed_end_frame ≡ negsuc 0
        → m.windows_detector.win_sum + m.data_buf_start_frame ≤ n
        → Phase n m
    talking :
        m.vad_state_machine ≡ in_speech_segment
        → m.confirmed_end_frame ≡ negsuc 0
        → m.data_buf_start_frame ≡ suc m.latest_confirmed_speech_frame
        → back_ends_at m.output_data_buf
            (pos (suc m.latest_confirmed_speech_frame * m.vad_opts.frame_in_ms))
          ≡ true
        → m.windows_detector.pre_frame_state ≢ frame_state_invalid
        → (m.windows_detector.pre_frame_state ≡ frame_state_speech
            → suc m.latest_confirmed_speech_frame ≡ n)
        → (m.windows_detector.pre_frame_state ≡ frame_state_sil
            → suc m.latest_confirmed_speech_frame + (m.continous_silence_frame_count - lookahead m)
              ≡ n)
        → Phase n m

  pub record Tracks (frames n : ℕ) (m : E2EVadModel X) : Type 0 where
    pub ready : Ready frames n m
    pub phase : Phase n m

  finish_frame_ended :
      (m : E2EVadModel X)
      → m.vad_opts.detect_mode ≡ 1
      → finish_frame (set_state end_point_detected m)
        ≡ reset_detection (set_state end_point_detected m)
  unfolding finish_frame
  finish_frame_ended m h = if-true _ _ (ap (λ d. d == 1) h)

  finish_frame_unended :
      (m : E2EVadModel X) → is_end_detected m.vad_state_machine ≡ false → finish_frame m ≡ m
  unfolding finish_frame
  finish_frame_unended m h = if-false _ _ (ap (λ b. b && m.vad_opts.detect_mode == 1) h)

  reset-Tracks :
      (frames n : ℕ) (m : E2EVadModel X)
      → Ready frames n m
      → Tracks frames n (reset_detection (set_state end_point_detected m))
  unfolding reset_detection
  reset-Tracks frames n m r =
      let c = r.configured in
      record {
        ready = record {
          configured = record {
            multi = c.multi;
            extends = c.extends;
            f_pos = c.f_pos;
            window = reset_window-IsWindow m.windows_detector (omega (arith, c.window.placed));
            thres = unfold reset_window in c.thres;
          };
          first = r.first;
          all = r.all;
          calm = r.calm;
          laid = r.laid;
          behind = r.behind;
        };
        phase =
            idle refl (unfold reset_window in refl) refl refl
              (unfold reset_window in omega (arith, r.behind));
      }

  -- A model whose segment has ended is reset behind the frame, and is outside a segment again.
  pub ended-Tracks :
      (frames n : ℕ) (m : E2EVadModel X)
      → Ready frames n m
      → Tracks frames n (finish_frame (set_state end_point_detected m))
  ended-Tracks frames n m r =
      subst (Tracks frames n) (sym (finish_frame_ended m r.configured.multi))
        (reset-Tracks frames n m r)

  Phase-unended :
      (n : ℕ) (m : E2EVadModel X) → Phase n m → is_end_detected m.vad_state_machine ≡ false
  Phase-unended n m (idle s _ _ _ _) = ap is_end_detected s
  Phase-unended n m (talking s _ _ _ _ _ _) = ap is_end_detected s

  -- A model that is not at an end is left as it is.
  pub unended-Tracks :
      (frames n : ℕ) (m : E2EVadModel X) → Tracks frames n m → Tracks frames n (finish_frame m)
  unended-Tracks frames n m t =
      subst (Tracks frames n) (sym (finish_frame_unended m (Phase-unended n m t.phase))) t
