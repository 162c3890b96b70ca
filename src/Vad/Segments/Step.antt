-- ===== src/Vad/Segments/Step.antt =====
-- One frame, and any number of frames, through `DetectOneFrame` (onnxruntime/src/e2e-vad.h).
use asr_2pass.Prelude.{
  ℕ, suc, ◌+◌, ◌-◌, ◌*◌, ◌≤◌, ◌<◌, ◌≡◌, ◌≢◌, refl, sym, subst, Bool, true, false, Option, Returns,
  returns, Returns-bind, arith, max, if◌then◌else◌,
}
use asr_2pass.Prelude.Int.{pos, negsuc}
use asr_2pass.Vad.Window.{
  FrameState, AudioChangeState, frame_state_invalid, sil2speech, detect_window, WindowDetector,
}
use asr_2pass.Vad.Window.Ring.{win_sum-le}
use asr_2pass.Vad.Model.{
  E2EVadModel, VadStateMachine, start_point_not_detected, in_speech_segment,
  latency_frm_num_at_start_point,
}
use asr_2pass.Vad.Detect.{
  by_state, dispatch, detect_state, finish_frame, on_sil2speech, on_speech2sil, on_speech2speech,
  on_sil2sil, too_long,
}
use asr_2pass.Vad.Buffer.{back_ends_at}
use asr_2pass.Vad.Segments.Layout.{Laid}
use asr_2pass.Vad.Segments.Tracks.{
  Ready, Phase, idle, talking, Tracks, Moves, WindowStep, to_speech, to_sil, stay_speech, stay_sil,
  detect_window-Moves,
}
use asr_2pass.Vad.Segments.Speech.{Next}
use asr_2pass.Vad.Segments.Changes.{Speaks, go_on-Next_at, fill_up-Next, quiet_inside-Next}
use asr_2pass.Vad.Segments.Idle.{Outside, start-Next}
use asr_2pass.Vad.Segments.Quiet.{quiet_outside-Next, size-le-latency}

out_of_segment {ℓ} :
    {A : Type 0} {P : A → Type ℓ} (a b c : Option A) {s : VadStateMachine}
    → s ≡ start_point_not_detected
    → Returns P a
    → Returns P (by_state s a b c)
out_of_segment {P = P} a b c e h = subst (λ s. Returns P (by_state s a b c)) (sym e) h

in_state {ℓ} :
    {A : Type 0} {P : A → Type ℓ} (a b c : Option A) {s : VadStateMachine}
    → s ≡ in_speech_segment
    → Returns P b
    → Returns P (by_state s a b c)
in_state {P = P} a b c e h = subst (λ s. Returns P (by_state s a b c)) (sym e) h

module _ {X : Type 0} where
  -- The model with the window moved on and the silence counted anew.
  abbrev moved : E2EVadModel X → WindowDetector → ℕ → Bool → Bool → E2EVadModel X
  moved m w count pre_end time_out = record m {
    windows_detector = w;
    continous_silence_frame_count = count;
    pre_end_silence_detected = pre_end;
    max_time_out = time_out;
  }

  moved-Ready :
      (frames n count : ℕ) (pre_end time_out : Bool) (m : E2EVadModel X) (w : WindowDetector)
      (c : AudioChangeState)
      → Moves m.windows_detector w c
      → Ready frames n m
      → Ready frames n (moved m w count pre_end time_out)
  moved-Ready frames n count pre_end time_out m w c v r = record {
    configured = record {
      multi = r.configured.multi;
      extends = r.configured.extends;
      f_pos = r.configured.f_pos;
      window = v.window;
      thres = omega (arith, v.thres, r.configured.thres);
    };
    first = r.first;
    all = r.all;
    calm = r.calm;
    laid = r.laid;
    behind = r.behind;
  }

  -- What the phases give for the model with its window moved on.
  Speaks-moved :
      (frames n l count : ℕ) (pre_end time_out : Bool) (m : E2EVadModel X) (w : WindowDetector)
      (c : AudioChangeState)
      → n < frames
      → Moves m.windows_detector w c
      → w.pre_frame_state ≢ frame_state_invalid
      → Ready frames n m
      → m.vad_state_machine ≡ in_speech_segment
      → m.confirmed_end_frame ≡ negsuc 0
      → m.latest_confirmed_speech_frame ≡ l
      → m.data_buf_start_frame ≡ suc l
      → back_ends_at m.output_data_buf (pos (suc l * m.vad_opts.frame_in_ms)) ≡ true
      → Speaks frames n l (moved m w count pre_end time_out)
  Speaks-moved frames n l count pre_end time_out m w c h v valid r s unset latest start ends =
      let r' = moved-Ready frames n count pre_end time_out m w c v r in
      record {
        inside = record {
          configured = r'.configured;
          all = r'.all;
          there = h;
          speaking = s;
          unset = unset;
          valid = valid;
        };
        latest = latest;
        start = start;
        order = record {
          enough = r.first;
          calm = r.calm;
          laid = subst (Laid m.vad_opts.frame_in_ms 0 m.output_data_buf) start r.laid;
          ends = ends;
        };
      }

  Outside-moved :
      (frames n count : ℕ) (pre_end time_out : Bool) (m : E2EVadModel X) (w : WindowDetector)
      (c : AudioChangeState)
      → n < frames
      → Moves m.windows_detector w c
      → Ready frames n m
      → m.vad_state_machine ≡ start_point_not_detected
      → m.confirmed_start_frame ≡ negsuc 0
      → m.confirmed_end_frame ≡ negsuc 0
      → Outside frames n (moved m w count pre_end time_out)
  Outside-moved frames n count pre_end time_out m w c h v r s no_start no_end = record {
    ready = moved-Ready frames n count pre_end time_out m w c v r;
    there = h;
    waiting = s;
    no_start = no_start;
    no_end = no_end;
  }

  -- A segment never starts at the frame at hand: the window wants two speech frames.
  start_before :
      (frames n : ℕ) (m : E2EVadModel X) (w : WindowDetector)
      → Moves m.windows_detector w sil2speech
      → Ready frames n m
      → m.windows_detector.sil_to_speech_frmcnt_thres ≤ w.win_sum
      → m.windows_detector.win_sum + m.data_buf_start_frame ≤ n
      → max m.data_buf_start_frame
          (n - latency_frm_num_at_start_point (record m { windows_detector = w }))
        < n
  start_before frames n m w v r enough few = omega (
    arith,
    r.configured.thres,
    v.grows,
    win_sum-le w v.window,
    size-le-latency (record m { windows_detector = w }) r.configured.extends,
  )

  dispatch-Next :
      (frames n : ℕ) (final : Bool) (m : E2EVadModel X) (w : WindowDetector) {c : AudioChangeState}
      → n < frames
      → Moves m.windows_detector w c
      → WindowStep m.windows_detector w c
      → Ready frames n m
      → Phase n m
      → Next frames n (dispatch c n final (record m { windows_detector = w }))
  unfolding dispatch on_sil2speech on_speech2sil on_speech2speech on_sil2sil
  dispatch-Next frames n final m w h v (to_speech e e' up) r (idle s p cs ce few) =
      out_of_segment _ _ _ s (
        start-Next frames n _ (moved m w 0 false m.max_time_out) (omega arith)
          (start_before frames n m w v r up few) e'
          (Outside-moved frames n 0 false m.max_time_out m w _ h v r s cs ce))
  dispatch-Next frames n final m w h v (to_sil e e') r (idle s p cs ce few) = absurd (cc)
  dispatch-Next frames n final m w h v (stay_speech e e') r (idle s p cs ce few) = absurd (cc)
  dispatch-Next frames n final m w h v (stay_sil e e') r (idle s p cs ce few) =
      let count = m.continous_silence_frame_count + 1 in
      let pre_end = m.pre_end_silence_detected in
      out_of_segment _ _ _ s (
        quiet_outside-Next frames n final (moved m w count pre_end m.max_time_out) e'
          (omega (arith, v.grows))
          (Outside-moved frames n count pre_end m.max_time_out m w _ h v r s cs ce))
  dispatch-Next frames n final m w h v (to_speech e e' up) r (talking s u d ends ok sp si) =
      let l = m.latest_confirmed_speech_frame in
      in_state _ _ _ s (
        fill_up-Next frames n l (n - 1) final (moved m w 0 false m.max_time_out)
          (omega (arith, r.behind)) (omega (arith, r.behind)) refl
          (Speaks-moved frames n l 0 false m.max_time_out m w _ h v (λ x. cc) r s u refl d ends))
  dispatch-Next frames n final m w h v (to_sil e e') r (talking s u d ends ok sp si) =
      let l = m.latest_confirmed_speech_frame in
      let pre_end = m.pre_end_silence_detected in
      in_state _ _ _ s (
        go_on-Next_at frames n l final (moved m w 0 pre_end m.max_time_out) (sp e)
          (λ _. omega arith)
          (Speaks-moved frames n l 0 pre_end m.max_time_out m w _ h v (λ x. cc) r s u refl d ends))
  dispatch-Next frames n final m w h v (stay_speech e e') r (talking s u d ends ok sp si) =
      let l = m.latest_confirmed_speech_frame in
      let pre_end = m.pre_end_silence_detected in
      let long = too_long n (moved m w 0 pre_end m.max_time_out) in
      let time_out = if long then true else m.max_time_out in
      in_state _ _ _ s (
        go_on-Next_at frames n l final (moved m w 0 pre_end time_out) (sp e) (λ _. omega arith)
          (Speaks-moved frames n l 0 pre_end time_out m w _ h v (λ x. cc) r s u refl d ends))
  dispatch-Next frames n final m w h v (stay_sil e e') r (talking s u d ends ok sp si) =
      let l = m.latest_confirmed_speech_frame in
      let count = m.continous_silence_frame_count + 1 in
      let pre_end = m.pre_end_silence_detected in
      let m0 = moved m w count pre_end m.max_time_out in
      in_state _ _ _ s (
        quiet_inside-Next frames n l final m0 (
          e',
          omega (arith, si e),
          omega arith,
          Speaks-moved frames n l count pre_end m.max_time_out m w _ h v (λ x. cc) r s u refl d
              ends,
        ))

  pre_valid :
      (n : ℕ) (m : E2EVadModel X)
      → Phase n m
      → m.windows_detector.pre_frame_state ≢ frame_state_invalid
  pre_valid n m (idle s p cs ce few) = λ x. cc
  pre_valid n m (talking s u d ends ok sp si) = ok

  -- `DetectOneFrame` of the model on a valid frame, final or not, for which there is audio, comes
  -- back; behind it no line about the order of segments has been printed, the segments put out are
  -- whole frames that follow one another without overlap, and the invariant holds again.
  pub detect_state-Tracks :
      (frames n : ℕ) (f : FrameState) (final : Bool) (m : E2EVadModel X)
      → f ≢ frame_state_invalid
      → n < frames
      → Tracks frames n m
      → Returns (Tracks frames (suc n)) (detect_state f n final m)
  unfolding detect_state
  detect_state-Tracks frames n f final m valid h t =
      let v =
        detect_window-Moves m.windows_detector f valid t.ready.configured.window
          (pre_valid n m t.phase) in
      Returns-bind
        (dispatch-Next frames n final m (detect_window f m.windows_detector).0 h v v.step t.ready
          t.phase)
        (λ m1 k. returns (finish_frame m1) k)
