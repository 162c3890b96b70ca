-- ===== src/Vad/Detect.antt =====
-- The detector of `E2EVadModel` (onnxruntime/src/e2e-vad.h): the `On...` callbacks and
-- `DetectOneFrame`. `none` is a call that does not come back.
use asr_2pass.Prelude.{
  ℕ, zero, suc, ◌+◌, ◌-◌, ◌*◌, ◌/◌, Bool, true, false, ◌&&◌, ◌||◌, not, if◌then◌else◌, Option, some,
  ◌>>=◌, ltb, leb, ◌==◌, max,
}
use asr_2pass.Prelude.Int.{ℤ, pos, negsuc, ◌+ℤ◌, ◌-ℤ◌, pos_part, leb_ℤ, ltb_ℤ, eq_ℤ, max_ℤ, div_ℤ}
use asr_2pass.Vad.Window.{
  FrameState, frame_state_speech, frame_state_sil, frame_state_invalid, AudioChangeState,
  sil2speech, speech2sil, speech2speech, sil2sil, detect_window,
}
use asr_2pass.Vad.Model.{
  Floats, E2EVadModel, VadStateMachine, start_point_not_detected, in_speech_segment,
  end_point_detected, not_reset, reset_detection, latency_frm_num_at_start_point,
  single_utterance_detect_mode, mutiple_utterance_detect_mode,
}
use asr_2pass.Vad.Buffer.{pop_data_buf_till_frame, pop_data_to_output_buf, note}

-- `for (int t = first; t < first + count; t++) body(t)`
unfoldable pub for_frames : {M : Type 0} → ℕ → ℕ → (ℕ → M → Option M) → M → Option M
for_frames zero first body m = some m
for_frames (suc count) first body m = body first m >>= for_frames count (suc first) body

abbrev pub set_state : {X : Type 0} → VadStateMachine → E2EVadModel X → E2EVadModel X
set_state s m = record m { vad_state_machine = s }

abbrev pub is_not_detected : VadStateMachine → Bool
is_not_detected start_point_not_detected = true
is_not_detected _ = false

-- A branch on `vad_state_machine`.
abbrev pub by_state {ℓ} : {A : Type ℓ} → VadStateMachine → A → A → A → A
by_state start_point_not_detected undetected inside ended = undetected
by_state in_speech_segment undetected inside ended = inside
by_state end_point_detected undetected inside ended = ended

abbrev pub is_end_detected : VadStateMachine → Bool
is_end_detected end_point_detected = true
is_end_detected _ = false

unfoldable pub on_silence_detected : {X : Type 0} → ℕ → E2EVadModel X → Option (E2EVadModel X)
on_silence_detected valid_frame m =
    let m1 = record m { lastest_confirmed_silence_frame = pos valid_frame } in
    if is_not_detected m1.vad_state_machine
    then pop_data_buf_till_frame (pos valid_frame) m1
    else some m1

unfoldable pub on_voice_detected : {X : Type 0} → ℕ → E2EVadModel X → Option (E2EVadModel X)
on_voice_detected valid_frame m =
    pop_data_to_output_buf (pos valid_frame) 1 false false false
      (record m { latest_confirmed_speech_frame = valid_frame })

unfoldable pub confirm_start : {X : Type 0} → ℕ → E2EVadModel X → E2EVadModel X
confirm_start start_frame m =
    if not (eq_ℤ m.confirmed_start_frame (negsuc 0))
    then note true not_reset m
    else record m { confirmed_start_frame = pos start_frame }

unfoldable pub on_voice_start : {X : Type 0} → ℕ → Bool → E2EVadModel X → Option (E2EVadModel X)
on_voice_start start_frame fake_result m =
    let m1 = confirm_start start_frame m in
    if not fake_result && is_not_detected m1.vad_state_machine
    then pop_data_to_output_buf m1.confirmed_start_frame 1 true false false m1
    else some m1

-- The loop over `latest_confirmed_speech_frame + 1 <= t < end_frame`.
unfoldable pub voice_until : {X : Type 0} → ℤ → E2EVadModel X → Option (E2EVadModel X)
unfolding ◌-ℤ◌
voice_until end_frame m =
    let first = suc m.latest_confirmed_speech_frame in
    for_frames (pos_part (end_frame -ℤ pos first)) first on_voice_detected m

unfoldable pub confirm_end : {X : Type 0} → ℤ → E2EVadModel X → E2EVadModel X
confirm_end end_frame m =
    if not (eq_ℤ m.confirmed_end_frame (negsuc 0))
    then note true not_reset m
    else record m { confirmed_end_frame = end_frame }

-- `OnVoiceEnd` behind its loop.
unfoldable pub close_segment :
    {X : Type 0} → ℤ → Bool → Bool → E2EVadModel X → Option (E2EVadModel X)
close_segment end_frame fake_result is_last_frame m =
    let m2 = confirm_end end_frame m in
    (if not fake_result
      then pop_data_to_output_buf m2.confirmed_end_frame 1 false true is_last_frame
          (record m2 { sil_frame = 0 })
      else some m2)
    >>= λ m3. some (record m3 { number_end_time_detected = m3.number_end_time_detected + 1 })

unfoldable pub on_voice_end :
    {X : Type 0} → ℤ → Bool → Bool → E2EVadModel X → Option (E2EVadModel X)
on_voice_end end_frame fake_result is_last_frame m =
    voice_until end_frame m >>= close_segment end_frame fake_result is_last_frame

abbrev pub stop_here : {X : Type 0} → E2EVadModel X → Option (E2EVadModel X)
stop_here m = some (set_state end_point_detected m)

unfoldable pub maybe_on_voice_end_if_last_frame :
    {X : Type 0} → Bool → ℕ → E2EVadModel X → Option (E2EVadModel X)
maybe_on_voice_end_if_last_frame is_final_frame cur_frm_idx m =
    if is_final_frame then on_voice_end (pos cur_frm_idx) false true m >>= stop_here else some m

-- `cur_frm_idx - confirmed_start_frame + 1 > max_single_segment_time / frm_shift_in_ms`
unfoldable pub too_long : {X : Type 0} → ℕ → E2EVadModel X → Bool
unfolding ◌-ℤ◌ ◌+ℤ◌
too_long cur_frm_idx m =
    ltb_ℤ (pos (m.vad_opts.max_single_segment_time / m.vad_opts.frame_in_ms))
      (pos cur_frm_idx -ℤ m.confirmed_start_frame +ℤ pos 1)

-- The branch that three of the four changes share while in a segment: a segment that is too long
-- ends here, and else the frame is speech, or the last one.
unfoldable pub go_on : {X : Type 0} → ℕ → Bool → E2EVadModel X → Option (E2EVadModel X)
go_on cur_frm_idx is_final_frame m =
    if too_long cur_frm_idx m
    then on_voice_end (pos cur_frm_idx) false false m >>= stop_here
    else if not is_final_frame
    then on_voice_detected cur_frm_idx m
    else maybe_on_voice_end_if_last_frame is_final_frame cur_frm_idx m

-- `OnVoiceStart` and the loop behind it.
unfoldable pub start_segment_at : {X : Type 0} → ℕ → ℕ → E2EVadModel X → Option (E2EVadModel X)
start_segment_at cur_frm_idx start_frame m = on_voice_start start_frame false m >>= λ m1.
    for_frames (cur_frm_idx - start_frame) (suc start_frame) on_voice_detected
      (set_state in_speech_segment m1)

unfoldable pub on_sil2speech : {X : Type 0} → ℕ → Bool → E2EVadModel X → Option (E2EVadModel X)
on_sil2speech cur_frm_idx is_final_frame m =
    let m0 = record m { continous_silence_frame_count = 0; pre_end_silence_detected = false } in
    by_state m.vad_state_machine
      (start_segment_at cur_frm_idx
        (max m.data_buf_start_frame (cur_frm_idx - latency_frm_num_at_start_point m)) m0)
      (voice_until (pos cur_frm_idx) m0 >>= go_on cur_frm_idx is_final_frame) (some m0)

unfoldable pub on_speech2sil : {X : Type 0} → ℕ → Bool → E2EVadModel X → Option (E2EVadModel X)
on_speech2sil cur_frm_idx is_final_frame m =
    let m0 = record m { continous_silence_frame_count = 0 } in
    by_state m.vad_state_machine (some m0) (go_on cur_frm_idx is_final_frame m0) (some m0)

-- The segment that is too long is noted in `max_time_out`.
unfoldable pub on_speech2speech : {X : Type 0} → ℕ → Bool → E2EVadModel X → Option (E2EVadModel X)
on_speech2speech cur_frm_idx is_final_frame m =
    let m0 = record m { continous_silence_frame_count = 0 } in
    let m1 = record m0 {
      max_time_out = if too_long cur_frm_idx m0 then true else m.max_time_out;
    } in
    by_state m.vad_state_machine (some m0) (go_on cur_frm_idx is_final_frame m1) (some m0)

-- `lookback_frame` of the branch on enough silence.
unfoldable pub lookback_frames : {X : Type 0} → E2EVadModel X → ℤ
unfolding ◌-ℤ◌
lookback_frames m =
    let o = m.vad_opts in
    let lookback = div_ℤ m.max_end_sil_frame_cnt_thresh o.frame_in_ms in
    if not (o.do_extend == 0)
    then max_ℤ (pos 0) (lookback -ℤ pos (o.lookahead_time_end_point / o.frame_in_ms) -ℤ pos 1)
    else lookback

-- `OnVoiceStart(0, true); OnVoiceEnd(0, true, false);` after the silence that came before.
unfoldable pub give_up : {X : Type 0} → ℕ → E2EVadModel X → Option (E2EVadModel X)
unfolding ◌+ℤ◌
give_up cur_frm_idx m = do
  let first = pos_part (m.lastest_confirmed_silence_frame +ℤ pos 1)
  m1 ← for_frames (cur_frm_idx - first) first on_silence_detected m
  m2 ← on_voice_start 0 true m1
  m3 ← on_voice_end (pos 0) true false m2
  some (set_state end_point_detected m3)

-- `kChangeStateSil2Sil` outside a segment, and in one.
unfoldable pub quiet_outside : {X : Type 0} → ℕ → Bool → E2EVadModel X → Option (E2EVadModel X)
quiet_outside cur_frm_idx is_final_frame m =
    let o = m.vad_opts in
    let latency = latency_frm_num_at_start_point m in
    if (o.detect_mode == single_utterance_detect_mode
        && ltb o.max_start_silence_time (m.continous_silence_frame_count * o.frame_in_ms))
      || (is_final_frame && m.number_end_time_detected == 0)
    then give_up cur_frm_idx m
    else if leb latency cur_frm_idx
    then on_silence_detected (cur_frm_idx - latency) m
    else some m

unfoldable pub quiet_inside : {X : Type 0} → ℕ → Bool → E2EVadModel X → Option (E2EVadModel X)
unfolding ◌-ℤ◌
quiet_inside cur_frm_idx is_final_frame m =
    let o = m.vad_opts in
    let count = m.continous_silence_frame_count in
    if leb_ℤ m.max_end_sil_frame_cnt_thresh (pos (count * o.frame_in_ms))
    then on_voice_end (pos cur_frm_idx -ℤ lookback_frames m) false false m >>= stop_here
    else if too_long cur_frm_idx m
    then on_voice_end (pos cur_frm_idx) false false m >>= stop_here
    else if not (o.do_extend == 0) && not is_final_frame
    then (if leb count (o.lookahead_time_end_point / o.frame_in_ms)
        then on_voice_detected cur_frm_idx m
        else some m)
    else maybe_on_voice_end_if_last_frame is_final_frame cur_frm_idx m

unfoldable pub on_sil2sil : {X : Type 0} → ℕ → Bool → E2EVadModel X → Option (E2EVadModel X)
on_sil2sil cur_frm_idx is_final_frame m =
    let m0 = record m { continous_silence_frame_count = m.continous_silence_frame_count + 1 } in
    by_state m.vad_state_machine (quiet_outside cur_frm_idx is_final_frame m0)
      (quiet_inside cur_frm_idx is_final_frame m0) (some m0)

-- The `if` ladder on the change.
unfoldable pub dispatch :
    {X : Type 0} → AudioChangeState → ℕ → Bool → E2EVadModel X → Option (E2EVadModel X)
dispatch sil2speech cur_frm_idx is_final_frame m = on_sil2speech cur_frm_idx is_final_frame m
dispatch speech2sil cur_frm_idx is_final_frame m = on_speech2sil cur_frm_idx is_final_frame m
dispatch speech2speech cur_frm_idx is_final_frame m = on_speech2speech cur_frm_idx is_final_frame m
dispatch sil2sil cur_frm_idx is_final_frame m = on_sil2sil cur_frm_idx is_final_frame m
dispatch _ cur_frm_idx is_final_frame m = some m

-- The last test of `DetectOneFrame`.
unfoldable pub finish_frame : {X : Type 0} → E2EVadModel X → E2EVadModel X
finish_frame m =
    if is_end_detected m.vad_state_machine
      && m.vad_opts.detect_mode == mutiple_utterance_detect_mode
    then reset_detection m
    else m

-- `tmp_cur_frm_state`; `std::fabs(1.0) > fe_prior_thres` is its test.
unfoldable pub prior_state : (F : Floats) → E2EVadModel F.Carrier → FrameState → FrameState
prior_state F m frame_state_speech =
    if F.ltb_f m.vad_opts.fe_prior_thres (F.fabs (F.decimal (pos 10) 1))
    then frame_state_speech
    else frame_state_sil
prior_state F m frame_state_sil = frame_state_sil
prior_state F m frame_state_invalid = frame_state_invalid

-- `DetectOneFrame` of the model, behind `tmp_cur_frm_state`.
unfoldable pub detect_state :
    {X : Type 0} → FrameState → ℕ → Bool → E2EVadModel X → Option (E2EVadModel X)
detect_state state cur_frm_idx is_final_frame m = do
  let (window, change) = detect_window state m.windows_detector
  m1 ← dispatch change cur_frm_idx is_final_frame (record m { windows_detector = window })
  some (finish_frame m1)

unfoldable pub detect_one_frame :
    (F : Floats) → FrameState → ℕ → Bool → E2EVadModel F.Carrier → Option (E2EVadModel F.Carrier)
detect_one_frame F cur_frm_state cur_frm_idx is_final_frame m =
    detect_state (prior_state F m cur_frm_state) cur_frm_idx is_final_frame m
