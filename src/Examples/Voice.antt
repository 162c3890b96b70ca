-- ===== src/Examples/Voice.antt =====
-- The theorems on the voice detector (onnxruntime/src/e2e-vad.h) at concrete inputs.
use asr_2pass.Prelude.{
  ℕ, zero, suc, ◌+◌, ◌≤◌, ◌≡◌, ◌≢◌, refl, true, false, List, [], ◌∷◌, ◌++◌, replicate, length, some,
  Returns, arith, drop, ltb, leb, ◌-◌, ◌*◌,
}
use asr_2pass.Prelude.Int.{pos}
use asr_2pass.Vad.Window.{
  WindowDetector, FrameState, frame_state_sil, frame_state_speech, frame_state_invalid, new_window,
  reset_window, detect_window,
}
use asr_2pass.Vad.Window.Ring.{IsWindow, contents, sum, reset_window-IsWindow}
use asr_2pass.Vad.Window.Hysteresis.{
  run_window, values, contents-run_window, detect_window_hysteresis, smoothed, change_of,
}
use asr_2pass.Vad.Model.{Floats, E2EVadModel, SpeechBuf, empty_buf, new_model, all_reset_detection}
use asr_2pass.Vad.Detect.{detect_state}
use asr_2pass.Vad.Frames.{compute_decibel}
use asr_2pass.Vad.Emit.{emit_online}
use asr_2pass.Vad.Segments.Layout.{alarms, Laid}
use asr_2pass.Vad.Segments.Tracks.{Tracks}
use asr_2pass.Vad.Segments.Step.{detect_state-Tracks}
use asr_2pass.Vad.Segments.Run.{
  AllValid, detect_all, supplied, supplied-Tracks, detect_all_in_order,
}
use asr_2pass.Vad.Brackets.{read_all, emit_online-read_all, stale_sizes}

-- Numbers in place of floating point, for the code that only passes them on.
abbrev naturals : Floats
naturals = record {
  Carrier = ℕ;
  decimal = λ m e. 0;
  of_int = λ n. n;
  add = λ a b. a + b;
  sub = λ a b. a - b;
  mul = λ a b. a * b;
  div = λ a b. a;
  log = λ a. a;
  log10 = λ a. a;
  exp = λ a. a;
  fabs = λ a. a;
  ltb_f = ltb;
  leb_f = leb;
}

abbrev a_window : WindowDetector
a_window = reset_window (new_window 30 20 10 10)

a_window-IsWindow : IsWindow a_window
unfolding reset_window new_window
a_window-IsWindow = reset_window-IsWindow (new_window 30 20 10 10) (omega arith)

abbrev decisions : List FrameState
decisions =
    frame_state_sil ∷ frame_state_speech ∷ frame_state_speech ∷ frame_state_sil ∷ frame_state_sil
    ∷ []

contents-run_window_example :
    (contents (run_window decisions a_window)
      ≡ drop (length (values decisions)) (contents a_window ++ values decisions))
    × IsWindow (run_window decisions a_window)
contents-run_window_example = contents-run_window decisions a_window a_window-IsWindow

detect_window_hysteresis_example :
    ((detect_window frame_state_speech a_window).0.pre_frame_state
      ≡ smoothed a_window (sum (drop 1 (contents a_window) ++ 1 ∷ [])) a_window.pre_frame_state)
    × ((detect_window frame_state_speech a_window).1
        ≡ change_of a_window.pre_frame_state
            (detect_window frame_state_speech a_window).0.pre_frame_state)
detect_window_hysteresis_example =
    detect_window_hysteresis a_window frame_state_speech 1 a_window-IsWindow refl

-- Silence, speech and silence again, with audio for all of it.
abbrev utterance : List FrameState
utterance =
    replicate 20 frame_state_sil
    ++ (replicate 40 frame_state_speech ++ replicate 20 frame_state_sil)

replicate-AllValid : (n : ℕ) (f : FrameState) → f ≢ frame_state_invalid → AllValid (replicate n f)
replicate-AllValid zero f h = tt
replicate-AllValid (suc n) f h = (h, replicate-AllValid n f h)

append-AllValid : (fs gs : List FrameState) → AllValid fs → AllValid gs → AllValid (fs ++ gs)
append-AllValid [] gs h k = k
append-AllValid (f ∷ fs) gs (h, hs) k = (h, append-AllValid fs gs hs k)

utterance-AllValid : AllValid utterance
utterance-AllValid =
    append-AllValid (replicate 20 frame_state_sil)
      (replicate 40 frame_state_speech ++ replicate 20 frame_state_sil)
      (replicate-AllValid 20 frame_state_sil (λ x. cc))
      (append-AllValid (replicate 40 frame_state_speech) (replicate 20 frame_state_sil)
        (replicate-AllValid 40 frame_state_speech (λ x. cc))
        (replicate-AllValid 20 frame_state_sil (λ x. cc)))

detect_all_in_order_example :
    Returns
      (λ m.
        (alarms m.stdout ≡ 0)
        × Laid m.vad_opts.frame_in_ms 0 m.output_data_buf m.data_buf_start_frame
        × (m.data_buf_start_frame ≤ length utterance))
      (detect_all true 0 utterance (supplied naturals 16000))
detect_all_in_order_example =
    detect_all_in_order naturals 80 16000 true utterance (omega arith) (omega arith) (omega arith)
      utterance-AllValid

detect_state-Tracks_example :
    Returns (Tracks 80 1) (detect_state frame_state_speech 0 false (supplied naturals 16000))
detect_state-Tracks_example =
    detect_state-Tracks 80 0 frame_state_speech false (supplied naturals 16000) (λ x. cc)
      (omega arith) (supplied-Tracks naturals 80 16000 (omega arith) (omega arith))

abbrev three_buffers : List SpeechBuf
three_buffers =
    record empty_buf { start_ms = pos 100; end_ms = pos 100; contain_seg_start_point = true }
    ∷ record empty_buf { start_ms = pos 100; end_ms = pos 500; contain_seg_end_point = true }
    ∷ record empty_buf { start_ms = pos 700; end_ms = pos 700; contain_seg_start_point = true }
    ∷ []

emit_online-read_all_example :
    read_all true (emit_online true 0 three_buffers).segments
    ≡ some (emit_online true 0 three_buffers).next_seg
emit_online-read_all_example =
    emit_online-read_all true 0 three_buffers
      (((100, refl), (100, refl), ((100, refl), (500, refl), ((700, refl), (700, refl), tt))))

-- A model that has seen 480 samples.
abbrev heard : E2EVadModel ℕ
heard = record (new_model naturals) { data_buf_all_size = 480; data_buf_size = pos 160 }

abbrev next_chunk : List ℕ
next_chunk = replicate 400 3

stale_sizes_example :
    Returns
      (λ m1.
        (m1.data_buf_size ≡ heard.data_buf_size)
        × (m1.data_buf_all_size ≡ heard.data_buf_all_size + length next_chunk)
        × (m1.data_buf_start_frame ≡ 0))
      (compute_decibel naturals
        (record (all_reset_detection naturals heard) { waveform = next_chunk }))
unfolding new_model
stale_sizes_example = stale_sizes naturals heard next_chunk (omega arith) (omega arith)
