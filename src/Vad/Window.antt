-- ===== src/Vad/Window.antt =====
-- `WindowDetector` of onnxruntime/src/e2e-vad.h: the smoothing window over the frame decisions, a
-- ring of the last `win_size_frame` zeros and ones with its running sum.
use asr_2pass.Prelude.{
  ℕ, zero, suc, ◌+◌, ◌-◌, ◌/◌, ◌%◌, Bool, true, false, ◌&&◌, Option, none, some, List, [], ◌∷◌, leb,
  if◌then◌else◌, set, get_or, replicate,
}
pub mod Ring
pub mod Hysteresis

pub data FrameState : Type 0 where
  frame_state_invalid frame_state_speech frame_state_sil : FrameState

pub data AudioChangeState : Type 0 where
  speech2speech speech2sil sil2sil sil2speech no_begin change_state_invalid : AudioChangeState

-- `int` fields that are never negative are natural numbers.
pub record WindowDetector : Type 0 where
  pub window_size_ms : ℕ
  pub sil_to_speech_time : ℕ
  pub speech_to_sil_time : ℕ
  pub frame_size_ms : ℕ
  pub win_size_frame : ℕ
  pub win_sum : ℕ
  pub win_state : List ℕ
  pub cur_win_pos : ℕ
  pub pre_frame_state : FrameState
  pub cur_frame_state : FrameState
  pub sil_to_speech_frmcnt_thres : ℕ
  pub speech_to_sil_frmcnt_thres : ℕ
  pub voice_last_frame_count : ℕ
  pub noise_last_frame_count : ℕ
  pub hydre_frame_count : ℕ

-- The constructor. C++ leaves a division by `frame_size_ms = 0` undefined; here it gives 0.
unfoldable pub new_window : ℕ → ℕ → ℕ → ℕ → WindowDetector
new_window window_size_ms sil_to_speech_time speech_to_sil_time frame_size_ms = record {
  window_size_ms = window_size_ms;
  sil_to_speech_time = sil_to_speech_time;
  speech_to_sil_time = speech_to_sil_time;
  frame_size_ms = frame_size_ms;
  win_size_frame = window_size_ms / frame_size_ms;
  win_sum = 0;
  win_state = replicate (window_size_ms / frame_size_ms) 0;
  cur_win_pos = 0;
  pre_frame_state = frame_state_sil;
  cur_frame_state = frame_state_sil;
  sil_to_speech_frmcnt_thres = sil_to_speech_time / frame_size_ms;
  speech_to_sil_frmcnt_thres = speech_to_sil_time / frame_size_ms;
  voice_last_frame_count = 0;
  noise_last_frame_count = 0;
  hydre_frame_count = 0;
}

-- `Reset`
unfoldable pub reset_window : WindowDetector → WindowDetector
reset_window w = record w {
  cur_win_pos = 0;
  win_sum = 0;
  win_state = replicate w.win_size_frame 0;
  pre_frame_state = frame_state_sil;
  cur_frame_state = frame_state_sil;
  voice_last_frame_count = 0;
  noise_last_frame_count = 0;
  hydre_frame_count = 0;
}

unfoldable pub get_win_size : WindowDetector → ℕ
get_win_size w = w.win_size_frame

-- The first tests of `DetectOneFrame`: the value written to the window, or the early return.
abbrev pub frame_value : FrameState → Option ℕ
frame_value frame_state_speech = some 1
frame_value frame_state_sil = some 0
frame_value frame_state_invalid = none

-- The update of the ring. The sum holds the old entry, so the subtraction does not stop at 0.
unfoldable pub push_frame : WindowDetector → ℕ → WindowDetector
push_frame w v = record w {
  win_sum = w.win_sum - get_or w.win_state w.cur_win_pos 0 + v;
  win_state = set w.win_state w.cur_win_pos v;
  cur_win_pos = (w.cur_win_pos + 1) % w.win_size_frame;
}

abbrev pub is_sil : FrameState → Bool
is_sil frame_state_sil = true
is_sil _ = false

abbrev pub is_speech : FrameState → Bool
is_speech frame_state_speech = true
is_speech _ = false

-- The tests on the updated sum, in the order of the source.
unfoldable pub classify : WindowDetector → WindowDetector × AudioChangeState
classify w =
    if is_sil w.pre_frame_state && leb w.sil_to_speech_frmcnt_thres w.win_sum
    then (record w { pre_frame_state = frame_state_speech }, sil2speech)
    else if is_speech w.pre_frame_state && leb w.win_sum w.speech_to_sil_frmcnt_thres
    then (record w { pre_frame_state = frame_state_sil }, speech2sil)
    else if is_sil w.pre_frame_state
    then (w, sil2sil)
    else if is_speech w.pre_frame_state
    then (w, speech2speech)
    else (w, change_state_invalid)

-- `DetectOneFrame`; its argument `frame_count` is not read.
unfoldable pub detect_window : FrameState → WindowDetector → WindowDetector × AudioChangeState
unfolding push_frame classify
detect_window f w = elim (frame_value f) [
  | none ↦ (w, change_state_invalid)
  | some v ↦ classify (push_frame w v)
]
