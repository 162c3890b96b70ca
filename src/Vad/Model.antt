-- ===== src/Vad/Model.antt =====
-- The data of `E2EVadModel` (onnxruntime/src/e2e-vad.h): options, output segments, the model's
-- fields, and the resets. `X` is the type of floating point numbers.
use asr_2pass.Prelude.{ℕ, ◌+◌, ◌*◌, ◌/◌, Bool, true, false, if◌then◌else◌, List, [], ◌∷◌, not, ◌==◌}
use asr_2pass.Prelude.Int.{ℤ, pos, negsuc, sub_ℕ}
use asr_2pass.Vad.Window.{WindowDetector, new_window, reset_window, get_win_size}

-- What the code uses of C++ floating point arithmetic and of <cmath>. `decimal m e` is the literal
-- m / 10 ^ e. No law is assumed of them.
pub record Floats : Type 1 where
  pub Carrier : Type 0
  pub decimal : ℤ → ℕ → Carrier
  pub of_int : ℕ → Carrier
  pub add : Carrier → Carrier → Carrier
  pub sub : Carrier → Carrier → Carrier
  pub mul : Carrier → Carrier → Carrier
  pub div : Carrier → Carrier → Carrier
  pub log : Carrier → Carrier
  pub log10 : Carrier → Carrier
  pub exp : Carrier → Carrier
  pub fabs : Carrier → Carrier
  pub ltb_f : Carrier → Carrier → Bool
  pub leb_f : Carrier → Carrier → Bool

pub data VadStateMachine : Type 0 where
  start_point_not_detected in_speech_segment end_point_detected : VadStateMachine

-- `VadDetectMode`, as the `int` that `detect_mode` is compared with.
abbrev pub single_utterance_detect_mode : ℕ
single_utterance_detect_mode = 0

abbrev pub mutiple_utterance_detect_mode : ℕ
mutiple_utterance_detect_mode = 1

-- Times, sizes and rates are never negative, and are natural numbers.
pub record VadxOptions (X : Type 0) : Type 0 where
  pub sample_rate : ℕ
  pub detect_mode : ℕ
  pub snr_mode : ℕ
  pub max_end_silence_time : ℕ
  pub max_start_silence_time : ℕ
  pub do_start_point_detection : Bool
  pub do_end_point_detection : Bool
  pub window_size_ms : ℕ
  pub sil_to_speech_time_thres : ℕ
  pub speech_to_sil_time_thres : ℕ
  pub speech_2_noise_ratio : X
  pub do_extend : ℕ
  pub lookback_time_start_point : ℕ
  pub lookahead_time_end_point : ℕ
  pub max_single_segment_time : ℕ
  pub nn_eval_block_size : ℕ
  pub dcd_block_size : ℕ
  pub snr_thres : X
  pub noise_frame_num_used_for_snr : ℕ
  pub decibel_thres : X
  pub speech_noise_thres : X
  pub fe_prior_thres : X
  pub silence_pdf_num : ℕ
  pub sil_pdf_ids : List ℕ
  pub speech_noise_thresh_low : X
  pub speech_noise_thresh_high : X
  pub output_frame_probs : Bool
  pub frame_in_ms : ℕ
  pub frame_length_ms : ℕ

-- The default arguments of the constructor.
abbrev pub default_options : (F : Floats) → VadxOptions F.Carrier
default_options F = record {
  sample_rate = 16000;
  detect_mode = mutiple_utterance_detect_mode;
  snr_mode = 0;
  max_end_silence_time = 800;
  max_start_silence_time = 3000;
  do_start_point_detection = true;
  do_end_point_detection = true;
  window_size_ms = 200;
  sil_to_speech_time_thres = 150;
  speech_to_sil_time_thres = 150;
  speech_2_noise_ratio = F.decimal (pos 10) 1;
  do_extend = 1;
  lookback_time_start_point = 200;
  lookahead_time_end_point = 100;
  max_single_segment_time = 15000;
  nn_eval_block_size = 8;
  dcd_block_size = 4;
  snr_thres = F.decimal (negsuc 999) 1;
  noise_frame_num_used_for_snr = 100;
  decibel_thres = F.decimal (negsuc 999) 1;
  speech_noise_thres = F.decimal (pos 9) 1;
  fe_prior_thres = F.decimal (pos 1) 4;
  silence_pdf_num = 1;
  sil_pdf_ids = 0 ∷ [];
  speech_noise_thresh_low = F.decimal (negsuc 0) 1;
  speech_noise_thresh_high = F.decimal (pos 3) 1;
  output_frame_probs = false;
  frame_in_ms = 10;
  frame_length_ms = 25;
}

-- `E2EVadSpeechBufWithDoa`; its `buffer` is never filled and is left out.
pub record SpeechBuf : Type 0 where
  pub start_ms : ℤ
  pub end_ms : ℤ
  pub contain_seg_start_point : Bool
  pub contain_seg_end_point : Bool
  pub doa : ℕ

-- The constructor and `Reset`.
abbrev pub empty_buf : SpeechBuf
empty_buf = record {
  start_ms = pos 0;
  end_ms = pos 0;
  contain_seg_start_point = false;
  contain_seg_end_point = false;
  doa = 0;
}

pub record FrameProb (X : Type 0) : Type 0 where
  pub noise_prob : X
  pub speech_prob : X
  pub score : X
  pub frame_id : ℕ
  pub frm_state : ℕ

-- The lines that the code prints to `std::cout`.
pub data Message : Type 0 where
  error_in_calling_pop warning data_to_pop_is_bigger something_wrong not_reset : Message

-- Fields that can be -1 are integers. `stdout` is what has been printed, oldest line first.
pub record E2EVadModel (X : Type 0) : Type 0 where
  pub vad_opts : VadxOptions X
  pub windows_detector : WindowDetector
  pub is_final : Bool
  pub data_buf_start_frame : ℕ
  pub frm_cnt : ℕ
  pub latest_confirmed_speech_frame : ℕ
  pub lastest_confirmed_silence_frame : ℤ
  pub continous_silence_frame_count : ℕ
  pub vad_state_machine : VadStateMachine
  pub confirmed_start_frame : ℤ
  pub confirmed_end_frame : ℤ
  pub number_end_time_detected : ℕ
  pub sil_frame : ℕ
  pub sil_pdf_ids : List ℕ
  pub noise_average_decibel : X
  pub pre_end_silence_detected : Bool
  pub next_seg : Bool
  pub output_data_buf : List SpeechBuf
  pub output_data_buf_offset : ℕ
  pub frame_probs : List (FrameProb X)
  pub max_end_sil_frame_cnt_thresh : ℤ
  pub speech_noise_thres : X
  pub scores : List (List X)
  pub idx_pre_chunk : ℕ
  pub max_time_out : Bool
  pub decibel : List X
  pub data_buf_size : ℤ
  pub data_buf_all_size : ℕ
  pub waveform : List X
  pub stdout : List Message

-- `ResetDetection`
unfoldable pub reset_detection : {X : Type 0} → E2EVadModel X → E2EVadModel X
reset_detection m = record m {
  continous_silence_frame_count = 0;
  latest_confirmed_speech_frame = 0;
  lastest_confirmed_silence_frame = negsuc 0;
  confirmed_start_frame = negsuc 0;
  confirmed_end_frame = negsuc 0;
  vad_state_machine = start_point_not_detected;
  windows_detector = reset_window m.windows_detector;
  sil_frame = 0;
  frame_probs = [];
}

-- `AllResetDetection`. Its `int data_buf_size = 0; int data_buf_all_size = 0;` declare two local
-- variables, so the fields of those names keep their values.
unfoldable pub all_reset_detection : (F : Floats) → E2EVadModel F.Carrier → E2EVadModel F.Carrier
unfolding reset_detection
all_reset_detection F m = reset_detection (record m {
  is_final = false;
  data_buf_start_frame = 0;
  frm_cnt = 0;
  latest_confirmed_speech_frame = 0;
  lastest_confirmed_silence_frame = negsuc 0;
  continous_silence_frame_count = 0;
  vad_state_machine = start_point_not_detected;
  confirmed_start_frame = negsuc 0;
  confirmed_end_frame = negsuc 0;
  number_end_time_detected = 0;
  sil_frame = 0;
  sil_pdf_ids = m.vad_opts.sil_pdf_ids;
  noise_average_decibel = F.decimal (negsuc 999) 1;
  pre_end_silence_detected = false;
  next_seg = true;
  output_data_buf = [];
  output_data_buf_offset = 0;
  frame_probs = [];
  max_end_sil_frame_cnt_thresh =
      sub_ℕ m.vad_opts.max_end_silence_time m.vad_opts.speech_to_sil_time_thres;
  speech_noise_thres = m.vad_opts.speech_noise_thres;
  scores = [];
  idx_pre_chunk = 0;
  max_time_out = false;
  decibel = [];
  waveform = [];
})

-- The constructor of the model, with `WindowDetector(200, 150, 150, 10)`.
unfoldable pub new_model : (F : Floats) → E2EVadModel F.Carrier
unfolding reset_detection
new_model F =
    let opts = default_options F in
    reset_detection (record {
      vad_opts = opts;
      windows_detector = new_window 200 150 150 10;
      is_final = false;
      data_buf_start_frame = 0;
      frm_cnt = 0;
      latest_confirmed_speech_frame = 0;
      lastest_confirmed_silence_frame = negsuc 0;
      continous_silence_frame_count = 0;
      vad_state_machine = start_point_not_detected;
      confirmed_start_frame = negsuc 0;
      confirmed_end_frame = negsuc 0;
      number_end_time_detected = 0;
      sil_frame = 0;
      sil_pdf_ids = opts.sil_pdf_ids;
      noise_average_decibel = F.decimal (negsuc 999) 1;
      pre_end_silence_detected = false;
      next_seg = true;
      output_data_buf = [];
      output_data_buf_offset = 0;
      frame_probs = [];
      max_end_sil_frame_cnt_thresh = sub_ℕ opts.max_end_silence_time opts.speech_to_sil_time_thres;
      speech_noise_thres = opts.speech_noise_thres;
      scores = [];
      idx_pre_chunk = 0;
      max_time_out = false;
      decibel = [];
      data_buf_size = pos 0;
      data_buf_all_size = 0;
      waveform = [];
      stdout = [];
    })

-- `LatencyFrmNumAtStartPoint`
unfoldable pub latency_frm_num_at_start_point : {X : Type 0} → E2EVadModel X → ℕ
unfolding get_win_size
latency_frm_num_at_start_point m =
    let o = m.vad_opts in
    let vad_latency = get_win_size m.windows_detector in
    if not (o.do_extend == 0)
    then vad_latency + o.lookback_time_start_point / o.frame_in_ms
    else vad_latency

-- `GetLatency`
unfoldable pub get_latency : {X : Type 0} → E2EVadModel X → ℕ
unfolding latency_frm_num_at_start_point
get_latency m = latency_frm_num_at_start_point m * m.vad_opts.frame_in_ms
