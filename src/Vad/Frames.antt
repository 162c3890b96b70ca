-- ===== src/Vad/Frames.antt =====
-- Frames and segments of `E2EVadModel` (onnxruntime/src/e2e-vad.h): `ComputeDecibel`,
-- `ComputeScores`, `GetFrameState`, `DetectCommonFrames`, `DetectLastFrames` and `operator()`.
-- `none` is a call that does not come back with a defined result: an endless loop, a read past the
-- end of a vector, a failed `assert`.
use asr_2pass.Prelude.{
  ℕ, zero, suc, ◌+◌, ◌-◌, ◌*◌, ◌/◌, Bool, true, false, ◌&&◌, not, if◌then◌else◌, Option, none, some,
  ◌>>=◌, ltb, leb, ◌==◌, List, [], ◌∷◌, ◌++◌, length, get_elem?, drop, take,
}
use asr_2pass.Prelude.Int.{pos, negsuc}
use asr_2pass.Vad.Window.{FrameState, frame_state_speech, frame_state_sil}
use asr_2pass.Vad.Model.{Floats, E2EVadModel}
use asr_2pass.Vad.Detect.{detect_one_frame, is_end_detected}

module _ (F : Floats) where
  open F use {Carrier, decimal, of_int, add, sub, mul, div, log, log10, exp, fabs, ltb_f, leb_f}

  abbrev pub Vad : Type 0
  Vad = E2EVadModel Carrier

  -- The inner loop of `ComputeDecibel`.
  unfoldable pub energy : Carrier → List Carrier → Carrier
  energy sum [] = sum
  energy sum (x ∷ xs) = energy (add sum (mul x x)) xs

  -- The outer loop, on the samples from `offset` on; a shift of 0 makes no progress. One round more
  -- than there are samples is enough for any other shift.
  unfoldable pub decibels : ℕ → ℕ → ℕ → List Carrier → Option (List Carrier)
  decibels zero frame_sample_length frame_shift_length rest = none
  decibels (suc fuel) frame_sample_length frame_shift_length rest =
      let more =
        decibels fuel frame_sample_length frame_shift_length (drop frame_shift_length rest) in
      if ltb 0 frame_sample_length && leb frame_sample_length (length rest)
      then (do
        levels ← more
        some (
            mul (of_int 10) (
              log10 (
                add (energy (decimal (pos 0) 1) (take frame_sample_length rest))
                  (decimal (pos 1) 6)))
            ∷ levels))
      else some []

  -- The first test of `ComputeDecibel`, on the sizes alone.
  unfoldable pub count_audio : ℕ → Vad → Vad
  count_audio size m = record m {
    data_buf_all_size = if m.data_buf_all_size == 0 then size else m.data_buf_all_size + size;
    data_buf_size = if m.data_buf_all_size == 0 then pos size else m.data_buf_size;
  }

  unfoldable pub compute_decibel : Vad → Option Vad
  unfolding count_audio
  compute_decibel m =
      let o = m.vad_opts in
      let size = length m.waveform in
      let m1 = count_audio size m in
      decibels (suc size) (o.frame_length_ms * o.sample_rate / 1000)
        (o.frame_in_ms * o.sample_rate / 1000) m.waveform
      >>= λ levels. some (record m1 { decibel = m1.decibel ++ levels })

  unfoldable pub compute_scores : List (List Carrier) → Vad → Vad
  compute_scores scores m = record m {
    vad_opts = record (m.vad_opts) { nn_eval_block_size = length scores };
    frm_cnt = m.frm_cnt + length scores;
    scores = scores;
  }

  -- `sil_pdf_scores` and its sum.
  unfoldable pub silence_score : List Carrier → List ℕ → Carrier → Option Carrier
  silence_score row [] sum = some sum
  silence_score row (id ∷ ids) sum = do
    score ← get_elem? row id
    silence_score row ids (add sum score)

  unfoldable pub track_noise : Carrier → Vad → Vad
  track_noise cur_decibel m =
      let n = m.vad_opts.noise_frame_num_used_for_snr in
      record m {
        noise_average_decibel =
            if ltb_f m.noise_average_decibel (decimal (negsuc 998) 1)
            then cur_decibel
            else div (add cur_decibel (mul m.noise_average_decibel (of_int (n - 1)))) (of_int n);
      }

  unfoldable pub keep_prob : ℕ → Carrier → Carrier → Carrier → Vad → Vad
  keep_prob t noise_prob speech_prob sum_score m =
      if m.vad_opts.output_frame_probs
      then record m {
        frame_probs =
            m.frame_probs
            ++ record {
              noise_prob = noise_prob;
              speech_prob = speech_prob;
              score = sum_score;
              frame_id = t;
              frm_state = 0;
            }
              ∷ [];
      }
      else m

  -- `scores[t - idx_pre_chunk]`: an index below 0 is out of range too.
  unfoldable pub score_row : ℕ → Vad → Option (List Carrier)
  score_row t m = if leb m.idx_pre_chunk t then get_elem? m.scores (t - m.idx_pre_chunk) else none

  -- `sum_score` and `noise_prob` as the block on `sil_pdf_ids` leaves them.
  unfoldable pub speech_scores : ℕ → Vad → Option (Carrier × Carrier)
  speech_scores t m =
      if ltb 0 (length m.sil_pdf_ids)
      then (do
        row ← score_row t m
        sum ← silence_score row m.sil_pdf_ids (decimal (pos 0) 1)
        some (sub (decimal (pos 10) 1) sum, mul (log sum) m.vad_opts.speech_2_noise_ratio))
      else some (decimal (pos 0) 1, decimal (pos 0) 1)

  unfoldable pub get_frame_state : ℕ → Vad → Option (FrameState × Vad)
  unfolding speech_scores score_row track_noise keep_prob
  get_frame_state t m = do
    let o = m.vad_opts
    cur_decibel ← get_elem? m.decibel t
    let cur_snr = sub cur_decibel m.noise_average_decibel
    if ltb_f cur_decibel o.decibel_thres
        then (do m1 ← detect_one_frame F frame_state_sil t false m; some (frame_state_sil, m1))
        else if not (length m.sil_pdf_ids == o.silence_pdf_num)
        then none
        else (do
          scored ← speech_scores t m
          let sum_score = scored.0
          let noise_prob = scored.1
          let speech_prob = log sum_score
          let m1 = keep_prob t noise_prob speech_prob sum_score m
          if leb_f (add (exp noise_prob) m.speech_noise_thres) (exp speech_prob)
              then some (
                if leb_f o.snr_thres cur_snr && leb_f o.decibel_thres cur_decibel
                    then frame_state_speech
                    else frame_state_sil,
                m1,
              )
              else some (frame_state_sil, track_noise cur_decibel m1))

  -- The loop of `DetectCommonFrames` and `DetectLastFrames` for `i = count - 1, ..., 0`; in the
  -- latter the frame of `i = 0` is the final one.
  unfoldable pub detect_frames : ℕ → Bool → Vad → Option Vad
  detect_frames zero last m = some m
  detect_frames (suc i) last m = do
    let t = m.frm_cnt - 1 - i
    (state, m1) ← get_frame_state t m
    m2 ← detect_one_frame F state t (last && i == 0) m1
    detect_frames i last m2

  unfoldable pub detect_common_frames : Vad → Option Vad
  detect_common_frames m = if is_end_detected m.vad_state_machine then some m else (do
    m1 ← detect_frames m.vad_opts.nn_eval_block_size false m
    some (record m1 { idx_pre_chunk = m1.idx_pre_chunk + length m1.scores }))

  unfoldable pub detect_last_frames : Vad → Option Vad
  detect_last_frames m =
      if is_end_detected m.vad_state_machine
      then some m
      else detect_frames m.vad_opts.nn_eval_block_size true m
