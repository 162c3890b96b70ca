-- ===== src/Vad/Emit.antt =====
-- The segments that `E2EVadModel::operator()` hands out (onnxruntime/src/e2e-vad.h).
use asr_2pass.Prelude.{
  ℕ, ◌+◌, Bool, true, false, ◌&&◌, ◌||◌, not, if◌then◌else◌, Option, some, ◌>>=◌, List, [], ◌∷◌,
  drop,
}
use asr_2pass.Prelude.Int.{ℤ, negsuc, sub_ℕ}
use asr_2pass.Vad.Model.{Floats, E2EVadModel, SpeechBuf, all_reset_detection}
use asr_2pass.Vad.Frames.{compute_decibel, compute_scores, detect_common_frames, detect_last_frames}

-- What the loop writes: the segments, and the fields `next_seg` and `output_data_buf_offset`.
pub record Emission : Type 0 where
  pub segments : List (ℤ × ℤ)
  pub next_seg : Bool
  pub offset : ℕ

abbrev pub emit_one : ℤ × ℤ → Emission → Emission
emit_one segment e = record e { segments = segment ∷ e.segments }

-- One round after another over the buffers from `output_data_buf_offset` on; the index does not move
-- with the offset. `continue` is a round that leaves all as it is.
unfoldable pub emit_online : Bool → ℕ → List SpeechBuf → Emission
emit_online next_seg offset [] = record { segments = []; next_seg = next_seg; offset = offset }
emit_online next_seg offset (buf ∷ bufs) =
    let skip = emit_online next_seg offset bufs in
    let ended = emit_online true (offset + 1) bufs in
    let open_end = emit_online false offset bufs in
    let start_ms = if next_seg then buf.start_ms else negsuc 0 in
    if not buf.contain_seg_start_point
    then skip
    else if not next_seg && not buf.contain_seg_end_point
    then skip
    else if buf.contain_seg_end_point
    then emit_one (start_ms, buf.end_ms) ended
    else emit_one (start_ms, negsuc 0) open_end

unfoldable pub emit_offline : Bool → Bool → ℕ → List SpeechBuf → Emission
emit_offline is_final next_seg offset [] = record {
  segments = [];
  next_seg = next_seg;
  offset = offset;
}
emit_offline is_final next_seg offset (buf ∷ bufs) =
    let skip = emit_offline is_final next_seg offset bufs in
    let sent = emit_offline is_final next_seg (offset + 1) bufs in
    if not is_final && (not buf.contain_seg_start_point || not buf.contain_seg_end_point)
    then skip
    else emit_one (buf.start_ms, buf.end_ms) sent

abbrev pub emit : Bool → Bool → Bool → ℕ → List SpeechBuf → Emission
emit true is_final next_seg offset bufs = emit_online next_seg offset bufs
emit false is_final next_seg offset bufs = emit_offline is_final next_seg offset bufs

-- The arguments of a call.
pub record VadCall (X : Type 0) : Type 0 where
  pub score : List (List X)
  pub waveform : List X
  pub is_final : Bool
  pub online : Bool
  pub max_end_sil : ℕ
  pub max_single_segment_time : ℕ
  pub speech_noise_thres : X
  pub sample_rate : ℕ

module _ (F : Floats) where
  unfoldable pub store_arguments : VadCall F.Carrier → E2EVadModel F.Carrier → E2EVadModel F.Carrier
  store_arguments c m = record m {
    max_end_sil_frame_cnt_thresh = sub_ℕ c.max_end_sil m.vad_opts.speech_to_sil_time_thres;
    waveform = c.waveform;
    vad_opts = record (m.vad_opts) {
      max_single_segment_time = c.max_single_segment_time;
      sample_rate = c.sample_rate;
    };
    speech_noise_thres = c.speech_noise_thres;
  }

  -- `operator()`: the segments of this call, and the model after it.
  unfoldable pub vad_call :
      VadCall F.Carrier → E2EVadModel F.Carrier → Option (List (ℤ × ℤ) × E2EVadModel F.Carrier)
  unfolding store_arguments
  vad_call c m = do
    m1 ← compute_decibel F (store_arguments c m)
    let m2 = compute_scores F c.score m1
    m3 ← (if not c.is_final then detect_common_frames F m2 else detect_last_frames F m2)
    let bufs = drop m3.output_data_buf_offset m3.output_data_buf
    let e = emit c.online c.is_final m3.next_seg m3.output_data_buf_offset bufs
    let m4 = record m3 { next_seg = e.next_seg; output_data_buf_offset = e.offset }
    some (e.segments, if c.is_final then all_reset_detection F m4 else m4)
