-- ===== src/Examples/Audio.antt =====
-- The theorems on the audio of the two passes (onnxruntime/src/audio.cpp) at concrete inputs.
use asr_2pass.Prelude.{
  ℕ, ◌++◌, ◌<◌, ◌≤◌, ◌≡◌, ◌*◌, ◌⊎◌, refl, false, List, [], ◌∷◌, length, none, some, Returns, arith,
}
use asr_2pass.Prelude.Int.{ℤ, pos, negsuc, pos_part}
use asr_2pass.Audio.{AudioFrame, Audio}
use asr_2pass.Audio.Batches.{fetch_dynamic, fetch_dynamic_lem, longest_of, max_acc}
use asr_2pass.Audio.CutSplit.{
  join_segments, frames_of, join_segments-Reads, all_read, whole, opens, closes,
}
use asr_2pass.Audio.TwoPass.{asr_two_pass, on_segment, cut_rest}
use asr_2pass.Audio.TwoPass.Slices.{Keeps, slice}
use asr_2pass.Audio.TwoPass.Cut.{Cuts, cut_rest-Cuts}
use asr_2pass.Audio.TwoPass.Stream.{Streaming, Continues}
use asr_2pass.Audio.TwoPass.Stream.Close.{Closes, on_segment_end-same_audio}
use asr_2pass.Audio.TwoPass.Stream.Calls.{
  stream_calls, stream_calls-Continues, on_segment_start-Continues, all_loaded,
}

-- A sample is a number, and there is one in a millisecond. Six of them are heard.
abbrev six : List ℕ
six = 10 ∷ 11 ∷ 12 ∷ 13 ∷ 14 ∷ 15 ∷ []

abbrev a_frame_of : ℕ → AudioFrame ℕ
a_frame_of len = record {
  start = 0;
  len = len;
  is_final = false;
  frame_data = [];
  global_start = 0;
  global_end = 0;
}

abbrev silent : Audio ℕ
silent = record {
  speech_data = [];
  speech_len = 0;
  frame_queue = [];
  asr_online_queue = [];
  asr_offline_queue = [];
  dest_sample_rate = 1000;
  seg_sample = 1;
  all_samples = 11 ∷ 12 ∷ 13 ∷ 14 ∷ 15 ∷ [];
  offset = 1;
  speech_start = none;
  speech_end = 6;
  speech_offline_start = none;
}

-- A segment from 1 ms on, of which the first pass has had a millisecond.
abbrev speaking : Audio ℕ
speaking = record silent { speech_start = some 2; speech_offline_start = some 1 }

silent-Keeps : Keeps six silent
silent-Keeps = record { kept = refl; placed = omega arith }

unfoldable speaking_streams : Streaming six (11 ∷ []) speaking
unfolding slice
speaking_streams = record {
  keeps = record { kept = refl; placed = omega arith };
  start_ms = 2;
  from_ms = 1;
  some_seg = omega arith;
  opened = refl;
  began = refl;
  after = omega arith;
  reach = omega arith;
  inside = omega arith;
  heard = omega arith;
  has_sent = refl;
}

on_segment_end-same_audio_example :
    Returns (Closes six (11 ∷ []) 1 2 5 speaking) (on_segment asr_two_pass 2 none (some 5) speaking)
unfolding speaking_streams
on_segment_end-same_audio_example =
    on_segment_end-same_audio six (11 ∷ []) 2 5 speaking speaking_streams (omega arith)
      (omega arith) (omega arith)

abbrev no_resample : ℕ → List ℕ → List ℕ
no_resample rate samples = samples

abbrev two_buffers : List (List ℕ)
two_buffers = (1 ∷ 0 ∷ 2 ∷ 0 ∷ []) ∷ (3 ∷ 0 ∷ []) ∷ []

stream_calls-Continues_example :
    Returns
      (Continues (six ++ all_loaded pos_part no_resample 1000 two_buffers 1000) (11 ∷ []) speaking)
      (stream_calls pos_part no_resample 1000 2 two_buffers speaking)
stream_calls-Continues_example =
    stream_calls-Continues pos_part no_resample 1000 six (11 ∷ []) 2 2 two_buffers speaking refl
      refl speaking_streams

on_segment_start-Continues_example :
    Returns
      (Continues six [] (record silent { speech_start = some 2; speech_offline_start = some 2 }))
      (on_segment asr_two_pass 2 (some 2) none silent)
on_segment_start-Continues_example =
    on_segment_start-Continues six 2 2 2 silent silent-Keeps (omega arith) refl (omega arith)
      (omega arith) (omega arith)

cut_rest-Cuts_example : Returns (Cuts six 2 5 silent) (cut_rest 4 2 3 2 0 silent)
cut_rest-Cuts_example =
    cut_rest-Cuts six 4 2 3 2 0 silent silent-Keeps (omega arith) (omega arith) (omega arith)
      (omega arith) (omega arith)

abbrev three_frames : Audio ℕ
three_frames = record silent {
  frame_queue = a_frame_of 2000 ∷ a_frame_of 3000 ∷ a_frame_of 70000 ∷ [];
}

fetch_dynamic_lem_example :
    Returns
      (λ r.
        (r.0 ++ r.1.frame_queue ≡ three_frames.frame_queue)
        × (0 < length r.0)
        × (length r.0 ≤ 3)
        × ((length r.0 ≡ 1) ⊎ (longest_of 0 r.0 * length r.0 ≤ max_acc (three_frames.seg_sample))))
      (fetch_dynamic 3 three_frames)
fetch_dynamic_lem_example = fetch_dynamic_lem 3 three_frames (omega arith) (omega arith)

-- A segment in two halves, a whole one, and one that stays open.
abbrev halves : List (ℤ × ℤ)
halves = (pos 1, negsuc 0) ∷ (negsuc 0, pos 3) ∷ (pos 4, pos 6) ∷ (pos 8, negsuc 0) ∷ []

join_segments-Reads_example :
    join_segments {A = ℕ} 16 none none halves ≡ some (frames_of 16 ((1, 3) ∷ (4, 6) ∷ []))
join_segments-Reads_example =
    join_segments-Reads 16 none halves ((1, 3) ∷ (4, 6) ∷ [])
      (opens (closes (omega arith) (whole (omega arith) (opens all_read))))
