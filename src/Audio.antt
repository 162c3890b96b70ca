-- ===== src/Audio.antt =====
-- `AudioFrame` and `Audio` (onnxruntime/src/audio.cpp, onnxruntime/include/audio.h): the samples, the
-- queues of frames, and the fetches. `A` is the type of samples, and `none` a run that reads outside
-- its data. Times are milliseconds and positions samples; a time of -1 is `none`.
use Prim.Native.Nat.{bit_or}
use asr_2pass.Prelude.{
  ℕ, zero, suc, ◌+◌, ◌-◌, ◌*◌, ◌/◌, ◌^◌, Bool, true, false, ◌||◌, if◌then◌else◌, List, [], ◌∷◌,
  ◌++◌, map, length, take, drop, leb, ltb, ◌==◌, min, max, Option, none, some, ◌>>=◌, uncons,
}
use asr_2pass.Prelude.Int.{ℤ, pos, negsuc, neg_ℤ}
pub mod TwoPass
pub mod Batches
pub mod CutSplit

-- `end` is written and never read, and `data` is empty where the C++ pointer is null.
pub record AudioFrame (A : Type 0) : Type 0 where
  pub start : ℕ
  pub len : ℕ
  pub is_final : Bool
  pub frame_data : List A
  pub global_start : ℕ
  pub global_end : ℕ

abbrev pub new_frame : {A : Type 0} → ℕ → AudioFrame A
new_frame len = record {
  start = 0;
  len = len;
  is_final = false;
  frame_data = [];
  global_start = 0;
  global_end = 0;
}

pub record Audio (A : Type 0) : Type 0 where
  pub speech_data : List A
  pub speech_len : ℕ
  pub frame_queue : List (AudioFrame A)
  pub asr_online_queue : List (AudioFrame A)
  pub asr_offline_queue : List (AudioFrame A)
  pub dest_sample_rate : ℕ
  pub seg_sample : ℕ
  pub all_samples : List A
  pub offset : ℕ
  pub speech_start : Option ℕ
  pub speech_end : ℕ
  pub speech_offline_start : Option ℕ

unfoldable pub new_audio : {A : Type 0} → ℕ → Audio A
new_audio model_sample_rate = record {
  speech_data = [];
  speech_len = 0;
  frame_queue = [];
  asr_online_queue = [];
  asr_offline_queue = [];
  dest_sample_rate = model_sample_rate;
  seg_sample = model_sample_rate / 1000;
  all_samples = [];
  offset = 0;
  speech_start = none;
  speech_end = 0;
  speech_offline_start = none;
}

unfoldable pub reset_index : {A : Type 0} → Audio A → Audio A
reset_index a = record a {
  speech_start = none;
  speech_end = 0;
  speech_offline_start = none;
  offset = 0;
  all_samples = [];
}

-- `(int16_t)((byte_buf[2 * i + 1] << 8) | byte_buf[2 * i])`
unfoldable pub int16 : ℕ → ℕ → ℤ
int16 low high =
    let v = bit_or (high * 2 ^ 8) low in if ltb v (2 ^ 15) then pos v else neg_ℤ (2 ^ 16 - v)

-- The samples of a buffer; an odd byte at the end is left.
unfoldable pub pcm_samples : List ℕ → List ℤ
unfolding int16
pcm_samples [] = []
pcm_samples (low ∷ []) = []
pcm_samples (low ∷ high ∷ buf) = int16 low high ∷ pcm_samples buf

-- What the loads call: the division by the scale, and the resampling from another rate.
module _ {A : Type 0} (to_float : ℤ → A) (wav_resample : ℕ → List A → List A) where
  -- `LoadPcmwav`, of a buffer
  unfoldable pub load_pcmwav : List ℕ → ℕ → Audio A → Audio A
  unfolding pcm_samples
  load_pcmwav buf sampling_rate a =
      let raw = map to_float (pcm_samples buf) in
      let samples =
        if sampling_rate == a.dest_sample_rate then raw else wav_resample sampling_rate raw in
      record a {
        speech_data = samples;
        speech_len = length samples;
        frame_queue = a.frame_queue ++ new_frame (length samples) ∷ [];
      }

  -- `LoadPcmwavOnline`
  unfoldable pub load_pcmwav_online : List ℕ → ℕ → Audio A → Audio A
  unfolding load_pcmwav
  load_pcmwav_online buf sampling_rate a =
      let b = load_pcmwav buf sampling_rate a in
      record b { all_samples = b.all_samples ++ b.speech_data }

module _ {A : Type 0} where
  -- `FetchTpass` and `FetchChunck`; `none` is the return of 0.
  unfoldable pub fetch_tpass : Audio A → Option (AudioFrame A × Audio A)
  fetch_tpass a =
      uncons a.asr_offline_queue >>= λ (f, fs). some (f, record a { asr_offline_queue = fs })

  unfoldable pub fetch_chunck : Audio A → Option (AudioFrame A × Audio A)
  fetch_chunck a =
      uncons a.asr_online_queue >>= λ (f, fs). some (f, record a { asr_online_queue = fs })

  -- `memcpy` of `len` samples from the position `at`, of which `all_samples` has those from `offset` on.
  unfoldable pub copy : List A → ℕ → ℕ → ℕ → Option (List A)
  copy all_samples offset at len =
      if leb offset at
      then (if leb (at - offset + len) (length all_samples)
          then some (take len (drop (at - offset) all_samples))
          else none)
      else none
