-- ===== src/Audio/TwoPass.antt =====
-- `Audio::Split` of the two passes (onnxruntime/src/audio.cpp): the segments that the voice detector
-- returned are cut out of the samples, in chunks for the online pass and whole for the offline pass.
use asr_2pass.Prelude.{
  ℕ, zero, suc, ◌+◌, ◌-◌, ◌*◌, ◌/◌, Bool, true, false, ◌||◌, not, if◌then◌else◌, List, [], ◌∷◌,
  ◌++◌, length, take, drop, leb, ltb, min, Option, none, some, ◌>>=◌, maybe, uncons,
}
use asr_2pass.Prelude.Int.{ℤ, pos, negsuc}
use asr_2pass.Audio.{AudioFrame, Audio, new_frame, copy}
pub mod Slices
pub mod Cut
pub mod Stream

pub data AsrType : Type 0 where
  asr_offline asr_online asr_two_pass : AsrType

-- `asr_mode != ASR_OFFLINE` and `asr_mode != ASR_ONLINE`
abbrev pub runs_online : AsrType → Bool
runs_online asr_offline = false
runs_online asr_online = true
runs_online asr_two_pass = true

abbrev pub runs_offline : AsrType → Bool
runs_offline asr_offline = true
runs_offline asr_online = false
runs_offline asr_two_pass = true

-- A time of the voice detector, which is -1 or not negative.
abbrev pub time : ℤ → Option ℕ
time (pos ms) = some ms
time (negsuc n) = none

-- `if(speech_start == -1 || speech_offline_start == -1) speech_start = 0`
abbrev pub start_or_0 : Option ℕ → Option ℕ → ℕ
start_or_0 (some start_ms) (some from_ms) = start_ms
start_or_0 _ _ = 0

module _ {A : Type 0} where
  abbrev pub push_online : AudioFrame A → Audio A → Audio A
  push_online f a = record a { asr_online_queue = a.asr_online_queue ++ f ∷ [] }

  abbrev pub push_offline : AudioFrame A → Audio A → Audio A
  push_offline f a = record a { asr_offline_queue = a.asr_offline_queue ++ f ∷ [] }

  -- A frame of `len` samples from the position `at`.
  unfoldable pub cut_frame : Audio A → ℕ → ℕ → Bool → ℕ → ℕ → Option (AudioFrame A)
  unfolding copy
  cut_frame a at len is_final global_start global_end =
      copy a.all_samples a.offset at len >>= λ samples. some (record (new_frame len) {
        is_final = is_final;
        frame_data = samples;
        global_start = global_start;
        global_end = global_end;
      })

  -- The chunk that is sent while a segment is open, if there are samples for a whole one.
  unfoldable pub send_chunk : AsrType → ℕ → ℕ → Audio A → Option (Audio A)
  unfolding cut_frame
  send_chunk mode chunk_len start_ms a =
      let seg = a.seg_sample in
      let next_ms = start_ms + chunk_len / seg in
      if runs_online mode
      then (if leb (start_ms * seg + chunk_len) (a.speech_end * seg)
          then (cut_frame a (start_ms * seg) chunk_len false start_ms next_ms >>= λ f.
              some (record (push_online f a) { speech_start = some next_ms }))
          else some a)
      else some a

  -- `if(vad_segments.size() == 0)`
  unfoldable pub on_no_segment : AsrType → ℕ → Audio A → Option (Audio A)
  unfolding send_chunk
  on_no_segment mode chunk_len a =
      maybe (some a) (λ start_ms. send_chunk mode chunk_len start_ms a) a.speech_start

  -- [1, 100]: a frame whose end is before its start has no size that could be allocated.
  unfoldable pub on_whole_segment : AsrType → ℕ → ℕ → Audio A → Option (Audio A)
  unfolding cut_frame
  on_whole_segment mode start_ms end_ms a =
      let seg = a.seg_sample in
      let cut =
        if leb (start_ms * seg) (end_ms * seg)
        then cut_frame a (start_ms * seg) (end_ms * seg - start_ms * seg) true start_ms end_ms
        else none in
      cut >>= λ f.
      let a1 = if runs_online mode then push_online f a else a in
      let a2 = if runs_offline mode then push_offline f a1 else a1 in
      some (record a2 { speech_start = none; speech_offline_start = none })

  -- [70, -1]
  unfoldable pub on_segment_start : AsrType → ℕ → ℕ → Audio A → Option (Audio A)
  unfolding send_chunk
  on_segment_start mode chunk_len start_ms a =
      send_chunk mode chunk_len start_ms
        (record a { speech_start = some start_ms; speech_offline_start = some start_ms })

  -- The loop that cuts the rest of a segment; a chunk that would leave one sample takes it too.
  unfoldable pub cut_rest : ℕ → ℕ → ℕ → ℕ → ℕ → Audio A → Option (Audio A)
  unfolding cut_frame
  cut_rest zero start buff_len step sample_offset a = none
  cut_rest (suc fuel) start buff_len step sample_offset a =
      let last = leb (buff_len - 1) (sample_offset + step) in
      let len = if last then buff_len - sample_offset else step in
      let from = (start + sample_offset) / a.seg_sample in
      let rest =
        cut_frame a (start + sample_offset) len last from (from + len / a.seg_sample) >>= λ f.
        cut_rest fuel start buff_len len (sample_offset + min len (buff_len - sample_offset))
          (push_online f a) in
      if ltb sample_offset buff_len then rest else some a

  -- [-1, 100], the second pass: from where the segment started.
  unfoldable pub close_offline : ℕ → Option ℕ → Audio A → Option (Audio A)
  unfolding cut_frame
  close_offline end_ms none a = none
  close_offline end_ms (some from_ms) a =
      let seg = a.seg_sample in
      let cut =
        if leb (from_ms * seg) (end_ms * seg)
        then cut_frame a (from_ms * seg) (end_ms * seg - from_ms * seg) true from_ms end_ms
        else none in
      cut >>= λ f. some (push_offline f a)

  -- [-1, 100], the first pass: what no chunk has had.
  unfoldable pub close_online : ℕ → ℕ → ℕ → Audio A → Option (Audio A)
  unfolding cut_rest
  close_online chunk_len start_ms end_ms a =
      let seg = a.seg_sample in
      let start = start_ms * seg in
      let end = end_ms * seg in
      if ltb start end
      then cut_rest (suc (end - start)) start (end - start) chunk_len 0 a
      else some (
          push_online
            (record (new_frame 0) { is_final = true; global_start = start_ms; global_end = end_ms })
            a)

  -- [-1, 100]. A segment with no start is put at 0 for the first pass only: the second one then reads
  -- from a negative position.
  unfoldable pub on_segment_end : AsrType → ℕ → ℕ → Audio A → Option (Audio A)
  unfolding close_offline close_online
  on_segment_end mode chunk_len end_ms a =
      let start_ms = start_or_0 a.speech_start a.speech_offline_start in
      (if runs_offline mode then close_offline end_ms a.speech_offline_start a else some a)
      >>= λ a1.
          (if runs_online mode then close_online chunk_len start_ms end_ms a1 else some a1)
          >>= λ a2. some (record a2 { speech_start = none; speech_offline_start = none })

  -- A segment of the detector.
  unfoldable pub on_segment : AsrType → ℕ → Option ℕ → Option ℕ → Audio A → Option (Audio A)
  unfolding on_whole_segment on_segment_start on_segment_end
  on_segment mode chunk_len (some s) (some e) a = on_whole_segment mode s e a
  on_segment mode chunk_len (some s) none a = on_segment_start mode chunk_len s a
  on_segment mode chunk_len none (some e) a = on_segment_end mode chunk_len e a
  on_segment mode chunk_len none none a = some a

  abbrev pub on_segments : AsrType → ℕ → List (ℤ × ℤ) → Audio A → Option (Audio A)
  on_segments mode chunk_len [] a = some a
  on_segments mode chunk_len ((s, e) ∷ segments) a =
      on_segment mode chunk_len (time s) (time e) a >>= λ b. on_segments mode chunk_len segments b

  -- The samples of which `erase_num` are no longer needed.
  abbrev pub erase : ℕ → Audio A → Audio A
  erase erase_num a = record a {
    all_samples = drop erase_num a.all_samples;
    offset = a.offset + erase_num;
  }

  -- Two seconds are kept, or two seconds before the segment that is open.
  unfoldable pub erase_samples : Audio A → Audio A
  erase_samples a =
      let vector_cache = a.dest_sample_rate * 2 in
      maybe
        (if ltb vector_cache (length a.all_samples)
          then erase (length a.all_samples - vector_cache) a
          else a)
        (λ from_ms.
          let at = from_ms * a.seg_sample in
          if ltb (a.offset + vector_cache) at then erase (at - a.offset - vector_cache) a else a)
        a.speech_offline_start

  -- The frame at the front is taken off, and its length is heard.
  unfoldable pub hear : Audio A → Option (Audio A)
  hear a = uncons a.frame_queue >>= λ (f, fs).
      if leb f.len (length a.speech_data)
      then some (record a { frame_queue = fs; speech_end = a.speech_end + f.len / a.seg_sample })
      else none

  -- `Split`, with what `vad_obj->Infer` returned.
  unfoldable pub split : AsrType → ℕ → List (ℤ × ℤ) → Audio A → Option (Audio A)
  unfolding hear on_no_segment on_segment erase_samples
  split mode chunk_len [] a =
      hear a >>= λ b. on_no_segment mode chunk_len b >>= λ c. some (erase_samples c)
  split mode chunk_len (s ∷ segments) a =
      hear a >>= λ b. on_segments mode chunk_len (s ∷ segments) b >>= λ c. some (erase_samples c)
