-- ===== src/Vad/Brackets.antt =====
-- What the loop at the end of `operator()` (onnxruntime/src/e2e-vad.h) puts out online, and what a model
-- carries over from one utterance to the next.
use asr_2pass.Prelude.{
  ℕ, ◌+◌, ◌<◌, ◌≡◌, refl, Bool, true, false, Option, none, some, List, [], ◌∷◌, arith, length,
  ◌>>=◌, zero, suc, ◌*◌, ◌/◌, Returns, returns, Returns-bind, Returns-if, ltb, leb, ◌&&◌, drop,
  length-drop,
}
use asr_2pass.Prelude.Int.{ℤ, pos, negsuc}
use asr_2pass.Vad.Model.{Floats, E2EVadModel, SpeechBuf, all_reset_detection, reset_detection}
use asr_2pass.Vad.Frames.{compute_decibel, count_audio, decibels}
use asr_2pass.Vad.Emit.{emit_online}

-- The reader holds `true` between segments. (start, end) is whole, (start, -1) opens, (-1, end)
-- closes; anything else is out of turn.
abbrev pub read_segment : Bool → ℤ × ℤ → Option Bool
read_segment true (pos s, pos e) = some true
read_segment true (pos s, negsuc e) = some false
read_segment false (negsuc s, pos e) = some true
read_segment _ _ = none

abbrev pub read_all : Bool → List (ℤ × ℤ) → Option Bool
read_all closed [] = some closed
read_all closed (x ∷ xs) = read_segment closed x >>= λ c. read_all c xs

abbrev pub AllTimed : List SpeechBuf → Type 0
AllTimed [] = Unit {0}
AllTimed (b ∷ bs) = ((s : ℕ) × (b.start_ms ≡ pos s)) × ((e : ℕ) × (b.end_ms ≡ pos e)) × AllTimed bs

-- Whatever the buffers with times from 0 on, the segments that the loop of one online call puts out are
-- starts and ends in turn for a reader who begins where `next_seg` stands before the loop, and leave the
-- reader where `next_seg` stands behind it. What a call does after the loop, as the reset of a final
-- one, is not in this.
pub emit_online-read_all :
    (next_seg : Bool) (offset : ℕ) (bufs : List SpeechBuf)
    → AllTimed bufs
    → read_all next_seg (emit_online next_seg offset bufs).segments
      ≡ some (emit_online next_seg offset bufs).next_seg
unfolding emit_online
emit_online-read_all next_seg offset [] t = refl
emit_online-read_all true offset (b ∷ bs) ((s, es), (e, ee), t) = ground (
  arith,
  emit_online-read_all true offset bs t,
  emit_online-read_all true (offset + 1) bs t,
  emit_online-read_all false offset bs t,
)
emit_online-read_all false offset (b ∷ bs) ((s, es), (e, ee), t) =
    ground
      (arith, emit_online-read_all false offset bs t, emit_online-read_all true (offset + 1) bs t)

count_audio-heard :
    (F : Floats) (size : ℕ) (m : E2EVadModel F.Carrier)
    → 0 < m.data_buf_all_size
    → ((count_audio F size m).data_buf_size ≡ m.data_buf_size)
      × ((count_audio F size m).data_buf_all_size ≡ m.data_buf_all_size + size)
unfolding count_audio
count_audio-heard F size m heard = (ground arith, ground arith)

decibels-Returns :
    (F : Floats) (fuel len shift : ℕ) (rest : List F.Carrier)
    → 0 < shift
    → length rest < fuel
    → Returns (λ levels. Unit {0}) (decibels F fuel len shift rest)
unfolding decibels
decibels-Returns F zero len shift rest some_shift enough = absurd (omega arith)
decibels-Returns F (suc fuel) len shift rest some_shift enough =
    Returns-if (ltb 0 len && leb len (length rest))
      (λ more.
        let shorter = length-drop shift rest in
        Returns-bind
          (decibels-Returns F fuel len shift (drop shift rest) some_shift (ground (arith, shorter)))
          (λ levels u. returns _ tt))
      (λ over. returns [] tt)

-- `AllResetDetection` leaves the two fields that count audio: a model that has seen audio is reset, and
-- the first chunk of the next utterance is taken in, with frames of one sample at least. That returns,
-- and then `data_buf_size` still is what the last utterance left, and not the size of the chunk, and
-- `data_buf_all_size` has both utterances in it, although the frames are counted from 0 again.
pub stale_sizes :
    (F : Floats) (m : E2EVadModel F.Carrier) (chunk : List F.Carrier)
    → 0 < m.data_buf_all_size
    → 0 < m.vad_opts.frame_in_ms * m.vad_opts.sample_rate / 1000
    → Returns
        (λ m1.
          (m1.data_buf_size ≡ m.data_buf_size)
          × (m1.data_buf_all_size ≡ m.data_buf_all_size + length chunk)
          × (m1.data_buf_start_frame ≡ 0))
        (compute_decibel F (record (all_reset_detection F m) { waveform = chunk }))
unfolding compute_decibel all_reset_detection reset_detection count_audio
stale_sizes F m chunk heard shift =
    Returns-bind
      (decibels-Returns F (suc (length chunk))
        (m.vad_opts.frame_length_ms * m.vad_opts.sample_rate / 1000)
        (m.vad_opts.frame_in_ms * m.vad_opts.sample_rate / 1000) chunk shift (omega arith))
      (λ levels u.
        let (size, all) =
          count_audio-heard F (length chunk) (record (all_reset_detection F m) { waveform = chunk })
            heard in
        returns _ (size, all, refl))
