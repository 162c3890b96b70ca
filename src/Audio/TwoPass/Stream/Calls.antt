-- ===== src/Audio/TwoPass/Stream/Calls.antt =====
-- Calls of `Audio::LoadPcmwavOnline` and `Audio::Split` (onnxruntime/src/audio.cpp) while a segment of
-- speech goes on, and the call that opens it.
use asr_2pass.Prelude.{
  ℕ, ◌+◌, ◌-◌, ◌*◌, ◌/◌, ◌≤◌, ◌<◌, ◌≡◌, refl, ap, ◌∙◌, sym, Bool, true, false, if◌then◌else◌, List,
  [], ◌∷◌, ◌++◌, take, map, length, length-append, drop, leb, ltb, ◌==◌, Option, none, some, ◌>>=◌,
  maybe, uncons, arith, subst, Returns, returns, Returns-bind, Returns-mono, le→leb, if-true,
}
use mathlib.Core.List.{append-nil, append_assoc}
use native.Mathlib.Nat.{add-mul, div-mul-le_self, mul-le-mul_right}
use asr_2pass.Prelude.Int.{ℤ}
use asr_2pass.Audio.{AudioFrame, Audio, new_frame, load_pcmwav, load_pcmwav_online, pcm_samples}
use asr_2pass.Audio.TwoPass.{
  asr_two_pass, on_no_segment, on_segment, on_segment_start, erase, erase_samples, hear, split,
  send_chunk,
}
use asr_2pass.Audio.TwoPass.Slices.{Keeps, slice, slice-more, drop-drop, drop-append}
use asr_2pass.Audio.TwoPass.Cut.{samples_of, samples_of-append}
use asr_2pass.Audio.TwoPass.Stream.{
  Streaming, Continues, no_frames, NoneIsFinal, send_chunk-Continues,
}

module _ {A : Type 0} where
  -- The same segment, with more received.
  more_heard :
      (received sent xs : List A) (a : Audio A)
      → Streaming received sent a
      → Streaming (received ++ xs) sent (record a {
        speech_data = xs;
        speech_len = length xs;
        frame_queue = [];
        all_samples = a.all_samples ++ xs;
        speech_end = a.speech_end + length xs / a.seg_sample;
      })
  more_heard received sent xs a s =
      let longer = length-append received xs in
      let heard = div-mul-le_self (length xs) a.seg_sample in
      let both = add-mul a.speech_end (length xs / a.seg_sample) a.seg_sample in
      record {
        keeps = record {
          kept =
              ap (λ t. t ++ xs) s.keeps.kept
              ∙ sym (drop-append a.offset received xs s.keeps.placed);
          placed = omega (arith, longer, s.keeps.placed);
        };
        start_ms = s.start_ms;
        from_ms = s.from_ms;
        some_seg = s.some_seg;
        opened = s.opened;
        began = s.began;
        after = s.after;
        reach = s.reach;
        inside = omega (arith, longer, s.inside);
        heard = omega (arith, longer, s.heard, heard, both);
        has_sent =
            s.has_sent
            ∙ sym (
                slice-more received xs (s.from_ms * a.seg_sample) (s.start_ms * a.seg_sample)
                  (mul-le-mul_right a.seg_sample s.after) s.inside);
      }

  erase-Streaming :
      (received sent : List A) (n : ℕ) (a : Audio A) (s : Streaming received sent a)
      → a.offset + n ≤ s.from_ms * a.seg_sample
      → Streaming received sent (erase n a)
  erase-Streaming received sent n a s h = record {
    keeps = record {
      kept = ap (drop n) s.keeps.kept ∙ drop-drop a.offset n received;
      placed = omega (arith, s.inside, mul-le-mul_right a.seg_sample s.after);
    };
    start_ms = s.start_ms;
    from_ms = s.from_ms;
    some_seg = s.some_seg;
    opened = s.opened;
    began = s.began;
    after = s.after;
    reach = h;
    inside = s.inside;
    heard = s.heard;
    has_sent = s.has_sent;
  }

  -- A segment goes on when samples before it are erased.
  erase_samples-Continues :
      (received sent : List A) (a b : Audio A)
      → Continues received sent a b
      → Continues received sent a (erase_samples b)
  unfolding erase_samples
  erase_samples-Continues received sent a b c =
      let s = c.streaming in
      let at = s.from_ms * b.seg_sample in
      let n = at - b.offset - b.dest_sample_rate * 2 in
      let fewer : Streaming received (sent ++ samples_of c.frames) (erase n b) =
        erase-Streaming received (sent ++ samples_of c.frames) n b s (omega (arith, s.reach)) in
      subst
        (λ o. Continues received sent a (
          maybe
            (if ltb (b.dest_sample_rate * 2) (length b.all_samples)
              then erase (length b.all_samples - b.dest_sample_rate * 2) b
              else b)
            (λ from_ms.
              if ltb (b.offset + b.dest_sample_rate * 2) (from_ms * b.seg_sample)
              then erase (from_ms * b.seg_sample - b.offset - b.dest_sample_rate * 2) b
              else b)
            o))
        (sym s.began)
        (either (ltb (b.offset + b.dest_sample_rate * 2) at) (erase n b) b
          (record {
            frames = c.frames;
            queued = c.queued;
            offline = c.offline;
            waiting = c.waiting;
            seg = c.seg;
            rate = c.rate;
            open_ended = c.open_ended;
            streaming = fewer;
          })
          c)
    where
      either :
          (t : Bool) (x y : Audio A)
          → Continues received sent a x
          → Continues received sent a y
          → Continues received sent a (if t then x else y)
      either true x y h k = h
      either false x y h k = k

  join_frames :
      (fs gs : List (AudioFrame A)) → NoneIsFinal fs → NoneIsFinal gs → NoneIsFinal (fs ++ gs)
  join_frames [] gs h k = k
  join_frames (f ∷ fs) gs (e, h) k = (e, join_frames fs gs h k)

  -- A call after a call that received less.
  then-Continues :
      (before received sent : List A) (a b d : Audio A) (c : Continues before sent a b)
      → Continues received (sent ++ samples_of c.frames) b d
      → Continues received sent a d
  then-Continues before received sent a b d c e = record {
    frames = c.frames ++ e.frames;
    queued =
        e.queued
        ∙ ap (λ q. q ++ e.frames) c.queued
        ∙ append_assoc a.asr_online_queue c.frames e.frames;
    offline = e.offline ∙ c.offline;
    waiting = e.waiting ∙ c.waiting;
    seg = e.seg ∙ c.seg;
    rate = e.rate ∙ c.rate;
    open_ended = join_frames c.frames e.frames c.open_ended e.open_ended;
    streaming =
        subst (λ t. Streaming received t d)
          (append_assoc sent (samples_of c.frames) (samples_of e.frames)
            ∙ ap (λ t. sent ++ t) (sym (samples_of-append c.frames e.frames)))
          e.streaming;
  }

  hear-front :
      (a : Audio A) (f : AudioFrame A)
      → a.frame_queue ≡ f ∷ []
      → f.len ≤ length a.speech_data
      → hear a
        ≡ some (record a { frame_queue = []; speech_end = a.speech_end + f.len / a.seg_sample })
  unfolding hear
  hear-front a f e h =
      ap
        (λ q. uncons q >>= λ (g, fs).
          if leb g.len (length a.speech_data)
          then some
              (record a { frame_queue = fs; speech_end = a.speech_end + g.len / a.seg_sample })
          else none)
        e
      ∙ if-true _ _ (le→leb f.len (length a.speech_data) h)

  on_no_segment-Continues :
      (received sent : List A) (chunk_len k : ℕ) (a : Audio A)
      → chunk_len ≡ k * a.seg_sample
      → Streaming received sent a
      → Returns (Continues received sent a) (on_no_segment asr_two_pass chunk_len a)
  unfolding on_no_segment
  on_no_segment-Continues received sent chunk_len k a whole s =
      subst
        (λ o.
          Returns (Continues received sent a)
            (maybe (some a) (λ start_ms. send_chunk asr_two_pass chunk_len start_ms a) o))
        (sym s.opened) (send_chunk-Continues received sent chunk_len k a whole s)

  -- A start for which the samples are kept, with audio heard to its place and behind: the call
  -- returns, and the segment is open, with what was sent at once as its beginning.
  pub on_segment_start-Continues :
      (received : List A) (chunk_len k start_ms : ℕ) (a : Audio A)
      → Keeps received a
      → 0 < a.seg_sample
      → chunk_len ≡ k * a.seg_sample
      → a.offset ≤ start_ms * a.seg_sample
      → start_ms * a.seg_sample ≤ length received
      → a.speech_end * a.seg_sample ≤ length received
      → Returns
          (Continues received []
            (record a { speech_start = some start_ms; speech_offline_start = some start_ms }))
          (on_segment asr_two_pass chunk_len (some start_ms) none a)
  unfolding on_segment on_segment_start slice
  on_segment_start-Continues received chunk_len k start_ms a keeps seg whole from inside heard =
      let at = start_ms * a.seg_sample in
      let nothing : 0 ≡ at - at = omega arith in
      send_chunk-Continues received [] chunk_len k
        (record a { speech_start = some start_ms; speech_offline_start = some start_ms }) whole
        (record {
          keeps = record { kept = keeps.kept; placed = keeps.placed };
          start_ms = start_ms;
          from_ms = start_ms;
          some_seg = seg;
          opened = refl;
          began = refl;
          after = omega arith;
          reach = from;
          inside = inside;
          heard = heard;
          has_sent = ap (λ n. take n (drop at received)) nothing;
        })

module _ {A : Type 0} (to_float : ℤ → A) (wav_resample : ℕ → List A → List A) (rate : ℕ) where
  -- The samples that a buffer is loaded as.
  abbrev pub loaded : List ℕ → ℕ → List A
  loaded buf dest =
      let raw = map to_float (pcm_samples buf) in
      if rate == dest then raw else wav_resample rate raw

  -- A buffer is loaded, and the detector finds no start and no end in it.
  unfoldable pub stream_call : ℕ → List ℕ → Audio A → Option (Audio A)
  unfolding load_pcmwav_online split
  stream_call chunk_len buf a =
      split asr_two_pass chunk_len [] (load_pcmwav_online to_float wav_resample buf rate a)

  unfoldable pub stream_calls : ℕ → List (List ℕ) → Audio A → Option (Audio A)
  unfolding stream_call
  stream_calls chunk_len [] a = some a
  stream_calls chunk_len (buf ∷ bufs) a =
      stream_call chunk_len buf a >>= λ b. stream_calls chunk_len bufs b

  -- The samples of all the buffers.
  abbrev pub all_loaded : List (List ℕ) → ℕ → List A
  all_loaded [] dest = []
  all_loaded (buf ∷ bufs) dest = loaded buf dest ++ all_loaded bufs dest

  stream_call-Continues :
      (received sent : List A) (chunk_len k : ℕ) (buf : List ℕ) (a : Audio A)
      → chunk_len ≡ k * a.seg_sample
      → a.frame_queue ≡ []
      → Streaming received sent a
      → Returns
          (Continues (received ++ loaded buf a.dest_sample_rate) sent a)
          (stream_call chunk_len buf a)
  unfolding stream_call load_pcmwav_online load_pcmwav split
  stream_call-Continues received sent chunk_len k buf a whole idle s =
      let xs = loaded buf a.dest_sample_rate in
      let b = load_pcmwav_online to_float wav_resample buf rate a in
      let front = ap (λ q. q ++ new_frame (length xs) ∷ []) idle in
      subst
        (λ o.
          Returns (Continues (received ++ xs) sent a)
            (o >>= λ h. on_no_segment asr_two_pass chunk_len h >>= λ c. some (erase_samples c)))
        (sym (hear-front b (new_frame (length xs)) front (omega arith)))
        (Returns-bind
          (on_no_segment-Continues (received ++ xs) sent chunk_len k _ whole
            (more_heard received sent xs a s))
          (λ c continues.
            let d = erase_samples-Continues (received ++ xs) sent _ c continues in
            returns (erase_samples c) (record {
              frames = d.frames;
              queued = d.queued;
              offline = d.offline;
              waiting = d.waiting ∙ sym idle;
              seg = d.seg;
              rate = d.rate;
              open_ended = d.open_ended;
              streaming = d.streaming;
            })))

  -- While a segment is open, any number of calls with no start and no end in them returns: the queue of
  -- the first pass grows by frames of which none is final, that of the second one stays, and the first
  -- pass has had the samples from the start of the segment on, each of them once and in their order;
  -- what is still to be sent is kept. The chunk is a whole number of milliseconds.
  pub stream_calls-Continues :
      (received sent : List A) (chunk_len k : ℕ) (bufs : List (List ℕ)) (a : Audio A)
      → chunk_len ≡ k * a.seg_sample
      → a.frame_queue ≡ []
      → Streaming received sent a
      → Returns
          (Continues (received ++ all_loaded bufs a.dest_sample_rate) sent a)
          (stream_calls chunk_len bufs a)
  unfolding stream_calls
  stream_calls-Continues received sent chunk_len k [] a whole idle s =
      returns a (
        subst (λ t. Continues t sent a a) (sym (append-nil received)) (no_frames received sent a s))
  stream_calls-Continues received sent chunk_len k (buf ∷ bufs) a whole idle s =
      Returns-bind (stream_call-Continues received sent chunk_len k buf a whole idle s) (λ b c.
        Returns-mono
          (stream_calls-Continues (received ++ loaded buf a.dest_sample_rate)
            (sent ++ samples_of c.frames) chunk_len k bufs b (whole ∙ ap (λ n. k * n) (sym c.seg))
            (c.waiting ∙ idle) c.streaming)
          (λ d e.
            let xs = loaded buf a.dest_sample_rate in
            then-Continues (received ++ xs) (received ++ (xs ++ all_loaded bufs a.dest_sample_rate))
              sent a b d c
              (subst (λ t. Continues t (sent ++ samples_of c.frames) b d)
                (ap (λ n. (received ++ xs) ++ all_loaded bufs n) c.rate
                  ∙ append_assoc received xs (all_loaded bufs a.dest_sample_rate))
                e)))
