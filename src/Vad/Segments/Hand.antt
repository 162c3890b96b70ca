-- ===== src/Vad/Segments/Hand.antt =====
-- One frame handed over in its turn keeps the segments in order (onnxruntime/src/e2e-vad.h).
use asr_2pass.Prelude.{
  ℕ, suc, ◌+◌, ◌*◌, ◌≤◌, ◌<◌, ◌≡◌, refl, ap, ◌∙◌, Bool, true, false, Option, some, List, [], ◌∷◌,
  ◌++◌, arith, ◌⊎◌, inl, inr,
}
use asr_2pass.Prelude.Int.{ℤ, pos, ◌+ℤ◌, ◌*ℤ◌, ◌≤ℤ◌}
use asr_2pass.Vad.Model.{E2EVadModel, SpeechBuf, Message}
use asr_2pass.Vad.Buffer.{
  frame_samples, back_ends_at, update_back, pop_data_to_output_buf, hand_over,
}
use asr_2pass.Vad.Segments.Layout.{
  alarms, Laid, Laid-push, Laid-extend, update_back-push, back_ends_at-update_back,
}
use asr_2pass.Vad.Segments.Pop.{
  Supplied, handed, start_segment, pop_data_buf_till_frame_lem, pop_data_to_output_buf_run,
  hand_over_lem, hand_over_calm, extended, opened, opened_ends_at,
}

pub pos-*ℤ : (a b : ℕ) → pos a *ℤ pos b ≡ pos (a * b)
unfolding ◌*ℤ◌
pos-*ℤ a b = ground arith

pub pos_next-*ℤ : (a b : ℕ) → (pos a +ℤ pos 1) *ℤ pos b ≡ pos (suc a * b)
unfolding ◌*ℤ◌ ◌+ℤ◌
pos_next-*ℤ a b = ground arith

pushed-Laid :
    (f i hi : ℕ) (first last : Bool) (segs : List SpeechBuf)
    → hi ≤ i
    → Laid f 0 segs hi
    → Laid f 0
        (update_back
          (extended ((pos i +ℤ pos 1) *ℤ pos f) first last)
          (segs ++ start_segment (pos i *ℤ pos f) ∷ []))
        (suc i)
pushed-Laid f i hi first last segs le laid =
    let at = pos i *ℤ pos f in
    let stop = (pos i +ℤ pos 1) *ℤ pos f in
    rw (update_back-push (extended stop first last) segs (start_segment at))
      (Laid-push _ i le (pos-*ℤ i f) (pos_next-*ℤ i f) laid)

handed-Laid :
    (f i hi : ℕ) (first last : Bool) (segs : List SpeechBuf)
    → 0 < f
    → hi ≤ i
    → Laid f 0 segs hi
    → (first ≡ true) ⊎ (back_ends_at segs (pos i *ℤ pos f) ≡ true)
    → Laid f 0 (handed (pos i *ℤ pos f) ((pos i +ℤ pos 1) *ℤ pos f) first last segs) (suc i)
handed-Laid f i hi first last [] h le laid order = pushed-Laid f i hi first last [] le laid
handed-Laid f i hi true last (x ∷ xs) h le laid order =
    pushed-Laid f i hi true last (x ∷ xs) le laid
handed-Laid f i hi false last (x ∷ xs) h le laid (inl e) = absurd (cc)
handed-Laid f i hi false last (x ∷ xs) h le laid (inr e) =
    Laid-extend (extended ((pos i +ℤ pos 1) *ℤ pos f) false last) i h (λ seg. refl)
      (λ seg. pos_next-*ℤ i f) (rw (pos-*ℤ i f) at e) laid

handed_ends :
    (f i : ℕ) (first last : Bool) (segs : List SpeechBuf)
    → (first ≡ true) ⊎ (back_ends_at segs (pos i *ℤ pos f) ≡ true)
    → back_ends_at
        (handed (pos i *ℤ pos f) ((pos i +ℤ pos 1) *ℤ pos f) first last segs)
        (pos (suc i * f))
      ≡ true
handed_ends f i first last segs order =
    back_ends_at-update_back _ (opened (pos i *ℤ pos f) first segs) _ (pos i *ℤ pos f)
      (λ seg. pos_next-*ℤ i f) (opened_ends_at (pos i *ℤ pos f) first segs order)

module _ {X : Type 0} where
  -- The model `m` with its output brought up to the frame `i`.
  abbrev pub brought : E2EVadModel X → ℕ → ℤ → List SpeechBuf → List Message → E2EVadModel X
  brought m i size segs lines = record m {
    data_buf_start_frame = suc i;
    data_buf_size = size;
    output_data_buf = segs;
    stdout = lines;
  }

  -- The run has brought `m` up to frame `i` with its segments in order and no alarm printed.
  pub record Brings (m : E2EVadModel X) (i : ℕ) (run : Option (E2EVadModel X)) : Type 0 where
    pub size : ℤ
    pub segs : List SpeechBuf
    pub lines : List Message
    pub result : run ≡ some (brought m i size segs lines)
    pub enough : pos (frame_samples m) ≤ℤ size
    pub calm : alarms lines ≡ alarms m.stdout
    pub laid : Laid m.vad_opts.frame_in_ms 0 segs (suc i)
    pub ends : back_ends_at segs (pos (suc i * m.vad_opts.frame_in_ms)) ≡ true

  pub pop_data_to_output_buf-Brings :
      (frames i : ℕ) (first last sent : Bool) (m : E2EVadModel X)
      → Supplied frames m
      → i < frames
      → m.data_buf_start_frame ≤ i
      → 0 < m.vad_opts.frame_in_ms
      → Laid m.vad_opts.frame_in_ms 0 m.output_data_buf m.data_buf_start_frame
      → (first ≡ true)
        ⊎ (back_ends_at m.output_data_buf (pos i *ℤ pos m.vad_opts.frame_in_ms) ≡ true)
      → Brings m i (pop_data_to_output_buf (pos i) 1 first last sent m)
  pop_data_to_output_buf-Brings frames i first last sent m s h late f_pos laid order =
      let (z, run, enough) = pop_data_buf_till_frame_lem frames i i m s h (omega arith) in
      let m1 = record m { data_buf_start_frame = i; data_buf_size = z } in
      let f = m.vad_opts.frame_in_ms in
      let next : i + 1 ≡ suc i = omega arith in
      let segs = handed (pos i *ℤ pos f) ((pos i +ℤ pos 1) *ℤ pos f) first last m.output_data_buf in
      let lines = (hand_over (pos i) 1 first last sent m1).stdout in
      record {
        size = z;
        segs = segs;
        lines = lines;
        result =
            pop_data_to_output_buf_run (pos i) first last sent m m1 run
            ∙ ap some (hand_over_lem (pos i) first last sent m1)
            ∙ ap
                (λ t. some (record m {
                  data_buf_start_frame = t;
                  data_buf_size = z;
                  output_data_buf = segs;
                  stdout = lines;
                }))
                next;
        enough = enough;
        calm = hand_over_calm (pos i) first last sent m1 order;
        laid =
            handed-Laid f i m.data_buf_start_frame first last m.output_data_buf f_pos late laid
              order;
        ends = handed_ends f i first last m.output_data_buf order;
      }
