-- ===== src/Vad/Segments/Pop.antt =====
-- What `PopDataBufTillFrame` and `PopDataToOutputBuf` do while there is audio for the frame asked
-- for (onnxruntime/src/e2e-vad.h).
use asr_2pass.Prelude.{
  ℕ, zero, suc, ◌+◌, ◌-◌, ◌*◌, ◌≤◌, ◌<◌, ◌≡◌, refl, ap, ◌∙◌, Bool, true, false, not, ◌||◌,
  if◌then◌else◌, some, List, [], ◌∷◌, ◌++◌, arith, ◌⊎◌, inl, inr, max, if-true, le→leb,
}
use native.Mathlib.Nat.{le_trans}
use native.Mathlib.Decide.{dec_le}
use asr_2pass.Prelude.Int.{ℤ, pos, ◌+ℤ◌, ◌-ℤ◌, ◌*ℤ◌, ◌≤ℤ◌, pos_part, sub_ℕ}
use asr_2pass.Vad.Model.{
  E2EVadModel, SpeechBuf, empty_buf, Message, error_in_calling_pop, warning, data_to_pop_is_bigger,
  something_wrong,
}
use asr_2pass.Vad.Buffer.{
  pop_rounds, pop_data_buf_till_frame, frame_samples, back_ends_at, update_back,
  pop_data_to_output_buf, hand_over, is_empty,
}
use asr_2pass.Vad.Segments.Layout.{alarms, alarms-append, back_ends_at-push, eq_ℤ_refl}

pub Vad : Type 0 → Type 0
Vad = E2EVadModel

times-suc-suc : (d k f : ℕ) → (d + suc (suc k)) * f ≡ (d + 1) * f + f + k * f
times-suc-suc d k f = omega arith

room : (d k f all : ℕ) → (d + suc (suc k)) * f ≤ all → pos f ≤ℤ sub_ℕ all ((d + 1) * f)
room d k f all h = ground (arith, times-suc-suc d k f)

mul_mono : (a b f : ℕ) → a ≤ b → a * f ≤ b * f
mul_mono a b f h = grind arith

pub pos_part-sub : (a b : ℕ) → pos_part (pos a -ℤ pos b) ≡ a - b
unfolding ◌-ℤ◌
pos_part-sub a b = ground arith

module _ {X : Type 0} where
  -- The audio of `frames` frames has come in, and of the frame that is next in the buffer.
  pub record Supplied (frames : ℕ) (m : E2EVadModel X) : Type 0 where
    pub first : pos (frame_samples m) ≤ℤ m.data_buf_size
    pub all : frames * frame_samples m ≤ m.data_buf_all_size

  -- The loop comes to its end.
  pub pop_rounds_lem :
      (f k d : ℕ) (m : E2EVadModel X)
      → pos f ≤ℤ m.data_buf_size
      → (m.data_buf_start_frame + suc k) * f ≤ m.data_buf_all_size
      → d ≡ m.data_buf_start_frame + k
      → (z : ℤ) × (pop_rounds f k m
          ≡ some (record m { data_buf_start_frame = d; data_buf_size = z }))
        × (pos f ≤ℤ z)
  unfolding pop_rounds
  pop_rounds_lem f zero d m h all e =
      let same : m.data_buf_start_frame ≡ d = omega arith in
      (m.data_buf_size, ap (λ t. some (record m { data_buf_start_frame = t })) same, h)
  pop_rounds_lem f (suc k) d m h all e =
      let start = m.data_buf_start_frame + 1 in
      let (z, run, enough) =
        pop_rounds_lem f k d
          (record m {
            data_buf_start_frame = start;
            data_buf_size = sub_ℕ m.data_buf_all_size (start * f);
          })
          (room m.data_buf_start_frame k f m.data_buf_all_size all) (omega arith) (omega arith) in
      (z, if-true _ _ (le→leb _ _ h) ∙ run, enough)

  -- `PopDataBufTillFrame` returns, with the buffer at the frame asked for or where it was.
  pub pop_data_buf_till_frame_lem :
      (frames i d : ℕ) (m : E2EVadModel X)
      → Supplied frames m
      → i < frames
      → d ≡ max m.data_buf_start_frame i
      → (z : ℤ) × (pop_data_buf_till_frame (pos i) m
          ≡ some (record m { data_buf_start_frame = d; data_buf_size = z }))
        × (pos (frame_samples m) ≤ℤ z)
  unfolding pop_data_buf_till_frame
  pop_data_buf_till_frame_lem frames i d m s h e =
      let f = frame_samples m in
      let start = m.data_buf_start_frame in
      let rounds : pos_part (pos i -ℤ pos start) ≡ i - start = pos_part-sub i start in
      elim (dec_le i start) [
        | yes p ↦
            let none_left : i - start ≡ 0 = omega arith in
            let same : start ≡ d = omega arith in
            (
              m.data_buf_size,
              ap (λ k. pop_rounds f k m) (rounds ∙ none_left)
                  ∙ (unfold pop_rounds in
                      ap (λ t. some (record m { data_buf_start_frame = t })) same),
              s.first,
            )
        | no p ↦
            let here : start + suc (i - start) ≡ suc i = omega arith in
            let (z, run, enough) =
              pop_rounds_lem f (i - start) d m s.first
                (rw here (le_trans (mul_mono (suc i) frames f h) s.all)) (omega arith) in
            (z, ap (λ k. pop_rounds f k m) rounds ∙ run, enough)
      ]

abbrev pub start_segment : ℤ → SpeechBuf
start_segment at = record empty_buf { start_ms = at; end_ms = at }

abbrev pub opened : ℤ → Bool → List SpeechBuf → List SpeechBuf
opened at first segs = if is_empty segs || first then segs ++ start_segment at ∷ [] else segs

abbrev pub extended : ℤ → Bool → Bool → SpeechBuf → SpeechBuf
extended stop first last seg = record seg {
  doa = 0;
  end_ms = stop;
  contain_seg_start_point = first || seg.contain_seg_start_point;
  contain_seg_end_point = last || seg.contain_seg_end_point;
}

-- The segments after one frame has been handed over.
abbrev pub handed : ℤ → ℤ → Bool → Bool → List SpeechBuf → List SpeechBuf
handed at stop first last segs = update_back (extended stop first last) (opened at first segs)

abbrev noted : Bool → Message → List Message → List Message
noted b line lines = if b then lines ++ line ∷ [] else lines

four_notes :
    (b1 b2 b3 b4 : Bool) (lines : List Message)
    → b2 ≡ false
    → b4 ≡ false
    → alarms (
        noted b4 something_wrong
          (noted b3 data_to_pop_is_bigger (noted b2 warning (noted b1 error_in_calling_pop lines))))
      ≡ alarms lines
four_notes b1 true b3 b4 lines h k = absurd (cc)
four_notes b1 false b3 true lines h k = absurd (cc)
four_notes true false true false lines h k = omega (
  arith,
  alarms-append (lines ++ error_in_calling_pop ∷ []) data_to_pop_is_bigger,
  alarms-append lines error_in_calling_pop,
)
four_notes true false false false lines h k =
    omega (arith, alarms-append lines error_in_calling_pop)
four_notes false false true false lines h k =
    omega (arith, alarms-append lines data_to_pop_is_bigger)
four_notes false false false false lines h k = refl

back_ends_at_started :
    (segs : List SpeechBuf) (at : ℤ) → back_ends_at (segs ++ start_segment at ∷ []) at ≡ true
back_ends_at_started segs at = back_ends_at-push segs (start_segment at) at ∙ eq_ℤ_refl at

pub opened_ends_at :
    (at : ℤ) (first : Bool) (segs : List SpeechBuf)
    → (first ≡ true) ⊎ (back_ends_at segs at ≡ true)
    → back_ends_at (opened at first segs) at ≡ true
opened_ends_at at first [] h = back_ends_at_started [] at
opened_ends_at at true (x ∷ xs) h = back_ends_at_started (x ∷ xs) at
opened_ends_at at false (x ∷ xs) (inl h) = absurd (cc)
opened_ends_at at false (x ∷ xs) (inr h) = h

module _ {X : Type 0} where
  pub hand_over_lem :
      (i : ℤ) (first last sent : Bool) (m : E2EVadModel X)
      → let at = i *ℤ pos m.vad_opts.frame_in_ms in
        let stop = (i +ℤ pos 1) *ℤ pos m.vad_opts.frame_in_ms in
        hand_over i 1 first last sent m ≡ record m {
          data_buf_start_frame = m.data_buf_start_frame + 1;
          output_data_buf = handed at stop first last m.output_data_buf;
          stdout = (hand_over i 1 first last sent m).stdout;
        }
  unfolding hand_over
  hand_over_lem i first last sent m = refl

  pub hand_over_calm :
      (i : ℤ) (first last sent : Bool) (m : E2EVadModel X)
      → (first ≡ true) ⊎ (back_ends_at m.output_data_buf (i *ℤ pos m.vad_opts.frame_in_ms) ≡ true)
      → alarms (hand_over i 1 first last sent m).stdout ≡ alarms m.stdout
  unfolding hand_over
  hand_over_calm i first last sent m order =
      let ends = opened_ends_at (i *ℤ pos m.vad_opts.frame_in_ms) first m.output_data_buf order in
      four_notes _ _ _ _ m.stdout (ap not ends) (ap not ends)

  pub pop_data_to_output_buf_run :
      (i : ℤ) (first last sent : Bool) (m m1 : E2EVadModel X)
      → pop_data_buf_till_frame i m ≡ some m1
      → pop_data_to_output_buf i 1 first last sent m ≡ some (hand_over i 1 first last sent m1)
  unfolding pop_data_to_output_buf
  pop_data_to_output_buf_run i first last sent m m1 run = rw run
