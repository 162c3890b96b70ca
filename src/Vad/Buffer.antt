-- ===== src/Vad/Buffer.antt =====
-- The output buffer of `E2EVadModel` (onnxruntime/src/e2e-vad.h): `PopDataBufTillFrame`,
-- `PopDataToOutputBuf`. `none` is a call that does not come back with a defined result.
use asr_2pass.Prelude.{
  ℕ, zero, suc, ◌+◌, ◌-◌, ◌*◌, ◌/◌, Bool, true, false, ◌||◌, not, if◌then◌else◌, Option, none, some,
  ◌>>=◌, List, [], ◌∷◌, ◌++◌,
}
use asr_2pass.Prelude.Int.{ℤ, pos, ◌+ℤ◌, ◌-ℤ◌, ◌*ℤ◌, pos_part, sub_ℕ, leb_ℤ, ltb_ℤ, eq_ℤ, max_ℤ}
use asr_2pass.Vad.Model.{
  E2EVadModel, SpeechBuf, empty_buf, Message, error_in_calling_pop, warning, data_to_pop_is_bigger,
  something_wrong,
}

-- The `while` loop of `PopDataBufTillFrame`, with the rounds left. A round whose test fails leaves
-- everything as it is, and the C++ loop runs for ever: `none`.
unfoldable pub pop_rounds : {X : Type 0} → ℕ → ℕ → E2EVadModel X → Option (E2EVadModel X)
pop_rounds frame_sample_length zero m = some m
pop_rounds frame_sample_length (suc rounds) m =
    let start = m.data_buf_start_frame + 1 in
    let rest = pop_rounds frame_sample_length rounds (record m {
      data_buf_start_frame = start;
      data_buf_size = sub_ℕ m.data_buf_all_size (start * frame_sample_length);
    }) in
    if leb_ℤ (pos frame_sample_length) m.data_buf_size then rest else none

abbrev pub frame_samples : {X : Type 0} → E2EVadModel X → ℕ
frame_samples m = m.vad_opts.frame_in_ms * m.vad_opts.sample_rate / 1000

-- The loop runs while `data_buf_start_frame < frame_idx`, and each round adds 1 to the left side.
unfoldable pub pop_data_buf_till_frame : {X : Type 0} → ℤ → E2EVadModel X → Option (E2EVadModel X)
unfolding ◌-ℤ◌
pop_data_buf_till_frame frame_idx m =
    pop_rounds (frame_samples m) (pos_part (frame_idx -ℤ pos m.data_buf_start_frame)) m

-- `std::cout << line` under a condition.
abbrev pub note : {X : Type 0} → Bool → Message → E2EVadModel X → E2EVadModel X
note test line m = record m { stdout = if test then m.stdout ++ line ∷ [] else m.stdout }

abbrev pub is_empty : List SpeechBuf → Bool
is_empty [] = true
is_empty (x ∷ xs) = false

abbrev pub update_back : (SpeechBuf → SpeechBuf) → List SpeechBuf → List SpeechBuf
update_back f [] = []
update_back f (x ∷ []) = f x ∷ []
update_back f (x ∷ y ∷ xs) = x ∷ update_back f (y ∷ xs)

abbrev pub back? : List SpeechBuf → Option SpeechBuf
back? [] = none
back? (x ∷ []) = some x
back? (x ∷ y ∷ xs) = back? (y ∷ xs)

-- `cur_seg.end_ms == t`
abbrev pub back_ends_at : List SpeechBuf → ℤ → Bool
back_ends_at bufs t = elim (back? bufs) [ none ↦ false | some seg ↦ eq_ℤ seg.end_ms t ]

-- `expected_sample_number`, before the test that follows it.
unfoldable pub expected_samples : {X : Type 0} → E2EVadModel X → ℕ → Bool → Bool → ℤ
expected_samples m frm_cnt last_frm_is_end_point end_point_is_sent_end =
    let o = m.vad_opts in
    let extra = o.frame_length_ms * o.sample_rate / 1000 - o.sample_rate * o.frame_in_ms / 1000 in
    let expected = frm_cnt * o.sample_rate * o.frame_in_ms / 1000 in
    let whole = if last_frm_is_end_point then expected + extra else expected in
    if end_point_is_sent_end then max_ℤ (pos whole) m.data_buf_size else pos whole

unfoldable pub open_segment : {X : Type 0} → ℤ → Bool → E2EVadModel X → E2EVadModel X
open_segment at first_frm_is_start_point m = record m {
  output_data_buf =
      if is_empty m.output_data_buf || first_frm_is_start_point
      then m.output_data_buf ++ record empty_buf { start_ms = at; end_ms = at } ∷ []
      else m.output_data_buf;
}

-- The last writes of `PopDataToOutputBuf`.
unfoldable pub extend_segment : {X : Type 0} → ℤ → ℕ → Bool → Bool → E2EVadModel X → E2EVadModel X
extend_segment end_ms frm_cnt first_frm_is_start_point last_frm_is_end_point m = record m {
  data_buf_start_frame = m.data_buf_start_frame + frm_cnt;
  output_data_buf =
      update_back
        (λ seg. record seg {
          doa = 0;
          end_ms = end_ms;
          contain_seg_start_point = first_frm_is_start_point || seg.contain_seg_start_point;
          contain_seg_end_point = last_frm_is_end_point || seg.contain_seg_end_point;
        })
        m.output_data_buf;
}

-- `PopDataToOutputBuf` behind its call of `PopDataBufTillFrame`.
unfoldable pub hand_over : {X : Type 0} → ℤ → ℕ → Bool → Bool → Bool → E2EVadModel X → E2EVadModel X
unfolding ◌*ℤ◌ ◌+ℤ◌ expected_samples open_segment extend_segment
hand_over start_frm frm_cnt first_frm_is_start_point last_frm_is_end_point end_point_is_sent_end m =
    let o = m.vad_opts in
    let frame_in_ms = pos o.frame_in_ms in
    let at = start_frm *ℤ frame_in_ms in
    let expected = expected_samples m frm_cnt last_frm_is_end_point end_point_is_sent_end in
    let m2 = note (ltb_ℤ m.data_buf_size expected) error_in_calling_pop m in
    let m3 = open_segment at first_frm_is_start_point m2 in
    let m4 = note (not (back_ends_at m3.output_data_buf at)) warning m3 in
    let data_to_pop =
      if end_point_is_sent_end
      then expected
      else pos (frm_cnt * o.frame_in_ms * o.sample_rate / 1000) in
    let m5 = note (ltb_ℤ m4.data_buf_size data_to_pop) data_to_pop_is_bigger m4 in
    let m6 = note (not (back_ends_at m5.output_data_buf at)) something_wrong m5 in
    extend_segment ((start_frm +ℤ pos frm_cnt) *ℤ frame_in_ms) frm_cnt first_frm_is_start_point
      last_frm_is_end_point m6

unfoldable pub pop_data_to_output_buf :
    {X : Type 0} → ℤ → ℕ → Bool → Bool → Bool → E2EVadModel X → Option (E2EVadModel X)
unfolding hand_over
pop_data_to_output_buf start_frm frm_cnt first_frm_is_start_point last_frm_is_end_point
      end_point_is_sent_end m =
    pop_data_buf_till_frame start_frm m >>= λ m1. some (
      hand_over start_frm frm_cnt first_frm_is_start_point last_frm_is_end_point
        end_point_is_sent_end m1)
