-- ===== src/Vad/Window/Hysteresis.antt =====
-- What `WindowDetector` answers over a sequence of frames.
use asr_2pass.Prelude.{
  ℕ, suc, ◌≤◌, ◌<◌, ◌≡◌, refl, sym, ap, ◌∙◌, List, [], ◌∷◌, ◌++◌, some, arith, leb, length, drop,
  if◌then◌else◌,
}
use mathlib.Core.List.{append_assoc, append-nil}
use asr_2pass.Vad.Window.{
  WindowDetector, FrameState, AudioChangeState, frame_state_speech, frame_state_sil,
  frame_state_invalid, speech2speech, speech2sil, sil2sil, sil2speech, change_state_invalid,
  push_frame, detect_window, classify, frame_value,
}
use asr_2pass.Vad.Window.Ring.{
  IsWindow, sum, contents, contents-push_frame, push_frame-IsWindow, win_sum-contents,
  length-contents,
}

-- The window after a sequence of frames.
unfoldable pub run_window : List FrameState → WindowDetector → WindowDetector
run_window [] w = w
run_window (f ∷ fs) w = run_window fs (detect_window f w).0

-- The decisions that are written: an invalid frame writes nothing.
abbrev pub values : List FrameState → List ℕ
values [] = []
values (frame_state_speech ∷ fs) = 1 ∷ values fs
values (frame_state_sil ∷ fs) = 0 ∷ values fs
values (frame_state_invalid ∷ fs) = values fs

classify_ring :
    (w : WindowDetector)
    → (contents (classify w).0 ≡ contents w)
      × (IsWindow w → IsWindow (classify w).0)
      × ((classify w).0.win_size_frame ≡ w.win_size_frame)
unfolding classify contents
classify_ring w = (ground arith, λ r. ground arith, ground arith)

push_frame_size : (w : WindowDetector) (v : ℕ) → (push_frame w v).win_size_frame ≡ w.win_size_frame
unfolding push_frame
push_frame_size w v = refl

drop_more :
    (c vs : List ℕ) (v : ℕ)
    → 0 < length c
    → drop (length vs) ((drop 1 c ++ v ∷ []) ++ vs) ≡ drop (suc (length vs)) (c ++ v ∷ vs)
drop_more [] vs v h = elim h [ ]
drop_more (x ∷ c) vs v h = ap (drop (length vs)) (append_assoc c (v ∷ []) vs)

-- The queue after one round.
contents_round :
    (w : WindowDetector) (v : ℕ)
    → v ≤ 1
    → IsWindow w
    → (contents (classify (push_frame w v)).0 ≡ drop 1 (contents w) ++ v ∷ [])
      × IsWindow (classify (push_frame w v)).0
contents_round w v h r =
    let (same, keeps, size) = classify_ring (push_frame w v) in
    (same ∙ contents-push_frame w v r, keeps (push_frame-IsWindow w v h r))

contents_after :
    (w w' w'' : WindowDetector) (v : ℕ) (vs : List ℕ)
    → 0 < length (contents w)
    → contents w' ≡ drop 1 (contents w) ++ v ∷ []
    → contents w'' ≡ drop (length vs) (contents w' ++ vs)
    → contents w'' ≡ drop (suc (length vs)) (contents w ++ v ∷ vs)
contents_after w w' w'' v vs h e e' =
    e' ∙ ap (λ c. drop (length vs) (c ++ vs)) e ∙ drop_more (contents w) vs v h

contents_pos : (w : WindowDetector) → IsWindow w → 0 < length (contents w)
contents_pos w r = omega (arith, length-contents w r, r.placed)

-- From any window whose sum is that of its ring, a run of any frames leaves the ring with its last
-- `win_size_frame` valid decisions, oldest first, and the sum is still that of the ring.
pub contents-run_window :
    (fs : List FrameState) (w : WindowDetector)
    → IsWindow w
    → (contents (run_window fs w) ≡ drop (length (values fs)) (contents w ++ values fs))
      × IsWindow (run_window fs w)
unfolding run_window detect_window
contents-run_window [] w r = (sym (append-nil (contents w)), r)
contents-run_window (frame_state_speech ∷ fs) w r =
    let (e, k) = contents_round w 1 (omega arith) r in
    let (ih, last) = contents-run_window fs (classify (push_frame w 1)).0 k in
    (contents_after w _ _ 1 (values fs) (contents_pos w r) e ih, last)
contents-run_window (frame_state_sil ∷ fs) w r =
    let (e, k) = contents_round w 0 (omega arith) r in
    let (ih, last) = contents-run_window fs (classify (push_frame w 0)).0 k in
    (contents_after w _ _ 0 (values fs) (contents_pos w r) e ih, last)
contents-run_window (frame_state_invalid ∷ fs) w r = contents-run_window fs w r

-- The change that two frame states in a row amount to.
abbrev pub change_of : FrameState → FrameState → AudioChangeState
change_of frame_state_sil frame_state_sil = sil2sil
change_of frame_state_sil frame_state_speech = sil2speech
change_of frame_state_speech frame_state_sil = speech2sil
change_of frame_state_speech frame_state_speech = speech2speech
change_of _ _ = change_state_invalid

-- Hysteresis over the number of speech frames among the last ones.
abbrev pub smoothed : WindowDetector → ℕ → FrameState → FrameState
smoothed w count frame_state_sil =
    if leb w.sil_to_speech_frmcnt_thres count then frame_state_speech else frame_state_sil
smoothed w count frame_state_speech =
    if leb count w.speech_to_sil_frmcnt_thres then frame_state_sil else frame_state_speech
smoothed w count frame_state_invalid = frame_state_invalid

classify-smoothed :
    (w : WindowDetector)
    → ((classify w).0.pre_frame_state ≡ smoothed w w.win_sum w.pre_frame_state)
      × ((classify w).1 ≡ change_of w.pre_frame_state (classify w).0.pre_frame_state)
unfolding classify
classify-smoothed w = ground arith

push_frame-smoothed :
    (w : WindowDetector) (v : ℕ)
    → v ≤ 1
    → IsWindow w
    → ((classify (push_frame w v)).0.pre_frame_state
        ≡ smoothed w (sum (drop 1 (contents w) ++ v ∷ [])) w.pre_frame_state)
      × ((classify (push_frame w v)).1
          ≡ change_of w.pre_frame_state (classify (push_frame w v)).0.pre_frame_state)
push_frame-smoothed w v h r =
    let count : (push_frame w v).win_sum ≡ sum (drop 1 (contents w) ++ v ∷ []) =
      win_sum-contents _ (push_frame-IsWindow w v h r) ∙ ap sum (contents-push_frame w v r) in
    let (next, change) = classify-smoothed (push_frame w v) in
    (
      unfold push_frame in (next ∙ ap (λ n. smoothed w n w.pre_frame_state) count),
      unfold push_frame in change,
    )

-- One valid decision, on a window whose sum is that of its ring: the state after depends only on the
-- state before and on how many of the last `win_size_frame` decisions, this one included, are
-- speech, by the two thresholds; and the answer is the change from the state before to that after.
pub detect_window_hysteresis :
    (w : WindowDetector) (f : FrameState) (v : ℕ)
    → IsWindow w
    → frame_value f ≡ some v
    → ((detect_window f w).0.pre_frame_state
        ≡ smoothed w (sum (drop 1 (contents w) ++ v ∷ [])) w.pre_frame_state)
      × ((detect_window f w).1 ≡ change_of w.pre_frame_state (detect_window f w).0.pre_frame_state)
unfolding detect_window
detect_window_hysteresis w frame_state_invalid v r e = absurd (cc)
detect_window_hysteresis w frame_state_speech v r e =
    let one : v ≡ 1 = cc in rw one (push_frame-smoothed w 1 (omega arith) r)
detect_window_hysteresis w frame_state_sil v r e =
    let none_seen : v ≡ 0 = cc in rw none_seen (push_frame-smoothed w 0 (omega arith) r)
