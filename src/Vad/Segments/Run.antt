-- ===== src/Vad/Segments/Run.antt =====
-- A new model over a sequence of frame decisions (onnxruntime/src/e2e-vad.h).
use asr_2pass.Prelude.{
  ℕ, suc, ◌+◌, ◌*◌, ◌≤◌, ◌≡◌, ◌≢◌, refl, Bool, false, Option, some, ◌>>=◌, Returns, returns,
  Returns-bind, Returns-mono, arith, List, [], ◌∷◌, length, subst,
}
use asr_2pass.Prelude.Int.{pos}
use asr_2pass.Vad.Window.{FrameState, frame_state_invalid, new_window, reset_window}
use asr_2pass.Vad.Window.Ring.{reset_window-IsWindow}
use asr_2pass.Vad.Model.{Floats, E2EVadModel, new_model, reset_detection}
use asr_2pass.Vad.Detect.{detect_state}
use asr_2pass.Vad.Segments.Layout.{alarms, Laid, done}
use asr_2pass.Vad.Segments.Tracks.{idle, Tracks}
use asr_2pass.Vad.Segments.Step.{detect_state-Tracks}

abbrev pub AllValid : List FrameState → Type 0
AllValid [] = Unit {0}
AllValid (f ∷ fs) = (f ≢ frame_state_invalid) × AllValid fs

-- The frames `n`, `n + 1`, ... one after another, the last of them the final one if `final`.
unfoldable pub detect_all :
    {X : Type 0} → Bool → ℕ → List FrameState → E2EVadModel X → Option (E2EVadModel X)
detect_all final n [] m = some m
detect_all final n (f ∷ []) m = detect_state f n final m
detect_all final n (f ∷ g ∷ fs) m = detect_state f n false m >>= detect_all final (suc n) (g ∷ fs)

-- A new model with the first `samples` samples of audio noted, as `ComputeDecibel` notes them.
unfoldable pub supplied : (F : Floats) → ℕ → E2EVadModel F.Carrier
unfolding new_model
supplied F samples = record (new_model F) {
  data_buf_all_size = samples;
  data_buf_size = pos samples;
}

pub supplied-Tracks :
    (F : Floats) (frames samples : ℕ)
    → frames * 160 ≤ samples
    → 160 ≤ samples
    → Tracks frames 0 (supplied F samples)
unfolding supplied reset_detection new_window reset_window
supplied-Tracks F frames samples h k = record {
  ready = record {
    configured = record {
      multi = refl;
      extends = refl;
      f_pos = omega arith;
      window = reset_window-IsWindow (new_window 200 150 150 10) (omega arith);
      thres = omega arith;
    };
    first = omega arith;
    all = h;
    calm = refl;
    laid = done (omega arith);
    behind = omega arith;
  };
  phase = idle refl refl refl refl (omega arith);
}

detect_all-Tracks :
    {X : Type 0} (frames n k : ℕ) (final : Bool) (fs : List FrameState) (m : E2EVadModel X)
    → AllValid fs
    → k ≡ n + length fs
    → k ≤ frames
    → Tracks frames n m
    → Returns (Tracks frames k) (detect_all final n fs m)
unfolding detect_all
detect_all-Tracks frames n k final [] m v e h t =
    let same : n ≡ k = omega arith in returns m (subst (λ j. Tracks frames j m) same t)
detect_all-Tracks frames n k final (f ∷ []) m v e h t =
    let same : suc n ≡ k = omega arith in
    subst (λ j. Returns (Tracks frames j) (detect_state f n final m)) same
      (detect_state-Tracks frames n f final m v.0 (omega arith) t)
detect_all-Tracks frames n k final (f ∷ g ∷ fs) m v e h t =
    Returns-bind (detect_state-Tracks frames n f false m v.0 (omega arith) t)
      (λ m1 t1. detect_all-Tracks frames (suc n) k final (g ∷ fs) m1 v.1 (omega arith) h t1)

-- From a new model with audio for `frames` frames of 10 ms at 16 kHz, and for one at least, any
-- sequence of at most `frames` valid decisions, the last one final or not, is worked through: no
-- call hangs, no line about the order of segments is printed, and the segments put out are whole
-- frames, each at least one long, that follow one another without overlap.
pub detect_all_in_order :
    (F : Floats) (frames samples : ℕ) (final : Bool) (fs : List FrameState)
    → frames * 160 ≤ samples
    → 160 ≤ samples
    → length fs ≤ frames
    → AllValid fs
    → Returns
        (λ m.
          (alarms m.stdout ≡ 0)
          × Laid m.vad_opts.frame_in_ms 0 m.output_data_buf m.data_buf_start_frame
          × (m.data_buf_start_frame ≤ length fs))
        (detect_all final 0 fs (supplied F samples))
detect_all_in_order F frames samples final fs h k le v =
    Returns-mono
      (detect_all-Tracks frames 0 (length fs) final fs (supplied F samples) v (omega arith) le
        (supplied-Tracks F frames samples h k))
      (λ m t. (t.ready.calm, t.ready.laid, t.ready.behind))
