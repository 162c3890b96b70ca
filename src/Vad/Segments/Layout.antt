-- ===== src/Vad/Segments/Layout.antt =====
-- Segments one after the other on the time line, in frames of `f` milliseconds, and the printed
-- lines that say that something is out of order.
use asr_2pass.Prelude.{
  ℕ, suc, ◌+◌, ◌*◌, ◌≤◌, ◌<◌, ◌≡◌, refl, ap, ◌∙◌, true, List, [], ◌∷◌, ◌++◌, arith,
}
use asr_2pass.Prelude.Int.{ℤ, pos, eq_ℤ}
use asr_2pass.Vad.Model.{
  SpeechBuf, Message, error_in_calling_pop, warning, data_to_pop_is_bigger, something_wrong,
  not_reset,
}
use asr_2pass.Vad.Buffer.{update_back, back_ends_at}

-- The lines that speak of the order of segments, and not of the amount of audio.
abbrev pub alarm : Message → ℕ
alarm error_in_calling_pop = 0
alarm data_to_pop_is_bigger = 0
alarm warning = 1
alarm something_wrong = 1
alarm not_reset = 1

abbrev pub alarms : List Message → ℕ
alarms [] = 0
alarms (x ∷ xs) = alarm x + alarms xs

pub alarms-append : (xs : List Message) (x : Message) → alarms (xs ++ x ∷ []) ≡ alarms xs + alarm x
alarms-append [] x = omega arith
alarms-append (y ∷ xs) x = omega (arith, alarms-append xs x)

-- A segment of whole frames, from `start` up to `stop`.
pub record Spans (f lo stop : ℕ) (seg : SpeechBuf) : Type 0 where
  pub start : ℕ
  pub starts : seg.start_ms ≡ pos (start * f)
  pub ends : seg.end_ms ≡ pos (stop * f)
  pub after : lo ≤ start
  pub filled : start < stop

-- Each segment spans at least one frame, none starts before the one before it has ended, and all
-- lie between the frames `lo` and `hi`.
pub data Laid (f : ℕ) : ℕ → List SpeechBuf → ℕ → Type 0 where
  done : {lo hi : ℕ} → lo ≤ hi → Laid f lo [] hi
  then :
      {lo hi : ℕ} (stop : ℕ) {seg : SpeechBuf} {segs : List SpeechBuf}
      → Spans f lo stop seg
      → Laid f stop segs hi
      → Laid f lo (seg ∷ segs) hi

pub Laid-le : {f lo hi : ℕ} {segs : List SpeechBuf} → Laid f lo segs hi → lo ≤ hi
Laid-le (done h) = h
Laid-le (then stop s rest) = omega (arith, Laid-le rest, s.after, s.filled)

pub Laid-later :
    {f lo hi : ℕ} {segs : List SpeechBuf} (hi' : ℕ)
    → hi ≤ hi'
    → Laid f lo segs hi
    → Laid f lo segs hi'
Laid-later hi' h (done k) = done (omega arith)
Laid-later hi' h (then stop s rest) = then stop s (Laid-later hi' h rest)

-- A segment of one frame behind the others.
pub Laid-push :
    {f lo hi : ℕ} {segs : List SpeechBuf} (seg : SpeechBuf) (i : ℕ)
    → hi ≤ i
    → seg.start_ms ≡ pos (i * f)
    → seg.end_ms ≡ pos (suc i * f)
    → Laid f lo segs hi
    → Laid f lo (segs ++ seg ∷ []) (suc i)
Laid-push seg i h s e (done k) =
    then (suc i)
      (record { start = i; starts = s; ends = e; after = omega arith; filled = omega arith })
      (done (omega arith))
Laid-push seg i h s e (then stop sp rest) = then stop sp (Laid-push seg i h s e rest)

mul_cancel : (a b f : ℕ) → 0 < f → a * f ≡ b * f → a ≡ b
mul_cancel a b f h e = grind arith

stop_at :
    {f lo stop : ℕ} (i : ℕ) {seg : SpeechBuf}
    → 0 < f
    → Spans f lo stop seg
    → eq_ℤ seg.end_ms (pos (i * f)) ≡ true
    → stop ≡ i
stop_at {f} {stop = stop} i h s e = mul_cancel stop i f h (ground (arith, s.ends))

-- The last segment is carried on by one frame.
pub Laid-extend :
    {f lo hi : ℕ} {segs : List SpeechBuf} (g : SpeechBuf → SpeechBuf) (i : ℕ)
    → 0 < f
    → ((seg : SpeechBuf) → (g seg).start_ms ≡ seg.start_ms)
    → ((seg : SpeechBuf) → (g seg).end_ms ≡ pos (suc i * f))
    → back_ends_at segs (pos (i * f)) ≡ true
    → Laid f lo segs hi
    → Laid f lo (update_back g segs) (suc i)
Laid-extend g i h keep ends e (done k) = absurd (cc)
Laid-extend g i h keep ends e (then stop {seg = seg} s (done k)) =
    then (suc i)
      (record {
        start = s.start;
        starts = keep seg ∙ s.starts;
        ends = ends seg;
        after = s.after;
        filled = omega (arith, s.filled, stop_at i h s e);
      })
      (done (omega arith))
Laid-extend g i h keep ends e (then stop s (then stop' s' rest)) =
    then stop s (Laid-extend g i h keep ends e (then stop' s' rest))

pub back_ends_at-push :
    (segs : List SpeechBuf) (seg : SpeechBuf) (t : ℤ)
    → back_ends_at (segs ++ seg ∷ []) t ≡ eq_ℤ seg.end_ms t
back_ends_at-push [] seg t = refl
back_ends_at-push (x ∷ []) seg t = refl
back_ends_at-push (x ∷ y ∷ xs) seg t = back_ends_at-push (y ∷ xs) seg t

pub update_back-push :
    (g : SpeechBuf → SpeechBuf) (segs : List SpeechBuf) (seg : SpeechBuf)
    → update_back g (segs ++ seg ∷ []) ≡ segs ++ g seg ∷ []
update_back-push g [] seg = refl
update_back-push g (x ∷ []) seg = refl
update_back-push g (x ∷ y ∷ xs) seg = ap (λ l. x ∷ l) (update_back-push g (y ∷ xs) seg)

pub eq_ℤ_refl : (a : ℤ) → eq_ℤ a a ≡ true
eq_ℤ_refl a = ground arith

pub back_ends_at-update_back :
    (g : SpeechBuf → SpeechBuf) (segs : List SpeechBuf) (t t' : ℤ)
    → ((seg : SpeechBuf) → (g seg).end_ms ≡ t)
    → back_ends_at segs t' ≡ true
    → back_ends_at (update_back g segs) t ≡ true
back_ends_at-update_back g [] t t' h e = absurd (cc)
back_ends_at-update_back g (x ∷ []) t t' h e = rw (h x) (eq_ℤ_refl t)
back_ends_at-update_back g (x ∷ y ∷ []) t t' h e = back_ends_at-update_back g (y ∷ []) t t' h e
back_ends_at-update_back g (x ∷ y ∷ z ∷ xs) t t' h e =
    back_ends_at-update_back g (y ∷ z ∷ xs) t t' h e
