-- ===== src/Vad/Segments/Changes.antt =====
-- The four changes inside a segment (onnxruntime/src/e2e-vad.h).
use asr_2pass.Prelude.{
  ℕ, zero, suc, ◌+◌, ◌-◌, ◌*◌, ◌/◌, ◌≤◌, ◌<◌, ◌≡◌, refl, sym, ap, ◌∙◌, subst, Bool, true, false,
  Option, some, ◌>>=◌, returns, Returns-if, arith, not, ◌==◌, ◌&&◌, leb, leb→le, leb-false, if-true,
}
use asr_2pass.Prelude.Int.{ℤ, pos, negsuc, ◌-ℤ◌, pos_part, neg_ℤ, leb_ℤ, div_ℤ, max_ℤ}
use asr_2pass.Vad.Window.{frame_state_sil}
use asr_2pass.Vad.Model.{E2EVadModel}
use asr_2pass.Vad.Detect.{
  voice_until, on_voice_end, on_voice_detected, go_on, quiet_inside, lookback_frames,
  maybe_on_voice_end_if_last_frame, stop_here,
}
use asr_2pass.Vad.Segments.Voice.{InOrder, voiced, voice_until-Voices}
use asr_2pass.Vad.Segments.Tracks.{talking, unended-Tracks, lookahead}
use asr_2pass.Vad.Segments.Speech.{
  Next, Inside, close-Next, speak-Next, go_on-Next, last_frame-Next, voiced-Ready,
}

less_two : (a : ℤ) (k : ℕ) → max_ℤ (pos 0) (a -ℤ pos k -ℤ pos 1) ≡ pos (pos_part a - k - 1)
unfolding ◌-ℤ◌
less_two (pos n) k = ground arith
less_two (negsuc n) k = ground arith

neg_ℤ_part : (n : ℕ) → pos_part (neg_ℤ n) ≡ 0
neg_ℤ_part zero = refl
neg_ℤ_part (suc n) = refl

div-le : (t c f : ℕ) → 0 < f → t ≤ c * f → t / f ≤ c
div-le t c f h le = grind arith

div_part-le : (t : ℤ) (c f : ℕ) → 0 < f → leb_ℤ t (pos (c * f)) ≡ true → pos_part (div_ℤ t f) ≤ c
div_part-le (pos t) c f h le = div-le t c f h (omega (arith, leb→le _ _ le))
div_part-le (negsuc t) c f h le = omega (arith, neg_ℤ_part (suc t / f))

pos-sub : (n b k : ℕ) → k + b ≡ n → pos n -ℤ pos b ≡ pos k
unfolding ◌-ℤ◌
pos-sub n b k e = ground arith

must_be_last : (b final : Bool) → b ≡ false → (not b && not final) ≡ false → final ≡ true
must_be_last b true h k = refl
must_be_last true false h k = absurd (cc)
must_be_last false false h k = absurd (cc)

module _ {X : Type 0} where
  -- The model stands behind the frame `l`, in a segment with everything in order.
  pub record Speaks (frames n l : ℕ) (m : E2EVadModel X) : Type 0 where
    pub inside : Inside frames n m
    pub latest : m.latest_confirmed_speech_frame ≡ l
    pub start : m.data_buf_start_frame ≡ suc l
    pub order : InOrder m l m.data_buf_size m.output_data_buf m.stdout

  abbrev now : E2EVadModel X → ℕ → E2EVadModel X
  now m l = voiced m l m.data_buf_size m.output_data_buf m.stdout

  voiced_now :
      (m : E2EVadModel X) (l : ℕ)
      → m.latest_confirmed_speech_frame ≡ l
      → m.data_buf_start_frame ≡ suc l
      → now m l ≡ m
  voiced_now m l e d =
      λ i. record m { latest_confirmed_speech_frame = sym e i; data_buf_start_frame = sym d i }

  -- A lemma on the voiced model serves the model itself.
  at_once :
      (frames n l : ℕ) (m : E2EVadModel X) (run : E2EVadModel X → Option (E2EVadModel X))
      → Speaks frames n l m
      → Next frames n (run (now m l))
      → Next frames n (run m)
  at_once frames n l m run s h =
      subst (λ x. Next frames n (run x)) (voiced_now m l s.latest s.start) h

  pub go_on-Next_at :
      (frames n l : ℕ) (final : Bool) (m : E2EVadModel X)
      → suc l ≡ n
      → (m.windows_detector.pre_frame_state ≡ frame_state_sil
          → m.continous_silence_frame_count ≤ lookahead m)
      → Speaks frames n l m
      → Next frames n (go_on n final m)
  go_on-Next_at frames n l final m e quiet s = at_once frames n l m (go_on n final) s (
      go_on-Next frames n m s.inside l final m.data_buf_size m.output_data_buf m.stdout e quiet
        s.order)

  -- Speech after a short silence: the silence is filled up first.
  pub fill_up-Next :
      (frames n l t : ℕ) (final : Bool) (m : E2EVadModel X)
      → l ≤ t
      → suc t ≡ n
      → m.continous_silence_frame_count ≡ 0
      → Speaks frames n l m
      → Next frames n (voice_until (pos n) m >>= go_on n final)
  fill_up-Next frames n l t final m le e none_quiet s =
      let c = s.inside.configured in
      let v =
        voice_until-Voices frames m c.f_pos s.inside.all l t m.data_buf_size m.output_data_buf
          m.stdout le (omega (arith, s.inside.there)) s.order in
      at_once frames n l m (λ x. voice_until (pos n) x >>= go_on n final) s
        (subst (λ k. Next frames n (voice_until (pos k) (now m l) >>= go_on n final)) e
          (subst (Next frames n) (ap (λ r. r >>= go_on n final) (sym v.result)) (
            go_on-Next frames n m s.inside t final v.size v.segs v.lines e
              (λ _. omega (arith, none_quiet)) v.order)))

  -- The look back never reaches the frames taken as speech already.
  lookback_lem :
      (m : E2EVadModel X)
      → (m.vad_opts.do_extend == 0) ≡ false
      → 0 < m.vad_opts.frame_in_ms
      → leb_ℤ m.max_end_sil_frame_cnt_thresh
          (pos (m.continous_silence_frame_count * m.vad_opts.frame_in_ms))
        ≡ true
      → (b : ℕ) × (lookback_frames m ≡ pos b)
        × (b ≤ m.continous_silence_frame_count - 1 - lookahead m)
  unfolding lookback_frames
  lookback_lem m e f h =
      let q = div_ℤ m.max_end_sil_frame_cnt_thresh m.vad_opts.frame_in_ms in
      (
        pos_part q - lookahead m - 1,
        if-true _ _ (ap not e) ∙ less_two q (lookahead m),
        omega (
          arith,
          div_part-le m.max_end_sil_frame_cnt_thresh m.continous_silence_frame_count
              m.vad_opts.frame_in_ms f h,
        ),
      )

  abbrev Quiet : ℕ → ℕ → ℕ → E2EVadModel X → Type 0
  Quiet frames n l m =
      (m.windows_detector.pre_frame_state ≡ frame_state_sil)
      × (suc l + (m.continous_silence_frame_count - 1 - lookahead m) ≡ n)
      × (0 < m.continous_silence_frame_count)
      × Speaks frames n l m

  -- Enough silence: the segment ends a little behind its speech.
  enough-Next :
      (frames n l : ℕ) (m : E2EVadModel X)
      → Quiet frames n l m
      → leb_ℤ m.max_end_sil_frame_cnt_thresh
          (pos (m.continous_silence_frame_count * m.vad_opts.frame_in_ms))
        ≡ true
      → Next frames n (on_voice_end (pos n -ℤ lookback_frames m) false false m >>= stop_here)
  enough-Next frames n l m (sil, e, counted, s) h =
      let c = s.inside.configured in
      let (b, back, le) = lookback_lem m c.extends c.f_pos h in
      let end : pos n -ℤ lookback_frames m ≡ pos (n - b) =
        ap (λ x. pos n -ℤ x) back ∙ pos-sub n b (n - b) (omega arith) in
      subst (λ x. Next frames n (on_voice_end x false false m >>= stop_here)) (sym end)
        (at_once frames n l m (λ x. on_voice_end (pos (n - b)) false false x >>= stop_here) s
          (close-Next frames n m s.inside l (n - b - 1) (n - b) false m.data_buf_size
            m.output_data_buf m.stdout (omega arith) (omega arith) (omega arith) s.order))

  -- Silence beyond the lookahead: the frame is left open.
  wait-Next :
      (frames n l : ℕ) (m : E2EVadModel X)
      → Quiet frames n l m
      → leb m.continous_silence_frame_count (lookahead m) ≡ false
      → Next frames n (some m)
  wait-Next frames n l m (sil, e, counted, s) long =
      let m1 = now m l in
      let i = s.inside in
      at_once frames n l m (λ x. some x) s
        (returns m1 (
          unended-Tracks frames (suc n) m1 (record {
            ready =
                voiced-Ready frames n m i l m.data_buf_size m.output_data_buf m.stdout (omega arith)
                  s.order;
            phase =
                talking i.speaking i.unset refl s.order.ends i.valid (λ speech. absurd (cc))
                  (λ _. omega (arith, leb-false _ _ long));
          })))

  -- Silence in a segment: it ends, or goes on through the lookahead.
  pub quiet_inside-Next :
      (frames n l : ℕ) (final : Bool) (m : E2EVadModel X)
      → Quiet frames n l m
      → Next frames n (quiet_inside n final m)
  unfolding quiet_inside
  quiet_inside-Next frames n l final m (sil, e, counted, s) =
      let size = m.data_buf_size in
      let segs = m.output_data_buf in
      let lines = m.stdout in
      let i = s.inside in
      let q : Quiet frames n l m = (sil, e, counted, s) in
      Returns-if _ (enough-Next frames n l m q) (λ _.
        Returns-if _
          (λ _.
            at_once frames n l m (λ x. on_voice_end (pos n) false false x >>= stop_here) s
              (close-Next frames n m i l (n - 1) n false size segs lines (omega arith) (omega arith)
                (omega arith) s.order))
          (λ _.
            Returns-if _
              (λ _.
                Returns-if _
                  (λ short. at_once frames n l m (on_voice_detected n) s (
                    speak-Next frames n m i l size segs lines (omega (arith, leb→le _ _ short))
                      (λ _. leb→le _ _ short) s.order))
                  (wait-Next frames n l m q))
              (λ stop. at_once frames n l m (maybe_on_voice_end_if_last_frame final n) s (
                last_frame-Next frames n m i l (n - 1) final size segs lines (omega arith)
                  (omega arith) (must_be_last _ final i.configured.extends stop) s.order))))
