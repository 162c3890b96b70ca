-- ===== src/Vad/Segments/Quiet.antt =====
-- Silence outside a segment (onnxruntime/src/e2e-vad.h): the buffer moves on, or the detector gives
-- up with an empty segment that is not put out.
use asr_2pass.Prelude.{
  ℕ, suc, ◌+◌, ◌-◌, ◌≤◌, ◌≡◌, sym, ap, ◌∙◌, subst, Bool, true, false, Option, some, ◌>>=◌, returns,
  Returns-if, arith, leb→le, leb, not, ◌==◌, if-true,
}
use asr_2pass.Prelude.Int.{pos, negsuc, pos_part, ◌-ℤ◌, ◌+ℤ◌}
use asr_2pass.Vad.Window.{frame_state_sil}
use asr_2pass.Vad.Window.Ring.{win_sum-le}
use asr_2pass.Vad.Model.{E2EVadModel, end_point_detected, latency_frm_num_at_start_point}
use asr_2pass.Vad.Detect.{
  for_frames, on_silence_detected, on_voice_detected, on_voice_start, voice_until, close_segment,
  on_voice_end, give_up, quiet_outside, set_state, stop_here,
}
use asr_2pass.Vad.Segments.Layout.{Laid-later}
use asr_2pass.Vad.Segments.Pop.{pos_part-sub}
use asr_2pass.Vad.Segments.Voice.{confirm_end_unset}
use asr_2pass.Vad.Segments.Tracks.{Ready, idle, ended-Tracks, unended-Tracks}
use asr_2pass.Vad.Segments.Speech.{Next}
use asr_2pass.Vad.Segments.Idle.{
  Outside, Silences, silenced, silence_loop, on_silence_detected-Silences, confirm_start_unset,
}

module _ {X : Type 0} where
  silenced-Ready :
      (frames n k : ℕ) (m : E2EVadModel X) (run : Option (E2EVadModel X))
      → k ≤ n
      → Ready frames n m
      → (s : Silences k m run) → Ready frames (suc n) (silenced m s.last s.start s.size)
  silenced-Ready frames n k m run h r s =
      let c = r.configured in
      record {
        configured = record {
          multi = c.multi;
          extends = c.extends;
          f_pos = c.f_pos;
          window = c.window;
          thres = c.thres;
        };
        first = s.enough;
        all = r.all;
        calm = r.calm;
        laid = Laid-later s.start s.later r.laid;
        behind = omega (arith, s.bounded, r.behind);
      }

  later-Ready : (frames n : ℕ) (m : E2EVadModel X) → Ready frames n m → Ready frames (suc n) m
  later-Ready frames n m r = record {
    configured = r.configured;
    first = r.first;
    all = r.all;
    calm = r.calm;
    laid = r.laid;
    behind = omega (arith, r.behind);
  }

  fake_start :
      (m : E2EVadModel X)
      → m.confirmed_start_frame ≡ negsuc 0
      → on_voice_start 0 true m ≡ some (record m { confirmed_start_frame = pos 0 })
  unfolding on_voice_start
  fake_start m h = ap some (confirm_start_unset 0 m h)

  no_rounds : (m : E2EVadModel X) → voice_until (pos 0) m ≡ some m
  unfolding voice_until for_frames
  no_rounds m =
      let first = suc m.latest_confirmed_speech_frame in
      let none_left : pos_part (pos 0 -ℤ pos first) ≡ 0 = pos_part-sub 0 first ∙ omega arith in
      ap (λ k. for_frames k first on_voice_detected m) none_left

  abbrev faked : E2EVadModel X → E2EVadModel X
  faked m = record m {
    confirmed_end_frame = pos 0;
    number_end_time_detected = m.number_end_time_detected + 1;
  }

  fake_close :
      (m : E2EVadModel X)
      → m.confirmed_end_frame ≡ negsuc 0
      → close_segment (pos 0) true false m ≡ some (faked m)
  unfolding close_segment
  fake_close m h =
      ap
        (λ (x : E2EVadModel X).
          some (record x { number_end_time_detected = x.number_end_time_detected + 1 }))
        (confirm_end_unset (pos 0) m h)

  fake_end :
      (m : E2EVadModel X)
      → m.confirmed_end_frame ≡ negsuc 0
      → on_voice_end (pos 0) true false m ≡ some (faked m)
  unfolding on_voice_end
  fake_end m h = ap (λ r. r >>= close_segment (pos 0) true false) (no_rounds m) ∙ fake_close m h

  pub give_up-Next :
      (frames n : ℕ) (m : E2EVadModel X) → Outside frames n m → Next frames n (give_up n m)
  unfolding give_up
  give_up-Next frames n m u =
      let r = u.ready in
      let first = pos_part (m.lastest_confirmed_silence_frame +ℤ pos 1) in
      let s =
        silence_loop frames n (n - first) first m (record { first = r.first; all = r.all }) u.there
          u.waiting (omega arith) in
      let m1 = silenced m s.last s.start s.size in
      let m2 = record m1 { confirmed_start_frame = pos 0 } in
      let ready = silenced-Ready frames n n m _ (omega arith) r s in
      let c = ready.configured in
      let m3 = faked m2 in
      let end = λ (x : E2EVadModel X). on_voice_end (pos 0) true false x >>= stop_here in
      let begin = λ (x : E2EVadModel X). on_voice_start 0 true x >>= end in
      let ran =
        ap (λ x. x >>= begin) s.result
        ∙ ap (λ x. x >>= end) (fake_start m1 u.no_start)
        ∙ ap (λ x. x >>= stop_here) (fake_end m2 u.no_end) in
      subst (Next frames n) (sym ran) (
        returns (set_state end_point_detected m3) (
          ended-Tracks frames (suc n) m3 (record {
            configured = record {
              multi = c.multi;
              extends = c.extends;
              f_pos = c.f_pos;
              window = c.window;
              thres = c.thres;
            };
            first = ready.first;
            all = ready.all;
            calm = ready.calm;
            laid = ready.laid;
            behind = ready.behind;
          })))

  -- The latency covers the window.
  pub size-le-latency :
      (m : E2EVadModel X)
      → (m.vad_opts.do_extend == 0) ≡ false
      → m.windows_detector.win_size_frame ≤ latency_frm_num_at_start_point m
  unfolding latency_frm_num_at_start_point
  size-le-latency m e = rw (if-true _ _ (ap not e)) (omega arith)

  -- The buffer follows the frame at a distance.
  follow-Next :
      (frames n : ℕ) (m : E2EVadModel X)
      → m.windows_detector.pre_frame_state ≡ frame_state_sil
      → m.windows_detector.win_sum + m.data_buf_start_frame ≤ suc n
      → leb (latency_frm_num_at_start_point m) n ≡ true
      → Outside frames n m
      → Next frames n (on_silence_detected (n - latency_frm_num_at_start_point m) m)
  follow-Next frames n m sil few deep u =
      let k = n - latency_frm_num_at_start_point m in
      let r = u.ready in
      let c = r.configured in
      let s : Silences k m (on_silence_detected k m) =
        on_silence_detected-Silences frames k m (record { first = r.first; all = r.all })
          (omega (arith, u.there)) u.waiting in
      let m1 = silenced m s.last s.start s.size in
      subst (Next frames n) (sym s.result) (
        returns m1 (
          unended-Tracks frames (suc n) m1 (record {
            ready = silenced-Ready frames n k m _ (omega arith) r s;
            phase = idle u.waiting sil u.no_start u.no_end (
                omega (
                  arith,
                  s.bounded,
                  leb→le _ _ deep,
                  size-le-latency m c.extends,
                  win_sum-le m.windows_detector c.window,
                ));
          })))

  pub quiet_outside-Next :
      (frames n : ℕ) (final : Bool) (m : E2EVadModel X)
      → m.windows_detector.pre_frame_state ≡ frame_state_sil
      → m.windows_detector.win_sum + m.data_buf_start_frame ≤ suc n
      → Outside frames n m
      → Next frames n (quiet_outside n final m)
  unfolding quiet_outside
  quiet_outside-Next frames n final m sil few u =
      Returns-if _ (λ _. give_up-Next frames n m u)
        (λ _.
          Returns-if _ (λ deep. follow-Next frames n m sil few deep u)
            (λ _. returns m (
              unended-Tracks frames (suc n) m (record {
                ready = later-Ready frames n m u.ready;
                phase = idle u.waiting sil u.no_start u.no_end few;
              }))))
