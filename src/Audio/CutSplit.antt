-- ===== src/Audio/CutSplit.antt =====
-- The cutting of a whole recording into the segments that the online detector finds (`Audio::CutSplit`,
-- onnxruntime/src/audio.cpp). `none` is a run that does not end, reads outside its data, or makes a
-- frame of negative length.
use asr_2pass.Prelude.{
  ℕ, zero, suc, ◌-◌, ◌+◌, ◌*◌, ◌≤◌, ◌≡◌, refl, ap, ◌∙◌, Bool, if◌then◌else◌, if-true, le→leb, List,
  [], ◌∷◌, map, length, take, drop, leb, ltb, min, ◌++◌, get_elem?, Option, none, some, ◌>>=◌,
  maybe, uncons,
}
use asr_2pass.Prelude.Int.{ℤ, pos, negsuc}
use asr_2pass.Audio.{AudioFrame, Audio, new_frame}
use asr_2pass.Audio.TwoPass.{time}

-- The frame of a segment in milliseconds: `SetStart` and `SetEnd`.
unfoldable pub segment_frame : {A : Type 0} → ℕ → ℕ → ℕ → Option (AudioFrame A)
segment_frame seg start end =
    let frame = record (new_frame (end * seg - start * seg)) { start = start * seg } in
    if leb start end then some frame else none

-- The loop over the segments, with the start and the end that are set.
unfoldable pub join_segments :
    {A : Type 0} → ℕ → Option ℕ → Option ℕ → List (ℤ × ℤ) → Option (List (AudioFrame A))
unfolding segment_frame
join_segments seg start end [] = some []
join_segments seg start end ((s, e) ∷ segments) =
    let start' = maybe start some (time s) in
    let end' = maybe end some (time e) in
    let still_open = join_segments seg start' end' segments in
    let closed = join_segments seg none none segments in
    maybe still_open
      (λ from.
        maybe still_open (λ to. segment_frame seg from to >>= λ f. closed >>= λ fs. some (f ∷ fs))
          end')
      start'

-- The pieces of a second that the detector gets, and whether each is the last one.
unfoldable pub second_pieces : {A : Type 0} → ℕ → ℕ → ℕ → List A → Option (List (List A × Bool))
second_pieces zero step offset samples = none
second_pieces (suc fuel) step offset samples =
    let len = length samples in
    let last = leb (len - 1) (offset + step) in
    let size = if last then len - offset else step in
    let rest = second_pieces fuel size (offset + min size (len - offset)) samples >>= λ pieces.
    some ((take size (drop offset samples), last) ∷ pieces) in
    if ltb offset len then rest else some []

abbrev pub pick : {A : Type 0} → List (AudioFrame A) → List ℕ → Option (List (AudioFrame A))
pick frames [] = some []
pick frames (i ∷ indexes) = get_elem? frames i >>= λ f. pick frames indexes >>= λ fs. some (f ∷ fs)

-- `CutSplit`: the frames, and the places of the segments in their order by length. `infer` is what the
-- detector gives for the pieces, one after the other, and `argsort` the order that `std::sort` finds.
module _ {A : Type 0} (infer : List (List A × Bool) → List (ℤ × ℤ))
    (argsort : List ℕ → List ℕ) where
  unfoldable pub cut_split : Audio A → Option (Audio A × List ℕ)
  unfolding join_segments second_pieces
  cut_split a = uncons a.frame_queue >>= λ (front, queue).
      second_pieces (suc a.speech_len) a.dest_sample_rate 0 (take a.speech_len a.speech_data)
      >>= λ pieces. join_segments a.seg_sample none none (infer pieces) >>= λ frames.
          let indexes = argsort (map (λ f. f.len) frames) in
          pick frames indexes >>= λ sorted.
          some (record a { frame_queue = queue ++ sorted }, indexes)

-- Segments as the detector gives them, with the start that is open: whole ones, and starts and ends in
-- turn, no end before its start.
pub data Reads : Option ℕ → List (ℤ × ℤ) → List (ℕ × ℕ) → Type 0 where
  all_read : {start : Option ℕ} → Reads start [] []
  whole :
      {s e : ℕ} {segments : List (ℤ × ℤ)} {pairs : List (ℕ × ℕ)}
      → s ≤ e
      → Reads none segments pairs
      → Reads none ((pos s, pos e) ∷ segments) ((s, e) ∷ pairs)
  opens :
      {s : ℕ} {segments : List (ℤ × ℤ)} {pairs : List (ℕ × ℕ)}
      → Reads (some s) segments pairs
      → Reads none ((pos s, negsuc 0) ∷ segments) pairs
  closes :
      {s e : ℕ} {segments : List (ℤ × ℤ)} {pairs : List (ℕ × ℕ)}
      → s ≤ e
      → Reads none segments pairs
      → Reads (some s) ((negsuc 0, pos e) ∷ segments) ((s, e) ∷ pairs)

abbrev pub frames_of : {A : Type 0} → ℕ → List (ℕ × ℕ) → List (AudioFrame A)
frames_of seg [] = []
frames_of seg ((s, e) ∷ pairs) =
    record (new_frame (e * seg - s * seg)) { start = s * seg } ∷ frames_of seg pairs

frame_first :
    {A : Type 0} (seg s e : ℕ) (o : Option (List (AudioFrame A))) (pairs : List (ℕ × ℕ))
    → s ≤ e
    → o ≡ some (frames_of seg pairs)
    → (segment_frame seg s e >>= λ f. o >>= λ fs. some (f ∷ fs))
      ≡ some (frames_of seg ((s, e) ∷ pairs))
unfolding segment_frame
frame_first seg s e o pairs h k =
    ap (λ frame. frame >>= λ f. o >>= λ fs. some (f ∷ fs)) (if-true _ _ (le→leb s e h))
    ∙ ap
        (λ rest.
          rest >>= λ fs. some (record (new_frame (e * seg - s * seg)) { start = s * seg } ∷ fs))
        k

-- The segments of the detector, whole or as starts and ends in turn, become one frame each, from the
-- start of the segment to its end, in their order; one that is open at the end becomes none.
pub join_segments-Reads :
    {A : Type 0} (seg : ℕ) (start : Option ℕ) (segments : List (ℤ × ℤ)) (pairs : List (ℕ × ℕ))
    → Reads start segments pairs
    → join_segments {A = A} seg start none segments ≡ some (frames_of seg pairs)
unfolding join_segments
join_segments-Reads seg start _ _ all_read = refl
join_segments-Reads seg _ _ _ (whole {s = s} {e = e} {segments = xs} {pairs = ps} h r) =
    frame_first seg s e (join_segments seg none none xs) ps h (join_segments-Reads seg none xs ps r)
join_segments-Reads seg _ _ _ (opens {s = s} {segments = xs} {pairs = ps} r) =
    join_segments-Reads seg (some s) xs ps r
join_segments-Reads seg _ _ _ (closes {s = s} {e = e} {segments = xs} {pairs = ps} h r) =
    frame_first seg s e (join_segments seg none none xs) ps h (join_segments-Reads seg none xs ps r)
