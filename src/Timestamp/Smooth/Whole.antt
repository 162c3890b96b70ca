-- ===== src/Timestamp/Smooth/Whole.antt =====
-- The whole of `TimestampSmooth` (onnxruntime/src/util.cpp), and the pieces that a time is cut into.
use asr_2pass.Prelude.{
  ℕ, zero, suc, ◌+◌, ◌*◌, ◌/◌, ◌≤◌, ◌<◌, ◌≡◌, refl, ap, ◌∙◌, sym, false, List, [], ◌∷◌, length,
  Returns, Returns-bind, Returns-mono, arith, if-false, subst,
}
use native.Mathlib.Nat.{div-mul-le_self, lt-div-mul-add}
use asr_2pass.Prelude.Int.{
  ℤ, pos, negsuc, ◌+ℤ◌, ◌-ℤ◌, ◌*ℤ◌, div_ℤ, ◌≤ℤ◌, +ℤ_comm, +ℤ_assoc, +ℤ_cancel, +ℤ_mono,
}
use asr_2pass.Encode.Classes.{is_empty}
use asr_2pass.Timestamp.Align.Walk.{NoPunctuation, align-Paired, words-spoken}
use asr_2pass.Timestamp.Smooth.{Timestamp, pieces, spread, timestamp_smooth}
use asr_2pass.Timestamp.Smooth.Counts.{smooth-counts}

timed : (timestamps : List Timestamp) → 0 < length timestamps → is_empty timestamps ≡ false
timed [] h = absurd (omega arith)
timed (t ∷ ts) h = refl

-- Of a text and a normalised text that are split into words that are no punctuation, the first
-- one not empty and with a timestamp for each word at least, the smoothing returns, and gives each
-- word of the normalised text one timestamp.
pub timestamp_smooth-counts :
    (characters itn : List (List ℕ)) (timestamps : List Timestamp)
    → NoPunctuation characters
    → NoPunctuation itn
    → 0 < length characters
    → length characters ≤ length timestamps
    → Returns (λ out. length out ≡ length itn) (timestamp_smooth characters itn timestamps)
unfolding timestamp_smooth
timestamp_smooth-counts characters itn timestamps pc pi some_word room =
    subst (Returns (λ out. length out ≡ length itn))
      (sym (if-false _ _ (timed timestamps (omega arith))))
      (Returns-bind (align-Paired characters itn pc pi) (λ a (paired, same1, same2).
        let first = words-spoken a.alignment_str1 ∙ ap length same1 in
        let second = words-spoken a.alignment_str2 ∙ ap length same2 in
        Returns-mono
          (smooth-counts timestamps a.alignment_str1 a.alignment_str2 paired (omega (arith, first))
            (omega (arith, first)))
          (λ out e. e ∙ second)))

-- The times lead from `begin` to `end`: each one starts where the one before it ends and is `q` long,
-- but for the last one, which is `q` long at least.
abbrev pub Chain : ℕ → ℤ → List Timestamp → ℤ → Type 0
Chain q begin [] end = ⊥
Chain q begin (t ∷ []) end = (t.0 ≡ begin) × (t.1 ≡ end) × (begin +ℤ pos q ≤ℤ end)
Chain q begin (t ∷ u ∷ ts) end = (t.0 ≡ begin) × (t.1 ≡ begin +ℤ pos q) × Chain q t.1 (u ∷ ts) end

times_pos : (q x : ℕ) → pos q *ℤ pos x ≡ pos (q * x)
unfolding ◌*ℤ◌
times_pos q x = ground arith

pos-add : (a b : ℕ) → pos a +ℤ pos b ≡ pos (a + b)
unfolding ◌+ℤ◌
pos-add a b = ground arith

begin_at :
    (q idx : ℕ) (begin : ℤ) → begin +ℤ pos q *ℤ pos idx +ℤ pos q ≡ begin +ℤ pos (q * (idx + 1))
begin_at q idx begin =
    ap (λ t. begin +ℤ t +ℤ pos q) (times_pos q idx)
    ∙ +ℤ_assoc begin (pos (q * idx)) (pos q)
    ∙ ap (λ t. begin +ℤ t) (pos-add (q * idx) q ∙ ap pos (omega arith))

next_begin :
    (q idx : ℕ) (begin : ℤ) → begin +ℤ pos q *ℤ pos (idx + 1) ≡ begin +ℤ pos q *ℤ pos idx +ℤ pos q
next_begin q idx begin = ap (λ t. begin +ℤ t) (times_pos q (idx + 1)) ∙ sym (begin_at q idx begin)

last_piece :
    (q idx d : ℕ) (begin : ℤ)
    → q * (idx + 1) ≤ d
    → begin +ℤ pos q *ℤ pos idx +ℤ pos q ≤ℤ begin +ℤ pos d
last_piece q idx d begin h =
    subst (λ t. t ≤ℤ begin +ℤ pos d) (sym (begin_at q idx begin))
      (+ℤ_mono begin begin (pos (q * (idx + 1))) (pos d) (omega arith) (omega arith))

pieces-Chain :
    (n idx_cnt q d : ℕ) (begin : ℤ)
    → 0 < n
    → q * (idx_cnt + n) ≤ d
    → Chain q
        (begin +ℤ pos q *ℤ pos idx_cnt)
        (pieces n idx_cnt begin (begin +ℤ pos d) (pos q))
        (begin +ℤ pos d)
pieces-Chain zero idx_cnt q d begin h fit = absurd (omega arith)
pieces-Chain (suc zero) idx_cnt q d begin h fit = (refl, refl, last_piece q idx_cnt d begin fit)
pieces-Chain (suc (suc zero)) idx_cnt q d begin h fit = (
  refl,
  next_begin q idx_cnt begin,
  pieces-Chain (suc zero) (idx_cnt + 1) q d begin (omega arith) (omega arith),
)
pieces-Chain (suc (suc (suc n))) idx_cnt q d begin h fit = (
  refl,
  next_begin q idx_cnt begin,
  pieces-Chain (suc (suc n)) (idx_cnt + 1) q d begin (omega arith) (omega arith),
)

length-pieces :
    (n idx_cnt : ℕ) (begin end interval : ℤ) → length (pieces n idx_cnt begin end interval) ≡ n
length-pieces zero idx_cnt begin end interval = refl
length-pieces (suc zero) idx_cnt begin end interval = refl
length-pieces (suc (suc n)) idx_cnt begin end interval =
    ap suc (length-pieces (suc n) (idx_cnt + 1) begin end interval)

from_begin : (begin interval : ℤ) → begin +ℤ interval *ℤ pos 0 ≡ begin
unfolding ◌+ℤ◌ ◌*ℤ◌
from_begin (pos b) (pos n) = ground arith
from_begin (pos b) (negsuc n) = ground arith
from_begin (negsuc b) (pos n) = ground arith
from_begin (negsuc b) (negsuc n) = ground arith

-- The time of `d` from `begin` on, cut for one word or more: there are as many pieces as words, and they
-- lead from `begin` to the end with no gap and no overlap. All are as long as each other, but for the
-- last one, which is no shorter: the length is the largest that fits into `d` once for each word.
pub spread-Chain :
    (itn_count d : ℕ) (begin : ℤ)
    → 0 < itn_count
    → (q : ℕ) × (q * itn_count ≤ d)
      × (d < suc q * itn_count)
      × Chain q begin (spread itn_count begin (begin +ℤ pos d)) (begin +ℤ pos d)
      × (length (spread itn_count begin (begin +ℤ pos d)) ≡ itn_count)
unfolding spread
spread-Chain itn_count d begin h =
    let q = d / itn_count in
    let end = begin +ℤ pos d in
    let whole : end -ℤ begin ≡ pos d =
      ap (λ t. t -ℤ begin) (+ℤ_comm begin (pos d)) ∙ +ℤ_cancel (pos d) begin in
    let fit = div-mul-le_self d itn_count in
    (
      q,
      fit,
      omega (arith, lt-div-mul-add {a = d} h),
      subst (λ i. Chain q begin (pieces itn_count 0 begin end (div_ℤ i itn_count)) end) (sym whole)
          (subst (λ b. Chain q b (pieces itn_count 0 begin end (pos q)) end)
            (from_begin begin (pos q)) (pieces-Chain itn_count 0 q d begin h (omega (arith, fit)))),
      length-pieces itn_count 0 begin end (div_ℤ (end -ℤ begin) itn_count),
    )
