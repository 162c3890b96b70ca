-- ===== src/Timestamp/Smooth/Counts.antt =====
-- The number of the times that `TimestampSmooth` (onnxruntime/src/util.cpp) gives, and the number of
-- the normalised words.
use asr_2pass.Prelude.{
  ℕ, zero, suc, ◌+◌, ◌≤◌, ◌<◌, ◌≡◌, refl, ap, ◌∙◌, sym, Bool, true, false, ◌&&◌, if◌then◌else◌,
  List, [], ◌∷◌, ◌++◌, length, length-append, get_elem?, some, Returns, returns, Returns-bind,
  Returns-if, ltb, lt→ltb, ◌==◌, arith, if-true, if-false, subst,
}
use asr_2pass.Prelude.Int.{ℤ, ◌-ℤ◌, div_ℤ}
use asr_2pass.Prelude.Bytes.{same_bytes}
use asr_2pass.Encode.Classes.{is_empty}
use asr_2pass.Timestamp.Align.Walk.{word, words, Paired}
use asr_2pass.Timestamp.Smooth.{
  Timestamp, Smoothing, back, pieces, spread, given, flush_times, untimed, hold, take_back, settle,
  same_word, other_word, count_itn, smooth_word, smooth_words, pop_back, finish_smoothing,
  start_smoothing, smooth,
}

length-pieces :
    (n idx_cnt : ℕ) (begin end interval : ℤ) → length (pieces n idx_cnt begin end interval) ≡ n
length-pieces zero idx_cnt begin end interval = refl
length-pieces (suc zero) idx_cnt begin end interval = refl
length-pieces (suc (suc n)) idx_cnt begin end interval =
    ap suc (length-pieces (suc n) (idx_cnt + 1) begin end interval)

length-given :
    (n : ℕ) (tmp : List Timestamp) → (ltb 0 n && is_empty tmp) ≡ false → length (given n tmp) ≡ n
unfolding spread
length-given zero [] h = refl
length-given (suc n) [] h = absurd (ground arith)
length-given zero (t ∷ ts) h = refl
length-given (suc n) (t ∷ ts) h =
    ap length (if-true _ _ (lt→ltb 0 (suc n) (omega arith)))
    ∙ length-pieces (suc n) 0 t.0 (back t ts).1 (div_ℤ ((back t ts).1 -ℤ t.0) (suc n))

length-pop_back : (t : Timestamp) (ts : List Timestamp) → length (pop_back (t ∷ ts)) ≡ length ts
length-pop_back t [] = refl
length-pop_back t (u ∷ ts) = ap suc (length-pop_back u ts)

get_elem?-within :
    (ts : List Timestamp) (i : ℕ)
    → i < length ts
    → Returns (λ (t : Timestamp). Unit {0}) (get_elem? ts i)
get_elem?-within [] i h = absurd (omega arith)
get_elem?-within (t ∷ ts) zero h = returns t tt
get_elem?-within (t ∷ ts) (suc i) h = get_elem?-within ts i (omega arith)

same_bytes-is_empty :
    (w1 w2 : List ℕ)
    → same_bytes w1 w2 ≡ true
    → (is_empty w1 && is_empty w2) ≡ false
    → (is_empty w1 ≡ false) × (is_empty w2 ≡ false)
same_bytes-is_empty [] [] same h = absurd (cc)
same_bytes-is_empty [] (b ∷ w2) same h = absurd (cc)
same_bytes-is_empty (b ∷ w1) [] same h = absurd (cc)
same_bytes-is_empty (b ∷ w1) (c ∷ w2) same h = (refl, refl)

-- Before the round of a word: `rest` words of the first alignment are left, of `all`, and `more` words
-- of the second one, of `every_itn`.
record Counts (all every_itn rest more : ℕ) (s : Smoothing) : Type 0 where
  total : length s.timestamps_out + s.itn_count ≡ s.idx_itn
  seen : s.idx_tp + rest ≡ all
  counted : s.idx_itn + more ≡ every_itn
  timed : 0 < s.idx_tp → 0 < length s.timestamps_tmp + length s.timestamps_out

abbrev one_more : Smoothing → Smoothing
one_more s = record s { idx_itn = suc s.idx_itn }

-- After a word that is the same in both texts.
settle-Counts :
    (all every_itn rest more : ℕ) (lent : Bool) (t : Timestamp) (s : Smoothing)
    → untimed s ≡ lent
    → Counts all every_itn (suc rest) (suc more) s
    → Counts all every_itn rest more (one_more (settle lent t s))
unfolding settle flush_times spread
settle-Counts all every_itn rest more true t s u c =
    let fresh = length-given (suc s.itn_count) (t ∷ []) (ground arith) in
    let out = length-append s.timestamps_out (given (suc s.itn_count) (t ∷ [])) in
    record {
      total = omega (arith, c.total, fresh, out);
      seen = omega (arith, c.seen);
      counted = omega (arith, c.counted);
      timed = λ h. omega (arith, fresh, out);
    }
settle-Counts all every_itn rest more false t s u c =
    let fresh = length-given s.itn_count s.timestamps_tmp u in
    let out = length-append s.timestamps_out (given s.itn_count s.timestamps_tmp) in
    let last = length-append (s.timestamps_out ++ given s.itn_count s.timestamps_tmp) (t ∷ []) in
    record {
      total = omega (arith, c.total, fresh, out, last);
      seen = omega (arith, c.seen);
      counted = omega (arith, c.counted);
      timed = λ h. omega (arith, last);
    }

same_word-Counts :
    (timestamps : List Timestamp) (all every_itn rest more : ℕ) (w2 : List ℕ) (s : Smoothing)
    → all ≤ length timestamps
    → is_empty w2 ≡ false
    → Counts all every_itn (suc rest) (suc more) s
    → Returns (λ r. Counts all every_itn rest more (count_itn w2 r)) (same_word timestamps s)
unfolding same_word
same_word-Counts timestamps all every_itn rest more w2 s room filled c =
    Returns-bind (get_elem?-within timestamps s.idx_tp (omega (arith, c.seen))) (λ t known.
      returns (settle (untimed s) t s) (
        subst (λ r. Counts all every_itn rest more r) (sym (if-false _ _ filled))
          (settle-Counts all every_itn rest more (untimed s) t s refl c)))

-- What is left to say after a first word, before the second one is counted.
held_lem :
    (timestamps : List Timestamp) (all every_itn rest more : ℕ) (none_here : Bool) (s : Smoothing)
    → all ≤ length timestamps
    → Counts all every_itn ((if none_here then 0 else 1) + rest) more s
    → Returns (Counts all every_itn rest more) (if none_here then some s else hold timestamps s)
held_lem timestamps all every_itn rest more true s room c =
    returns s (record {
      total = c.total;
      seen = omega (arith, c.seen);
      counted = c.counted;
      timed = c.timed;
    })
held_lem timestamps all every_itn rest more false s room c =
    Returns-bind (get_elem?-within timestamps s.idx_tp (omega (arith, c.seen))) (λ t known.
      let tmp = length-append s.timestamps_tmp (t ∷ []) in
      returns _ (record {
        total = c.total;
        seen = omega (arith, c.seen);
        counted = c.counted;
        timed = λ h. omega (arith, tmp);
      }))

counted_lem :
    (all every_itn rest more : ℕ) (w2 : List ℕ) (r : Smoothing)
    → Counts all every_itn rest (word w2 + more) r
    → Counts all every_itn rest more
        (count_itn w2 (if is_empty w2 then r else record r { itn_count = suc r.itn_count }))
counted_lem all every_itn rest more [] r c = record {
  total = c.total;
  seen = c.seen;
  counted = omega (arith, c.counted);
  timed = c.timed;
}
counted_lem all every_itn rest more (b ∷ w2) r c = record {
  total = omega (arith, c.total);
  seen = c.seen;
  counted = omega (arith, c.counted);
  timed = c.timed;
}

word_one : (w : List ℕ) (n : ℕ) → is_empty w ≡ false → word w + n ≡ suc n
word_one w n h = ground arith

smooth_word-Counts :
    (timestamps : List Timestamp) (all every_itn rest more : ℕ) (w1 w2 : List ℕ) (s : Smoothing)
    → all ≤ length timestamps
    → (is_empty w1 && is_empty w2) ≡ false
    → Counts all every_itn (word w1 + rest) (word w2 + more) s
    → Returns (Counts all every_itn rest more) (smooth_word timestamps w1 w2 s)
unfolding smooth_word other_word
smooth_word-Counts timestamps all every_itn rest more w1 w2 s room one c =
    Returns-bind
      (Returns-if (same_bytes w1 w2)
        (λ same.
          let (filled1, filled2) = same_bytes-is_empty w1 w2 same one in
          same_word-Counts timestamps all every_itn rest more w2 s room filled2 (
            subst (λ n. Counts all every_itn (suc rest) n s) (word_one w2 more filled2)
              (subst (λ n. Counts all every_itn n (word w2 + more) s) (word_one w1 rest filled1)
                c)))
        (λ differ.
          Returns-bind
            (held_lem timestamps all every_itn rest (word w2 + more) (is_empty w1) s room c)
            (λ r d. returns _ (counted_lem all every_itn rest more w2 r d))))
      (λ r d. returns (count_itn w2 r) d)

smooth_words-Counts :
    (timestamps : List Timestamp) (all every_itn : ℕ) (ws1 ws2 : List (List ℕ)) (s : Smoothing)
    → all ≤ length timestamps
    → Paired ws1 ws2
    → Counts all every_itn (words ws1) (words ws2) s
    → Returns (Counts all every_itn 0 0) (smooth_words timestamps ws1 ws2 s)
unfolding smooth_words
smooth_words-Counts timestamps all every_itn [] [] s room paired c = returns s c
smooth_words-Counts timestamps all every_itn [] (w2 ∷ ws2) s room paired c = absurd paired
smooth_words-Counts timestamps all every_itn (w1 ∷ ws1) [] s room paired c = absurd paired
smooth_words-Counts timestamps all every_itn (w1 ∷ ws1) (w2 ∷ ws2) s room (one, paired) c =
    Returns-bind
      (smooth_word-Counts timestamps all every_itn (words ws1) (words ws2) w1 w2 s room one c)
      (λ r d. smooth_words-Counts timestamps all every_itn ws1 ws2 r room paired d)

take_back_lem :
    (all every_itn : ℕ) (out : List Timestamp) (s : Smoothing)
    → out ≡ s.timestamps_out
    → 0 < all
    → untimed s ≡ true
    → Counts all every_itn 0 0 s
    → Returns
        (λ r.
          (untimed r ≡ false)
          × (length r.timestamps_out + r.itn_count ≡ every_itn)
          × (r.idx_itn ≡ every_itn))
        (take_back out s)
take_back_lem all every_itn [] s e some_word u c =
    let empty = empty_of s.timestamps_tmp (ground arith) in
    let nothing = ap length e in
    absurd (omega (arith, c.timed (omega (arith, c.seen)), empty, nothing))
  where
    empty_of : (tmp : List Timestamp) → is_empty tmp ≡ true → length tmp ≡ 0
    empty_of [] h = refl
    empty_of (t ∷ ts) h = absurd (ground arith)
take_back_lem all every_itn (t ∷ ts) s e some_word u c =
    let shorter = length-pop_back t ts in
    let same = ap length e in
    returns _
      (ground arith, omega (arith, shorter, same, c.total, c.counted), omega (arith, c.counted))

finish_smoothing-Counts :
    (all every_itn : ℕ) (s : Smoothing)
    → 0 < all
    → Counts all every_itn 0 0 s
    → Returns
        (λ r. (length r.timestamps_out ≡ every_itn) × (r.idx_itn ≡ every_itn))
        (finish_smoothing s)
unfolding finish_smoothing flush_times
finish_smoothing-Counts all every_itn s some_word c =
    Returns-bind
      (Returns-if (untimed s)
        (λ u. take_back_lem all every_itn s.timestamps_out s refl some_word u c)
        (λ u. returns s (u, omega (arith, c.total, c.counted), omega (arith, c.counted))))
      (λ r (u, total, counted).
        let fresh = length-given r.itn_count r.timestamps_tmp u in
        let out = length-append r.timestamps_out (given r.itn_count r.timestamps_tmp) in
        returns _ (omega (arith, total, fresh, out), counted))

-- Of two alignments that are as long as each other, with no two empty entries at one index, a word at
-- least in the first one and a timestamp for each of its words, the smoothing returns: no timestamp is
-- missed, the test of the length at the end does not fail, and each word of the second alignment
-- is given one time.
pub smooth-counts :
    (timestamps : List Timestamp) (ws1 ws2 : List (List ℕ))
    → Paired ws1 ws2
    → 0 < words ws1
    → words ws1 ≤ length timestamps
    → Returns (λ out. length out ≡ words ws2) (smooth timestamps ws1 ws2)
unfolding smooth
smooth-counts timestamps ws1 ws2 paired some_word room =
    Returns-bind
      (Returns-bind
        (smooth_words-Counts timestamps (words ws1) (words ws2) ws1 ws2 start_smoothing room paired
          (record {
            total = refl;
            seen = omega arith;
            counted = omega arith;
            timed = λ h. absurd (omega arith);
          }))
        (λ s c. finish_smoothing-Counts (words ws1) (words ws2) s some_word c))
      (λ r (same, counted).
        Returns-if (length r.timestamps_out == r.idx_itn) (λ h. returns r.timestamps_out same)
          (λ h. absurd (ground (arith, same, counted))))
