-- ===== src/Timestamp/Smooth.antt =====
-- The times of `TimestampSmooth` (onnxruntime/src/util.cpp). A timestamp is the pair of its begin and
-- its end; `none` is a return of the empty string with an error logged.
use asr_2pass.Prelude.{
  ℕ, zero, suc, ◌+◌, ◌-◌, ◌*◌, ◌≡◌, refl, Bool, true, false, ◌&&◌, ◌||◌, not, if◌then◌else◌, List,
  [], ◌∷◌, ◌++◌, leb, ltb, ◌==◌, length, get_elem?, Option, none, some, ◌>>=◌,
}
use asr_2pass.Prelude.Int.{ℤ, pos, ◌+ℤ◌, ◌-ℤ◌, ◌*ℤ◌, div_ℤ}
use asr_2pass.Prelude.Bytes.{same_bytes}
use asr_2pass.Encode.Classes.{is_empty}
use asr_2pass.Timestamp.Align.{Alignments, align}
pub mod Whole
pub mod Counts

abbrev pub Timestamp : Type 0
Timestamp = ℤ × ℤ

-- The variables of the loop; `timestamps_tmp` and `timestamps_out` are in their order.
pub record Smoothing : Type 0 where
  pub itn_count : ℕ
  pub idx_tp : ℕ
  pub idx_itn : ℕ
  pub timestamps_tmp : List Timestamp
  pub timestamps_out : List Timestamp

abbrev pub back : Timestamp → List Timestamp → Timestamp
back t [] = t
back t (u ∷ ts) = back u ts

-- The pieces from `idx_cnt` on; the last one ends at `end`.
abbrev pub pieces : ℕ → ℕ → ℤ → ℤ → ℤ → List Timestamp
pieces zero idx_cnt begin end interval = []
pieces (suc zero) idx_cnt begin end interval = (begin +ℤ interval *ℤ pos idx_cnt, end) ∷ []
pieces (suc (suc n)) idx_cnt begin end interval =
    (begin +ℤ interval *ℤ pos idx_cnt, begin +ℤ interval *ℤ pos (idx_cnt + 1))
    ∷ pieces (suc n) (idx_cnt + 1) begin end interval

-- The time from `begin` to `end` in `itn_count` pieces.
unfoldable pub spread : ℕ → ℤ → ℤ → List Timestamp
unfolding ◌-ℤ◌
spread itn_count begin end = pieces itn_count 0 begin end (div_ℤ (end -ℤ begin) itn_count)

-- The times for the words that are counted: those at hand, spread anew.
abbrev pub given : ℕ → List Timestamp → List Timestamp
given itn_count [] = []
given itn_count (t ∷ ts) = if ltb 0 itn_count then spread itn_count t.0 (back t ts).1 else []

-- The times that are at hand are given to the words that are counted, and dropped.
unfoldable pub flush_times : Smoothing → Smoothing
unfolding spread
flush_times s = record s {
  timestamps_tmp = [];
  timestamps_out = s.timestamps_out ++ given s.itn_count s.timestamps_tmp;
}

-- Words that have no time are counted, and there is none at hand.
abbrev pub untimed : Smoothing → Bool
untimed s = ltb 0 s.itn_count && is_empty s.timestamps_tmp

-- `timestamps_tmp.push_back(t); itn_count++`
abbrev pub lend : Timestamp → Smoothing → Smoothing
lend t s = record s { timestamps_tmp = t ∷ []; itn_count = suc s.itn_count }

-- `timestamps_out.push_back(t)`
abbrev pub push : Timestamp → Smoothing → Smoothing
push t s = record s { timestamps_out = s.timestamps_out ++ t ∷ [] }

-- `idx_tp++; itn_count = 0`
abbrev pub next_tp : Smoothing → Smoothing
next_tp s = record s { idx_tp = suc s.idx_tp; itn_count = 0 }

-- The time of a word that is the same in both texts: words before it that have none get a share of
-- it, or it is the word's own.
unfoldable pub settle : Bool → Timestamp → Smoothing → Smoothing
unfolding flush_times
settle true t s = next_tp (flush_times (lend t s))
settle false t s = next_tp (push t (flush_times s))

-- The round of two words that are the same.
unfoldable pub same_word : List Timestamp → Smoothing → Option Smoothing
unfolding settle
same_word timestamps s = get_elem? timestamps s.idx_tp >>= λ t. some (settle (untimed s) t s)

-- `timestamps_tmp.push_back(timestamps[idx_tp]); idx_tp++`
abbrev pub hold : List Timestamp → Smoothing → Option Smoothing
hold timestamps s = get_elem? timestamps s.idx_tp >>= λ t.
    some (record s { timestamps_tmp = s.timestamps_tmp ++ t ∷ []; idx_tp = suc s.idx_tp })

-- The round of two words that differ.
unfoldable pub other_word : List Timestamp → List ℕ → List ℕ → Smoothing → Option Smoothing
other_word timestamps w1 w2 s = (if is_empty w1 then some s else hold timestamps s) >>= λ r.
    some (if is_empty w2 then r else record r { itn_count = suc r.itn_count })

-- `if (!alignment_str2[index].empty()) idx_itn++`
abbrev pub count_itn : List ℕ → Smoothing → Smoothing
count_itn w2 s = if is_empty w2 then s else record s { idx_itn = suc s.idx_itn }

-- A round of the loop.
unfoldable pub smooth_word : List Timestamp → List ℕ → List ℕ → Smoothing → Option Smoothing
unfolding same_word other_word
smooth_word timestamps w1 w2 s =
    (if same_bytes w1 w2 then same_word timestamps s else other_word timestamps w1 w2 s) >>= λ r.
    some (count_itn w2 r)

-- The loop, over the indexes of the first alignment. Where the second one is shorter, the C++ code
-- reads past its end.
unfoldable pub smooth_words :
    List Timestamp → List (List ℕ) → List (List ℕ) → Smoothing → Option Smoothing
unfolding smooth_word
smooth_words timestamps [] ws2 s = some s
smooth_words timestamps (w1 ∷ ws1) [] s = none
smooth_words timestamps (w1 ∷ ws1) (w2 ∷ ws2) s =
    smooth_word timestamps w1 w2 s >>= λ r. smooth_words timestamps ws1 ws2 r

-- All but the last one.
abbrev pub pop_back : List Timestamp → List Timestamp
pop_back [] = []
pop_back (t ∷ []) = []
pop_back (t ∷ u ∷ ts) = t ∷ pop_back (u ∷ ts)

-- The last time that was given is taken back, for the words at the end that have none.
abbrev pub take_back : List Timestamp → Smoothing → Option Smoothing
take_back [] s = none
take_back (t ∷ ts) s = some (record s {
  timestamps_tmp = back t ts ∷ [];
  itn_count = suc s.itn_count;
  timestamps_out = pop_back (t ∷ ts);
})

-- The block after the loop.
unfoldable pub finish_smoothing : Smoothing → Option Smoothing
unfolding flush_times
finish_smoothing s =
    (if untimed s then take_back s.timestamps_out s else some s) >>= λ r. some (flush_times r)

abbrev pub start_smoothing : Smoothing
start_smoothing = record {
  itn_count = 0;
  idx_tp = 0;
  idx_itn = 0;
  timestamps_tmp = [];
  timestamps_out = [];
}

-- The smoothing of two alignments, with the test of the length at the end.
unfoldable pub smooth : List Timestamp → List (List ℕ) → List (List ℕ) → Option (List Timestamp)
unfolding smooth_words finish_smoothing
smooth timestamps ws1 ws2 =
    smooth_words timestamps ws1 ws2 start_smoothing >>= finish_smoothing >>= λ s.
    if length s.timestamps_out == s.idx_itn then some s.timestamps_out else none

-- `TimestampSmooth`, on the words of the two texts and the timestamps that are parsed; what
-- it returns is printed by `VectorToString`.
unfoldable pub timestamp_smooth :
    List (List ℕ) → List (List ℕ) → List Timestamp → Option (List Timestamp)
unfolding smooth align
timestamp_smooth characters characters_itn timestamps =
    if is_empty timestamps
    then none
    else align characters characters_itn >>= λ a.
        smooth timestamps a.alignment_str1 a.alignment_str2
