-- ===== src/Vad/Window/Ring.antt =====
-- The ring of `WindowDetector` against the queue of the last decisions.
use asr_2pass.Prelude.{
  ℕ, zero, suc, ◌+◌, ◌%◌, ◌≤◌, ◌<◌, ◌≡◌, refl, sym, ap, ◌∙◌, List, [], ◌∷◌, ◌++◌, arith, set,
  get_or, replicate, length, take, drop, length-set, length-replicate, length-append, length-drop,
  length-take, take-append-drop,
}
use mathlib.Core.List.{append_assoc, append-nil}
use native.Mathlib.Decide.{dec_lt}
use asr_2pass.Vad.Window.{WindowDetector, push_frame, reset_window}

abbrev pub sum : List ℕ → ℕ
sum [] = 0
sum (x ∷ xs) = x + sum xs

abbrev pub AllBits : List ℕ → Type 0
AllBits [] = Unit {0}
AllBits (x ∷ xs) = (x ≤ 1) × AllBits xs

-- The sum is that of the ring, which holds zeros and ones, and the position is inside it.
pub record IsWindow (w : WindowDetector) : Type 0 where
  pub sized : length w.win_state ≡ w.win_size_frame
  pub placed : w.cur_win_pos < w.win_size_frame
  pub summed : w.win_sum ≡ sum w.win_state
  pub bits : AllBits w.win_state

sum-set : (xs : List ℕ) (i v : ℕ) → i < length xs → sum (set xs i v) + get_or xs i 0 ≡ sum xs + v
sum-set [] i v h = elim h [ ]
sum-set (x ∷ xs) zero v h = omega arith
sum-set (x ∷ xs) (suc i) v h = omega (arith, sum-set xs i v (omega arith))

get_or-le-sum : (xs : List ℕ) (i : ℕ) → get_or xs i 0 ≤ sum xs
get_or-le-sum [] i = omega arith
get_or-le-sum (x ∷ xs) zero = omega arith
get_or-le-sum (x ∷ xs) (suc i) = omega (arith, get_or-le-sum xs i)

AllBits-set : (xs : List ℕ) (i v : ℕ) → v ≤ 1 → AllBits xs → AllBits (set xs i v)
AllBits-set [] i v h b = b
AllBits-set (x ∷ xs) zero v h b = (h, b.1)
AllBits-set (x ∷ xs) (suc i) v h b = (b.0, AllBits-set xs i v h b.1)

AllBits-replicate : (n : ℕ) → AllBits (replicate n 0)
AllBits-replicate zero = tt
AllBits-replicate (suc n) = (omega arith, AllBits-replicate n)

sum-replicate : (n : ℕ) → sum (replicate n 0) ≡ 0
sum-replicate zero = refl
sum-replicate (suc n) = omega (arith, sum-replicate n)

pub sum-le-length : (xs : List ℕ) → AllBits xs → sum xs ≤ length xs
sum-le-length [] b = omega arith
sum-le-length (x ∷ xs) b = omega (arith, b.0, sum-le-length xs b.1)

pub reset_window-IsWindow : (w : WindowDetector) → 0 < w.win_size_frame → IsWindow (reset_window w)
unfolding reset_window
reset_window-IsWindow w h = record {
  sized = length-replicate w.win_size_frame 0;
  placed = h;
  summed = sym (sum-replicate w.win_size_frame);
  bits = AllBits-replicate w.win_size_frame;
}

pub push_frame-IsWindow :
    (w : WindowDetector) (v : ℕ) → v ≤ 1 → IsWindow w → IsWindow (push_frame w v)
unfolding push_frame
push_frame-IsWindow w v h r = record {
  sized = length-set w.win_state w.cur_win_pos v ∙ r.sized;
  placed = omega (arith, r.placed);
  summed = omega (
    arith,
    r.summed,
    r.sized,
    r.placed,
    get_or-le-sum w.win_state w.cur_win_pos,
    sum-set w.win_state w.cur_win_pos v (omega (arith, r.sized, r.placed)),
  );
  bits = AllBits-set w.win_state w.cur_win_pos v h r.bits;
}

-- The ring read from the oldest entry on.
abbrev pub rotate : List ℕ → ℕ → List ℕ
rotate xs i = drop i xs ++ take i xs

unfoldable pub contents : WindowDetector → List ℕ
contents w = rotate w.win_state w.cur_win_pos

drop-set : (xs : List ℕ) (i v : ℕ) → drop (suc i) (set xs i v) ≡ drop (suc i) xs
drop-set [] i v = refl
drop-set (x ∷ xs) zero v = refl
drop-set (x ∷ xs) (suc i) v = drop-set xs i v

take-set : (xs : List ℕ) (i v : ℕ) → i < length xs → take (suc i) (set xs i v) ≡ take i xs ++ v ∷ []
take-set [] i v h = elim h [ ]
take-set (x ∷ xs) zero v h = refl
take-set (x ∷ xs) (suc i) v h = ap (λ l. x ∷ l) (take-set xs i v (omega arith))

drop_one :
    (xs ys : List ℕ) (i : ℕ) → i < length xs → drop 1 (drop i xs ++ ys) ≡ drop (suc i) xs ++ ys
drop_one [] ys i h = elim h [ ]
drop_one (x ∷ xs) ys zero h = refl
drop_one (x ∷ xs) ys (suc i) h = drop_one xs ys i (omega arith)

drop_all : (xs : List ℕ) (k : ℕ) → length xs ≤ k → drop k xs ≡ []
drop_all [] zero h = refl
drop_all [] (suc k) h = refl
drop_all (x ∷ xs) zero h = elim h [ ]
drop_all (x ∷ xs) (suc k) h = drop_all xs k (omega arith)

take_all : (xs : List ℕ) (k : ℕ) → length xs ≤ k → take k xs ≡ xs
take_all [] zero h = refl
take_all [] (suc k) h = refl
take_all (x ∷ xs) zero h = elim h [ ]
take_all (x ∷ xs) (suc k) h = ap (λ l. x ∷ l) (take_all xs k (omega arith))

-- Writing at `i` and moving on drops the oldest entry and adds the new one at the end.
rotate-set :
    (xs : List ℕ) (i n v : ℕ)
    → length xs ≡ n
    → i < n
    → rotate (set xs i v) ((i + 1) % n) ≡ drop 1 (rotate xs i) ++ v ∷ []
rotate-set xs i n v e h = elim (dec_lt (i + 1) n) [
  | yes p ↦
      let next : (i + 1) % n ≡ suc i = grind arith in
      rw (next, drop-set xs i v, take-set xs i v (omega arith), drop_one xs _ i (omega arith))
        (sym (append_assoc (drop (suc i) xs) (take i xs) (v ∷ [])))
  | no p ↦
      let next : (i + 1) % n ≡ 0 = let last : i + 1 ≡ n = omega arith in rw last (grind arith) in
      let full : set xs i v ≡ take (suc i) (set xs i v) =
        sym (take_all (set xs i v) (suc i) (omega (arith, length-set xs i v))) in
      rw (next, drop_one xs _ i (omega arith), drop_all xs (suc i) (omega arith), append-nil)
        (full ∙ take-set xs i v (omega arith))
]

pub contents-push_frame :
    (w : WindowDetector) (v : ℕ)
    → IsWindow w
    → contents (push_frame w v) ≡ drop 1 (contents w) ++ v ∷ []
unfolding contents push_frame
contents-push_frame w v r = rotate-set w.win_state w.cur_win_pos w.win_size_frame v r.sized r.placed

pub length-contents : (w : WindowDetector) → IsWindow w → length (contents w) ≡ w.win_size_frame
unfolding contents
length-contents w r =
    let i = w.cur_win_pos in
    omega (
      arith,
      r.sized,
      r.placed,
      length-append (drop i w.win_state) (take i w.win_state),
      length-drop i w.win_state,
      length-take i w.win_state,
    )

sum-append : (xs ys : List ℕ) → sum (xs ++ ys) ≡ sum xs + sum ys
sum-append [] ys = omega arith
sum-append (x ∷ xs) ys = omega (arith, sum-append xs ys)

sum-rotate : (xs : List ℕ) (i : ℕ) → sum (rotate xs i) ≡ sum xs
sum-rotate xs i = omega (
  arith,
  sum-append (drop i xs) (take i xs),
  sum-append (take i xs) (drop i xs),
  ap sum (take-append-drop i xs),
)

pub win_sum-contents : (w : WindowDetector) → IsWindow w → w.win_sum ≡ sum (contents w)
unfolding contents
win_sum-contents w r = r.summed ∙ sym (sum-rotate w.win_state w.cur_win_pos)

pub win_sum-le : (w : WindowDetector) → IsWindow w → w.win_sum ≤ w.win_size_frame
win_sum-le w r = omega (arith, r.summed, r.sized, sum-le-length w.win_state r.bits)
