-- ===== src/Text/Splitting.antt =====
-- The parts of `split_string` (onnxruntime/src/utf8-string.cpp) and `SplitStr`
-- (onnxruntime/src/util.cpp) against the string that they come from.
use asr_2pass.Prelude.{
  ℕ, zero, suc, ◌+◌, ◌≤◌, ◌<◌, ◌≡◌, refl, ap, ◌∙◌, sym, Bool, true, false, Option, none, some, List,
  [], ◌∷◌, ◌++◌, length, drop, take, arith, length-drop, ◌>>=◌, Returns, returns, Returns-bind,
  Returns-mono, if◌then◌else◌, inl, inr, ◌⊎◌, subst, length-append,
}
use asr_2pass.Encode.Classes.{some_eq}
use asr_2pass.Text.{starts_with, find, split_at, split_string, split_str_from}

-- The parts, with the delimiter between them.
abbrev pub join : List ℕ → List (List ℕ) → List ℕ
join delim [] = []
join delim (p ∷ []) = p
join delim (p ∷ q ∷ ps) = p ++ (delim ++ join delim (q ∷ ps))

starts_with_lem :
    (delim s : List ℕ) → starts_with delim s ≡ true → delim ++ drop (length delim) s ≡ s
starts_with_lem [] s h = refl
starts_with_lem (d ∷ delim) [] h = absurd (cc)
starts_with_lem (d ∷ delim) (ch ∷ s) h =
    let same : d ≡ ch = ground arith in
    let rest : starts_with delim s ≡ true = ground arith in
    ap (λ t. t ∷ (delim ++ drop (length delim) s)) same
    ∙ ap (λ t. ch ∷ t) (starts_with_lem delim s rest)

find_round :
    (here : Bool) (later : Option ℕ) (pos : ℕ)
    → (if here then some 0 else (later >>= λ p. some (suc p))) ≡ some pos
    → ((here ≡ true) × (pos ≡ 0)) ⊎ ((p : ℕ) × (later ≡ some p) × (pos ≡ suc p))
find_round true later pos h = inl (refl, sym (some_eq h))
find_round false none pos h = absurd (cc)
find_round false (some p) pos h = inr (p, refl, sym (some_eq h))

-- Where the delimiter is found, it stands there.
Stands : List ℕ → List ℕ → ℕ → Type 0
Stands delim s pos =
    (take pos s ++ (delim ++ drop (pos + length delim) s) ≡ s) × (pos + length delim ≤ length s)

Stands-here : (delim s : List ℕ) → starts_with delim s ≡ true → Stands delim s 0
unfolding Stands
Stands-here delim s h =
    let e = starts_with_lem delim s h in
    (
      ap (λ n. delim ++ drop n s) zero_plus ∙ e,
      le_of (
          subst (λ t. length delim ≤ length t) e
            (omega (arith, length-append delim (drop (length delim) s)))),
    )
  where
    zero_plus : 0 + length delim ≡ length delim
    zero_plus = omega arith

    le_of : length delim ≤ length s → 0 + length delim ≤ length s
    le_of h = omega arith

find_lem : (delim s : List ℕ) (pos : ℕ) → find delim s ≡ some pos → Stands delim s pos
unfolding find Stands
find_lem [] [] pos h = subst (λ p. Stands [] [] p) (some_eq h) (refl, omega arith)
find_lem (d ∷ delim) [] pos h = absurd (cc)
find_lem delim (ch ∷ s) pos h =
    elim (find_round (starts_with delim (ch ∷ s)) (find delim s) pos h) [
      | inl (here, z) ↦
          subst (λ p. Stands delim (ch ∷ s) p) (sym z) (Stands-here delim (ch ∷ s) here)
      | inr (p, later, z) ↦
          let (e, short) = find_lem delim s p later in
          subst (λ q. Stands delim (ch ∷ s) q) (sym z)
            (
              ap (λ n. (ch ∷ take p s) ++ (delim ++ drop n (ch ∷ s))) (suc_plus p)
                  ∙ ap (λ t. ch ∷ t) e,
              omega arith,
            )
    ]
  where
    suc_plus : (p : ℕ) → suc p + length delim ≡ suc (p + length delim)
    suc_plus p = omega arith

-- What `out` says of `s`, alone and after a further part.
abbrev Joined : List ℕ → List ℕ → List (List ℕ) → Type 0
Joined delim s out =
    (join delim out ≡ s) × ((p : List ℕ) → join delim (p ∷ out) ≡ p ++ (delim ++ s))

Joined-last : (delim s : List ℕ) → Joined delim s (s ∷ [])
Joined-last delim s = (refl, λ p. refl)

Joined-more :
    (delim s rest part : List ℕ) (out : List (List ℕ))
    → Joined delim rest out
    → part ++ (delim ++ rest) ≡ s
    → Joined delim s (part ∷ out)
Joined-more delim s rest part out (e, more) same =
    (more part ∙ same, λ p. ap (λ t. p ++ (delim ++ t)) (more part ∙ same))

split_round :
    (delim s : List ℕ) (found : Option ℕ) (rest : ℕ → Option (List (List ℕ)))
    → ((pos : ℕ)
        → found ≡ some pos
        → Stands delim s pos × Returns (Joined delim (drop (pos + length delim) s)) (rest pos))
    → Returns (Joined delim s) (split_at found s rest)
unfolding Stands
split_round delim s none rest h = returns (s ∷ []) (Joined-last delim s)
split_round delim s (some pos) rest h =
    let ((same, short), run) = h pos refl in
    Returns-bind run (λ out joined.
      returns (take pos s ∷ out)
        (Joined-more delim s (drop (pos + length delim) s) (take pos s) out joined same))

split_string-Joined :
    (fuel : ℕ) (s delim : List ℕ)
    → 0 < length delim
    → length s < fuel
    → Returns (Joined delim s) (split_string fuel s delim)
unfolding split_string Stands
split_string-Joined zero s delim some_delim enough = absurd (omega arith)
split_string-Joined (suc fuel) s delim some_delim enough =
    split_round delim s (find delim s)
      (λ pos. split_string fuel (drop (pos + length delim) s) delim)
      (λ pos at.
        let (same, short) = find_lem delim s pos at in
        let shorter = length-drop (pos + length delim) s in
        (
          (same, short),
          split_string-Joined fuel (drop (pos + length delim) s) delim some_delim (omega arith),
        ))

-- With a delimiter that is not empty, and more fuel than the string has bytes, `split_string` returns,
-- and its parts with the delimiter between them are the string.
pub split_string-join :
    (fuel : ℕ) (s delim : List ℕ)
    → 0 < length delim
    → length s < fuel
    → Returns (λ out. join delim out ≡ s) (split_string fuel s delim)
split_string-join fuel s delim some_delim enough =
    Returns-mono (split_string-Joined fuel s delim some_delim enough) (λ out j. j.0)

drop-nil : (n : ℕ) → drop {A = ℕ} n [] ≡ []
drop-nil zero = refl
drop-nil (suc n) = refl

drop-drop : (n m : ℕ) (s : List ℕ) → drop m (drop n s) ≡ drop (n + m) s
drop-drop zero m s = ap (λ n. drop n s) (omega arith)
drop-drop (suc n) m [] = drop-nil m ∙ sym (drop-nil (suc n + m))
drop-drop (suc n) m (ch ∷ s) = drop-drop n m s ∙ ap (λ k. drop k (ch ∷ s)) (sym suc_plus)
  where
    suc_plus : suc n + m ≡ suc (n + m)
    suc_plus = omega arith

split_at_ext :
    (found : Option ℕ) (s : List ℕ) (f g : ℕ → Option (List (List ℕ)))
    → ((pos : ℕ) → f pos ≡ g pos)
    → split_at found s f ≡ split_at found s g
split_at_ext none s f g h = refl
split_at_ext (some pos) s f g h = ap (λ t. t >>= λ output. some (take pos s ∷ output)) (h pos)

-- `SplitStr`, which searches on in the whole string from an index, returns what `split_string`, which
-- erases what it has read, returns for the rest of the string, with the same fuel.
pub split_str_from-split_string :
    (fuel : ℕ) (s : List ℕ) (start : ℕ) (delim : List ℕ)
    → split_str_from fuel s start delim ≡ split_string fuel (drop start s) delim
unfolding split_str_from split_string
split_str_from-split_string zero s start delim = refl
split_str_from-split_string (suc fuel) s start delim =
    split_at_ext (find delim (drop start s)) (drop start s)
      (λ pos. split_str_from fuel s (start + pos + length delim) delim)
      (λ pos. split_string fuel (drop (pos + length delim) (drop start s)) delim)
      (λ pos.
        split_str_from-split_string fuel s (start + pos + length delim) delim
        ∙ ap (λ t. split_string fuel t delim)
            (ap (λ n. drop n s) (omega arith) ∙ sym (drop-drop start (pos + length delim) s)))
