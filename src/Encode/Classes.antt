-- ===== src/Encode/Classes.antt =====
-- The tests on whole strings of `EncodeConverter` (onnxruntime/src/encode_converter.cpp), and the
-- words that a punctuation model's output is put together from. A null pointer is an empty string.
use asr_2pass.Prelude.{
  ℕ, zero, suc, ◌+◌, ◌≡◌, refl, ap, ◌∙◌, sym, Bool, true, false, ◌&&◌, ◌||◌, not, if◌then◌else◌,
  List, [], ◌∷◌, ◌++◌, ltb, leb, ◌==◌, length, arith, Option, none, some, drop, take, ◌>>=◌,
  length-append, if-false, ◌≤◌, ◌<◌, ◌⊎◌, inl, inr,
}
use mathlib.Core.List.{append_assoc, append-nil}
use asr_2pass.Prelude.Bytes.{isalpha, isalnum, ispunct, isblank, within}
use asr_2pass.Encode.{utf8_to_utf16_buf, utf8_to_utf16_first}

abbrev pub is_empty {ℓ} : {A : Type ℓ} → List A → Bool
is_empty [] = true
is_empty (x ∷ xs) = false

abbrev pub every : (ℕ → Bool) → List ℕ → Bool
every p [] = true
every p (x ∷ xs) = p x && every p xs

abbrev pub any_of : (ℕ → Bool) → List ℕ → Bool
any_of p [] = false
any_of p (x ∷ xs) = p x || any_of p xs

-- `IsChineseCharacter`, of encode_converter.h.
unfoldable pub is_chinese_character : ℕ → Bool
is_chinese_character u = within 0x4e00 0x9fff u || within 0x3400 0x4dff u

-- `IsAllChineseCharactor`
unfoldable pub is_all_chinese_charactor : List ℕ → Bool
unfolding utf8_to_utf16_buf utf8_to_utf16_first
is_all_chinese_charactor s =
    not (is_empty s) && every (within 0x4e00 0x9fff) (utf8_to_utf16_buf (length s) s (length s + 1))

unfoldable pub has_alpha : List ℕ → Bool
has_alpha s = any_of (λ b. ltb 0 b && isalpha b) s

unfoldable pub is_all_alpha : List ℕ → Bool
is_all_alpha s = not (is_empty s) && every (λ b. ltb 0 b && isalpha b) s

unfoldable pub is_all_alpha_and_punct : List ℕ → Bool
unfolding has_alpha
is_all_alpha_and_punct s =
    not (is_empty s) && has_alpha s && every (λ b. ltb 0 b && (isalpha b || ispunct b)) s

abbrev pub apostrophe : ℕ
apostrophe = 39

unfoldable pub is_all_alpha_and_digit : List ℕ → Bool
unfolding has_alpha
is_all_alpha_and_digit s =
    not (is_empty s)
    && has_alpha s
    && every (λ b. ltb 0 b && (isalnum b || isalpha b || b == apostrophe)) s

unfoldable pub is_all_alpha_and_digit_and_blank : List ℕ → Bool
is_all_alpha_and_digit_and_blank s =
    not (is_empty s)
    && every (λ b. ltb 0 b && (isalnum b || isalpha b || isblank b || b == apostrophe)) s

unfoldable pub need_add_tail_blank : List ℕ → Bool
unfolding is_all_alpha is_all_alpha_and_punct is_all_alpha_and_digit
need_add_tail_blank s =
    not (is_empty s) && (is_all_alpha s || is_all_alpha_and_punct s || is_all_alpha_and_digit s)

-- `output[output.size() - 1] += w`
abbrev pub append_last : List ℕ → List (List ℕ) → List (List ℕ)
append_last w [] = []
append_last w (x ∷ []) = (x ++ w) ∷ []
append_last w (x ∷ y ∷ xs) = x ∷ append_last w (y ∷ xs)

-- The loop of `MergeEnglishWord`, from the index `i` on; the words are read by the same index. Where
-- there are fewer words than masks the C++ code reads past the end: `none`.
unfoldable pub merge_loop : ℕ → List (List ℕ) → List ℕ → List (List ℕ) → Option (List (List ℕ))
merge_loop i words [] output = some output
merge_loop i [] (k ∷ mask) output = none
merge_loop i (w ∷ words) (k ∷ mask) output =
    merge_loop (i + 1) words mask
      (if k == 1 && ltb 0 i then append_last w output else output ++ w ∷ [])

unfoldable pub merge_english_word : List (List ℕ) → List ℕ → Option (List (List ℕ))
unfolding merge_loop
merge_english_word words mask = merge_loop 0 words mask []

-- The length that `Utf8ToCharset` takes from a lead byte.
unfoldable pub charset_len : ℕ → ℕ
charset_len b =
    if leb 0xfc b
    then 6
    else if leb 0xf8 b
    then 5
    else if leb 0xf0 b
    then 4
    else if leb 0xe0 b
    then 3
    else if leb 0xc0 b
    then 2
    else 1

-- `Utf8ToCharset`: the loop ends only if `i` meets the length. Where the last character is cut off,
-- `i` passes it, and the next `substr` throws: `none`.
unfoldable pub utf8_to_charset : ℕ → List ℕ → Option (List (List ℕ))
utf8_to_charset fuel [] = some []
utf8_to_charset zero (b ∷ s) = none
utf8_to_charset (suc fuel) (b ∷ s) =
    let n = charset_len b in
    let rest = utf8_to_charset fuel (drop n (b ∷ s)) in
    if ltb (length (b ∷ s)) n then none else rest >>= λ output. some (take n (b ∷ s) ∷ output)

abbrev pub concat : List (List ℕ) → List ℕ
concat [] = []
concat (w ∷ ws) = w ++ concat ws

pub concat-push : (ws : List (List ℕ)) (w : List ℕ) → concat (ws ++ w ∷ []) ≡ concat ws ++ w
concat-push [] w = append-nil w
concat-push (x ∷ ws) w = ap (λ t. x ++ t) (concat-push ws w) ∙ sym (append_assoc x (concat ws) w)

concat-append_last :
    (w x : List ℕ) (ws : List (List ℕ)) → concat (append_last w (x ∷ ws)) ≡ concat (x ∷ ws) ++ w
concat-append_last w x [] = append-nil (x ++ w) ∙ ap (λ t. t ++ w) (sym (append-nil x))
concat-append_last w x (y ∷ ws) =
    ap (λ t. x ++ t) (concat-append_last w y ws) ∙ sym (append_assoc x (concat (y ∷ ws)) w)

pub some_eq : {A : Type 0} {x y : A} → some x ≡ some y → x ≡ y
some_eq {x = x} e = ap (get_or x) e
  where
    get_or : {B : Type 0} → B → Option B → B
    get_or d none = d
    get_or d (some b) = b

abbrev NonEmpty : List (List ℕ) → Type 0
NonEmpty [] = ⊥
NonEmpty (x ∷ xs) = Unit {0}

abbrev joined : Bool → List ℕ → List (List ℕ) → List (List ℕ)
joined merge w output = if merge then append_last w output else output ++ w ∷ []

joined_lem :
    (merge : Bool) (w : List ℕ) (output : List (List ℕ))
    → (merge ≡ false) ⊎ NonEmpty output
    → (concat (joined merge w output) ≡ concat output ++ w) × NonEmpty (joined merge w output)
joined_lem true w [] (inl h) = absurd (cc)
joined_lem true w [] (inr h) = absurd h
joined_lem true w (x ∷ []) h = (concat-append_last w x [], tt)
joined_lem true w (x ∷ y ∷ ws) h = (concat-append_last w x (y ∷ ws), tt)
joined_lem false w [] h = (concat-push [] w, tt)
joined_lem false w (x ∷ ws) h = (concat-push (x ∷ ws) w, tt)

abbrev take_words : ℕ → List (List ℕ) → List (List ℕ)
take_words zero ws = []
take_words (suc n) [] = []
take_words (suc n) (w ∷ ws) = w ∷ take_words n ws

merge_loop-concat :
    (i : ℕ) (words : List (List ℕ)) (mask : List ℕ) (output : List (List ℕ))
    → length mask ≤ length words
    → (i ≡ 0) ⊎ NonEmpty output
    → (out : List (List ℕ)) × (merge_loop i words mask output ≡ some out)
      × (concat out ≡ concat output ++ concat (take_words (length mask) words))
unfolding merge_loop
merge_loop-concat i words [] output h start = (output, refl, sym (append-nil (concat output)))
merge_loop-concat i [] (k ∷ mask) output h start = elim h [ ]
merge_loop-concat i (w ∷ words) (k ∷ mask) output h start =
    let (e, filled) = joined_lem (k == 1 && ltb 0 i) w output (first start) in
    let (out, run, same) =
      merge_loop-concat (i + 1) words mask (joined (k == 1 && ltb 0 i) w output) (omega arith)
        (inr filled) in
    (
      out,
      run,
      same
          ∙ ap (λ t. t ++ concat (take_words (length mask) words)) e
          ∙ append_assoc (concat output) w (concat (take_words (length mask) words)),
    )
  where
    first : (i ≡ 0) ⊎ NonEmpty output → ((k == 1 && ltb 0 i) ≡ false) ⊎ NonEmpty output
    first (inl z) = inl (ground arith)
    first (inr f) = inr f

all_words : (ws : List (List ℕ)) (n : ℕ) → n ≡ length ws → take_words n ws ≡ ws
all_words [] zero e = refl
all_words [] (suc n) e = absurd (omega arith)
all_words (w ∷ ws) zero e = absurd (omega arith)
all_words (w ∷ ws) (suc n) e = ap (λ t. w ∷ t) (all_words ws n (omega arith))

-- Where there is a word for each mask, merging returns, and loses and moves no byte: the words that
-- come out are together the words that went in.
pub merge_english_word-concat :
    (words : List (List ℕ)) (mask : List ℕ)
    → length mask ≡ length words
    → (out : List (List ℕ)) × (merge_english_word words mask ≡ some out)
      × (concat out ≡ concat words)
unfolding merge_english_word
merge_english_word-concat words mask h =
    let (out, run, same) = merge_loop-concat 0 words mask [] (omega arith) (inl refl) in
    (out, run, same ∙ ap concat (all_words words (length mask) h))

take-length : (c r : List ℕ) → take (length c) (c ++ r) ≡ c
take-length [] r = refl
take-length (b ∷ c) r = ap (λ t. b ∷ t) (take-length c r)

drop-length : (c r : List ℕ) → drop (length c) (c ++ r) ≡ r
drop-length [] r = refl
drop-length (b ∷ c) r = drop-length c r

-- A character of UTF-8 by its first byte and the number of its bytes, also in the old forms of five and
-- six.
pub data IsChar : List ℕ → Type 0 where
  one : {a : ℕ} → a < 0x80 → IsChar (a ∷ [])
  two : {a b : ℕ} → 0xc0 ≤ a → a < 0xe0 → IsChar (a ∷ b ∷ [])
  three : {a b c : ℕ} → 0xe0 ≤ a → a < 0xf0 → IsChar (a ∷ b ∷ c ∷ [])
  four : {a b c d : ℕ} → 0xf0 ≤ a → a < 0xf8 → IsChar (a ∷ b ∷ c ∷ d ∷ [])
  five : {a b c d e : ℕ} → 0xf8 ≤ a → a < 0xfc → IsChar (a ∷ b ∷ c ∷ d ∷ e ∷ [])
  six : {a b c d e f : ℕ} → 0xfc ≤ a → a < 0xfe → IsChar (a ∷ b ∷ c ∷ d ∷ e ∷ f ∷ [])

abbrev pub AllChars : List (List ℕ) → Type 0
AllChars [] = Unit {0}
AllChars (c ∷ cs) = IsChar c × AllChars cs

IsChar-charset_len : (b : ℕ) (c : List ℕ) → IsChar (b ∷ c) → charset_len b ≡ length (b ∷ c)
unfolding charset_len
IsChar-charset_len _ _ (one h) = ground arith
IsChar-charset_len _ _ (two h k) = ground arith
IsChar-charset_len _ _ (three h k) = ground arith
IsChar-charset_len _ _ (four h k) = ground arith
IsChar-charset_len _ _ (five h k) = ground arith
IsChar-charset_len _ _ (six h k) = ground arith

-- A string of characters of UTF-8, of which the first byte tells the number of the bytes, is split into
-- just these characters, with as much fuel as there are characters.
pub utf8_to_charset-concat_chars :
    (fuel : ℕ) (cs : List (List ℕ))
    → AllChars cs
    → length cs ≤ fuel
    → utf8_to_charset fuel (concat cs) ≡ some cs
unfolding utf8_to_charset
utf8_to_charset-concat_chars fuel [] h enough = refl
utf8_to_charset-concat_chars fuel ([] ∷ cs) (h, hs) enough = elim h [ ]
utf8_to_charset-concat_chars zero ((b ∷ c) ∷ cs) h enough = absurd (omega arith)
utf8_to_charset-concat_chars (suc fuel) ((b ∷ c) ∷ cs) (char, h) enough =
    let len = IsChar-charset_len b c char in
    let s = b ∷ (c ++ concat cs) in
    let n = charset_len b in
    let long = length-append (b ∷ c) (concat cs) in
    let head : take n s ≡ b ∷ c = ap (λ k. take k s) len ∙ take-length (b ∷ c) (concat cs) in
    let tail : drop n s ≡ concat cs = ap (λ k. drop k s) len ∙ drop-length (b ∷ c) (concat cs) in
    if-false {b = ltb (length s) n} _ _ (ground (arith, long, len))
    ∙ ap (λ t. utf8_to_charset fuel t >>= λ output. some (take n s ∷ output)) tail
    ∙ ap (λ t. t >>= λ output. some (take n s ∷ output))
        (utf8_to_charset-concat_chars fuel cs h (omega arith))
    ∙ ap (λ t. some (t ∷ cs)) head
