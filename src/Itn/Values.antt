-- ===== src/Itn/Values.antt =====
-- The values that `TokenParser::parse_value` (onnxruntime/src/itn-token-parser.cpp) reads, and those at
-- which it does not stop.
use asr_2pass.Prelude.{
  ℕ, zero, suc, ◌≡◌, refl, ap, ◌∙◌, Bool, true, false, ◌&&◌, not, if◌then◌else◌, List, [], ◌∷◌,
  ◌++◌, Option, none, some, ◌>>=◌, if-true, if-false,
}
use asr_2pass.Encode.Classes.{concat}
use asr_2pass.Itn.{
  Char, is_char, quote, backslash, value_loop, parse_value, current, read, value_rounds,
}

abbrev pub quoted : List Char → List Char
quoted rest = (quote ∷ []) ∷ rest

-- A value as it is written, read with the flag `escape`: no quote but behind a backslash, and no
-- backslash pair right behind another one.
pub data IsValue : Bool → List Char → Type 0 where
  nil : {e : Bool} → IsValue e []
  plain :
      {e : Bool} {c : Char} {vs : List Char}
      → is_char quote c ≡ false
      → (is_char backslash c && not e) ≡ false
      → IsValue false vs
      → IsValue e (c ∷ vs)
  escaped :
      {c d : Char} {vs : List Char}
      → is_char quote c ≡ false
      → is_char backslash c ≡ true
      → IsValue true vs
      → IsValue false (c ∷ d ∷ vs)

at_quote :
    (escape : Bool) (rest : List Char) → value_loop escape (quoted rest) ≡ some ([], quoted rest)
unfolding value_loop
at_quote escape [] = refl
at_quote escape (d ∷ rest) = refl

-- The loop at a character that is no quote, with another one behind it.
value_round :
    (escape : Bool) (c d : Char) (text : List Char)
    → is_char quote c ≡ false
    → value_loop escape (c ∷ d ∷ text) ≡ (
        if is_char backslash c && not escape
        then (value_loop true text >>= λ (value, rest). some (c ++ (d ++ value), rest))
        else (value_loop false (d ∷ text) >>= λ (value, rest). some (c ++ value, rest)))
unfolding value_loop
value_round escape c d text h = if-false _ _ h

no_escape :
    (escape : Bool) (c : Char) (text value rest : List Char)
    → is_char quote c ≡ false
    → (is_char backslash c && not escape) ≡ false
    → value_loop false text ≡ some (concat value, rest)
    → value_loop escape (c ∷ text) ≡ some (c ++ concat value, rest)
unfolding value_loop
no_escape escape c [] value rest h k e = absurd (cc)
no_escape escape c (d ∷ text) value rest h k e =
    value_round escape c d text h ∙ if-false _ _ k ∙ ap (λ o. o >>= λ (v, r). some (c ++ v, r)) e

-- The value is read up to the quote that ends it.
pub value_loop-IsValue :
    (escape : Bool) (vs rest : List Char)
    → IsValue escape vs
    → value_loop escape (vs ++ quoted rest) ≡ some (concat vs, quoted rest)
value_loop-IsValue escape _ rest nil = at_quote escape rest
value_loop-IsValue escape _ rest (plain {c = c} {vs = vs} h k v) =
    no_escape escape c (vs ++ quoted rest) vs (quoted rest) h k (value_loop-IsValue false vs rest v)
value_loop-IsValue _ _ rest (escaped {c = c} {d = d} {vs = vs} h k v) =
    value_round false c d (vs ++ quoted rest) h
    ∙ if-true _ _ (ap (λ b. b && true) k)
    ∙ ap (λ o. o >>= λ (value, r). some (c ++ (d ++ value), r)) (value_loop-IsValue true vs rest v)

abbrev pub NoQuote : List Char → Type 0
NoQuote [] = Unit {0}
NoQuote (c ∷ text) = (is_char quote c ≡ false) × NoQuote text

-- What a round puts before the value that the rest of the text has.
abbrev put : List ℕ → Option (List ℕ × List Char) → Option (List ℕ × List Char)
put c o = o >>= λ (value, rest). some (c ++ value, rest)

abbrev put_two : List ℕ → List ℕ → Option (List ℕ × List Char) → Option (List ℕ × List Char)
put_two c d o = o >>= λ (value, rest). some (c ++ (d ++ value), rest)

no_value :
    (b : Bool) (x y : Option (List ℕ × List Char)) (c d : List ℕ)
    → x ≡ none
    → y ≡ none
    → (if b then put_two c d x else put c y) ≡ none
no_value true x y c d ex ey = ap (put_two c d) ex
no_value false x y c d ex ey = ap (put c) ey

current-NoQuote : (text : List Char) → NoQuote text → is_char quote (current text) ≡ false
current-NoQuote [] h = refl
current-NoQuote (c ∷ text) (h, hs) = h

read-NoQuote : (text : List Char) → NoQuote text → NoQuote (read text)
read-NoQuote [] h = tt
read-NoQuote (c ∷ text) (h, hs) = hs

-- On a text with no quote the loop has not ended after any number of rounds, whatever the flag: at the
-- end of the text it puts `EOS` to the value, round after round.
pub value_rounds-unclosed :
    (fuel : ℕ) (escape : Bool) (text : List Char)
    → NoQuote text
    → value_rounds fuel escape text ≡ none
unfolding value_rounds
value_rounds-unclosed zero escape text h = refl
value_rounds-unclosed (suc fuel) escape text h =
    let next = read text in
    let rest = read-NoQuote text h in
    if-false _ _ (current-NoQuote text h)
    ∙ no_value (is_char backslash (current text) && not escape) (value_rounds fuel true (read next))
        (value_rounds fuel false next) (current text) (current next)
        (value_rounds-unclosed fuel true (read next) (read-NoQuote next rest))
        (value_rounds-unclosed fuel false next rest)

-- A value that is written with an escaped character and an escaped quote right behind it is cut: the
-- second backslash is taken for a character of the value, and its quote for the end.
pub parse_value-cut :
    (d : Char) (rest : List Char)
    → parse_value ((backslash ∷ []) ∷ d ∷ (backslash ∷ []) ∷ quoted rest)
      ≡ some (backslash ∷ (d ++ (backslash ∷ [])), quoted rest)
unfolding parse_value
parse_value-cut d rest =
    value_round false (backslash ∷ []) d ((backslash ∷ []) ∷ quoted rest) refl
    ∙ ap (λ o. o >>= λ (value, r). some (backslash ∷ (d ++ value), r))
        (no_escape true (backslash ∷ []) (quoted rest) [] (quoted rest) refl refl
          (at_quote false rest))
