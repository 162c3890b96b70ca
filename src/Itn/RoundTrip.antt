-- ===== src/Itn/RoundTrip.antt =====
-- Tagged text, as the tagger of inverse text normalisation writes it, and what `TokenParser::parse`
-- (onnxruntime/src/itn-token-parser.cpp) reads from it.
use asr_2pass.Prelude.{
  ℕ, zero, suc, ◌+◌, ◌≤◌, ◌<◌, ◌≡◌, refl, ap, ◌∙◌, sym, true, false, List, [], ◌∷◌, ◌++◌, Option,
  some, ◌>>=◌, if-true, if-false, arith, length,
}
use mathlib.Core.List.{append_assoc, append-nil}
use asr_2pass.Encode.Classes.{concat}
use asr_2pass.Itn.{
  Char, Token, is_char, is_letter, is_utf8_whitespace, quote, letters, parse_key, parse_value,
  parse_ws, parse_char, parse_chars, parse_members, parse_tokens, new_token, append,
}
use asr_2pass.Itn.Values.{IsValue, quoted, value_loop-IsValue}

-- A name or a key: the bytes are letters.
abbrev pub AreLetters : List ℕ → Type 0
AreLetters [] = Unit {0}
AreLetters (b ∷ bs) = (is_letter (b ∷ []) ≡ true) × AreLetters bs

abbrev pub bytes_of : List ℕ → List Char → List Char
bytes_of [] rest = rest
bytes_of (b ∷ bs) rest = (b ∷ []) ∷ bytes_of bs rest

-- A member: its key, and its value as it is written.
abbrev pub member_text : List ℕ × List Char → List Char → List Char
member_text (key, value) rest = bytes_of key ((58 ∷ []) ∷ (32 ∷ []) ∷ quoted (value ++ quoted rest))

-- The members of a token and its end.
abbrev pub members_text : List (List ℕ × List Char) → List Char → List Char
members_text [] rest = (125 ∷ []) ∷ rest
members_text (m ∷ ms) rest = member_text m ((32 ∷ []) ∷ members_text ms rest)

-- `name { key: "value" key: "value" } `, of each token.
abbrev pub tokens_text : List (List ℕ × List (List ℕ × List Char)) → List Char
tokens_text [] = []
tokens_text ((name, ms) ∷ ts) =
    bytes_of name
      ((32 ∷ []) ∷ (123 ∷ []) ∷ (32 ∷ []) ∷ members_text ms ((32 ∷ []) ∷ tokens_text ts))

abbrev pub IsMember : List ℕ × List Char → Type 0
IsMember (key, value) = (0 < length key) × AreLetters key × IsValue false value

abbrev pub AreMembers : List (List ℕ × List Char) → Type 0
AreMembers [] = Unit {0}
AreMembers (m ∷ ms) = IsMember m × AreMembers ms

abbrev pub AreTokens : List (List ℕ × List (List ℕ × List Char)) → Type 0
AreTokens [] = Unit {0}
AreTokens ((name, ms) ∷ ts) = (0 < length name) × AreLetters name × AreMembers ms × AreTokens ts

-- The keys as they are written.
abbrev pub keys : List (List ℕ × List Char) → List (List ℕ)
keys [] = []
keys ((key, value) ∷ ms) = key ∷ keys ms

-- The keys with the bytes of their values, the last one first, before those of `acc`.
abbrev pub members_before :
    List (List ℕ × List ℕ) → List (List ℕ × List Char) → List (List ℕ × List ℕ)
members_before acc [] = acc
members_before acc ((key, value) ∷ ms) = members_before ((key, concat value) ∷ acc) ms

abbrev pub token_of : List ℕ → List (List ℕ × List Char) → Token
token_of name ms = record { name = name; order = keys ms; members = members_before [] ms }

abbrev pub tokens_of : List (List ℕ × List (List ℕ × List Char)) → List Token
tokens_of [] = []
tokens_of ((name, ms) ∷ ts) = token_of name ms ∷ tokens_of ts

-- What the loop over the members makes of a token.
abbrev read_members : List (List ℕ × List Char) → Token → Token
read_members [] t = t
read_members ((key, value) ∷ ms) t = read_members ms (append t key (concat value))

read_members_lem :
    (ms : List (List ℕ × List Char)) (name : List ℕ) (order : List (List ℕ))
    (members : List (List ℕ × List ℕ))
    → read_members ms (record { name = name; order = order; members = members })
      ≡ record { name = name; order = order ++ keys ms; members = members_before members ms }
unfolding append
read_members_lem [] name order members =
    ap (λ ks. record { name = name; order = ks; members = members }) (sym (append-nil order))
read_members_lem ((key, value) ∷ ms) name order members =
    read_members_lem ms name (order ++ key ∷ []) ((key, concat value) ∷ members)
    ∙ ap
        (λ ks. record {
          name = name;
          order = ks;
          members = members_before ((key, concat value) ∷ members) ms;
        })
        (append_assoc order (key ∷ []) (keys ms))

read_members-new_token :
    (ms : List (List ℕ × List Char)) (name : List ℕ)
    → read_members ms (new_token name) ≡ token_of name ms
unfolding new_token
read_members-new_token ms name = read_members_lem ms name [] []

-- The rounds that the loops take.
abbrev pub rounds : List (List ℕ × List (List ℕ × List Char)) → ℕ
rounds [] = 0
rounds ((name, ms) ∷ ts) = suc (length ms + rounds ts)

letters_lem :
    (bs : List ℕ) (c : Char) (rest : List Char)
    → AreLetters bs
    → is_letter c ≡ false
    → letters (bytes_of bs (c ∷ rest)) ≡ (bs, c ∷ rest)
letters_lem [] c rest h k = if-false _ _ k
letters_lem (b ∷ bs) c rest (h, hs) k =
    if-true _ _ h ∙ ap (λ (key, r). (b ∷ key, r)) (letters_lem bs c rest hs k)

letter_no_space : (b : ℕ) → is_letter (b ∷ []) ≡ true → is_utf8_whitespace (b ∷ []) ≡ false
unfolding is_letter is_utf8_whitespace
letter_no_space b h = ground arith

letter_no_brace : (b : ℕ) → is_letter (b ∷ []) ≡ true → is_char 125 (b ∷ []) ≡ false
unfolding is_letter
letter_no_brace b h = ground arith

parse_key_lem :
    (bs : List ℕ) (c : Char) (rest : List Char)
    → 0 < length bs
    → AreLetters bs
    → is_letter c ≡ false
    → parse_key (bytes_of bs (c ∷ rest)) ≡ some (bs, c ∷ rest)
unfolding parse_key
parse_key_lem [] c rest p h k = absurd (omega arith)
parse_key_lem (b ∷ bs) c rest p (h, hs) k =
    if-false _ _ (letter_no_space b h) ∙ ap some (letters_lem (b ∷ bs) c rest (h, hs) k)

letter_no_blank : (b : ℕ) → is_letter (b ∷ []) ≡ true → is_char 32 (b ∷ []) ≡ false
unfolding is_letter
letter_no_blank b h = ground arith

ws_word :
    (bs : List ℕ) (rest : List Char)
    → 0 < length bs
    → AreLetters bs
    → parse_ws (bytes_of bs rest) ≡ bytes_of bs rest
unfolding parse_ws
ws_word [] rest p h = absurd (omega arith)
ws_word (b ∷ bs) rest p (h, hs) = if-false _ _ (letter_no_blank b h)

ws_members :
    (ms : List (List ℕ × List Char)) (rest : List Char)
    → AreMembers ms
    → parse_ws (members_text ms rest) ≡ members_text ms rest
unfolding parse_ws
ws_members [] rest h = refl
ws_members ((key, value) ∷ ms) rest ((p, h, v), hs) = ws_word key _ p h

ws_tokens :
    (ts : List (List ℕ × List (List ℕ × List Char)))
    → AreTokens ts
    → parse_ws (tokens_text ts) ≡ tokens_text ts
unfolding parse_ws
ws_tokens [] h = refl
ws_tokens ((name, ms) ∷ ts) (p, h, hms, hts) = ws_word name _ p h

ws_blank : (rest : List Char) → parse_ws ((32 ∷ []) ∷ rest) ≡ parse_ws rest
unfolding parse_ws
ws_blank rest = refl

-- One round of the loop over the members.
member_round :
    (fuel : ℕ) (key : List ℕ) (value rest : List Char) (t : Token)
    → IsMember (key, value)
    → parse_members (suc fuel) (member_text (key, value) rest) t
      ≡ parse_members fuel (parse_ws rest) (append t key (concat value))
unfolding parse_members parse_chars parse_char parse_value
member_round fuel [] value rest t (p, h, v) = absurd (omega arith)
member_round fuel (b ∷ bs) value rest t (p, (h, hs), v) =
    if-false _ _ (letter_no_brace b h)
    ∙ ap
        (λ o. o >>= λ (key, after_key).
          parse_value (parse_chars (58 ∷ 32 ∷ quote ∷ []) after_key) >>= λ (value, after_value).
          parse_members fuel (parse_ws (parse_char quote after_value)) (append t key value))
        (parse_key_lem (b ∷ bs) _ _ p (h, hs) refl)
    ∙ ap
        (λ o. o >>= λ (value, after_value).
          parse_members fuel (parse_ws (parse_char quote after_value)) (append t (b ∷ bs) value))
        (value_loop-IsValue false value rest v)

-- The loop over the members reads them and the brace behind them.
parse_members-members_text :
    (ms : List (List ℕ × List Char)) (fuel : ℕ) (rest : List Char) (t : Token)
    → length ms ≤ fuel
    → AreMembers ms
    → parse_members (suc fuel) (members_text ms rest) t ≡ some (read_members ms t, rest)
unfolding parse_members
parse_members-members_text [] fuel rest t p h = refl
parse_members-members_text (m ∷ ms) zero rest t p h = absurd (omega arith)
parse_members-members_text ((key, value) ∷ ms) (suc fuel) rest t p (m, hs) =
    member_round (suc fuel) key value ((32 ∷ []) ∷ members_text ms rest) t m
    ∙ ap (λ text. parse_members (suc fuel) text (append t key (concat value)))
        (ws_blank (members_text ms rest) ∙ ws_members ms rest hs)
    ∙ parse_members-members_text ms fuel rest (append t key (concat value)) (omega arith) hs

-- What the outer loop does behind a name.
abbrev behind_name : ℕ → List ℕ × List Char → Option (List Token)
behind_name fuel (name, after_name) =
    parse_members (suc fuel) (parse_ws (parse_chars (32 ∷ 123 ∷ 32 ∷ []) after_name))
      (new_token name)
    >>= λ (t, rest). parse_tokens fuel (parse_ws rest) >>= λ tokens. some (t ∷ tokens)

abbrev behind_members : ℕ → Token × List Char → Option (List Token)
behind_members fuel (t, rest) = parse_tokens fuel (parse_ws rest) >>= λ tokens. some (t ∷ tokens)

ws_opening :
    (ms : List (List ℕ × List Char)) (rest : List Char)
    → AreMembers ms
    → parse_ws (
        parse_chars
          (32 ∷ 123 ∷ 32 ∷ [])
          ((32 ∷ []) ∷ (123 ∷ []) ∷ (32 ∷ []) ∷ members_text ms rest))
      ≡ members_text ms rest
unfolding parse_chars parse_char
ws_opening ms rest h = ws_members ms rest h

-- The text of the tokens, each a name with its members, is read as these tokens: the names, the keys in
-- their order, and each key with the bytes of its value, without the quotes around it, a later member
-- before an earlier one. Names and keys are words of letters, a value holds a
-- quote only behind a backslash that stands for it, and the fuel is over the number of names and
-- members.
pub parse_tokens-tokens_text :
    (ts : List (List ℕ × List (List ℕ × List Char))) (fuel : ℕ)
    → rounds ts ≤ fuel
    → AreTokens ts
    → parse_tokens (suc fuel) (tokens_text ts) ≡ some (tokens_of ts)
unfolding parse_tokens
parse_tokens-tokens_text [] fuel q h = refl
parse_tokens-tokens_text (t ∷ ts) zero q h = absurd (omega arith)
parse_tokens-tokens_text (([], ms) ∷ ts) (suc fuel) q (p, h, hms, hts) = absurd (omega arith)
parse_tokens-tokens_text ((b ∷ bs, ms) ∷ ts) (suc fuel) q (p, h, hms, hts) =
    let n = suc fuel in
    let token = token_of (b ∷ bs) ms in
    ap (λ o. o >>= behind_name n) (parse_key_lem (b ∷ bs) _ _ p h refl)
    ∙ ap (λ text. parse_members (suc n) text (new_token (b ∷ bs)) >>= behind_members n)
        (ws_opening ms ((32 ∷ []) ∷ tokens_text ts) hms)
    ∙ ap (λ o. o >>= behind_members n)
        (parse_members-members_text ms n ((32 ∷ []) ∷ tokens_text ts) (new_token (b ∷ bs))
            (omega arith) hms
          ∙ ap (λ t. some (t, (32 ∷ []) ∷ tokens_text ts)) (read_members-new_token ms (b ∷ bs)))
    ∙ ap (λ text. parse_tokens n text >>= λ tokens. some (token ∷ tokens))
        (ws_blank (tokens_text ts) ∙ ws_tokens ts hts)
    ∙ ap (λ o. o >>= λ tokens. some (token ∷ tokens))
        (parse_tokens-tokens_text ts fuel (omega arith) hts)
