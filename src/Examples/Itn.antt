-- ===== src/Examples/Itn.antt =====
-- The theorems on the token parser (onnxruntime/src/itn-token-parser.cpp) at concrete inputs.
use asr_2pass.Prelude.{ℕ, ◌≡◌, ◌++◌, refl, List, [], ◌∷◌, none, some, false, arith}
use asr_2pass.Itn.{Char, value_rounds, parse_value, parse_tokens, backslash, is_letter}
use asr_2pass.Itn.Values.{
  IsValue, plain, escaped, nil, quoted, value_rounds-unclosed, parse_value-cut,
}
use asr_2pass.Itn.RoundTrip.{tokens_text, tokens_of, AreTokens, parse_tokens-tokens_text}

-- `a\"b`
abbrev a_value : List Char
a_value = (97 ∷ []) ∷ (backslash ∷ []) ∷ (34 ∷ []) ∷ (98 ∷ []) ∷ []

a_value-IsValue : IsValue false a_value
a_value-IsValue = plain refl refl (escaped refl refl (plain refl refl nil))

value_rounds-unclosed_example : value_rounds 9 false ((97 ∷ []) ∷ (98 ∷ []) ∷ []) ≡ none
value_rounds-unclosed_example =
    value_rounds-unclosed 9 false ((97 ∷ []) ∷ (98 ∷ []) ∷ []) (refl, (refl, tt))

parse_value-cut_example :
    parse_value ((backslash ∷ []) ∷ (110 ∷ []) ∷ (backslash ∷ []) ∷ quoted ((98 ∷ []) ∷ []))
    ≡ some (backslash ∷ (110 ∷ []) ++ (backslash ∷ []), quoted ((98 ∷ []) ∷ []))
parse_value-cut_example = parse_value-cut (110 ∷ []) ((98 ∷ []) ∷ [])

-- `time { hour: "a\"b" }` and a token with no member.
abbrev two_tokens : List (List ℕ × List (List ℕ × List Char))
two_tokens =
    ((116 ∷ 105 ∷ 109 ∷ 101 ∷ []), ((104 ∷ 111 ∷ 117 ∷ 114 ∷ []), a_value) ∷ [])
    ∷ ((120 ∷ []), [])
    ∷ []

two_tokens-AreTokens : AreTokens two_tokens
unfolding is_letter
two_tokens-AreTokens = (
  omega arith,
  (refl, (refl, (refl, (refl, tt)))),
  ((omega arith, (refl, (refl, (refl, (refl, tt)))), a_value-IsValue), tt),
  (omega arith, (refl, tt), tt, tt),
)

parse_tokens-tokens_text_example :
    parse_tokens 4 (tokens_text two_tokens) ≡ some (tokens_of two_tokens)
parse_tokens-tokens_text_example =
    parse_tokens-tokens_text two_tokens 3 (omega arith) two_tokens-AreTokens
