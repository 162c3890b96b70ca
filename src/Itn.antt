-- ===== src/Itn.antt =====
-- The token parser of inverse text normalisation (onnxruntime/src/itn-token-parser.cpp and .h). A
-- character is the list of its bytes, and the parser stands before the characters that are left, of
-- which the first one is `ch` and no one stands for `EOS`. `none` is a stop by a failed `CHECK`, or a
-- loop that does not end; in `value_rounds` it is that the rounds are used up.
use asr_2pass.Prelude.{
  ℕ, zero, suc, ◌+◌, Bool, true, false, ◌&&◌, ◌||◌, not, if◌then◌else◌, List, [], ◌∷◌, ◌++◌, length,
  leb, ◌==◌, Option, none, some, ◌>>=◌, maybe,
}
use asr_2pass.Prelude.Bytes.{same_bytes, within}
use asr_2pass.Text.{string2chars, trim}
pub mod RoundTrip
pub mod Values

abbrev pub Char : Type 0
Char = List ℕ

abbrev pub is_char : ℕ → Char → Bool
is_char b ch = same_bytes ch (b ∷ [])

abbrev pub quote : ℕ
quote = 34

abbrev pub backslash : ℕ
backslash = 92

-- `ASCII_LETTERS.count(ch) > 0`
unfoldable pub is_letter : Char → Bool
is_letter (b ∷ []) = within 97 122 b || within 65 90 b || b == 95
is_letter _ = false

-- `UTF8_WHITESPACE.count(ch)`, of a single character.
unfoldable pub is_utf8_whitespace : Char → Bool
is_utf8_whitespace ch = is_char 32 ch || is_char 9 ch || is_char 10 ch || is_char 13 ch

-- `Token`; `members` is the map, with the value that was set last in front.
pub record Token : Type 0 where
  pub name : List ℕ
  pub order : List (List ℕ)
  pub members : List (List ℕ × List ℕ)

unfoldable pub new_token : List ℕ → Token
new_token name = record { name = name; order = []; members = [] }

unfoldable pub append : Token → List ℕ → List ℕ → Token
append t key value = record t { order = t.order ++ key ∷ []; members = (key, value) ∷ t.members }

abbrev pub member : List ℕ → List (List ℕ × List ℕ) → Option (List ℕ)
member key [] = none
member key ((k, v) ∷ members) =
    let rest = member key members in if same_bytes k key then some v else rest

abbrev pub order_of : List ℕ → List (List ℕ × List (List ℕ)) → List (List ℕ) → List (List ℕ)
order_of name [] order = order
order_of name ((n, o) ∷ orders) order =
    let rest = order_of name orders order in if same_bytes n name then o else rest

-- ` key: "value"`, of each key that has a member.
unfoldable pub member_strings : List (List ℕ) → List (List ℕ × List ℕ) → List ℕ
member_strings [] members = []
member_strings (key ∷ order) members =
    maybe [] (λ value. 32 ∷ (key ++ (58 ∷ 32 ∷ quote ∷ (value ++ (quote ∷ [])))))
      (member key members)
    ++ member_strings order members

-- `Token::string`
unfoldable pub token_string : List (List ℕ × List (List ℕ)) → Token → List ℕ
unfolding member_strings
token_string orders t =
    t.name
    ++ (32 ∷ 123 ∷ (member_strings (order_of t.name orders t.order) t.members ++ (32 ∷ 125 ∷ [])))

-- `parse_ws`; its result is whether a character is left.
unfoldable pub parse_ws : List Char → List Char
parse_ws [] = []
parse_ws (ch ∷ text) = let rest = parse_ws text in if is_char 32 ch then rest else ch ∷ text

-- `parse_char`, of a single byte; its result is not read.
unfoldable pub parse_char : ℕ → List Char → List Char
parse_char exp [] = []
parse_char exp (ch ∷ text) = if is_char exp ch then text else ch ∷ text

-- `parse_chars`
unfoldable pub parse_chars : List ℕ → List Char → List Char
unfolding parse_char
parse_chars [] text = text
parse_chars (x ∷ exp) text = parse_chars exp (parse_char x text)

-- The loop of `parse_key`: the key, and what is left.
abbrev pub letters : List Char → List ℕ × List Char
letters [] = ([], [])
letters (ch ∷ text) =
    let (key, rest) = letters text in if is_letter ch then (ch ++ key, rest) else ([], ch ∷ text)

unfoldable pub parse_key : List Char → Option (List ℕ × List Char)
unfolding is_letter is_utf8_whitespace
parse_key [] = none
parse_key (ch ∷ text) = if is_utf8_whitespace ch then none else some (letters (ch ∷ text))

-- What the loop of `parse_value`, with its flag `escape`, comes to; it stops at a quote only, and `none`
-- is that it goes on for ever. `value_rounds` is the loop itself.
unfoldable pub value_loop : Bool → List Char → Option (List ℕ × List Char)
value_loop escape [] = none
value_loop escape (ch ∷ []) = if is_char quote ch then some ([], ch ∷ []) else none
value_loop escape (ch ∷ d ∷ text) =
    let after_escape = value_loop true text >>= λ (value, rest). some (ch ++ (d ++ value), rest) in
    let after = value_loop false (d ∷ text) >>= λ (value, rest). some (ch ++ value, rest) in
    if is_char quote ch
    then some ([], ch ∷ d ∷ text)
    else if is_char backslash ch && not escape
    then after_escape
    else after

-- `EOS`
abbrev pub eos : Char
eos = 60 ∷ 69 ∷ 79 ∷ 83 ∷ 62 ∷ []

-- `ch`, and `read`, which at the end leaves `ch` at `EOS`.
abbrev pub current : List Char → Char
current [] = eos
current (ch ∷ text) = ch

abbrev pub read : List Char → List Char
read [] = []
read (ch ∷ text) = text

-- The loop of `parse_value` round by round, also past the end of the text, as long as the fuel lasts.
unfoldable pub value_rounds : ℕ → Bool → List Char → Option (List ℕ × List Char)
value_rounds zero escape text = none
value_rounds (suc fuel) escape text =
    let ch = current text in
    let next = read text in
    let after_escape = value_rounds fuel true (read next) >>= λ (value, rest).
    some (ch ++ (current next ++ value), rest) in
    let after = value_rounds fuel false next >>= λ (value, rest). some (ch ++ value, rest) in
    if is_char quote ch
    then some ([], text)
    else if is_char backslash ch && not escape
    then after_escape
    else after

-- `parse_value`
unfoldable pub parse_value : List Char → Option (List ℕ × List Char)
unfolding value_loop
parse_value text = value_loop false text

-- The inner loop of `parse`, from the white space before a member on. Each round reads a character at
-- least, so one more than there are is enough fuel.
unfoldable pub parse_members : ℕ → List Char → Token → Option (Token × List Char)
unfolding parse_key parse_value parse_chars parse_char append
parse_members zero text t = none
parse_members (suc fuel) [] t = some (t, [])
parse_members (suc fuel) (ch ∷ text) t =
    let rest = parse_key (ch ∷ text) >>= λ (key, after_key).
    parse_value (parse_chars (58 ∷ 32 ∷ quote ∷ []) after_key) >>= λ (value, after_value).
    parse_members fuel (parse_ws (parse_char quote after_value)) (append t key value) in
    if is_char 125 ch then some (t, text) else rest

-- The outer loop, from the white space before a token on.
unfoldable pub parse_tokens : ℕ → List Char → Option (List Token)
unfolding parse_key parse_chars parse_ws parse_members new_token
parse_tokens zero text = none
parse_tokens (suc fuel) [] = some []
parse_tokens (suc fuel) (ch ∷ text) = parse_key (ch ∷ text) >>= λ (name, after_name).
    parse_members (suc fuel) (parse_ws (parse_chars (32 ∷ 123 ∷ 32 ∷ []) after_name))
      (new_token name)
    >>= λ (t, rest). parse_tokens fuel (parse_ws rest) >>= λ tokens. some (t ∷ tokens)

-- `load`: there is a character at least.
unfoldable pub load : List ℕ → Option (List Char)
unfolding string2chars
load input =
    string2chars (length input) input >>= λ text. if length text == 0 then none else some text

-- `parse`
unfoldable pub parse : List ℕ → Option (List Token)
unfolding load parse_tokens parse_ws
parse input = load input >>= λ text. parse_tokens (suc (length text)) (parse_ws text)

abbrev pub token_strings : List (List ℕ × List (List ℕ)) → List Token → List ℕ
token_strings orders [] = []
token_strings orders (t ∷ tokens) = token_string orders t ++ (32 ∷ token_strings orders tokens)

-- `reorder`
unfoldable pub reorder : List (List ℕ × List (List ℕ)) → List ℕ → Option (List ℕ)
unfolding parse token_string trim
reorder orders input = parse input >>= λ tokens. some (trim (token_strings orders tokens))
