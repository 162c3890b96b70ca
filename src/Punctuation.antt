-- ===== src/Punctuation.antt =====
-- The punctuation of a text (`CTTransformer::AddPunc`, onnxruntime/src/ct-transformer.cpp), from the
-- words that the tokenizer gives on. A word is its bytes and its id; `none` is a read behind the end of
-- the marks that the model gives, or a loop that has run out of fuel.
use asr_2pass.Prelude.{
  ℕ, zero, suc, ◌+◌, ◌-◌, Bool, true, false, ◌&&◌, ◌||◌, not, if◌then◌else◌, List, [], ◌∷◌, ◌++◌,
  map, length, take, drop, set, get_or, ltb, ◌==◌, Option, none, some, ◌>>=◌, maybe,
}
use asr_2pass.Prelude.Int.{ℤ}
use asr_2pass.Prelude.Bytes.{same_bytes}
use asr_2pass.Encode.Classes.{concat}
pub mod Marks
pub mod Ending
pub mod Online
pub mod Cache
pub mod Spacing

abbrev pub Word : Type 0
Word = List ℕ × ℤ

-- The network (`Infer`), which gives a mark for each id, and the table of the marks (`Id2Punc`).
pub record PuncModel : Type 0 where
  pub infer : List ℤ → List ℕ
  pub id2punc : ℕ → List ℕ

abbrev pub token_len : ℕ
token_len = 20

abbrev pub notpunc_index : ℕ
notpunc_index = 1

abbrev pub comma_index : ℕ
comma_index = 2

abbrev pub period_index : ℕ
period_index = 3

abbrev pub question_index : ℕ
question_index = 4

abbrev pub dun_index : ℕ
dun_index = 5

abbrev pub cache_pop_trigger_limit : ℕ
cache_pop_trigger_limit = 200

abbrev pub is_mark : PuncModel → ℕ → ℕ → Bool
is_mark m index p = same_bytes (m.id2punc p) (m.id2punc index)

-- The loop from `nIndex` down to 1: the last sentence end, and the last comma behind it. No index is -1.
unfoldable pub find_end : PuncModel → List ℕ → ℕ → Option ℕ → Option ℕ × Option ℕ
find_end m marks zero comma = (none, comma)
find_end m marks (suc i) comma =
    let p = get_or marks (suc i) 0 in
    let first_comma = maybe (if is_mark m comma_index p then some (suc i) else none) some comma in
    let before = find_end m marks i first_comma in
    if is_mark m period_index p || is_mark m question_index p then (some (suc i), comma) else before

-- What is kept of a batch that is not the last one: the number of its words, and the marks. Of a long
-- one with no sentence end, the last comma becomes one.
unfoldable pub sentence_end : PuncModel → List ℕ → ℕ → ℕ × List ℕ
unfolding find_end
sentence_end m marks size =
    let (end, comma) = find_end m marks (length marks - 2) none in
    let at_comma = maybe (0, marks) (λ i. (suc i, set marks i period_index)) comma in
    maybe (if ltb cache_pop_trigger_limit size then at_comma else (0, marks)) (λ i. (suc i, marks))
      end

-- `!(word[0] & 0x80)`, with the zero byte behind the end.
abbrev pub starts_ascii : List ℕ → Bool
starts_ascii [] = true
starts_ascii (b ∷ word) = ltb b 128

-- `WordWithPunc` of a mini sentence: a space between two words that start with ASCII, and the marks.
-- `before` is the word in front.
unfoldable pub words_with_punc :
    PuncModel → Option (List ℕ) → List (List ℕ) → List ℕ → Option (List (List ℕ))
words_with_punc m before [] marks = some []
words_with_punc m before (word ∷ words) [] = none
words_with_punc m before (word ∷ words) (p ∷ marks) =
    let word' = if maybe false starts_ascii before && starts_ascii word then 32 ∷ word else word in
    words_with_punc m (some word') words marks >>= λ out.
    some (word' ∷ (if p == notpunc_index then out else m.id2punc p ∷ out))

abbrev pub strings_of : List Word → List (List ℕ)
strings_of = map (λ word. word.0)

-- The loop over the batches of `TOKEN_LEN` words, with the words that remain of those before: the
-- strings of all mini sentences.
unfoldable pub mini_sentences : PuncModel → ℕ → List Word → List Word → Option (List (List ℕ))
unfolding sentence_end words_with_punc
mini_sentences m zero tokens remain = none
mini_sentences m (suc fuel) tokens remain =
    let input = remain ++ take token_len tokens in
    let rest = drop token_len tokens in
    let marks = m.infer (map (λ word. word.1) input) in
    let (size, cut_marks) = sentence_end m marks (length input) in
    let more = mini_sentences m fuel rest (drop size input) in
    let last = words_with_punc m none (strings_of input) marks in
    let mini = words_with_punc m none (strings_of (take size input)) (take size cut_marks) in
    if length rest == 0 then last else (mini >>= λ out. more >>= λ others. some (out ++ others))

-- The end of the last mini sentence: a comma or a pause becomes a period, and one is set where no
-- period and no question mark is.
unfoldable pub close : PuncModel → List (List ℕ) → List (List ℕ)
close m [] = []
close m (s ∷ []) =
    let is = λ (index : ℕ). same_bytes s (m.id2punc index) in
    if is comma_index || is dun_index
    then m.id2punc period_index ∷ []
    else if not (is period_index) && not (is question_index)
    then s ∷ m.id2punc period_index ∷ []
    else s ∷ []
close m (s ∷ t ∷ strings) = s ∷ close m (t ∷ strings)

-- `replace` of every `a b c` by `d`.
unfoldable pub replace_all : ℕ → ℕ → ℕ → ℕ → List ℕ → List ℕ
replace_all a b c d (x ∷ y ∷ z ∷ text) =
    let there = replace_all a b c d text in
    let not_there = replace_all a b c d (y ∷ z ∷ text) in
    if x == a && (y == b && z == c) then d ∷ there else x ∷ not_there
replace_all a b c d text = text

-- The Chinese marks become English ones.
unfoldable pub english_symbols : List ℕ → List ℕ
unfolding replace_all
english_symbols text =
    replace_all 239 188 159 63
      (replace_all 227 128 129 44 (replace_all 227 128 130 46 (replace_all 239 188 140 44 text)))

-- `AddPunc`; the flag is `language == "en-bpe"`.
unfoldable pub add_punc : PuncModel → Bool → List Word → Option (List ℕ)
unfolding mini_sentences close english_symbols
add_punc m english [] = some []
add_punc m english (word ∷ words) =
    mini_sentences m (suc (length words)) (word ∷ words) [] >>= λ strings.
    let result = concat (close m strings) in
    some (if english then english_symbols result else result)
