-- ===== src/Server/Hotwords.antt =====
-- The hotwords of a connection (the case `text` of `on_message` in
-- websocket/bin/websocket-server-2pass.cpp): those of the client, in one of the forms that it may
-- write, and the server's own. The maps are lists; the order of an unordered map is not specified, and
-- here it is the order of the insertions.
use asr_2pass.Prelude.{
  ℕ, Bool, false, ◌||◌, if◌then◌else◌, List, [], ◌∷◌, ◌++◌, map, length, ◌==◌, Option, none, some,
}
use asr_2pass.Prelude.Int.{ℤ, pos}
use asr_2pass.Prelude.Bytes.{same_bytes, within}

abbrev pub Weights : Type 0
Weights = List (List ℕ × ℤ)

-- What the parser makes of the client's string: an object (as a map, if its values are numbers), an
-- array (with its strings), a string, another value, or no JSON.
pub data Json : Type 0 where
  object : Option Weights → Json
  array : List (Option (List ℕ)) → Json
  string : List ℕ → Json
  other_value : Json
  not_json : Json

abbrev pub isspace : ℕ → Bool
isspace c = c == 32 || within 9 13 c

-- The words that `>>` reads from a stream, the letters of the first one before the others.
abbrev pub stream_words : List ℕ → List ℕ × List (List ℕ)
stream_words [] = ([], [])
stream_words (c ∷ text) =
    let (word, words) = stream_words text in
    if isspace c then ([], if length word == 0 then words else word ∷ words) else (c ∷ word, words)

unfoldable pub words_of : List ℕ → List (List ℕ)
words_of text =
    let (word, words) = stream_words text in if length word == 0 then words else word ∷ words

abbrev pub has_word : List ℕ → Weights → Bool
has_word word [] = false
has_word word ((w, weight) ∷ weights) = same_bytes w word || has_word word weights

-- `insert` of one word: a word that is there keeps its weight.
unfoldable pub insert : List ℕ × ℤ → Weights → Weights
insert (word, weight) weights =
    if has_word word weights then weights else weights ++ (word, weight) ∷ []

-- `insert` of a range.
unfoldable pub insert_all : Weights → Weights → Weights
unfolding insert
insert_all [] weights = weights
insert_all (w ∷ ws) weights = insert_all ws (insert w weights)

-- `merged_hws_map[word] = 20`, into a map in which every weight is that.
abbrev pub set_words : List (List ℕ) → Weights
set_words words = insert_all (map (λ word. (word, pos 20)) words) []

abbrev pub strings : List (Option (List ℕ)) → List (List ℕ)
strings [] = []
strings (none ∷ items) = strings items
strings (some item ∷ items) = item ∷ strings items

unfoldable pub client_hotwords : Json → List ℕ → Weights
client_hotwords (object (some weights)) text = insert_all weights []
client_hotwords (object none) text = []
client_hotwords (array items) text = set_words (strings items)
client_hotwords (string words) text = set_words (words_of words)
client_hotwords other_value text = []
client_hotwords not_json text = set_words (words_of text)

abbrev pub nn_prefix : Json → List ℕ → List ℕ
nn_prefix not_json text = 32 ∷ text
nn_prefix _ text = []

-- The map of the hotwords: the client's, then the server's.
unfoldable pub merged_hotwords : (List ℕ → Json) → Option (List ℕ) → Weights → Weights
unfolding client_hotwords insert_all
merged_hotwords json none hws_map = insert_all hws_map []
merged_hotwords json (some []) hws_map = insert_all hws_map []
merged_hotwords json (some (c ∷ text)) hws_map =
    insert_all hws_map (client_hotwords (json (c ∷ text)) (c ∷ text))

abbrev pub word_list : Weights → List ℕ
word_list [] = []
word_list ((word, weight) ∷ weights) = 32 ∷ (word ++ word_list weights)

-- The hotwords as one string.
unfoldable pub nn_hotwords : (List ℕ → Json) → Option (List ℕ) → Weights → List ℕ
nn_hotwords json none merged = word_list merged
nn_hotwords json (some []) merged = word_list merged
nn_hotwords json (some (c ∷ text)) merged =
    nn_prefix (json (c ∷ text)) (c ∷ text) ++ word_list merged
