-- ===== src/Examples/Punctuation.antt =====
-- The theorems on punctuation (onnxruntime/src/ct-transformer.cpp) at concrete inputs.
use asr_2pass.Prelude.{◌+◌, ◌++◌, [], ◌∷◌, map, length-map, Returns, false, arith}
use asr_2pass.Prelude.Int.{pos}
use asr_2pass.Punctuation.{Word, PuncModel, mini_sentences, add_punc, strings_of}
use asr_2pass.Punctuation.Marks.{OneMarkEach, Punctuated, Punctuated-mini_sentences}
use asr_2pass.Punctuation.Online.{add_punc_online}
use asr_2pass.Punctuation.Cache.{Online, add_punc_online-Online}
use asr_2pass.Punctuation.Ending.{WellWritten, add_punc_lem}

-- A network that sets a comma behind every word.
abbrev commas : PuncModel
commas = record { infer = λ ids. map (λ i. 2) ids; id2punc = λ p. (200 + p) ∷ [] }

commas_each : OneMarkEach commas
commas_each ids = length-map ids (λ i. 2)

abbrev hello : Word
hello = ((104 ∷ 105 ∷ []), pos 4)

abbrev you : Word
you = ((121 ∷ 111 ∷ []), pos 5)

Punctuated-mini_sentences_example :
    Returns
      (Punctuated commas (strings_of ((hello ∷ []) ++ (you ∷ hello ∷ []))))
      (mini_sentences commas 2 (you ∷ hello ∷ []) (hello ∷ []))
Punctuated-mini_sentences_example =
    Punctuated-mini_sentences commas 2 (you ∷ hello ∷ []) (hello ∷ []) commas_each (omega arith)
      (omega arith)

add_punc_lem_example :
    Returns (WellWritten commas (hello ∷ you ∷ [])) (add_punc commas false (hello ∷ you ∷ []))
add_punc_lem_example = add_punc_lem commas hello (you ∷ []) commas_each

-- The first word is in the cache.
add_punc_online-Online_example :
    Returns
      (Online commas (λ s. false) 1 (strings_of (hello ∷ you ∷ [])))
      (add_punc_online commas (λ s. false) 1 (hello ∷ you ∷ []))
add_punc_online-Online_example =
    add_punc_online-Online commas (λ s. false) 1 hello (you ∷ []) commas_each
