-- ===== src/Lib.antt =====
-- ASR-2Pass: the core of the speech server's runtime library, as far as it is integer and string code.
--
-- The program streams audio through a voice activity detector, which cuts it into segments, decodes
-- the segments with a network, and puts punctuation, normalised numbers and timestamps on the text.
-- The parts that are modelled, and the files that model them:
--
-- Vad: onnxruntime/src/e2e-vad.h. Vad/Window is the class `WindowDetector` (`reset_window` is `Reset`,
--   `detect_window` is `DetectOneFrame`); Vad/Window/Ring and Vad/Window/Hysteresis are its invariant
--   and its description. The class `E2EVadModel` is Vad/Model (options, fields, resets), Vad/Buffer
--   (`PopDataBufTillFrame`, `PopDataToOutputBuf`), Vad/Detect (`OnVoiceStart`, `OnVoiceEnd`, the
--   other handlers and `DetectOneFrame`), Vad/Frames (decibels, scores, `GetFrameState`,
--   `DetectCommonFrames`, `DetectLastFrames`) and Vad/Emit (`operator()`). Vad/Segments has the invariant of
--   `DetectOneFrame` by its branches, and Vad/Brackets what the loop of `operator()` puts out.
-- Encode: onnxruntime/src/encode_converter.cpp and encode_converter.h, conversions between UTF-8 and
--   UTF-16; Encode/Classes has the tests on strings and the splitting into words and characters.
-- Text: onnxruntime/src/utf8-string.cpp, and `SplitStr` and `IsChinese` of onnxruntime/src/util.cpp.
-- Timestamp: onnxruntime/src/util.cpp. Timestamp/Words splits a text into words (it calls the
--   conversions of Encode), with Timestamp/Words/Spaces about the bytes of these words. Timestamp/Align is
--   the edit table and the walk back through it, with Distance, Edges and Walk about them, and
--   Timestamp/Smooth the rest of `TimestampSmooth`, with Counts and Whole about it.
-- Audio: onnxruntime/src/audio.cpp and onnxruntime/include/audio.h, the samples, the queues of frames and
--   their fetches; Audio/Batches is `FetchDynamic`, Audio/CutSplit is `CutSplit`, and Audio/TwoPass the
--   `Split` that cuts what the detector (Vad) finds into frames for the two passes. Audio/TwoPass/Slices, Cut and Stream have the proofs: what is
--   copied as a slice of all that was received, the rest of a segment, and calls while a segment is open.
-- Itn: onnxruntime/src/itn-token-parser.cpp and itn-token-parser.h, the parser of tagged text; it stands on
--   the characters of Text. `value_rounds` is the loop of `parse_value` itself, and `value_loop` what it comes to.
--   Itn/Values is what a value may be, Itn/RoundTrip the text of tokens.
-- Punctuation: `AddPunc` of onnxruntime/src/ct-transformer.cpp, from the tokenizer's words on;
--   Punctuation/Marks and Punctuation/Ending are about its words and its end. Punctuation/Online is that of
--   onnxruntime/src/ct-transformer-online.cpp, and Punctuation/Spacing and Punctuation/Cache
--   what it puts out and keeps.
-- Context: onnxruntime/src/context_graph.cpp and context_graph.h, the graph of the hotwords, over the
--   characters of Text. Context/Words is the splitting into words, Context/Arcs the arcs of a state,
--   Context/Escape a walk through those of one context, and Context/Positions the scores of several.
-- Server: websocket/bin/websocket-server-2pass.cpp and websocket-server-2pass.h, a connection of the
--   server: Server/Hotwords merges the hotwords, Server has the handlers, Server/Connections the strand and
--   `do_decoder`, and Server/Steps the steps in any order. A step is what runs under the connection's lock, or
--   a round of the decoder; what the engine answers is open. Server/Lifetime, Server/Order and Server/Pieces are
--   three invariants, by the lemmas of Server/Cases, Careful, Passing, Subsequence and Sound.
-- Prelude: shared names, lists and options over native numbers, integers, bytes, and `Returns`, which says
--   that a run returns and what holds of its result. Examples has the theorems at concrete inputs.
--
-- Conventions. The state of an object is a record, and a method a function from it; `Option` stands for a
-- run that does not return, throws, or reads outside an array (a loop that makes no progress is such a
-- run too), or in Timestamp/Smooth for a return with an error logged. What is written to standard output
-- is a list of messages. Sizes, times and rates that the code keeps in `int` and that are never negative are
-- natural numbers, and others are integers; overflow of `int` is not modelled. Bytes and 16-bit units are
-- numbers, and shifts are written out. Floating point arithmetic is a parameter (`Floats`), with no law
-- assumed, and so are the scores of hotwords (`Scores`).
--
-- Fuel. `pop_rounds` has as many rounds as there are frames to pop, since each round of the C++ loop that
-- makes progress pops one. `decibels` has one round more than samples. The loops on strings read one
-- byte at least in each round, and have the length of the string, or in `split_string` one more.
-- `backtrack` has one round more than the words of both texts. `cut_rest` and `second_pieces` have one
-- round more than the samples to cut, `value_rounds` one more than the characters where the loop ends,
-- `parse_members` and `parse_tokens` one more than the characters, `mini_sentences` as many
-- as words, and `split_words` as characters.
--
-- Not modelled: parsing and printing of timestamps, `TimestampSentence`, `PostProcess` and the tensor
-- arithmetic of util.cpp; reading files and the offline `Split` of audio.cpp; decoders,
-- vocabularies, the tokenizer, the acoustic models and their caches, the offline server
-- and the clients, which are further parts of their own; and the third-party libraries (OpenFst, Kaldi,
-- ONNX Runtime, ffmpeg, websocketpp, asio, JSON, yaml-cpp, jieba, glog, gflags).
pub mod Prelude
pub mod Vad
pub mod Encode
pub mod Text
pub mod Timestamp
pub mod Audio
pub mod Itn
pub mod Server
pub mod Punctuation
pub mod Context
mod Examples
