-- ===== src/Examples.antt =====
-- The theorems at concrete inputs, where their conditions hold: the modelled parts of onnxruntime/src.
mod Voice
mod Strings
mod Audio
mod Itn
mod Server
mod Punctuation
mod Context
