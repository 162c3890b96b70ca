-- ===== src/Timestamp.antt =====
-- The timestamps of words (onnxruntime/src/util.cpp): the words of a text, the alignment of a text
-- with its normalised form, and the times that the normalised words are given.
pub mod Words
pub mod Align
pub mod Smooth
