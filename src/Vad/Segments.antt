-- ===== src/Vad/Segments.antt =====
-- The segments that the detector of onnxruntime/src/e2e-vad.h lays out, frame after frame.
pub mod Layout
pub mod Pop
pub mod Hand
pub mod Voice
pub mod Tracks
pub mod Speech
pub mod Changes
pub mod Idle
pub mod Quiet
pub mod Step
pub mod Run
