-- ===== src/Vad.antt =====
-- Voice activity detection (onnxruntime/src/e2e-vad.h).
pub mod Window
pub mod Model
pub mod Buffer
pub mod Detect
pub mod Frames
pub mod Emit
pub mod Segments
pub mod Brackets
