-- ===== src/Protocol.antt =====
-- The v2 optical frame protocol (src/core/protocol-v2.ts and src/core/crc32.ts).
pub mod Types
pub mod Crc
pub mod Buffer
pub mod Plan
pub mod Utf8
pub mod Window
pub mod Data
pub mod Manifest
pub mod Frame
mod Examples
mod FrameExamples
