-- ===== src/Fec.antt =====
-- Forward error correction within one segment (src/core/segment-encoder.ts and
-- src/core/segment-decoder.ts).
pub mod Symbols
pub mod Encoder
pub mod Equations
pub mod Decoder
pub mod Delivery
pub mod Recovery
pub mod Detach
mod Examples
