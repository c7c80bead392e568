-- ===== src/Resume.antt =====
-- The token that a user carries from the phone to the desktop (src/core/resume-token.ts).
pub mod Base32
pub mod Token
pub mod Ranges
pub mod Targeted
pub mod Handover
mod Examples
