-- ===== src/Matching.antt =====
-- src/lib/matching: which standing briefings an inbound event matches.
pub mod Types
pub mod Equal
pub mod Windows
pub mod Conditions
pub mod Matches
pub mod Matchers
pub mod Engine
