-- ===== src/Clients.antt =====
-- The clients of other rails: src/lib/dispatchers, src/lib/identitiSigner.ts and
-- src/lib/stepUpVerifier.ts.
pub mod Http
pub mod Dispatcher
pub mod Registry
pub mod Signer
pub mod StepUp
pub mod Completed
