-- ===== src/Workers.antt =====
-- src/workers: the processes that run beside the API.
pub mod Reaper
pub mod Cascade
