-- ===== src/Actions.antt =====
-- src/modules/actions: the dispatch of actions to target rails.
pub mod Redactor
pub mod Types
pub mod Repo
pub mod Dispatch
pub mod Listing
