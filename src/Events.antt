-- ===== src/Events.antt =====
-- src/modules/events and the webhook worker: an app's events, the briefings that they match, and
-- the deliveries that tell the app.
pub mod Repo
pub mod Service
pub mod Webhooks
