-- ===== src/E2e.antt =====
-- telegram/e2e: the counters of a secret chat, and the conversation of its two sides.
pub mod Chat
pub mod Talk
pub mod Tests
