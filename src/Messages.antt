-- ===== src/Messages.antt =====
-- internal/mtproto/messages: the envelopes of messages, before a key is agreed on and after.
pub mod Plain
pub mod RoundTrip
pub mod Encrypted
pub mod Tests
pub mod EnvelopeTests
