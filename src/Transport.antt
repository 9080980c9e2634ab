-- ===== src/Transport.antt =====
-- internal/transport: the connections below the framings.
pub mod Obfuscated
pub mod Tests
