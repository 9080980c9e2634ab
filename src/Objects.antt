-- ===== src/Objects.antt =====
-- internal/mtproto/objects: the service objects that write and read themselves.
pub mod Container
pub mod Tests
