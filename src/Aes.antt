-- ===== src/Aes.antt =====
-- internal/aes_ige: the block cipher mode IGE, the encryption of messages, and the PKCS#5 padding.
pub mod Ige
pub mod Message
pub mod Secret
pub mod TempKeys
pub mod V1
pub mod Padding
pub mod Tests
pub mod KeyTests
