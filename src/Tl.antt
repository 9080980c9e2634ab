-- ===== src/Tl.antt =====
-- internal/encoding/tl: the wire format.
pub mod Defs
pub mod Schema
pub mod Flags
pub mod FlagLaws
pub mod Encoder
pub mod BigInts
pub mod Marshal
pub mod Decoder
pub mod Unmarshal
pub mod Wire
pub mod FlagWords
pub mod Laid
pub mod FlagsOf
pub mod WireForm
pub mod Lengths
pub mod RoundTrip
pub mod ValueRoundTrip
pub mod LostError
pub mod Limits
mod Tests
