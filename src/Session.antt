-- ===== src/Session.antt =====
-- mtproto.go and network.go: the state of the connection and the delays between its attempts, the
-- keys, the ids that were received, and the message ids
-- of internal/utils/utils.go.
pub mod TcpState
pub mod MsgId
pub mod Window
pub mod KeyRing
pub mod Backoff
pub mod Tests
