-- ===== src/Lib.antt =====
-- gogram: the MTProto core of a Telegram client, modelled from its Go code, with proofs.
--
-- A request of the client is serialized in the type language (internal/encoding/tl), encrypted under
-- the shared key (internal/aes_ige), framed (internal/mode) and written to a connection; an answer
-- goes the same way back. The client (mtproto.go) numbers its messages and keeps the connection up.
-- A secret chat (telegram/e2e) adds a second layer of numbered messages between two clients.
--
-- Common holds what all parts share: lists over native numbers, bytes and little-endian words, the
-- laws of the bit operations, and results with an error. Io is the interface of a connection and of a
-- writer: `Conn` stands for the Go connection and `io.ReadFull`, `Writer` for `io.Writer`. Their laws
-- (`IsStream`, `IsBuffer`) are those of a stream that delivers in order and of a buffer that takes
-- every write; Io/Pipe is an instance of both.
--
--   Mode, internal/mode: a module for each framing. `write_msg` and `read_msg` are WriteMsg and
--     ReadMsg, `new` is New. A call gives the connection after it, and a value or an error.
--   Tl, internal/encoding/tl: Tl/Encoder is cursor_w.go, Tl/Decoder is cursor_r.go. An object of type
--     Encoder or Decoder is a record that each call takes and gives back; both keep their first
--     error as a field, as the code does. Tl/Schema is the universe of Go types and values that
--     encoder.go and decoder.go see by reflection, Tl/Flags the flags words of a struct, Tl/BigInts
--     BigIntBytes of utils.go with Int128 and Int256 of common_types.go. Tl/Marshal is encoder.go:
--     `encode_value` is encodeValue, by recursion on the value, and a struct or a slice gets the
--     calls that encode its parts. Tl/Unmarshal is decoder.go, with popVector in
--     Tl/Unmarshal/Kinds: its parts take decodeValue as an argument, and `decode_value` closes them
--     on fuel. Tl/WireForm says apart from both which bytes stand for a value of a type;
--     Tl/FlagWords, Tl/Laid and Tl/FlagsOf relate its flags words to those of the encoder.
--   Aes, internal/aes_ige: Aes/Ige is ige_cipher.go, Aes/Message is MessageKey, Encrypt and Decrypt of
--     aes.go with aesKeys, Aes/Secret is EncryptMessageMTProto and DecryptMessageMTProto, Aes/TempKeys
--     the messages of the key exchange, Aes/V1 is EncryptV1, Aes/Padding is the padding of
--     aes_common.go.
--   Session, mtproto.go: Session/TcpState is TcpState with its channels, Session/Backoff is
--     reconnectDelay, Session/Window is receivedMessageWindow, Session/KeyRing the choice of keys and
--     salts in network.go, Session/MsgId is NewMsgIDGenerator of internal/utils/utils.go.
--   Factor, internal/math/math.go: gcd64, mulmod and fStep, and Factor/Search on top of them is
--     factorizeU64 and Factorize.
--   Messages, internal/mtproto/messages: Messages/Plain is Unencrypted of messages.go,
--     Messages/Encrypted is Encrypted, over Aes/Message and the encoder and decoder of Tl.
--   Objects, internal/mtproto/objects/types.go: Objects/Container is MessageContainer.
--   Transport, internal/transport: Transport/Obfuscated is obfuscation.go.
--   E2e, telegram/e2e/secret_chat.go: E2e/Chat is the counters of one side,
--     E2e/Chat/Content the encryption of its messages, E2e/Talk/World both sides
--     with the messages between them, as a list of events in any order.
--
-- A machine integer is its word in two's complement, a natural number below 2 ^ 32 or 2 ^ 64, and
-- arithmetic on it wraps around with `% 2 ^ w`, where the code can reach the bound. A byte is a number
-- below 256 (`IsByte`). A nil slice is the empty one, except in Tl/Schema, since the flags of a struct
-- depend on it. Loops are recursion on the list that they read;
-- where a loop counts rounds, the rounds are the fuel, as the bound of the loop says, and gcd64 has
-- its second argument as fuel, which falls in each round. In factorizeU64 a try has as many rounds as
-- steps are allowed, of which each round takes one at least; the loops of
-- the heap of received ids have as many as it has entries. decodeValue takes one unit of fuel for
-- each level of nesting, of which the code allows 128, so 129 are enough at the start.
--
-- Parameters, with what the code relies on as named laws: the connection, the writer, CRC-32 and the
-- random source of Mode; the stream cipher of Transport (`Ctr`, `IsCtr`); SHA-256, AES and the random
-- source of Aes (`Crypto`, `IsCrypto`), and SHA-1, with hashes of 20 bytes; the test for primes of
-- Factor. Of Go's reflection Tl takes the struct types, the registry, the sizes of types and their
-- conversions as the fields of `Program`.
--
-- Not modelled: methods MarshalTL and UnmarshalTL but those of Int128 and Int256, and the parsing of
-- struct tags, whose result is part of a type here; the key exchange (handshake.go and the big
-- integers of internal/math), the goroutines, timers and answers of mtproto.go, sessions, proxies,
-- the other transports, and the client on top (telegram), whose requests and types are generated. The
-- clock, the locks and the pools of buffers are left out: each operation holds its lock from start to end.
pub mod Common
pub mod Io
pub mod Aes
pub mod E2e
pub mod Factor
pub mod Messages
pub mod Mode
pub mod Objects
pub mod Session
pub mod Tl
pub mod Transport
