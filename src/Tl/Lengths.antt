-- ===== src/Tl/Lengths.antt =====
-- Every wire form has at least one word, so a vector has at most a quarter as many elements as
-- its wire form has bytes.
use gogram.Common.{ℕ, ◌*◌, ◌≤◌, ◌<◌, ◌++◌, length, length-append, arith, replicate, if◌then◌else◌}
use gogram.Common.Bytes.{Bytes, le_bytes, length-le_bytes, length-be_bytes}
use gogram.Tl.Defs.{crc_vector, crc_true, crc_false}
use gogram.Tl.Schema.{GoType, Value, Values, count}
use gogram.Tl.Wire.{message_wire, message_prefix, message_pad, length-message_wire}
use gogram.Tl.WireForm.{
  IsWire, AreWire, a_uint32, an_int32, an_int64, a_float64, a_boolean, a_str, a_byte_slice,
  an_int128, an_int256, a_slice, a_pointer, an_interface, a_true, a_false, no_elements, an_element,
}
use gogram.Tl.Unmarshal.{Program}

message_prefix-pos : (n : ℕ) → 0 < length (message_prefix n)
unfolding message_prefix
message_prefix-pos n = ground arith

message_wire_ge : (s : Bytes) → 4 ≤ length (message_wire s)
message_wire_ge s =
    let some_byte : 0 < length (message_wire s) =
      unfold message_wire in
      omega (
        arith,
        length-append (message_prefix (length s)) (s ++ replicate (message_pad (length s)) 0),
        message_prefix-pos (length s),
      ) in
    omega (arith, length-message_wire s)

le_bytes_ge : (v : ℕ) (b : Bytes) → 4 ≤ length (le_bytes 4 v ++ b)
le_bytes_ge v b = omega (arith, length-append (le_bytes 4 v) b, length-le_bytes 4 v)

pub wire_ge :
    {p : Program} {r : ℕ} {t : GoType} {v : Value} {b : Bytes} → IsWire p r t v b → 4 ≤ length b
wire_ge (a_uint32 {v = v} h) = omega (arith, length-le_bytes 4 v)
wire_ge (an_int32 {v = v} h) = omega (arith, length-le_bytes 4 v)
wire_ge (an_int64 {v = v} h) = omega (arith, length-le_bytes 8 v)
wire_ge (a_float64 {v = v} h) = omega (arith, length-le_bytes 8 v)
wire_ge (a_boolean {b = b}) = omega (arith, length-le_bytes 4 (if b then crc_true else crc_false))
wire_ge (a_str {s = s} h) = message_wire_ge s
wire_ge (a_byte_slice {s = s} h) = message_wire_ge s
wire_ge (an_int128 {v = v} h) = omega (arith, length-be_bytes 16 v)
wire_ge (an_int256 {v = v} h) = omega (arith, length-be_bytes 32 v)
wire_ge (a_slice {vs = vs} {b = b} few small parts) =
    le_bytes_ge crc_vector (le_bytes 4 (count vs) ++ b)
wire_ge {p} (a_pointer {n = n} {b = b} whole) = le_bytes_ge (p.types n).crc b
wire_ge {p} (an_interface {n = n} {b = b} crc known plain fits whole) =
    le_bytes_ge (p.types n).crc b
wire_ge (a_true fits) = omega (arith, length-le_bytes 4 crc_true)
wire_ge (a_false fits) = omega (arith, length-le_bytes 4 crc_false)

pub wires_ge :
    {p : Program} {r : ℕ} {t : GoType} {vs : Values} {b : Bytes}
    → AreWire p r t vs b
    → count vs * 4 ≤ length b
unfolding count
wires_ge no_elements = omega arith
wires_ge (an_element {b = b} {bs} form rest) =
    omega (arith, wire_ge form, wires_ge rest, length-append b bs)
