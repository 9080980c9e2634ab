-- ===== src/Tl/ValueRoundTrip.antt =====
-- What the reflective encoder writes, the reflective decoder reads back.
use gogram.Common.{ℕ, ◌≤◌, ◌≡◌, refl, sym, ◌∙◌, none, [], ◌++◌, arith}
use gogram.Common.Bytes.{Bytes}
use gogram.Io.Pipe.{buffer-IsBuffer}
use gogram.Tl.Schema.{GoType, Value}
use gogram.Tl.Encoder.{Encoder}
use gogram.Tl.Decoder.{Decoder, new_decoder_bytes}
use gogram.Tl.WireForm.{IsWire}
use gogram.Tl.Marshal.Wired.{encode_value-Sent}
use gogram.Tl.Unmarshal.{Program}
use gogram.Tl.Unmarshal.Wired.{decode_value-Pops}

module _ (p : Program) where
  -- A value of a type has at most one wire form of at most 128 levels.
  pub wire_unique :
      {r s : ℕ} {t u : GoType} {v : Value} {b c : Bytes}
      → IsWire p r t v b
      → IsWire p s u v c
      → r ≤ 128
      → s ≤ 128
      → b ≡ c
  wire_unique form form' h k =
      let e : Encoder Bytes = record { depth = 0; writer = []; err = none } in
      sym (encode_value-Sent p buffer-IsBuffer form e refl (omega arith)).appends.wrote_bytes
      ∙ (encode_value-Sent p buffer-IsBuffer form' e refl (omega arith)).appends.wrote_bytes

  -- Where two values of a type have wire forms of at most 128 levels, and the same bytes start
  -- with both, the values are equal and so is what follows: no wire form of a type is a part of
  -- another.
  pub wire_prefix_free :
      {r s : ℕ} {t : GoType} {v w : Value} {b c : Bytes} (x y : Bytes)
      → IsWire p r t v b
      → IsWire p s t w c
      → r ≤ 128
      → s ≤ 128
      → b ++ x ≡ c ++ y
      → (v ≡ w) × (x ≡ y)
  wire_prefix_free {b = b} x y form form' h k same =
      let d = new_decoder_bytes (b ++ x) in
      let one = decode_value-Pops p 129 form d x refl (omega arith) (omega arith) refl in
      let two = decode_value-Pops p 129 form' d y refl (omega arith) (omega arith) same in
      (sym one.value ∙ two.value, sym one.left ∙ two.left)
