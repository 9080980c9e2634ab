-- ===== src/Tl/Tests.antt =====
-- The theorems on the wire format at concrete inputs.
use gogram.Common.{
  ℕ, ◌^◌, ◌≡◌, refl, none, [], ◌∷◌, ◌++◌, length, replicate, length-replicate, arith,
}
use gogram.Common.Bytes.{Bytes, IsBytes}
use gogram.Io.Pipe.{buffer, buffer-IsBuffer}
use gogram.Tl.Defs.{padding4}
use gogram.Tl.Encoder.{Encoder, write, put_uint8, put_padding, put_short, put_content, put_message}
use gogram.Tl.Encoder.Appends.{Appends}
use gogram.Tl.Decoder.{
  Decoder, new_decoder_bytes, read, read_some, pop_void, pop_content, all_zero, pop_after,
  pop_message,
}
use gogram.Tl.Decoder.Reads.{Pops}
use gogram.Tl.Decoder.Accepted.{Accepted, pop_message-Accepted}
use gogram.Tl.RoundTrip.{Returned, pop_message-put_message}
use gogram.Tl.Limits.{put_message_wraps}

abbrev fresh : Encoder Bytes
fresh = record { depth = 0; writer = []; err = none }

abbrev hello : Bytes
hello = 104 ∷ 101 ∷ 108 ∷ 108 ∷ 111 ∷ []

abbrev hello_wire : Bytes
hello_wire = 5 ∷ 104 ∷ 101 ∷ 108 ∷ 108 ∷ 111 ∷ 0 ∷ 0 ∷ []

put_hello : (put_message buffer fresh hello).writer ≡ hello_wire
unfolding put_content put_short put_padding put_uint8 write padding4
put_hello = refl

pop_hello : (pop_message (new_decoder_bytes (hello_wire ++ (9 ∷ [])))).1 ≡ hello
unfolding pop_message pop_after pop_content pop_void read read_some all_zero
pop_hello = refl

message_example :
    Returned
      (put_message buffer fresh hello)
      (new_decoder_bytes (hello_wire ++ (9 ∷ [])))
      (pop_message (new_decoder_bytes (hello_wire ++ (9 ∷ []))))
      hello
      (9 ∷ [])
message_example =
    pop_message-put_message buffer-IsBuffer fresh (new_decoder_bytes (hello_wire ++ (9 ∷ []))) hello
      hello_wire (9 ∷ []) refl refl (omega arith) put_hello refl

-- So many zeros, sealed.
zeros : ℕ → Bytes
zeros n = replicate n 0

length-zeros : (n : ℕ) → length (zeros n) ≡ n
unfolding zeros
length-zeros n = length-replicate n 0

abbrev largest : Decoder
largest = new_decoder_bytes ((254 ∷ 0 ∷ 0 ∷ 0 ∷ zeros (2 ^ 24)) ++ [])

wraps_example :
    Appends
      (λ w. w)
      fresh
      (put_message buffer fresh (zeros (2 ^ 24)))
      (254 ∷ 0 ∷ 0 ∷ 0 ∷ zeros (2 ^ 24))
    × Pops largest (pop_message largest) [] (zeros (2 ^ 24) ++ [])
wraps_example =
    put_message_wraps buffer-IsBuffer fresh largest (zeros (2 ^ 24)) [] refl refl
      (length-zeros (2 ^ 24)) refl

-- The string of the wire form, in front of one byte more.
abbrev arrived : Decoder
arrived = new_decoder_bytes (hello_wire ++ (9 ∷ []))

hello_accepted : (pop_message arrived).0.err ≡ none
unfolding pop_message pop_after pop_content pop_void read read_some all_zero
hello_accepted = refl

bytes_of_hello : IsBytes arrived.input
bytes_of_hello = (
  omega arith,
  (
    omega arith,
    (
      omega arith,
      (omega arith, (omega arith, (omega arith, (omega arith, (omega arith, (omega arith, tt)))))),
    ),
  ),
)

Accepted_example : Accepted arrived (pop_message arrived)
Accepted_example = pop_message-Accepted arrived bytes_of_hello hello_accepted
