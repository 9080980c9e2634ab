-- ===== src/Transport/Tests.antt =====
-- A witness: a stream that adds a constant, on a pipe, where the first draw is not usable.
use gogram.Common.{
  ℕ, suc, ◌≡◌, refl, ap, inl, inr, some, [], ◌∷◌, ◌++◌, List, length, replicate, bit_xor, arith,
}
use gogram.Common.Bits.{xor_cancel}
use gogram.Common.Bytes.{Bytes, from_le}
use gogram.Io.Pipe.{Pipe, pipe, pipe-IsStream}
use gogram.Transport.Obfuscated.{Ctr, IsCtr, is_usable, contains_word}
use gogram.Transport.Obfuscated.Starts.{
  SomeUsable, some_draws, Started, new_obfuscated_conn-Started,
}

toy_xor : Bytes → Bytes
toy_xor [] = []
toy_xor (x ∷ xs) = bit_xor x 5 ∷ toy_xor xs

length-toy_xor : (b : Bytes) → length (toy_xor b) ≡ length b
unfolding toy_xor
length-toy_xor [] = refl
length-toy_xor (x ∷ xs) = ap suc (length-toy_xor xs)

toy_xor-append : (a b : Bytes) → toy_xor (a ++ b) ≡ toy_xor a ++ toy_xor b
unfolding toy_xor
toy_xor-append [] b = refl
toy_xor-append (x ∷ a) b = ap (λ t. bit_xor x 5 ∷ t) (toy_xor-append a b)

toy_xor_twice : (b : Bytes) → toy_xor (toy_xor b) ≡ b
unfolding toy_xor
toy_xor_twice [] = refl
toy_xor_twice (x ∷ xs) = rw (xor_cancel x 5, toy_xor_twice xs) refl

abbrev toy_ctr : Ctr ℕ
toy_ctr = record { new_ctr = λ key iv. some 0; xor_key_stream = λ s b. (s, toy_xor b) }

toy_ctr-IsCtr : IsCtr toy_ctr
toy_ctr-IsCtr = record {
  stream_of = λ key iv h k. (0, refl);
  length-xor = λ s b. length-toy_xor b;
  in_parts = λ s a b. ap (λ (t : Bytes). (let r : ℕ × Bytes = (s, t) in r)) (toy_xor-append a b);
  takes_back = λ s b. ap (λ (t : Bytes). (let r : ℕ × Bytes = (s, t) in r)) (toy_xor_twice b);
}

abbrev draws : List Bytes
draws = replicate 64 0xef ∷ replicate 64 7 ∷ []

draws-SomeUsable : SomeUsable draws
unfolding SomeUsable is_usable contains_word from_le
draws-SomeUsable = inr (inl refl)

abbrev no_traffic : Pipe
no_traffic = record { written = []; unread = [] }

obfuscated_example :
    Started pipe toy_ctr toy_ctr-IsCtr
      (λ s. s.written)
      (λ s. s.unread)
      pipe-IsStream
      no_traffic
      (0xdd ∷ [])
      (some_draws draws)
obfuscated_example =
    new_obfuscated_conn-Started pipe toy_ctr toy_ctr-IsCtr (λ s. s.written) (λ s. s.unread)
      pipe-IsStream no_traffic (0xdd ∷ []) draws (omega arith) (omega arith) (refl, (refl, tt))
      draws-SomeUsable
