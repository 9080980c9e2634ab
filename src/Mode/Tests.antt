-- ===== src/Mode/Tests.antt =====
-- The framings on streams in memory, and the theorems at concrete inputs.
use gogram.Common.{ℕ, ◌%◌, ◌^◌, ◌<◌, ◌≡◌, refl, inr, [], ◌∷◌, ◌++◌, length, arith}
use gogram.Common.Bytes.{Bytes, le_bytes, from_le}
use gogram.Common.Results.{Result, ok, err}
use gogram.Io.Pipe.{Pipe, pipe, pipe-IsStream}
use gogram.Io.{IoError}
use gogram.Mode.Frame.{write_frame, read_bytes, unexpected_sequence}
use gogram.Mode.Abridged
use gogram.Mode.Abridged.RoundTrip as AbridgedLaws
use gogram.Mode.Intermediate
use gogram.Mode.Intermediate.RoundTrip as IntermediateLaws
use gogram.Mode.Padded
use gogram.Mode.Padded.RoundTrip as PaddedLaws
use gogram.Mode.Full
use gogram.Mode.Full.{Full}
use gogram.Mode.Full.RoundTrip as FullLaws

abbrev idle : Pipe
idle = record { written = []; unread = [] }

abbrev two_words : Bytes
two_words = 1 ∷ 2 ∷ 3 ∷ 4 ∷ 5 ∷ 6 ∷ 7 ∷ 8 ∷ []

abbrev receiving : Bytes → Pipe
receiving b = record { written = []; unread = b }

abridged_frame : (Abridged.write_msg pipe two_words idle).0.written ≡ 2 ∷ two_words
unfolding Abridged.write_msg Abridged.header write_frame
abridged_frame = refl

abridged_read :
    Abridged.read_msg pipe (receiving (2 ∷ (two_words ++ (9 ∷ []))))
    ≡ (receiving (9 ∷ []), ok two_words)
unfolding Abridged.read_msg Abridged.read_size Abridged.read_body read_bytes
abridged_read = refl

abridged_example :
    ((Abridged.write_msg pipe two_words idle).1 ≡ ok tt)
    × ((Abridged.read_msg pipe (receiving (2 ∷ (two_words ++ (9 ∷ []))))).1 ≡ ok two_words)
    × ((Abridged.read_msg pipe (receiving (2 ∷ (two_words ++ (9 ∷ []))))).0.unread ≡ 9 ∷ [])
unfolding Abridged.write_msg Abridged.header write_frame
abridged_example =
    AbridgedLaws.read_msg-write_msg_abridged pipe-IsStream two_words (9 ∷ []) (2 ∷ two_words) idle
      (receiving (2 ∷ (two_words ++ (9 ∷ [])))) (omega arith) refl refl

intermediate_example :
    ((Intermediate.write_msg pipe two_words idle).1 ≡ ok tt)
    × ((Intermediate.read_msg pipe (receiving (8 ∷ 0 ∷ 0 ∷ 0 ∷ (two_words ++ (9 ∷ []))))).1
        ≡ ok two_words)
    × ((Intermediate.read_msg pipe (receiving (8 ∷ 0 ∷ 0 ∷ 0 ∷ (two_words ++ (9 ∷ []))))).0.unread
        ≡ 9 ∷ [])
unfolding Intermediate.write_msg write_frame le_bytes
intermediate_example =
    IntermediateLaws.read_msg-write_msg_intermediate pipe-IsStream two_words (9 ∷ [])
      (8 ∷ 0 ∷ 0 ∷ 0 ∷ two_words) idle (receiving (8 ∷ 0 ∷ 0 ∷ 0 ∷ (two_words ++ (9 ∷ []))))
      (omega arith) refl refl

-- An unencrypted packet with a message of four bytes, and three bytes of padding.
abbrev plain : Bytes
plain =
    0 ∷ 0 ∷ 0 ∷ 0 ∷ 0 ∷ 0 ∷ 0 ∷ 0 ∷ 1 ∷ 0 ∷ 0 ∷ 0 ∷ 0 ∷ 0 ∷ 0 ∷ 0 ∷ 4 ∷ 0 ∷ 0 ∷ 0 ∷ 11 ∷ 12 ∷ 13
    ∷ 14 ∷ []

abbrev three : Bytes
three = 7 ∷ 7 ∷ 7 ∷ []

abbrev fill_three : ℕ → Result IoError Bytes
fill_three n = ok three

abbrev padded_frame : Bytes
padded_frame = 27 ∷ 0 ∷ 0 ∷ 0 ∷ (plain ++ three)

plain-IsUnencrypted : PaddedLaws.IsUnencrypted plain
unfolding from_le
plain-IsUnencrypted = omega arith

padded_example :
    ((Padded.write_msg pipe (ok 0xf3) fill_three plain idle).1 ≡ ok tt)
    × ((Padded.read_msg pipe (receiving (padded_frame ++ (9 ∷ [])))).1 ≡ ok plain)
    × ((Padded.read_msg pipe (receiving (padded_frame ++ (9 ∷ [])))).0.unread ≡ 9 ∷ [])
unfolding Padded.write_msg Padded.write_padding write_frame le_bytes
padded_example =
    PaddedLaws.read_msg-write_msg_padded pipe-IsStream plain three (omega arith) (9 ∷ [])
      padded_frame 0xf3 fill_three idle (receiving (padded_frame ++ (9 ∷ [])))
      (inr plain-IsUnencrypted) (omega arith) (omega arith) refl refl refl

-- Any function into 32 bits may stand for the checksum.
abbrev sum_of : Bytes → ℕ
sum_of b = length b % 2 ^ 32

sum_of-lt : (b : Bytes) → sum_of b < 2 ^ 32
sum_of-lt b = omega arith

abbrev at_five : Pipe → Full Pipe
at_five s = record { conn = s; seq_no = 5; read_seq = 5 }

abbrev full_frame : Bytes
full_frame = 20 ∷ 0 ∷ 0 ∷ 0 ∷ 5 ∷ 0 ∷ 0 ∷ 0 ∷ (two_words ++ (16 ∷ 0 ∷ 0 ∷ 0 ∷ []))

full_example :
    ((Full.write_msg pipe sum_of two_words (at_five idle)).1 ≡ ok tt)
    × ((Full.read_msg pipe sum_of (at_five (receiving (full_frame ++ (9 ∷ []))))).1 ≡ ok two_words)
    × ((Full.read_msg pipe sum_of (at_five (receiving (full_frame ++ (9 ∷ []))))).0.conn.unread
        ≡ 9 ∷ [])
    × ((Full.read_msg pipe sum_of (at_five (receiving (full_frame ++ (9 ∷ []))))).0.read_seq
        ≡ (Full.write_msg pipe sum_of two_words (at_five idle)).0.seq_no)
unfolding Full.write_msg Full.packet Full.checked_part write_frame le_bytes Full.bump_seq_no
full_example =
    FullLaws.read_msg-write_msg_full pipe-IsStream sum_of sum_of-lt two_words (9 ∷ []) full_frame
      (at_five idle) (at_five (receiving (full_frame ++ (9 ∷ [])))) (omega arith) (omega arith) refl
      refl refl

abbrev at_six : Full Pipe
at_six = record { conn = receiving (full_frame ++ (9 ∷ [])); seq_no = 0; read_seq = 6 }

full_out_of_order_example :
    ((Full.read_msg pipe sum_of at_six).1 ≡ err (unexpected_sequence 5 6))
    × ((Full.read_msg pipe sum_of at_six).0.read_seq ≡ 6)
    × ((Full.read_msg pipe sum_of at_six).0.conn.unread ≡ 9 ∷ [])
unfolding Full.packet Full.checked_part le_bytes
full_out_of_order_example =
    FullLaws.read_msg_out_of_order pipe-IsStream sum_of sum_of-lt two_words (9 ∷ []) 5 at_six
      (omega arith) (omega arith) (omega arith) refl
