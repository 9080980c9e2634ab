-- ===== src/Io/Pipe.antt =====
-- A stream in memory: what was written, and what is still to be read. It shows that the
-- assumptions on a connection can be met.
use gogram.Common.{
  ℕ, ◌<◌, ◌≡◌, refl, none, some, arith, ◌++◌, length, take, drop, leb, if◌then◌else◌,
}
use gogram.Common.Bytes.{Bytes}
use gogram.Io.{IoError, unexpected_eof, Conn, IsStream, Writer, IsBuffer}

pub record Pipe : Type 0 where
  pub written : Bytes
  pub unread : Bytes

abbrev pub pipe : Conn Pipe
pipe = record {
  write = λ s b. (record s { written = s.written ++ b }, length b, none);
  read_full = λ s n. (
    record s { unread = drop n s.unread },
    take n s.unread,
    (if leb n (length s.unread) then none else some unexpected_eof),
  );
}

pipe_short :
    (s : Pipe) (n : ℕ)
    → length s.unread < n
    → (e : IoError) × ((if leb n (length s.unread) then none else some unexpected_eof) ≡ some e)
pipe_short s n h = (unexpected_eof, ground arith)

pub pipe-IsStream : IsStream pipe (λ s. s.written) (λ s. s.unread)
pipe-IsStream = record {
  write_sent = λ s b. refl;
  write_pending = λ s b. refl;
  write_count = λ s b. refl;
  write_err = λ s b. refl;
  read_data = λ s n h. refl;
  read_err = λ s n h. ground arith;
  read_pending = λ s n. refl;
  read_sent = λ s n. refl;
  read_short = pipe_short;
}

-- `bytes.Buffer`, as its bytes.
abbrev pub buffer : Writer Bytes
buffer = record {
  write = λ w b. (w ++ b, length b, none);
  write_string = λ w b. (w ++ b, length b, none);
}

pub buffer-IsBuffer : IsBuffer buffer (λ w. w)
buffer-IsBuffer = record {
  write_written = λ w b. refl;
  write_count = λ w b. refl;
  write_err = λ w b. refl;
  string_written = λ w b. refl;
  string_count = λ w b. refl;
  string_err = λ w b. refl;
}
