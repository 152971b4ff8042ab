-- ===== src/ByteStream.antt =====
-- libsponge/byte_stream.hh and byte_stream.cc. A `std::string` is a list of byte values, and a
-- method that changes the stream returns the new stream beside its result. `size_t` wraps.
pub mod Invariant
pub mod Fifo
use sponge.Prelude.{
  ℕ, Bool, false, true, ◌&&◌, List, [], ◌++◌, min, length, take, drop, add64, sub64,
}

pub record ByteStream : Type 0 where
  pub capacity : ℕ
  pub buffer : List ℕ
  pub bytes_written : ℕ
  pub bytes_read : ℕ
  pub input_ended : Bool
  pub error : Bool

unfoldable pub init : ℕ → ByteStream
init capacity = record {
  capacity = capacity;
  buffer = [];
  bytes_written = 0;
  bytes_read = 0;
  input_ended = false;
  error = false;
}

abbrev pub buffer_size : ByteStream → ℕ
buffer_size s = length s.buffer

abbrev pub buffer_empty : ByteStream → Bool
buffer_empty s = elim s.buffer [ [] ↦ true | _ ↦ false ]

abbrev pub eof : ByteStream → Bool
eof s = s.input_ended && buffer_empty s

abbrev pub remaining_capacity : ByteStream → ℕ
remaining_capacity s = sub64 s.capacity (length s.buffer)

unfoldable pub write : ByteStream → List ℕ → ℕ × ByteStream
write s bytes =
    let bytes_to_write = min (length bytes) (remaining_capacity s) in
    (
      bytes_to_write,
      record s {
        buffer = s.buffer ++ take bytes_to_write bytes;
        bytes_written = add64 s.bytes_written bytes_to_write;
      },
    )

unfoldable pub peek_output : ByteStream → ℕ → List ℕ
peek_output s len = take (min len (length s.buffer)) s.buffer

unfoldable pub pop_output : ByteStream → ℕ → ByteStream
pop_output s len =
    let pop_size = min len (length s.buffer) in
    record s { buffer = drop pop_size s.buffer; bytes_read = add64 s.bytes_read pop_size }

unfoldable pub read : ByteStream → ℕ → List ℕ × ByteStream
read s len = (peek_output s len, pop_output s len)

unfoldable pub end_input : ByteStream → ByteStream
end_input s = record s { input_ended = true }

unfoldable pub set_error : ByteStream → ByteStream
set_error s = record s { error = true }
