-- ===== src/ByteStream/Invariant.antt =====
-- The representation invariant of libsponge/byte_stream.cc, kept by each method.
use sponge.Prelude.{
  ℕ, ◌+◌, ◌-◌, ◌%◌, ◌^◌, ◌≤◌, ◌≡◌, List, min, length, length-append, length-take, length-drop,
  arith, take, IsU64,
}
use sponge.ByteStream.{
  ByteStream, init, write, peek_output, pop_output, end_input, set_error, remaining_capacity,
}

-- The counters are `size_t`, and count modulo 2 ^ 64.
pub record IsValid (s : ByteStream) : Type 0 where
  pub small : IsU64 s.capacity
  pub bounded : length s.buffer ≤ s.capacity
  pub written : IsU64 s.bytes_written
  pub taken : IsU64 s.bytes_read
  pub balance : s.bytes_written ≡ (s.bytes_read + length s.buffer) % 2 ^ 64

pub init-IsValid : (capacity : ℕ) → IsU64 capacity → IsValid (init capacity)
unfolding init
init-IsValid capacity h = omega arith

pub write-IsValid : (s : ByteStream) (bytes : List ℕ) → IsValid s → IsValid (write s bytes).1
unfolding write
write-IsValid s bytes v =
    let n = min (length bytes) (remaining_capacity s) in
    omega (arith, length-append s.buffer (take n bytes), length-take n bytes)

pub pop_output-IsValid : (s : ByteStream) (len : ℕ) → IsValid s → IsValid (pop_output s len)
unfolding pop_output
pop_output-IsValid s len v = omega (arith, length-drop (min len (length s.buffer)) s.buffer)

pub end_input-IsValid : (s : ByteStream) → IsValid s → IsValid (end_input s)
unfolding end_input
end_input-IsValid s v = omega arith

pub set_error-IsValid : (s : ByteStream) → IsValid s → IsValid (set_error s)
unfolding set_error
set_error-IsValid s v = omega arith

-- `write` takes as many bytes as there is room for.
pub write_count :
    (s : ByteStream) (bytes : List ℕ)
    → IsValid s
    → (write s bytes).0 ≡ min (length bytes) (s.capacity - length s.buffer)
unfolding write
write_count s bytes v = omega arith

pub length-peek_output :
    (s : ByteStream) (len : ℕ) → length (peek_output s len) ≡ min len (length s.buffer)
unfolding peek_output
length-peek_output s len = omega (arith, length-take (min len (length s.buffer)) s.buffer)
