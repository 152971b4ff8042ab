-- ===== src/FileDescriptor/Calls.antt =====
-- What a call of libsponge/util/file_descriptor.cc that returns has done.
use sponge.Prelude.{
  ℕ, ◌+◌, ◌%◌, ◌^◌, ◌≤◌, ◌<◌, ◌≡◌, Bool, true, false, Option, none, some, List, [], ◌∷◌, ◌++◌, min,
  length, take, drop, add64, arith, length-drop, append_assoc, ap, ◌∙◌, take-append-drop, take_all,
  drop_all,
}
use sponge.FileDescriptor.{
  FileDescriptor, read, max_read, write, write_loop, close, shutdown, set_blocking, How,
  read_answered, put_bytes,
}

-- The call took `bytes`, and left what does not belong to reading as it was.
pub record Reads (d : FileDescriptor) (limit : ℕ) (bytes : List ℕ) (d' : FileDescriptor)
    : Type 0 where
  pub within : length bytes ≤ min max_read limit
  pub taken : d'.kernel.taken ≡ d.kernel.taken ++ bytes
  pub written : d'.kernel.written ≡ d.kernel.written
  pub counted : d'.read_count ≡ (d.read_count + 1) % 2 ^ 32
  pub write_count : d'.write_count ≡ d.write_count

pub read-Reads :
    (d d' : FileDescriptor) (limit : ℕ) (bytes : List ℕ)
    → read d limit ≡ some (bytes, d')
    → Reads d limit bytes d'
unfolding read
read-Reads d d' limit bytes e = answered d.kernel.reads e
  where
    answered :
        (reads : List (Option (List ℕ)))
        → read_answered d limit reads ≡ some (bytes, d')
        → Reads d limit bytes d'
    answered [] e = ground arith
    answered (none ∷ rest) e = ground arith
    answered (some b ∷ rest) e = ground arith

-- One call of writev(2).
pub record Writes (d : FileDescriptor) (buffer : List ℕ) (n : ℕ) (d' : FileDescriptor)
    : Type 0 where
  pub within : n ≤ length buffer
  pub taken : d'.kernel.taken ≡ d.kernel.taken
  pub written : d'.kernel.written ≡ d.kernel.written ++ take n buffer
  pub read_count : d'.read_count ≡ d.read_count
  pub counted : d'.write_count ≡ (d.write_count + 1) % 2 ^ 32

pub write-Writes :
    (d d' : FileDescriptor) (buffer : List ℕ) (n : ℕ)
    → length buffer < 2 ^ 64
    → write d buffer false ≡ some (n, d')
    → Writes d buffer n d'
unfolding write
write-Writes d d' buffer n small e = answered d.kernel.writes e
  where
    answered :
        (writes : List (Option ℕ))
        → write_loop d writes buffer false 0 ≡ some (n, d')
        → Writes d buffer n d'
    answered [] e = ground arith
    answered (none ∷ rest) e = ground arith
    answered (some b ∷ rest) e = ground arith

-- Bytes have neither come nor gone.
pub record SameBytes (d d' : FileDescriptor) : Type 0 where
  pub taken : d'.kernel.taken ≡ d.kernel.taken
  pub written : d'.kernel.written ≡ d.kernel.written

pub close-SameBytes :
    (d d' : FileDescriptor)
    → close d ≡ some d'
    → SameBytes d d' × (d'.read_count ≡ d.read_count) × (d'.write_count ≡ d.write_count)
unfolding close
close-SameBytes d d' e = ground arith

pub shutdown-SameBytes :
    (d d' : FileDescriptor) (how : How) → shutdown d how ≡ some d' → SameBytes d d'
unfolding shutdown
shutdown-SameBytes d d' how e = ground arith

pub shutdown-write_count :
    (d d' : FileDescriptor)
    → shutdown d How.shut_wr ≡ some d'
    → (d'.read_count ≡ d.read_count) × (d'.write_count ≡ (d.write_count + 1) % 2 ^ 32)
unfolding shutdown
shutdown-write_count d d' e = ground arith

take-drop_append : (n : ℕ) (a b : List ℕ) → (a ++ take n b) ++ drop n b ≡ a ++ b
take-drop_append n a b =
    append_assoc a (take n b) (drop n b) ∙ ap (λ x. a ++ x) (take-append-drop n b)

-- The loop of `write` with `write_all`.
write_loop_all :
    (d d' : FileDescriptor) (writes : List (Option ℕ)) (buffer : List ℕ) (total n : ℕ)
    → total + length buffer < 2 ^ 64
    → write_loop d writes buffer true total ≡ some (n, d')
    → (n ≡ total + length buffer) × (d'.kernel.written ≡ d.kernel.written ++ buffer)
unfolding write_loop
write_loop_all d d' [] buffer total n small e = ground arith
write_loop_all d d' (none ∷ rest) buffer total n small e = ground arith
write_loop_all d d' (some m ∷ rest) buffer total n small e = ground (
  arith,
  length-drop m buffer,
  take-drop_append m d.kernel.written buffer,
  take_all m buffer,
  drop_all m buffer,
  write_loop_all (put_bytes d buffer m rest) d' rest (drop m buffer) (add64 total m) n,
)

-- A write of all of a buffer of fewer than 2 ^ 64 bytes that does not throw returns their number and
-- has written them in order, in however many pieces writev(2) took them.
pub write_all_lem :
    (d d' : FileDescriptor) (buffer : List ℕ) (n : ℕ)
    → length buffer < 2 ^ 64
    → write d buffer true ≡ some (n, d')
    → (n ≡ length buffer) × (d'.kernel.written ≡ d.kernel.written ++ buffer)
unfolding write
write_all_lem d d' buffer n small e =
    let room : 0 + length buffer < 2 ^ 64 = omega arith in
    let all = write_loop_all d d' d.kernel.writes buffer 0 n room e in (omega arith, all.1)

pub set_blocking-SameBytes :
    (d d' : FileDescriptor) (blocking : Bool) → set_blocking d blocking ≡ some d' → SameBytes d d'
unfolding set_blocking
set_blocking-SameBytes d d' blocking e = ground arith
