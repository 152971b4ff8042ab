-- ===== src/FileDescriptor.antt =====
-- libsponge/util/file_descriptor.hh and file_descriptor.cc, with the methods of Socket and UDPSocket
-- of libsponge/util/socket.cc that the other parts call. A descriptor stands for the FDWrapper that
-- its duplicates share. What the kernel answers is part of its state, and an exception is `none`.
pub mod Calls
use sponge.Prelude.{
  ℕ, zero, suc, ◌+◌, ◌*◌, ◌%◌, ◌^◌, Bool, true, false, not, ◌&&◌, ◌||◌, Option, none, some, List,
  [], ◌∷◌, ◌++◌, min, length, take, drop, add64, ltb, ◌==◌, if◌then◌else◌,
}

-- What the calls of read(2), writev(2) and the others (close(2), shutdown(2), fcntl(2)) on a descriptor are
-- going to answer, in order, and what has gone through it so far. `none` and `false` are errors.
pub record Kernel : Type 0 where
  pub reads : List (Option (List ℕ))
  pub writes : List (Option ℕ)
  pub others : List Bool
  pub taken : List ℕ
  pub written : List ℕ
  pub shut_read : Bool
  pub shut_write : Bool
  pub blocking : Bool

-- `FDWrapper`. The counts are of type `unsigned`.
pub record FileDescriptor : Type 0 where
  pub kernel : Kernel
  pub eof : Bool
  pub closed : Bool
  pub read_count : ℕ
  pub write_count : ℕ

abbrev pub wrap : Kernel → FileDescriptor
wrap kernel = record {
  kernel = kernel;
  eof = false;
  closed = false;
  read_count = 0;
  write_count = 0;
}

abbrev pub register_read : FileDescriptor → FileDescriptor
register_read d = record d { read_count = (d.read_count + 1) % 2 ^ 32 }

abbrev pub register_write : FileDescriptor → FileDescriptor
register_write d = record d { write_count = (d.write_count + 1) % 2 ^ 32 }

-- `BUFFER_SIZE`
abbrev pub max_read : ℕ
max_read = 1024 * 1024

-- What is left of `read` when read(2) has returned.
abbrev pub take_bytes :
    FileDescriptor → ℕ → List ℕ → List (Option (List ℕ)) → Option (List ℕ × FileDescriptor)
take_bytes d limit bytes rest =
    let d' = record d {
      eof = ltb 0 limit && length bytes == 0 || d.eof;
      kernel = record (d.kernel) { reads = rest; taken = d.kernel.taken ++ bytes };
    } in
    if ltb (min max_read limit) (length bytes) then none else some (bytes, register_read d')

abbrev pub read_answered :
    FileDescriptor → ℕ → List (Option (List ℕ)) → Option (List ℕ × FileDescriptor)
read_answered d limit [] = none
read_answered d limit (none ∷ rest) = none
read_answered d limit (some bytes ∷ rest) = take_bytes d limit bytes rest

unfoldable pub read : FileDescriptor → ℕ → Option (List ℕ × FileDescriptor)
read d limit = read_answered d limit d.kernel.reads

-- The descriptor after one call of writev(2).
abbrev pub put_bytes : FileDescriptor → List ℕ → ℕ → List (Option ℕ) → FileDescriptor
put_bytes d buffer n rest = register_write (record d {
  kernel = record (d.kernel) { writes = rest; written = d.kernel.written ++ take n buffer };
})

-- The loop of `write`, over what the calls of writev(2) answer. The buffers are their bytes.
unfoldable pub write_loop :
    FileDescriptor → List (Option ℕ) → List ℕ → Bool → ℕ → Option (ℕ × FileDescriptor)
write_loop d [] buffer write_all total = none
write_loop d (none ∷ rest) buffer write_all total = none
write_loop d (some n ∷ rest) buffer write_all total =
    let d' = put_bytes d buffer n rest in
    let left = drop n buffer in
    let again = write_loop d' rest left write_all (add64 total n) in
    if n == 0 && not (length buffer == 0)
    then none
    else if ltb (length buffer) n
    then none
    else if write_all && not (length left == 0)
    then again
    else some (add64 total n, d')

unfoldable pub write : FileDescriptor → List ℕ → Bool → Option (ℕ × FileDescriptor)
unfolding write_loop
write d buffer write_all = write_loop d d.kernel.writes buffer write_all 0

abbrev pub other_call : FileDescriptor → List Bool → Option FileDescriptor
other_call d [] = none
other_call d (false ∷ rest) = none
other_call d (true ∷ rest) = some (record d { kernel = record (d.kernel) { others = rest } })

unfoldable pub close : FileDescriptor → Option FileDescriptor
close d = elim (other_call d d.kernel.others) [
  | none ↦ none
  | some d' ↦ some (record d' { eof = true; closed = true })
]

pub data How : Type 0 where
  shut_rd : How
  shut_wr : How
  shut_rdwr : How

abbrev pub shut_half : FileDescriptor → How → FileDescriptor
shut_half d How.shut_rd =
    register_read (record d { kernel = record (d.kernel) { shut_read = true } })
shut_half d How.shut_wr =
    register_write (record d { kernel = record (d.kernel) { shut_write = true } })
shut_half d How.shut_rdwr = register_write (
    register_read (record d { kernel = record (d.kernel) { shut_read = true; shut_write = true } }))

-- `Socket::shutdown`
unfoldable pub shutdown : FileDescriptor → How → Option FileDescriptor
shutdown d how = elim (other_call d d.kernel.others) [
  | none ↦ none
  | some d' ↦ some (shut_half d' how)
]

-- Two calls of fcntl(2), for the flags and for O_NONBLOCK among them.
unfoldable pub set_blocking : FileDescriptor → Bool → Option FileDescriptor
set_blocking d blocking_state = elim (other_call d d.kernel.others) [
  | none ↦ none
  | some d' ↦ elim (other_call d' d'.kernel.others) [
    | none ↦ none
    | some d'' ↦ some (record d'' { kernel = record (d''.kernel) { blocking = blocking_state } })
  ]
]
