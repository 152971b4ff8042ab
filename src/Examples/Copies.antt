-- ===== src/Examples/Copies.antt =====
-- Runs of the descriptors and of the loop between two of them.
use sponge.Prelude.{ℕ, ◌≡◌, ◌≤◌, ◌^◌, ◌++◌, refl, true, false, some, none, List, [], ◌∷◌, length}
use sponge.FileDescriptor
use sponge.FileDescriptor.{FileDescriptor, Kernel}
use sponge.EventLoop.{Result, Revents, Polled, Rule, no_revents}
use sponge.StreamCopy.{
  Copy, read_input, write_socket, read_socket, write_output, bidirectional_stream_copy, start,
}
use sponge.StreamCopy.Runs.{bidirectional_stream_copy_lem}

abbrev kernel : Kernel
kernel = record {
  reads = some (1 ∷ 2 ∷ 3 ∷ []) ∷ some [] ∷ [];
  writes = some 2 ∷ some 1 ∷ [];
  others = true ∷ true ∷ true ∷ true ∷ [];
  taken = [];
  written = [];
  shut_read = false;
  shut_write = false;
  blocking = true;
}

abbrev socket : FileDescriptor
socket = FileDescriptor.wrap kernel

abbrev after_write : FileDescriptor
unfolding FileDescriptor.write
after_write = elim (FileDescriptor.write socket (4 ∷ 5 ∷ 6 ∷ []) true) [
  | none ↦ socket
  | some (n, d) ↦ d
]

abbrev readable : ℕ → Revents
readable i = record no_revents { pollin = true; pollout = true }

abbrev polls : List Polled
polls = Polled.ready readable ∷ Polled.ready readable ∷ []

abbrev copied : Result × Copy × List (Rule Copy)
unfolding bidirectional_stream_copy read_input write_socket read_socket write_output
copied = elim (bidirectional_stream_copy socket kernel kernel polls) [
  | none ↦ (Result.exit, start socket socket socket, [])
  | some end ↦ end
]

bidirectional_stream_copy_lem_example :
    (copied.1.socket.kernel.written ++ copied.1.outbound.buffer ≡ copied.1.input.kernel.taken)
    × (copied.1.output.kernel.written ++ copied.1.inbound.buffer ≡ copied.1.socket.kernel.taken)
    × (length copied.1.outbound.buffer ≤ 2 ^ 20)
    × (length copied.1.inbound.buffer ≤ 2 ^ 20)
unfolding bidirectional_stream_copy read_input write_socket read_socket write_output
bidirectional_stream_copy_lem_example =
    bidirectional_stream_copy_lem socket kernel kernel polls copied.0 copied.1 copied.2 refl refl
      refl refl refl

copied_halfway : (copied.1.socket.kernel.written ≡ 1 ∷ 2 ∷ []) × (copied.1.outbound.buffer ≡ 3 ∷ [])
unfolding bidirectional_stream_copy read_input write_socket read_socket write_output
copied_halfway = (refl, refl)
