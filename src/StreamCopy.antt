-- ===== src/StreamCopy.antt =====
-- apps/bidirectional_stream_copy.cc: the state that its event loop acts on, its rules and its loop.
-- The rounds of the loop are given by what poll(2) returns in each.
pub mod Conserves
pub mod Runs
use sponge.Prelude.{
  ℕ, Bool, true, false, not, ◌&&◌, ◌||◌, Option, none, some, List, [], ◌∷◌, min, ltb,
}
use sponge.ByteStream
use sponge.ByteStream.{ByteStream, buffer_size, buffer_empty, remaining_capacity}
use sponge.FileDescriptor
use sponge.FileDescriptor.{FileDescriptor, Kernel, How}
use sponge.EventLoop.{Rule, Direction, Polled, Result, add_rule, wait_next_event}

abbrev pub max_copy_length : ℕ
max_copy_length = 65536

abbrev pub buffer_bytes : ℕ
buffer_bytes = 1048576

pub record Copy : Type 0 where
  pub socket : FileDescriptor
  pub input : FileDescriptor
  pub output : FileDescriptor
  pub outbound : ByteStream
  pub inbound : ByteStream
  pub outbound_shutdown : Bool
  pub inbound_shutdown : Bool

-- The callback of rules 1 and 3: the descriptor is read into the stream.
unfoldable pub take_in : FileDescriptor → ByteStream → Option (FileDescriptor × ByteStream)
unfolding FileDescriptor.read ByteStream.write ByteStream.end_input
take_in d stream = elim (FileDescriptor.read d (remaining_capacity stream)) [
  | none ↦ none
  | some (bytes, d') ↦
      let (n, stream') = ByteStream.write stream bytes in
      some (d', (elim d'.eof [ true ↦ ByteStream.end_input stream' | false ↦ stream' ]))
]

-- What rules 2 and 4 do first: the stream is written to the descriptor, as far as that takes it.
unfoldable pub put_out : FileDescriptor → ByteStream → Option (FileDescriptor × ByteStream)
unfolding FileDescriptor.write ByteStream.peek_output ByteStream.pop_output
put_out d stream =
    let bytes_to_write = min max_copy_length (buffer_size stream) in
    elim (FileDescriptor.write d (ByteStream.peek_output stream bytes_to_write) false) [
      | none ↦ none
      | some (bytes_written, d') ↦ some (d', ByteStream.pop_output stream bytes_written)
    ]

unfoldable pub read_input : Copy → Option Copy
unfolding take_in
read_input s = elim (take_in s.input s.outbound) [
  | none ↦ none
  | some (d, stream) ↦ some (record s { input = d; outbound = stream })
]

unfoldable pub write_socket : Copy → Option Copy
unfolding put_out FileDescriptor.shutdown
write_socket s = elim (put_out s.socket s.outbound) [
  | none ↦ none
  | some (d, stream) ↦ elim (ByteStream.eof stream) [
    | false ↦ some (record s { socket = d; outbound = stream })
    | true ↦ elim (FileDescriptor.shutdown d How.shut_wr) [
      | none ↦ none
      | some d' ↦ some (record s { socket = d'; outbound = stream; outbound_shutdown = true })
    ]
  ]
]

unfoldable pub read_socket : Copy → Option Copy
unfolding take_in
read_socket s = elim (take_in s.socket s.inbound) [
  | none ↦ none
  | some (d, stream) ↦ some (record s { socket = d; inbound = stream })
]

unfoldable pub write_output : Copy → Option Copy
unfolding put_out FileDescriptor.close
write_output s = elim (put_out s.output s.inbound) [
  | none ↦ none
  | some (d, stream) ↦ elim (ByteStream.eof stream) [
    | false ↦ some (record s { output = d; inbound = stream })
    | true ↦ elim (FileDescriptor.close d) [
      | none ↦ none
      | some d' ↦ some (record s { output = d'; inbound = stream; inbound_shutdown = true })
    ]
  ]
]

-- A rule on the descriptor that `fd` picks out.
abbrev pub rule_on :
    (Copy → FileDescriptor)
    → Direction
    → (Copy → Option Copy)
    → (Copy → Bool)
    → (Copy → Copy)
    → Rule Copy
rule_on fd direction callback interest cancel = record {
  direction = direction;
  eof = λ s. (fd s).eof;
  closed = λ s. (fd s).closed;
  read_count = λ s. (fd s).read_count;
  write_count = λ s. (fd s).write_count;
  callback = callback;
  interest = interest;
  cancel = λ s. some (cancel s);
}

abbrev pub has_room : ByteStream → ByteStream → Bool
has_room stream other = not stream.error && ltb 0 (remaining_capacity stream) && not other.error

abbrev pub end_outbound : Copy → Copy
end_outbound s = record s { outbound = ByteStream.end_input s.outbound }

abbrev pub end_inbound : Copy → Copy
end_inbound s = record s { inbound = ByteStream.end_input s.inbound }

abbrev pub rule_input : Rule Copy
rule_input =
    rule_on (λ s. s.input) Direction.input read_input (λ s. has_room s.outbound s.inbound)
      end_outbound

abbrev pub rule_to_socket : Rule Copy
rule_to_socket =
    rule_on (λ s. s.socket) Direction.output write_socket
      (λ s. not (buffer_empty s.outbound) || (ByteStream.eof s.outbound && not s.outbound_shutdown))
      end_outbound

abbrev pub rule_from_socket : Rule Copy
rule_from_socket =
    rule_on (λ s. s.socket) Direction.input read_socket (λ s. has_room s.inbound s.outbound)
      end_inbound

abbrev pub rule_output : Rule Copy
rule_output =
    rule_on (λ s. s.output) Direction.output write_output
      (λ s. not (buffer_empty s.inbound) || (ByteStream.eof s.inbound && not s.inbound_shutdown))
      end_inbound

abbrev pub rules : List (Rule Copy)
rules =
    add_rule (add_rule (add_rule (add_rule [] rule_input) rule_to_socket) rule_from_socket)
      rule_output

-- The loop, for the rounds that are given: `exit` if it has returned.
unfoldable pub copy_loop :
    List Polled → List (Rule Copy) → Copy → Option (Result × Copy × List (Rule Copy))
unfolding wait_next_event
copy_loop [] live s = some (Result.success, s, live)
copy_loop (poll ∷ polls) live s = elim (wait_next_event live s poll) [
  | none ↦ none
  | some (result, s', kept) ↦ elim result [
    | Result.exit ↦ some (Result.exit, s', kept)
    | _ ↦ copy_loop polls kept s'
  ]
]

abbrev pub start : FileDescriptor → FileDescriptor → FileDescriptor → Copy
start socket input output = record {
  socket = socket;
  input = input;
  output = output;
  outbound = ByteStream.init buffer_bytes;
  inbound = ByteStream.init buffer_bytes;
  outbound_shutdown = false;
  inbound_shutdown = false;
}

-- The socket and the standard input and output, made non-blocking, and then the loop.
unfoldable pub bidirectional_stream_copy :
    FileDescriptor → Kernel → Kernel → List Polled → Option (Result × Copy × List (Rule Copy))
unfolding FileDescriptor.set_blocking ByteStream.init copy_loop
bidirectional_stream_copy socket stdin stdout polls =
    elim (FileDescriptor.set_blocking socket false) [
      | none ↦ none
      | some socket' ↦ elim (FileDescriptor.set_blocking (FileDescriptor.wrap stdin) false) [
        | none ↦ none
        | some input ↦ elim (FileDescriptor.set_blocking (FileDescriptor.wrap stdout) false) [
          | none ↦ none
          | some output ↦ copy_loop polls rules (start socket' input output)
        ]
      ]
    ]
