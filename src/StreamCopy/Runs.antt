-- ===== src/StreamCopy/Runs.antt =====
-- The whole of apps/bidirectional_stream_copy.cc, in any run of its event loop.
use mathlib.Core.Option.{some-injective}
use sponge.Prelude.{
  ℕ, ◌≡◌, inl, ◌≤◌, ◌^◌, refl, false, Option, some, List, [], ◌∷◌, ◌++◌, length, bind-some, arith,
  ◌∙◌, subst,
}
use sponge.ByteStream
use sponge.ByteStream.Invariant.{init-IsValid}
use sponge.FileDescriptor
use sponge.FileDescriptor.{FileDescriptor, Kernel}
use sponge.FileDescriptor.Calls.{set_blocking-SameBytes}
use sponge.EventLoop.{Rule, Polled, Result, serve, wait_next_event}
use sponge.EventLoop.Keeps.{AllKeep, wait_next_event-Keeps, serve-callback}
use sponge.StreamCopy.{
  Copy, rule_input, rule_to_socket, rule_from_socket, rule_output, rules, copy_loop, start,
  bidirectional_stream_copy, buffer_bytes,
}
use sponge.StreamCopy.Conserves.{
  Holds, Conserves, end_input-Holds, read_input-Steps, read_socket-Steps, write_socket-Steps,
  write_output-Steps,
}

end_outbound-Conserves : (s s' : Copy) → Conserves s → rule_input.cancel s ≡ some s' → Conserves s'
end_outbound-Conserves s s' c e =
    subst Conserves (some-injective _ s' e)
      (record { outward = end_input-Holds _ _ s.outbound c.outward; inward = c.inward })

end_inbound-Conserves : (s s' : Copy) → Conserves s → rule_output.cancel s ≡ some s' → Conserves s'
end_inbound-Conserves s s' c e =
    subst Conserves (some-injective _ s' e)
      (record { outward = c.outward; inward = end_input-Holds _ _ s.inbound c.inward })

rules-Keeps : AllKeep Conserves rules
rules-Keeps = (
  record { callback = λ s s' c e. (read_input-Steps s s' c e).0; cancel = end_outbound-Conserves },
  (
    record {
      callback = λ s s' c e. (write_socket-Steps s s' c e).0;
      cancel = end_outbound-Conserves;
    },
    (
      record {
        callback = λ s s' c e. (read_socket-Steps s s' c e).0;
        cancel = end_inbound-Conserves;
      },
      (
        record {
          callback = λ s s' c e. (write_output-Steps s s' c e).0;
          cancel = end_inbound-Conserves;
        },
        tt,
      ),
    ),
  ),
)

copy_loop-Conserves :
    (polls : List Polled) (live kept : List (Rule Copy)) (s s' : Copy) (result : Result)
    → AllKeep Conserves live
    → Conserves s
    → copy_loop polls live s ≡ some (result, s', kept)
    → Conserves s'
unfolding copy_loop
copy_loop-Conserves [] live kept s s' result keep c e =
    subst (λ (p : Result × Copy × List (Rule Copy)). Conserves (p.1))
      (some-injective _ (result, s', kept) e) c
copy_loop-Conserves (poll ∷ polls) live kept s s' result keep c e =
    let ((r, t, left), waited, rest) =
      bind-some (wait_next_event live s poll) _ (result, s', kept) e in
    let after = wait_next_event-Keeps Conserves live left s t poll r keep c waited in
    elim r
        as (λ x.
          (elim x as (λ _. Option (Result × Copy × List (Rule Copy))) [
            | Result.exit ↦ some (Result.exit, t, left)
            | _ ↦ copy_loop polls left t
          ])
            ≡ some (result, s', kept)
          → Conserves s') [
            | Result.exit ↦ λ q.
                subst (λ (p : Result × Copy × List (Rule Copy)). Conserves (p.1))
                  (some-injective _ (result, s', kept) q) after.0
            | Result.success ↦
                λ q. copy_loop-Conserves polls left kept t s' result after.1 after.0 q
            | Result.timeout ↦
                λ q. copy_loop-Conserves polls left kept t s' result after.1 after.0 q
          ]
      rest

start-Holds :
    (taken written : List ℕ)
    → taken ≡ []
    → written ≡ []
    → Holds taken written (ByteStream.init buffer_bytes)
unfolding ByteStream.init
start-Holds taken written none_taken none_written = record {
  order = rw (none_taken, none_written) refl;
  valid = init-IsValid buffer_bytes (omega arith);
  room = refl;
}

pub start-Conserves :
    (socket input output : FileDescriptor)
    → input.kernel.taken ≡ []
    → socket.kernel.written ≡ []
    → socket.kernel.taken ≡ []
    → output.kernel.written ≡ []
    → Conserves (start socket input output)
start-Conserves socket input output in_ sent come out = record {
  outward = start-Holds input.kernel.taken socket.kernel.written in_ sent;
  inward = start-Holds socket.kernel.taken output.kernel.written come out;
}

-- However the calls of poll(2), read(2) and writev(2) of a run of bidirectional_stream_copy end, on
-- fresh descriptors and as long as none throws: what the socket took, followed by what waits in the
-- outbound stream, is what came from the standard input, and what the standard output took, followed
-- by what waits in the inbound stream, is what came from the socket; at most 1 MiB waits in each.
pub bidirectional_stream_copy_lem :
    (socket : FileDescriptor) (stdin stdout : Kernel) (polls : List Polled) (result : Result)
    (s : Copy) (live : List (Rule Copy))
    → stdin.taken ≡ []
    → socket.kernel.written ≡ []
    → socket.kernel.taken ≡ []
    → stdout.written ≡ []
    → bidirectional_stream_copy socket stdin stdout polls ≡ some (result, s, live)
    → (s.socket.kernel.written ++ s.outbound.buffer ≡ s.input.kernel.taken)
      × (s.output.kernel.written ++ s.inbound.buffer ≡ s.socket.kernel.taken)
      × (length s.outbound.buffer ≤ 2 ^ 20)
      × (length s.inbound.buffer ≤ 2 ^ 20)
unfolding bidirectional_stream_copy
bidirectional_stream_copy_lem socket stdin stdout polls result s live in_ sent come out e =
    let (socket', is_socket, e1) =
      bind-some (FileDescriptor.set_blocking socket false) _ (result, s, live) e in
    let (input, is_input, e2) =
      bind-some (FileDescriptor.set_blocking (FileDescriptor.wrap stdin) false) _ (result, s, live)
        e1 in
    let (output, is_output, e3) =
      bind-some (FileDescriptor.set_blocking (FileDescriptor.wrap stdout) false) _ (result, s, live)
        e2 in
    let same = set_blocking-SameBytes socket socket' false is_socket in
    let first =
      start-Conserves socket' input output
        ((set_blocking-SameBytes (FileDescriptor.wrap stdin) input false is_input).taken ∙ in_)
        (same.written ∙ sent) (same.taken ∙ come)
        ((set_blocking-SameBytes (FileDescriptor.wrap stdout) output false is_output).written
          ∙ out) in
    let c =
      copy_loop-Conserves polls rules live (start socket' input output) s result rules-Keeps first
        e3 in
    (
      c.outward.order,
      c.inward.order,
      omega (arith, c.outward.valid.bounded, c.outward.room),
      omega (arith, c.inward.valid.bounded, c.inward.room),
    )

-- In a state in which each stream holds the rest of what came in, none of the four callbacks is taken
-- for a busy wait: to serve a rule is to call its callback.
pub serve_rules :
    (s : Copy)
    → Conserves s
    → (serve rule_input s ≡ rule_input.callback s)
      × (serve rule_to_socket s ≡ rule_to_socket.callback s)
      × (serve rule_from_socket s ≡ rule_from_socket.callback s)
      × (serve rule_output s ≡ rule_output.callback s)
serve_rules s c = (
  serve-callback rule_input s (λ s' e. inl (read_input-Steps s s' c e).1),
  serve-callback rule_to_socket s (λ s' e. inl (write_socket-Steps s s' c e).1),
  serve-callback rule_from_socket s (λ s' e. inl (read_socket-Steps s s' c e).1),
  serve-callback rule_output s (λ s' e. inl (write_output-Steps s s' c e).1),
)
