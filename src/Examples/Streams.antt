-- ===== src/Examples/Streams.antt =====
-- Runs of libsponge/wrapping_integers.cc, byte_stream.cc and stream_reassembler.cc.
use sponge.Prelude.{
  ℕ, ◌+◌, ◌^◌, ◌≤◌, ◌<◌, ◌≡◌, ◌⊎◌, inl, inr, refl, true, false, List, [], ◌∷◌, ◌++◌, length, arith,
  ltb, Bool-cases, tests,
}
use sponge.Prelude.Maps
use sponge.Wrapping.{wrap, unwrap}
use sponge.Wrapping.Closest.{dist, unwrap_closest, unwrap-wrap}
use sponge.ByteStream
use sponge.ByteStream.{ByteStream}
use sponge.ByteStream.Invariant
use sponge.ByteStream.Fifo
use sponge.ByteStream.Fifo.{Call}
use sponge.Reassembler
use sponge.Reassembler.{push_substring}
use sponge.Reassembler.Stored.{Agrees}
use sponge.Reassembler.Assemble.{Known}
use sponge.Reassembler.Finish
use sponge.Reassembler.Finish.{IsPart}
use sponge.Reassembler.History
use sponge.Reassembler.History.{Event}
use sponge.Reassembler.Delivery.{push_keeps, push_completes}

unwrap_closest_example : dist (unwrap 3 10 5000000000) 5000000000 ≤ dist 4294967289 5000000000
unwrap_closest_example =
    unwrap_closest 3 10 5000000000 4294967289 (omega arith) (omega arith) (omega arith)
      (unfold wrap in refl)

unwrap-wrap_example : unwrap (wrap 6000000000 10) 10 5000000000 ≡ 6000000000
unwrap-wrap_example = unwrap-wrap 6000000000 10 5000000000 (omega arith) (omega arith) (omega arith)

abbrev calls : List Call
calls =
    Fifo.writes (1 ∷ 2 ∷ [])
    ∷ Fifo.reads 1
    ∷ Fifo.writes (3 ∷ 4 ∷ 5 ∷ [])
    ∷ Fifo.pops 2
    ∷ Fifo.ends
    ∷ []

run_fifo_example :
    ((Fifo.run (Fifo.start 3) calls).delivered ++ (Fifo.run (Fifo.start 3) calls).stream.buffer
      ≡ (Fifo.run (Fifo.start 3) calls).accepted)
    × Invariant.IsValid (Fifo.run (Fifo.start 3) calls).stream
run_fifo_example = Fifo.run_fifo 3 calls (omega arith)

calls-run : (Fifo.run (Fifo.start 3) calls).delivered ≡ 1 ∷ 2 ∷ 3 ∷ []
unfolding Fifo.run Fifo.step ByteStream.init ByteStream.write ByteStream.read ByteStream.peek_output
    ByteStream.pop_output ByteStream.end_input
calls-run = refl

-- A stream of four bytes, 0 1 2 3.
abbrev byte : ℕ → ℕ
byte x = x

abbrev four : 4 < 2 ^ 62
four = omega arith

abbrev first : List ℕ
first = 0 ∷ 1 ∷ []

abbrev rest : List ℕ
rest = 1 ∷ 2 ∷ 3 ∷ []

first-IsPart : IsPart byte 4 four first 0 false
first-IsPart = record { agrees = (refl, (refl, tt)); within = omega arith; last = λ e. cc }

rest-IsPart : IsPart byte 4 four rest 1 true
rest-IsPart = record { agrees = (refl, (refl, (refl, tt))); within = omega arith; last = λ e. refl }

abbrev events : List Event
events = History.pushes rest 1 true ∷ History.pushes first 0 false ∷ History.reads 3 ∷ []

run_prefix_example :
    Agrees byte 0 (
      (History.run (History.begin 8) events).delivered
      ++ (History.run (History.begin 8) events).state.output.buffer)
    × (length (
          (History.run (History.begin 8) events).delivered
          ++ (History.run (History.begin 8) events).state.output.buffer)
        ≡ (History.run (History.begin 8) events).state.next_assembled_idx)
    × Finish.IsValid byte 4 four (History.run (History.begin 8) events).state
run_prefix_example =
    History.run_prefix byte 4 four 8 events (omega arith) (rest-IsPart, (first-IsPart, tt))

abbrev waiting : Reassembler.Reassembler
waiting = push_substring (Reassembler.init 8) rest 1 true

waiting-IsValid : Finish.IsValid byte 4 four waiting
waiting-IsValid =
    (push_keeps byte 4 four (Reassembler.init 8) rest 1 true
      (History.init-IsValid byte 4 four 8 (omega arith)) rest-IsPart).0

push_keeps_example :
    let r = Reassembler.init 8 in
    let r' = push_substring r rest 1 true in
    Finish.IsValid byte 4 four r'
    × (r.next_assembled_idx ≤ r'.next_assembled_idx)
    × (r'.output.bytes_read ≡ r.output.bytes_read)
    × ((x : ℕ)
        → x < r.output.bytes_read + r.capacity
        → Known x r ⊎ ((1 ≤ x) × (x < 1 + length rest))
        → Known x r')
push_keeps_example =
    push_keeps byte 4 four (Reassembler.init 8) rest 1 true
      (History.init-IsValid byte 4 four 8 (omega arith)) rest-IsPart

-- Every byte waits or comes with the first part.
all_here : (x : ℕ) → x < 4 → Known x waiting ⊎ ((0 ≤ x) × (x < 0 + length first))
unfolding push_substring Reassembler.init Reassembler.floor_entry Reassembler.new_start
    Reassembler.trim Reassembler.store Reassembler.place Reassembler.assemble Reassembler.finish
    Reassembler.accept ByteStream.init ByteStream.write ByteStream.end_input Maps.insert Maps.assign
    Maps.erase Maps.find
all_here x h = elim (Bool-cases (ltb x 2)) [
  | inl b ↦ inr (omega tests)
  | inr b ↦ inl (inr (inl (omega tests)))
]

room : 4 < waiting.output.bytes_read + waiting.capacity
unfolding push_substring Reassembler.init Reassembler.floor_entry Reassembler.new_start
    Reassembler.trim Reassembler.store Reassembler.place Reassembler.assemble Reassembler.finish
    Reassembler.accept ByteStream.init ByteStream.write ByteStream.end_input Maps.insert Maps.assign
    Maps.erase Maps.find
room = omega arith

waiting_eof : waiting.eof_idx ≡ 4
unfolding push_substring Reassembler.init Reassembler.floor_entry Reassembler.new_start
    Reassembler.trim Reassembler.store Reassembler.place Reassembler.assemble Reassembler.finish
    Reassembler.accept ByteStream.init ByteStream.write ByteStream.end_input Maps.insert Maps.assign
    Maps.erase Maps.find
waiting_eof = refl

push_completes_example :
    let r' = push_substring waiting first 0 false in
    (r'.next_assembled_idx ≡ 4) × (r'.output.input_ended ≡ true)
push_completes_example =
    push_completes byte 4 four waiting first 0 false waiting-IsValid first-IsPart room all_here
      (inr waiting_eof)
