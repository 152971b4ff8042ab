-- ===== src/TcpSender.antt =====
-- libsponge/tcp_sender.hh and tcp_sender.cc. A `std::queue` is the list of its entries, front first.
-- An `int` is kept as its 32-bit pattern.
pub mod Segments
pub mod Flight
pub mod Invariant
pub mod Window
pub mod Acks
pub mod Timer
pub mod Progress
use sponge.Prelude.{
  ℕ, zero, suc, ◌-◌, ◌*◌, ◌%◌, ◌^◌, Bool, false, true, not, ◌&&◌, List, [], ◌∷◌, ◌++◌, length, min,
  add64, sub64, add32, ltb, leb, ◌==◌, if◌then◌else◌,
}
use sponge.Prelude.Maps.{insert}
use sponge.Wrapping.{wrap, unwrap}
use sponge.ByteStream
use sponge.ByteStream.{ByteStream}
use sponge.TcpSegment.{TcpSegment, default_header, length_in_sequence_space, bit}

-- `TCPConfig::MAX_PAYLOAD_SIZE`
abbrev pub max_payload_size : ℕ
max_payload_size = 1000

pub record TcpSender : Type 0 where
  pub timeout : ℕ
  pub timecount : ℕ
  pub outgoing_map : List (ℕ × TcpSegment)
  pub outgoing_bytes : ℕ
  pub last_window_size : ℕ
  pub consecutive_retransmissions_count : ℕ
  pub syn_flag : Bool
  pub fin_flag : Bool
  pub isn : ℕ
  pub segments_out : List TcpSegment
  pub initial_retransmission_timeout : ℕ
  pub stream : ByteStream
  pub next_seqno : ℕ

-- `isn` is the fixed one, or what the random device gave.
unfoldable pub init : ℕ → ℕ → ℕ → TcpSender
init capacity retx_timeout isn = record {
  timeout = 2 ^ 32 - 1;
  timecount = 0;
  outgoing_map = [];
  outgoing_bytes = 0;
  last_window_size = 1;
  consecutive_retransmissions_count = 0;
  syn_flag = false;
  fin_flag = false;
  isn = isn;
  segments_out = [];
  initial_retransmission_timeout = retx_timeout;
  stream = ByteStream.init capacity;
  next_seqno = 0;
}

abbrev pub bytes_in_flight : TcpSender → ℕ
bytes_in_flight s = s.outgoing_bytes

-- `next_seqno()`; the field `next_seqno` is `next_seqno_absolute()`.
abbrev pub next_seqno_wrapped : TcpSender → ℕ
next_seqno_wrapped s = wrap s.next_seqno s.isn

abbrev pub is_empty {ℓ} : {A : Type ℓ} → List A → Bool
is_empty [] = true
is_empty (x ∷ xs) = false

-- The segment that one round of `fill_window` builds, and the sender without the bytes in it.
unfoldable pub make_segment : ℕ → TcpSender → TcpSegment × TcpSender
make_segment window s =
    let syn = not s.syn_flag in
    let room = sub64 (sub64 window s.outgoing_bytes) (bit syn) in
    let (payload, stream) = ByteStream.read s.stream (min max_payload_size room) in
    let fin =
      ByteStream.eof stream
      && not s.fin_flag
      && ltb (add64 (length payload) s.outgoing_bytes) window in
    (
      record {
        header = record default_header { seqno = next_seqno_wrapped s; syn = syn; fin = fin };
        payload = payload;
      },
      record s { syn_flag = true; fin_flag = if fin then true else s.fin_flag; stream = stream },
    )

-- Queues a segment that takes sequence numbers, and starts the timer if nothing was in flight.
unfoldable pub send : TcpSegment → TcpSender → TcpSender
send seg s =
    let idle = is_empty s.outgoing_map in
    let size = length_in_sequence_space seg in
    record s {
      timeout = if idle then s.initial_retransmission_timeout else s.timeout;
      timecount = if idle then 0 else s.timecount;
      segments_out = s.segments_out ++ (seg ∷ []);
      outgoing_map = insert s.next_seqno seg s.outgoing_map;
      outgoing_bytes = add64 s.outgoing_bytes size;
      next_seqno = add64 s.next_seqno size;
    }

-- The loop, on fuel.
unfoldable pub fill_loop : ℕ → ℕ → TcpSender → TcpSender
fill_loop zero window s = s
fill_loop (suc fuel) window s =
    let (seg, s') = make_segment window s in
    let sent = send seg s' in
    let rest = fill_loop fuel window sent in
    if ltb s.outgoing_bytes window
    then (if length_in_sequence_space seg == 0 then s' else if seg.header.fin then sent else rest)
    else s

abbrev pub current_window : TcpSender → ℕ
current_window s = if s.last_window_size == 0 then 1 else s.last_window_size

-- Each round but the last puts a byte at least in flight, so as many rounds as the window has bytes
-- are enough.
unfoldable pub fill_window : TcpSender → TcpSender
fill_window s = fill_loop (suc (current_window s)) (current_window s) s

-- The loop over `_outgoing_map` that drops what is acknowledged.
unfoldable pub drop_acked : ℕ → List (ℕ × TcpSegment) → TcpSender → TcpSender
drop_acked abs_seqno [] s = record s { outgoing_map = [] }
drop_acked abs_seqno ((k, seg) ∷ m) s =
    let size = length_in_sequence_space seg in
    let rest = drop_acked abs_seqno m (record s {
      outgoing_bytes = sub64 s.outgoing_bytes size;
      timeout = s.initial_retransmission_timeout;
      timecount = 0;
    }) in
    if leb (add64 k size) abs_seqno then rest else record s { outgoing_map = (k, seg) ∷ m }

unfoldable pub ack_received : TcpSender → ℕ → ℕ → TcpSender
ack_received s ackno window_size =
    let abs_seqno = unwrap ackno s.isn s.next_seqno in
    let acked = drop_acked abs_seqno s.outgoing_map s in
    if ltb s.next_seqno abs_seqno
    then s
    else fill_window
        (record acked { consecutive_retransmissions_count = 0; last_window_size = window_size })

-- `a >= b` on two `int` patterns.
abbrev pub geb_int : ℕ → ℕ → Bool
geb_int a b = leb (add32 b (2 ^ 31)) (add32 a (2 ^ 31))

unfoldable pub tick : TcpSender → ℕ → TcpSender
tick s ms =
    let timecount = add32 s.timecount ms in
    elim s.outgoing_map [
      | [] ↦ record s { timecount = timecount }
      | (k, seg) ∷ m ↦
          if geb_int timecount s.timeout
          then record s {
            timecount = 0;
            timeout =
                if s.last_window_size == 0
                then s.initial_retransmission_timeout
                else (s.timeout * 2 % 2 ^ 32);
            segments_out = s.segments_out ++ (seg ∷ []);
            consecutive_retransmissions_count = add64 s.consecutive_retransmissions_count 1;
          }
          else record s { timecount = timecount }
    ]

-- `consecutive_retransmissions()` narrows its counter to `unsigned int`.
abbrev pub consecutive_retransmissions : TcpSender → ℕ
consecutive_retransmissions s = s.consecutive_retransmissions_count % 2 ^ 32

unfoldable pub send_empty_segment : TcpSender → TcpSender
send_empty_segment s = record s {
  segments_out =
      s.segments_out
      ++ (record { header = record default_header { seqno = next_seqno_wrapped s }; payload = [] }
          ∷ []);
}
