-- ===== src/TcpConnection/Flush.antt =====
-- What libsponge/tcp_connection.cc puts in its queue: the sender's segments, with the receiver's
-- acknowledgment and window.
use sponge.Prelude.{
  ℕ, ◌+◌, ◌-◌, ◌*◌, ◌%◌, ◌^◌, ◌≤◌, ◌<◌, ◌≡◌, refl, true, some, Option-cases, List, [], ◌∷◌, ◌++◌,
  min, take, length, ◌⊎◌, inl, inr, append_assoc, append-nil, sym, ap, ◌∙◌,
}
use sponge.ByteStream
use sponge.ByteStream.Invariant.{write-IsValid, write_count}
use sponge.TcpSegment.{TcpSegment}
use sponge.TcpReceiver
use sponge.TcpReceiver.{TcpReceiver}
use sponge.TcpSender
use sponge.TcpSender.{TcpSender, is_empty, current_window}
use sponge.TcpSender.Invariant.{IsValid}
use sponge.TcpSender.Window.{payloads, fill_window_lem}
use sponge.TcpConnection.{TcpConnection, stamp, flush_loop, flush_segments_with_ack, connect, write}

-- The segments carry the receiver's acknowledgment and window, if it has them.
pub IsStamped : TcpReceiver → List TcpSegment → Type 0
IsStamped r [] = Unit {0}
IsStamped r (seg ∷ segs) =
    ((a : ℕ)
      → TcpReceiver.ackno r ≡ some a
      → (seg.header.ack ≡ true)
        × (seg.header.ackno ≡ a)
        × (seg.header.win ≡ TcpReceiver.window_size r % 2 ^ 16))
    × IsStamped r segs

pub stamps : TcpReceiver → List TcpSegment → List TcpSegment
stamps r [] = []
stamps r (seg ∷ segs) = stamp r seg ∷ stamps r segs

pub flush_loop-stamps :
    (r : TcpReceiver) (segs out : List TcpSegment) → flush_loop r segs out ≡ out ++ stamps r segs
unfolding flush_loop stamps
flush_loop-stamps r [] out = sym (append-nil out)
flush_loop-stamps r (seg ∷ segs) out =
    flush_loop-stamps r segs (out ++ (stamp r seg ∷ []))
    ∙ append_assoc out (stamp r seg ∷ []) (stamps r segs)

pub stamps-IsStamped : (r : TcpReceiver) (segs : List TcpSegment) → IsStamped r (stamps r segs)
unfolding stamps IsStamped stamp
stamps-IsStamped r [] = tt
stamps-IsStamped r (seg ∷ segs) = (λ a e. rw (e, stamp) (refl, refl, refl), stamps-IsStamped r segs)

pub stamps-is_empty :
    (r : TcpReceiver) (segs : List TcpSegment) → is_empty (stamps r segs) ≡ is_empty segs
unfolding stamps
stamps-is_empty r [] = refl
stamps-is_empty r (seg ∷ segs) = refl

stamp-payload : (r : TcpReceiver) (seg : TcpSegment) → (stamp r seg).payload ≡ seg.payload
unfolding stamp
stamp-payload r seg = elim (Option-cases (TcpReceiver.ackno r)) [
  | inl e ↦ rw (e, stamp) refl
  | inr (a, e) ↦ rw (e, stamp) refl
]

payloads-stamps :
    (r : TcpReceiver) (segs : List TcpSegment) → payloads (stamps r segs) ≡ payloads segs
unfolding stamps payloads
payloads-stamps r [] = refl
payloads-stamps r (seg ∷ segs) = rw (stamp-payload r seg, payloads-stamps r segs) refl

-- The segments carry the acknowledgment `a` and the window `w`.
abbrev pub AllAck : ℕ → ℕ → List TcpSegment → Type 0
AllAck a w [] = Unit {0}
AllAck a w (seg ∷ segs) =
    (seg.header.ack ≡ true) × (seg.header.ackno ≡ a) × (seg.header.win ≡ w) × AllAck a w segs

pub IsStamped-AllAck :
    (r : TcpReceiver) (a : ℕ) (segs : List TcpSegment)
    → TcpReceiver.ackno r ≡ some a
    → IsStamped r segs
    → AllAck a (TcpReceiver.window_size r % 2 ^ 16) segs
unfolding IsStamped
IsStamped-AllAck r a [] e h = tt
IsStamped-AllAck r a (seg ∷ segs) e h =
    let this = h.0 a e in (this.0, this.1, this.2, IsStamped-AllAck r a segs e h.1)

-- `c'` is `c` with new segments queued that carry the first of `bytes`; the rest are in its sender.
pub record Sends (bytes : List ℕ) (c c' : TcpConnection) : Type 0 where
  pub sender : IsValid c'.sender
  pub flushed : c'.sender.segments_out ≡ []
  pub receiver : c'.receiver ≡ c.receiver
  pub new : List TcpSegment
  pub queue : c'.segments_out ≡ c.segments_out ++ new
  pub stamped : IsStamped c.receiver new
  pub carried : payloads new ++ c'.sender.stream.buffer ≡ bytes
  pub spent : (current_window c.sender ≤ c'.sender.outgoing_bytes) ⊎ (c'.sender.stream.buffer ≡ [])

connect-Sends :
    (c : TcpConnection)
    → IsValid c.sender
    → c.sender.segments_out ≡ []
    → c.sender.next_seqno + 2 * current_window c.sender < 2 ^ 62
    → Sends c.sender.stream.buffer c (connect c)
unfolding connect flush_segments_with_ack
connect-Sends c v e big =
    let filled = fill_window_lem c.sender v big in
    let t = TcpSender.fill_window c.sender in
    let queued = filled.1 in
    let is_new : t.segments_out ≡ queued.new = queued.queue ∙ ap (λ q. q ++ queued.new) e in
    record {
      sender = record {
        stream = filled.0.stream;
        flight = filled.0.flight;
        chain = filled.0.chain;
        position = filled.0.position;
        fresh = filled.0.fresh;
      };
      flushed = refl;
      receiver = refl;
      new = stamps c.receiver t.segments_out;
      queue = flush_loop-stamps c.receiver t.segments_out c.segments_out;
      stamped = stamps-IsStamped c.receiver t.segments_out;
      carried = rw (payloads-stamps, is_new) queued.bytes;
      spent = elim filled.2 [ inl a ↦ inl a | inr b ↦ inr b.0 ];
    }

-- `write` on a connection whose sender is valid and flushed: the bytes it accepts are those there is
-- room for; the segments it queues carry, in order, the first of the bytes that waited and then of
-- those it accepted, each with the receiver's acknowledgment and window if there is one; the rest
-- stay in the outgoing stream, and only while the window is full.
pub write_lem :
    (c : TcpConnection) (bytes : List ℕ)
    → IsValid c.sender
    → c.sender.segments_out ≡ []
    → c.sender.next_seqno + 2 * current_window c.sender < 2 ^ 62
    → let n = (write c bytes).0 in
      (n ≡ min (length bytes) (c.sender.stream.capacity - length c.sender.stream.buffer))
      × Sends (c.sender.stream.buffer ++ take n bytes) c (write c bytes).1
unfolding write
write_lem c bytes v e big =
    let s = c.sender.stream in
    let written = write-IsValid s bytes v.stream in
    let c1 = record c { sender = record (c.sender) { stream = (ByteStream.write s bytes).1 } } in
    let valid : IsValid c1.sender = record {
      stream = written;
      flight = v.flight;
      chain = v.chain;
      position = v.position ∙ unfold ByteStream.write in refl;
      fresh = unfold ByteStream.write in v.fresh;
    } in
    let sends = connect-Sends c1 valid e big in
    (
      write_count s bytes v.stream,
      record {
        sender = sends.sender;
        flushed = sends.flushed;
        receiver = sends.receiver;
        new = sends.new;
        queue = sends.queue;
        stamped = sends.stamped;
        carried = sends.carried ∙ unfold ByteStream.write in refl;
        spent = sends.spent;
      },
    )
