-- ===== src/TcpConnection/Silence.antt =====
-- When `tick` of libsponge/tcp_connection.cc gives up on a peer that is silent.
use sponge.Prelude.{
  ℕ, zero, suc, ◌+◌, ◌*◌, ◌^◌, ◌≡◌, ◌≢◌, refl, Bool, true, false, ◌&&◌, List, [], ◌∷◌, ◌++◌,
  replicate,
}
use sponge.TcpSegment.{TcpSegment}
use sponge.TcpReceiver
use sponge.TcpSender
use sponge.TcpSender.{TcpSender}
use sponge.TcpConnection.{TcpConnection, stamp, tick}

-- `n` times over, the retransmission timer runs out and no segment comes.
unfoldable pub silence : ℕ → TcpConnection → TcpConnection
silence zero c = c
silence (suc n) c = silence n (tick c c.sender.timeout)

-- The connection is active and `seg` is the oldest segment in flight, for which the timer has just
-- been started; it has been sent again `count` times.
pub record Waits (k : ℕ) (seg : TcpSegment) (m : List (ℕ × TcpSegment)) (timeout count : ℕ)
    (c : TcpConnection) : Type 0 where
  pub map : c.sender.outgoing_map ≡ (k, seg) ∷ m
  pub started : c.sender.timecount ≡ 0
  pub window : c.sender.last_window_size ≢ 0
  pub bytes : c.sender.outgoing_bytes ≢ 0
  pub timeout_is : c.sender.timeout ≡ timeout
  pub count_is : c.sender.consecutive_retransmissions_count ≡ count
  pub flushed : c.sender.segments_out ≡ []
  pub active : c.is_active ≡ true

and_false : (a b : Bool) → b ≡ false → (a && b) ≡ false
and_false true b h = h
and_false false b h = refl

module _ (k : ℕ) (seg : TcpSegment) (m : List (ℕ × TcpSegment)) where
  -- One tick within the limit.
  record Step (timeout count : ℕ) (c c' : TcpConnection) : Type 0 where
    waits : Waits k seg m (2 * timeout) (suc count) c'
    receiver : c'.receiver ≡ c.receiver
    queue : c'.segments_out ≡ c.segments_out ++ stamp c.receiver seg ∷ []

  -- Up to eight of them in a row.
  record Silent (n timeout count : ℕ) (c c' : TcpConnection) : Type 0 where
    waits : Waits k seg m (2 ^ n * timeout) (count + n) c'
    receiver : c'.receiver ≡ c.receiver
    queue : c'.segments_out ≡ c.segments_out ++ replicate n (stamp c.receiver seg)
