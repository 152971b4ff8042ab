-- ===== src/TcpConnection/Inbound.antt =====
-- What the methods of libsponge/tcp_connection.cc do to the receiver of the connection.
use sponge.Prelude.{ℕ, ◌≡◌, refl, Bool, List, ◌⊎◌, arith}
use sponge.TcpReceiver
use sponge.TcpReceiver.{TcpReceiver}
use sponge.TcpSegment.{TcpSegment}
use sponge.TcpConnection.{
  TcpConnection, set_receiver_error, segment_received, respond, tick, write, connect,
  end_input_stream, destroy,
}

-- The receiver `r`, or that with its stream failed.
pub record IsAfter (r : TcpReceiver) (c : TcpConnection) : Type 0 where
  pub receiver : (c.receiver ≡ r) ⊎ (c.receiver ≡ set_receiver_error r)

pub write-receiver : (c : TcpConnection) (bytes : List ℕ) → (write c bytes).1.receiver ≡ c.receiver
unfolding write
write-receiver c bytes = refl

pub end_input_stream-receiver : (c : TcpConnection) → (end_input_stream c).receiver ≡ c.receiver
unfolding end_input_stream
end_input_stream-receiver c = refl

respond-IsAfter :
    (c : TcpConnection) (need_send_ack : Bool) → IsAfter c.receiver (respond c need_send_ack)
unfolding respond
respond-IsAfter c need_send_ack = ground arith

pub segment_received-IsAfter :
    (c : TcpConnection) (seg : TcpSegment)
    → IsAfter (TcpReceiver.segment_received c.receiver seg) (segment_received c seg)
unfolding segment_received
segment_received-IsAfter c seg = ground arith

pub tick-IsAfter : (c : TcpConnection) (ms : ℕ) → IsAfter c.receiver (tick c ms)
unfolding tick
tick-IsAfter c ms = ground arith

pub destroy-IsAfter : (c : TcpConnection) → IsAfter c.receiver (destroy c)
unfolding destroy
destroy-IsAfter c = ground arith

pub connect-receiver : (c : TcpConnection) → (connect c).receiver ≡ c.receiver
unfolding connect
connect-receiver c = refl
