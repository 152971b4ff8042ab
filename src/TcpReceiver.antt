-- ===== src/TcpReceiver.antt =====
-- libsponge/tcp_receiver.hh and tcp_receiver.cc.
pub mod Stream
use sponge.Prelude.{
  ℕ, Bool, false, true, Option, none, some, not, ◌&&◌, add64, sub64, if◌then◌else◌,
}
use sponge.Wrapping.{wrap, unwrap}
use sponge.ByteStream
use sponge.ByteStream.{ByteStream}
use sponge.Reassembler
use sponge.Reassembler.{Reassembler, push_substring}
use sponge.TcpSegment.{TcpHeader, TcpSegment, bit}

pub record TcpReceiver : Type 0 where
  pub isn : ℕ
  pub syn_flag : Bool
  pub reassembler : Reassembler
  pub capacity : ℕ

unfoldable pub init : ℕ → TcpReceiver
init capacity = record {
  isn = 0;
  syn_flag = false;
  reassembler = Reassembler.init capacity;
  capacity = capacity;
}

abbrev pub stream_out : TcpReceiver → ByteStream
stream_out r = r.reassembler.output

-- The index in the stream of the first byte of a segment's payload.
abbrev pub stream_index : TcpReceiver → TcpHeader → ℕ
stream_index r header =
    let seqno = unwrap header.seqno r.isn (stream_out r).bytes_written in
    add64 (sub64 seqno 1) (bit header.syn)

abbrev push_segment : TcpReceiver → TcpSegment → TcpReceiver
push_segment r seg = record r {
  reassembler = push_substring r.reassembler seg.payload (stream_index r seg.header) seg.header.fin;
}

unfoldable pub segment_received : TcpReceiver → TcpSegment → TcpReceiver
segment_received r seg =
    if not r.syn_flag && not seg.header.syn
    then r
    else if r.syn_flag
    then push_segment r seg
    else push_segment (record r { isn = seg.header.seqno; syn_flag = true }) seg

unfoldable pub ackno : TcpReceiver → Option ℕ
ackno r =
    let received = add64 (stream_out r).bytes_written 1 in
    let ack_abs = if (stream_out r).input_ended then add64 received 1 else received in
    if r.syn_flag then some (wrap ack_abs r.isn) else none

unfoldable pub window_size : TcpReceiver → ℕ
window_size r = sub64 r.capacity (ByteStream.buffer_size (stream_out r))

abbrev pub unassembled_bytes : TcpReceiver → ℕ
unassembled_bytes r = r.reassembler.unassembled_bytes_num
