-- ===== src/TcpSegment.antt =====
-- libsponge/tcp_helpers/tcp_header.hh and tcp_segment.hh: the fields of a segment. A payload is the
-- list of its bytes.
pub mod Header
pub mod Bytes
pub mod RoundTrip
pub mod Checked
use sponge.Prelude.{ℕ, ◌+◌, Bool, false, List, [], length, if◌then◌else◌}

pub record TcpHeader : Type 0 where
  pub sport : ℕ
  pub dport : ℕ
  pub seqno : ℕ
  pub ackno : ℕ
  pub doff : ℕ
  pub urg : Bool
  pub ack : Bool
  pub psh : Bool
  pub rst : Bool
  pub syn : Bool
  pub fin : Bool
  pub win : ℕ
  pub cksum : ℕ
  pub uptr : ℕ

-- The defaults of the fields: 20 bytes with no options.
abbrev pub default_header : TcpHeader
default_header = record {
  sport = 0;
  dport = 0;
  seqno = 0;
  ackno = 0;
  doff = 5;
  urg = false;
  ack = false;
  psh = false;
  rst = false;
  syn = false;
  fin = false;
  win = 0;
  cksum = 0;
  uptr = 0;
}

pub record TcpSegment : Type 0 where
  pub header : TcpHeader
  pub payload : List ℕ

abbrev pub default_segment : TcpSegment
default_segment = record { header = default_header; payload = [] }

abbrev pub bit : Bool → ℕ
bit b = if b then 1 else 0

abbrev pub length_in_sequence_space : TcpSegment → ℕ
length_in_sequence_space s = length s.payload + bit s.header.syn + bit s.header.fin
