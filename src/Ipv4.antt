-- ===== src/Ipv4.antt =====
-- libsponge/tcp_helpers/ipv4_header.hh, ipv4_header.cc, ipv4_datagram.hh and ipv4_datagram.cc. An
-- address is its 32-bit number, as `ipv4_numeric()` gives it.
pub mod Bytes
pub mod RoundTrip
pub mod Checked
use sponge.Prelude.{ℕ, ◌+◌, ◌-◌, ◌*◌, ◌%◌, ◌^◌, Bool, true, false, List}

pub record Ipv4Header : Type 0 where
  pub ver : ℕ
  pub hlen : ℕ
  pub tos : ℕ
  pub len : ℕ
  pub id : ℕ
  pub df : Bool
  pub mf : Bool
  pub offset : ℕ
  pub ttl : ℕ
  pub proto : ℕ
  pub cksum : ℕ
  pub src : ℕ
  pub dst : ℕ

-- `IPv4Header` with the initializers of its class.
abbrev pub default_header : Ipv4Header
default_header = record {
  ver = 4;
  hlen = 5;
  tos = 0;
  len = 0;
  id = 0;
  df = true;
  mf = false;
  offset = 0;
  ttl = 128;
  proto = 6;
  cksum = 0;
  src = 0;
  dst = 0;
}

pub record Ipv4Datagram : Type 0 where
  pub header : Ipv4Header
  pub payload : List ℕ

-- `payload_length()`, a `uint16_t`
abbrev pub payload_length : Ipv4Header → ℕ
payload_length h = (h.len + 2 ^ 16 - 4 * h.hlen) % 2 ^ 16
