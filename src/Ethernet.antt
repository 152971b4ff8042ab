-- ===== src/Ethernet.antt =====
-- libsponge/tcp_helpers/ethernet_header.hh, ethernet_header.cc, ethernet_frame.hh and
-- ethernet_frame.cc. An Ethernet address is the list of its six bytes.
pub mod RoundTrip
use sponge.Prelude.{
  ℕ, ◌==◌, Bool, true, false, ◌&&◌, List, [], ◌∷◌, ◌++◌, length, ltb, if◌then◌else◌,
}
use sponge.Parser.{ParseResult, NetParser, parser, u16, read_bytes, unparse_int, write_bytes}

-- `ETHERNET_BROADCAST`
abbrev pub ethernet_broadcast : List ℕ
ethernet_broadcast = 0xff ∷ 0xff ∷ 0xff ∷ 0xff ∷ 0xff ∷ 0xff ∷ []

pub record EthernetHeader : Type 0 where
  pub dst : List ℕ
  pub src : List ℕ
  pub type : ℕ

abbrev pub type_ipv4 : ℕ
type_ipv4 = 0x800

abbrev pub type_arp : ℕ
type_arp = 0x806

-- The result, the header, and the parser behind it. A header of which no field is read stays as it was.
unfoldable pub parse : EthernetHeader → NetParser → ParseResult × EthernetHeader × NetParser
parse header p =
    let (dst, p1) = read_bytes 6 p in
    let (src, p2) = read_bytes 6 p1 in
    let (type, p3) = u16 p2 in
    if ltb (length p.buffer) 14
    then (ParseResult.packet_too_short, header, p)
    else (p3.result, record { dst = dst; src = src; type = type }, p3)

unfoldable pub serialize : EthernetHeader → List ℕ
serialize header = write_bytes header.dst ++ (write_bytes header.src ++ unparse_int 2 header.type)

pub record EthernetFrame : Type 0 where
  pub header : EthernetHeader
  pub payload : List ℕ

-- `EthernetFrame::parse`; the result of the header's parse is not looked at.
unfoldable pub parse_frame : EthernetHeader → List ℕ → ParseResult × EthernetFrame
unfolding parse
parse_frame old buffer =
    let (_, header, p) = parse old (parser buffer) in
    (p.result, record { header = header; payload = p.buffer })

unfoldable pub serialize_frame : EthernetFrame → List ℕ
unfolding serialize
serialize_frame frame = serialize frame.header ++ frame.payload
