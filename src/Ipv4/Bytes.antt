-- ===== src/Ipv4/Bytes.antt =====
-- libsponge/tcp_helpers/ipv4_header.cc and ipv4_datagram.cc: the bytes of a datagram. A shift or a mask
-- is written by a division, and the union of distinct bits as their sum.
use sponge.Prelude.{
  ℕ, ◌+◌, ◌-◌, ◌*◌, ◌/◌, ◌%◌, ◌^◌, add32, not, ◌||◌, Option, none, some, List, ◌++◌, ltb, ◌==◌,
  if◌then◌else◌, length, take, replicate,
}
use sponge.Parser.{ParseResult, NetParser, parser, error, u8, u16, u32, remove_prefix, unparse_int}
use sponge.Checksum
use sponge.Checksum.{checksum}
use sponge.TcpSegment.{bit}
use sponge.TcpSegment.Header.{flag}
use sponge.Ipv4.{Ipv4Header, Ipv4Datagram, payload_length}

-- The fields in the order of the bytes.
unfoldable pub parse_fields : NetParser → Ipv4Header × NetParser
parse_fields p0 =
    let (first_byte, p1) = u8 p0 in
    let (tos, p2) = u8 p1 in
    let (len, p3) = u16 p2 in
    let (id, p4) = u16 p3 in
    let (fo_val, p5) = u16 p4 in
    let (ttl, p6) = u8 p5 in
    let (proto, p7) = u8 p6 in
    let (cksum, p8) = u16 p7 in
    let (src, p9) = u32 p8 in
    let (dst, p10) = u32 p9 in
    (
      record {
        ver = first_byte / 16;
        hlen = first_byte % 16;
        tos = tos;
        len = len;
        id = id;
        df = flag fo_val 0x4000;
        mf = flag fo_val 0x2000;
        offset = fo_val % 0x2000;
        ttl = ttl;
        proto = proto;
        cksum = cksum;
        src = src;
        dst = dst;
      },
      p10,
    )

-- What is wrong with a header that has been read, and the parser behind its options.
unfoldable pub validate : List ℕ → Ipv4Header → NetParser → ParseResult × NetParser
validate original h p =
    let behind = remove_prefix (h.hlen * 4 - 20) p in
    let check = Checksum.value (Checksum.add (checksum 0) (take (4 * h.hlen) original)) in
    if ltb (length original) (4 * h.hlen)
    then (ParseResult.packet_too_short, p)
    else if not (h.ver == 4)
    then (ParseResult.wrong_ip_version, p)
    else if ltb h.hlen 5
    then (ParseResult.header_too_short, p)
    else if not (length original == h.len)
    then (ParseResult.truncated_packet, p)
    else if error behind
    then (behind.result, behind)
    else if not (check == 0)
    then (ParseResult.bad_checksum, behind)
    else (ParseResult.no_error, behind)

unfoldable pub parse : Ipv4Header → NetParser → ParseResult × Ipv4Header × NetParser
parse old p =
    let (header, p') = parse_fields p in
    let (result, p'') = validate p.buffer header p' in
    if ltb (length p.buffer) 20
    then (ParseResult.packet_too_short, old, p)
    else (result, header, p'')

unfoldable pub serialize_fields : Ipv4Header → List ℕ
serialize_fields h =
    unparse_int 1 (h.ver * 16 % 256 + h.hlen % 16)
    ++ (unparse_int 1 h.tos
        ++ (unparse_int 2 h.len
            ++ (unparse_int 2 h.id
                ++ (unparse_int 2 (bit h.df * 0x4000 + bit h.mf * 0x2000 + h.offset % 0x2000)
                    ++ (unparse_int 1 h.ttl
                        ++ (unparse_int 1 h.proto
                            ++ (unparse_int 2 h.cksum
                                ++ (unparse_int 4 h.src ++ unparse_int 4 h.dst))))))))

-- The sanity checks throw, `none`. The resize only adds zeros, since 20 bytes are written.
unfoldable pub serialize : Ipv4Header → Option (List ℕ)
serialize h =
    if not (h.ver == 4) || ltb (4 * h.hlen) 20
    then none
    else some (serialize_fields h ++ replicate (4 * h.hlen - 20) 0)

-- The contribution of the pseudo-header to the checksum of a segment.
abbrev pub pseudo_cksum : Ipv4Header → ℕ
pseudo_cksum h =
    let addresses = add32 (h.src / 2 ^ 16 + h.src % 2 ^ 16) (h.dst / 2 ^ 16 + h.dst % 2 ^ 16) in
    add32 (add32 addresses h.proto) (payload_length h)

-- `IPv4Datagram::parse`; the result of the header's parse is not looked at.
unfoldable pub parse_datagram : Ipv4Header → List ℕ → ParseResult × Ipv4Datagram
parse_datagram old buffer =
    let (_, header, p) = parse old (parser buffer) in
    (
      if length p.buffer == payload_length header then p.result else ParseResult.packet_too_short,
      record { header = header; payload = p.buffer },
    )

-- `IPv4Datagram::serialize`; a payload of the wrong size is an exception, `none`, as is a header that
-- does not serialize.
unfoldable pub serialize_datagram : Ipv4Datagram → Option (List ℕ)
serialize_datagram d =
    let blank = record (d.header) { cksum = 0 } in
    if not (length d.payload == payload_length d.header) then none else (elim (serialize blank) [
      | none ↦ none
      | some zeroed ↦
          let cksum = Checksum.value (Checksum.add (checksum 0) zeroed) in
          elim (serialize (record blank { cksum = cksum })) [
            | none ↦ none
            | some bytes ↦ some (bytes ++ d.payload)
          ]
    ])
