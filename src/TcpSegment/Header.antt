-- ===== src/TcpSegment/Header.antt =====
-- libsponge/tcp_helpers/tcp_header.cc: a header's bytes. A test of one bit of the byte of flags is
-- written by a division, and the union of distinct bits as their sum.
use sponge.Prelude.{
  ℕ, ◌+◌, ◌-◌, ◌*◌, ◌/◌, ◌%◌, Bool, not, Option, none, some, List, ◌++◌, ltb, ◌==◌, if◌then◌else◌,
  replicate,
}
use sponge.Parser.{ParseResult, NetParser, u8, u16, u32, remove_prefix, unparse_int}
use sponge.TcpSegment.{TcpHeader, bit}

-- `static_cast<bool>(byte & weight)` for a power of two
abbrev pub flag : ℕ → ℕ → Bool
flag byte weight = not (byte / weight % 2 == 0)

-- The fields in the order of the bytes.
unfoldable pub parse_fields : NetParser → TcpHeader × NetParser
parse_fields p0 =
    let (sport, p1) = u16 p0 in
    let (dport, p2) = u16 p1 in
    let (seqno, p3) = u32 p2 in
    let (ackno, p4) = u32 p3 in
    let (doff, p5) = u8 p4 in
    let (fl_b, p6) = u8 p5 in
    let (win, p7) = u16 p6 in
    let (cksum, p8) = u16 p7 in
    let (uptr, p9) = u16 p8 in
    (
      record {
        sport = sport;
        dport = dport;
        seqno = seqno;
        ackno = ackno;
        doff = doff / 16;
        urg = flag fl_b 32;
        ack = flag fl_b 16;
        psh = flag fl_b 8;
        rst = flag fl_b 4;
        syn = flag fl_b 2;
        fin = flag fl_b 1;
        win = win;
        cksum = cksum;
        uptr = uptr;
      },
      p9,
    )

unfoldable pub parse : NetParser → ParseResult × TcpHeader × NetParser
parse p =
    let (header, p') = parse_fields p in
    let rest = remove_prefix (header.doff * 4 - 20) p' in
    if ltb header.doff 5
    then (ParseResult.header_too_short, header, p')
    else (rest.result, header, rest)

abbrev pub flags : TcpHeader → ℕ
flags h =
    bit h.urg * 32 + bit h.ack * 16 + bit h.psh * 8 + bit h.rst * 4 + bit h.syn * 2 + bit h.fin

unfoldable pub serialize_fields : TcpHeader → List ℕ
serialize_fields h =
    unparse_int 2 h.sport
    ++ (unparse_int 2 h.dport
        ++ (unparse_int 4 h.seqno
            ++ (unparse_int 4 h.ackno
                ++ (unparse_int 1 (h.doff * 16 % 256)
                    ++ (unparse_int 1 (flags h)
                        ++ (unparse_int 2 h.win
                            ++ (unparse_int 2 h.cksum ++ unparse_int 2 h.uptr)))))))

-- Too small a `doff` is an exception, `none`. The resize only adds zeros, since 20 bytes are written.
unfoldable pub serialize : TcpHeader → Option (List ℕ)
serialize h =
    if ltb h.doff 5 then none else some (serialize_fields h ++ replicate (4 * h.doff - 20) 0)
