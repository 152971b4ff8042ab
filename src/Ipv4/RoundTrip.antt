-- ===== src/Ipv4/RoundTrip.antt =====
-- The fields of libsponge/tcp_helpers/ipv4_header.cc through its bytes and back.
use sponge.Prelude.{ℕ, ◌+◌, ◌*◌, ◌/◌, ◌%◌, ◌^◌, ◌<◌, ◌≤◌, ◌≡◌, List, ◌++◌, arith, IsU32}
use sponge.Parser.{parser, unparse_int}
use sponge.Parser.RoundTrip.{u8-unparse_int, u16-unparse_int, u32-unparse_int}
use sponge.TcpSegment.{bit}
use sponge.TcpSegment.Header.{flag}
use sponge.TcpSegment.RoundTrip.{flag_of, bit_le_one}
use sponge.Ipv4.{Ipv4Header}
use sponge.Ipv4.Bytes.{parse_fields, serialize_fields}

-- A header of version 4, with its fields within their types and a length of the header from 5 to 15.
pub record IsHeader (h : Ipv4Header) : Type 0 where
  pub ver : h.ver ≡ 4
  pub least : 5 ≤ h.hlen
  pub most : h.hlen < 16
  pub tos : h.tos < 2 ^ 8
  pub len : h.len < 2 ^ 16
  pub id : h.id < 2 ^ 16
  pub offset : h.offset < 2 ^ 13
  pub ttl : h.ttl < 2 ^ 8
  pub proto : h.proto < 2 ^ 8
  pub cksum : h.cksum < 2 ^ 16
  pub src : IsU32 h.src
  pub dst : IsU32 h.dst

abbrev pub offset_word : Ipv4Header → ℕ
offset_word h = bit h.df * 0x4000 + bit h.mf * 0x2000 + h.offset % 0x2000

-- The two flags and the offset share a word.
offset_word_lem :
    (h : Ipv4Header)
    → h.offset < 2 ^ 13
    → (flag (offset_word h) 0x4000 ≡ h.df)
      × (flag (offset_word h) 0x2000 ≡ h.mf)
      × (offset_word h % 0x2000 ≡ h.offset)
      × (offset_word h < 2 ^ 16)
offset_word_lem h p =
    let d = bit_le_one h.df in
    let m = bit_le_one h.mf in
    (
      flag_of (offset_word h) 0x4000 h.df (omega arith),
      flag_of (offset_word h) 0x2000 h.mf (omega arith),
      omega arith,
      omega arith,
    )

pub parse_fields-serialize_fields :
    (h : Ipv4Header) (rest : List ℕ)
    → IsHeader h
    → parse_fields (parser (serialize_fields h ++ rest)) ≡ (h, parser rest)
unfolding parse_fields serialize_fields unparse_int
parse_fields-serialize_fields h rest v =
    let a9 = unparse_int 4 h.dst ++ rest in
    let a8 = unparse_int 4 h.src ++ a9 in
    let a7 = unparse_int 2 h.cksum ++ a8 in
    let a6 = unparse_int 1 h.proto ++ a7 in
    let a5 = unparse_int 1 h.ttl ++ a6 in
    let a4 = unparse_int 2 (offset_word h) ++ a5 in
    let a3 = unparse_int 2 h.id ++ a4 in
    let a2 = unparse_int 2 h.len ++ a3 in
    let a1 = unparse_int 1 h.tos ++ a2 in
    let first = h.ver * 16 % 256 + h.hlen % 16 in
    let ver : first / 16 ≡ h.ver = omega (arith, v.ver, v.most) in
    let hlen : first % 16 ≡ h.hlen = omega (arith, v.ver, v.most) in
    let word = offset_word_lem h v.offset in
    rw
      (
        u8-unparse_int first a1 (omega (arith, v.ver, v.most)),
        u8-unparse_int h.tos a2 v.tos,
        u16-unparse_int h.len a3 v.len,
        u16-unparse_int h.id a4 v.id,
        u16-unparse_int (offset_word h) a5 (word.3),
        u8-unparse_int h.ttl a6 v.ttl,
        u8-unparse_int h.proto a7 v.proto,
        u16-unparse_int h.cksum a8 v.cksum,
        u32-unparse_int h.src a9 v.src,
        u32-unparse_int h.dst rest v.dst,
      )
      (λ i. (
        record h { ver = ver i; hlen = hlen i; df = word.0 i; mf = word.1 i; offset = word.2 i },
        parser rest,
      ))
