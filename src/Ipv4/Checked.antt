-- ===== src/Ipv4/Checked.antt =====
-- A datagram of libsponge/tcp_helpers/ipv4_datagram.cc through its bytes and back.
use sponge.Prelude.{
  ℕ, ◌+◌, ◌-◌, ◌*◌, ◌%◌, ◌^◌, ◌<◌, ◌≤◌, ◌≡◌, refl, false, some, List, [], ◌∷◌, ◌++◌, length,
  length-append, take, replicate, arith, ap, ◌∙◌, subst, append_assoc, le→ltb, eq_refl,
}
use sponge.Parser.{ParseResult, parser, unparse_int, remove_prefix}
use sponge.Checksum
use sponge.Checksum.{checksum}
use sponge.Checksum.Verify.{ends, verify}
use sponge.TcpSegment.RoundTrip.{length-replicate, remove_prefix-replicate}
use sponge.Ipv4.{Ipv4Header, Ipv4Datagram, payload_length}
use sponge.Ipv4.Bytes.{
  parse_fields, validate, parse, serialize_fields, serialize, parse_datagram, serialize_datagram,
}
use sponge.Ipv4.RoundTrip.{IsHeader, offset_word, parse_fields-serialize_fields}

abbrev before : Ipv4Header → List ℕ
before h =
    unparse_int 1 (h.ver * 16 % 256 + h.hlen % 16)
    ++ (unparse_int 1 h.tos
        ++ (unparse_int 2 h.len
            ++ (unparse_int 2 h.id
                ++ (unparse_int 2 (offset_word h)
                    ++ (unparse_int 1 h.ttl ++ unparse_int 1 h.proto)))))

abbrev behind : Ipv4Header → List ℕ
behind h = unparse_int 4 h.src ++ (unparse_int 4 h.dst ++ replicate (4 * h.hlen - 20) 0)

abbrev header_bytes : Ipv4Header → List ℕ
header_bytes h = serialize_fields h ++ replicate (4 * h.hlen - 20) 0

around_cksum : (h : Ipv4Header) → header_bytes h ≡ before h ++ (unparse_int 2 h.cksum ++ behind h)
unfolding serialize_fields unparse_int
around_cksum h = refl

before-even : (h : Ipv4Header) → (ends false (before h) ≡ false) × (length (before h) ≡ 10)
unfolding unparse_int
before-even h = (refl, refl)

length-behind : (h : Ipv4Header) → length (behind h) ≡ 8 + (4 * h.hlen - 20)
unfolding unparse_int
length-behind h = omega (arith, length-replicate (4 * h.hlen - 20))

length-header_bytes : (h : Ipv4Header) → 5 ≤ h.hlen → length (header_bytes h) ≡ 4 * h.hlen
unfolding serialize_fields unparse_int
length-header_bytes h least = omega (arith, length-replicate (4 * h.hlen - 20))

take-append : (xs ys : List ℕ) → take (length xs) (xs ++ ys) ≡ xs
take-append [] ys = refl
take-append (x ∷ xs) ys = ap (◌∷◌ x) (take-append xs ys)

serialize-header_bytes : (h : Ipv4Header) → IsHeader h → serialize h ≡ some (header_bytes h)
unfolding serialize
serialize-header_bytes h v =
    rw (serialize, v.ver, le→ltb (4 * h.hlen) 20 (omega (arith, v.least))) refl

-- The header with the checksum that `serialize` writes.
abbrev pub checked : Ipv4Header → Ipv4Header
checked h = record h {
  cksum = Checksum.value (Checksum.add (checksum 0) (header_bytes (record h { cksum = 0 })));
}

checked_lem :
    (h : Ipv4Header)
    → IsHeader h
    → ((checked h).cksum < 2 ^ 16)
      × (Checksum.value (Checksum.add (checksum 0) (header_bytes (checked h))) ≡ 0)
checked_lem h v =
    let blank = record h { cksum = 0 } in
    let even = before-even h in
    let proof =
      verify 0 (before h) (behind h) (omega arith) (even.0)
        (omega (arith, even.1, length-behind h, v.most)) in
    rw (around_cksum (checked h), around_cksum blank) proof

cksum-IsHeader :
    (h : Ipv4Header) (c : ℕ) → c < 2 ^ 16 → IsHeader h → IsHeader (record h { cksum = c })
cksum-IsHeader h c small v = record {
  ver = v.ver;
  least = v.least;
  most = v.most;
  tos = v.tos;
  len = v.len;
  id = v.id;
  offset = v.offset;
  ttl = v.ttl;
  proto = v.proto;
  cksum = small;
  src = v.src;
  dst = v.dst;
}

-- Nothing is wrong with a header whose checksum fits and that has the bytes behind it that it says.
validate-header_bytes :
    (h : Ipv4Header) (rest : List ℕ)
    → IsHeader h
    → Checksum.value (Checksum.add (checksum 0) (header_bytes h)) ≡ 0
    → h.len ≡ 4 * h.hlen + length rest
    → validate (header_bytes h ++ rest) h (parser (replicate (4 * h.hlen - 20) 0 ++ rest))
      ≡ (ParseResult.no_error, parser rest)
unfolding validate
validate-header_bytes h rest v check fits =
    let bytes = header_bytes h ++ rest in
    let size = length-header_bytes h v.least in
    let all : length bytes ≡ h.len = omega (arith, length-append (header_bytes h) rest) in
    let header : take (4 * h.hlen) bytes ≡ header_bytes h =
      subst (λ n. take n bytes ≡ header_bytes h) size (take-append (header_bytes h) rest) in
    let padded : remove_prefix (h.hlen * 4 - 20) (parser (replicate (4 * h.hlen - 20) 0 ++ rest))
        ≡ parser rest =
      ap (λ (n : ℕ). remove_prefix n (parser (replicate (4 * h.hlen - 20) 0 ++ rest))) (omega arith)
      ∙ remove_prefix-replicate (4 * h.hlen - 20) rest in
    rw
      (
        validate,
        padded,
        header,
        check,
        le→ltb (length bytes) (4 * h.hlen) (omega arith),
        le→ltb h.hlen 5 v.least,
        all,
        eq_refl h.len,
        v.ver,
      )
      refl

parse-header_bytes :
    (old h : Ipv4Header) (rest : List ℕ)
    → IsHeader h
    → Checksum.value (Checksum.add (checksum 0) (header_bytes h)) ≡ 0
    → h.len ≡ 4 * h.hlen + length rest
    → parse old (parser (header_bytes h ++ rest)) ≡ (ParseResult.no_error, h, parser rest)
unfolding parse
parse-header_bytes old h rest v check fits =
    let bytes = header_bytes h ++ rest in
    let size = length-header_bytes h v.least in
    let fields : parse_fields (parser bytes) ≡ (h, parser (replicate (4 * h.hlen - 20) 0 ++ rest)) =
      ap (λ b. parse_fields (parser b))
        (append_assoc (serialize_fields h) (replicate (4 * h.hlen - 20) 0) rest)
      ∙ parse_fields-serialize_fields h (replicate (4 * h.hlen - 20) 0 ++ rest) v in
    let enough =
      le→ltb (length bytes) 20 (omega (arith, length-append (header_bytes h) rest, v.least)) in
    rw (parse, fields, validate-header_bytes h rest v check fits, enough) refl

-- A datagram of version 4 whose header fields are within their types, with a header length from
-- 5 to 15 and a total length that is that of the header and the payload, serializes, and comes
-- back from its bytes with the checksum that stands in them, whatever header it is read into.
pub parse_datagram-serialize_datagram :
    (old : Ipv4Header) (d : Ipv4Datagram)
    → IsHeader d.header
    → d.header.len ≡ 4 * d.header.hlen + length d.payload
    → (bytes : List ℕ) × (serialize_datagram d ≡ some bytes)
      × (parse_datagram old bytes ≡ (ParseResult.no_error, record d { header = checked d.header }))
unfolding parse_datagram serialize_datagram
parse_datagram-serialize_datagram old d v fits =
    let h = d.header in
    let payload : payload_length h ≡ length d.payload = omega (arith, v.len) in
    let (small, check) = checked_lem h v in
    let blank = cksum-IsHeader h 0 (omega arith) v in
    let filled = cksum-IsHeader h ((checked h).cksum) small v in
    let same = eq_refl (length d.payload) in
    (
      header_bytes (checked h) ++ d.payload,
      rw
          (
            serialize_datagram,
            payload,
            same,
            serialize-header_bytes _ blank,
            serialize-header_bytes _ filled,
          )
          refl,
      rw
          (
            parse_datagram,
            parse-header_bytes old (checked h) d.payload filled check fits,
            payload,
            same,
          )
          refl,
    )
