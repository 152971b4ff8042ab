-- ===== src/TcpSegment/Checked.antt =====
-- A segment of libsponge/tcp_helpers/tcp_segment.cc through its bytes and back.
use mathlib.Core.Option.{some-injective}
use sponge.Prelude.{
  ℕ, ◌+◌, ◌-◌, ◌*◌, ◌%◌, ◌^◌, ◌<◌, ◌≤◌, ◌≡◌, refl, false, some, List, ◌++◌, length, length-append,
  replicate, arith, ap, sym, ◌∙◌, subst, le→ltb, if_false,
}
use sponge.Parser.{ParseResult, parser, unparse_int}
use sponge.Checksum
use sponge.Checksum.{checksum}
use sponge.Checksum.Verify.{ends, verify, add-append}
use sponge.TcpSegment.{TcpHeader, TcpSegment}
use sponge.TcpSegment.Header
use sponge.TcpSegment.Header.{flags, serialize_fields}
use sponge.TcpSegment.RoundTrip.{IsHeader, length-replicate, parse-serialize_header}
use sponge.TcpSegment.Bytes.{parse, serialize}

-- The bytes before the checksum, and those behind it.
abbrev before : TcpHeader → List ℕ
before h =
    unparse_int 2 h.sport
    ++ (unparse_int 2 h.dport
        ++ (unparse_int 4 h.seqno
            ++ (unparse_int 4 h.ackno
                ++ (unparse_int 1 (h.doff * 16 % 256)
                    ++ (unparse_int 1 (flags h) ++ unparse_int 2 h.win)))))

abbrev behind : TcpHeader → List ℕ → List ℕ
behind h rest = unparse_int 2 h.uptr ++ (replicate (4 * h.doff - 20) 0 ++ rest)

abbrev header_bytes : TcpHeader → List ℕ
header_bytes h = serialize_fields h ++ replicate (4 * h.doff - 20) 0

around_cksum :
    (h : TcpHeader) (rest : List ℕ)
    → header_bytes h ++ rest ≡ before h ++ (unparse_int 2 h.cksum ++ behind h rest)
unfolding serialize_fields unparse_int
around_cksum h rest = refl

before-even : (h : TcpHeader) → (ends false (before h) ≡ false) × (length (before h) ≡ 16)
unfolding unparse_int
before-even h = (refl, refl)

length-behind :
    (h : TcpHeader) (rest : List ℕ) → length (behind h rest) ≡ 2 + (4 * h.doff - 20) + length rest
unfolding unparse_int
length-behind h rest =
    omega (
      arith,
      length-append (replicate (4 * h.doff - 20) 0) rest,
      length-replicate (4 * h.doff - 20),
    )

length-header_bytes : (h : TcpHeader) → 5 ≤ h.doff → length (header_bytes h) ≡ 4 * h.doff
unfolding serialize_fields unparse_int
length-header_bytes h least = omega (arith, length-replicate (4 * h.doff - 20))

serialize-header_bytes : (h : TcpHeader) → 5 ≤ h.doff → Header.serialize h ≡ some (header_bytes h)
unfolding Header.serialize
serialize-header_bytes h least = if_false _ _ _ (le→ltb h.doff 5 least)

parse-header_bytes :
    (h : TcpHeader) (rest : List ℕ)
    → IsHeader h
    → Header.parse (parser (header_bytes h ++ rest)) ≡ (ParseResult.no_error, h, parser rest)
parse-header_bytes h rest v =
    let (bytes, written, read) = parse-serialize_header h rest v in
    let same =
      some-injective (header_bytes h) bytes (sym (serialize-header_bytes h (v.least)) ∙ written) in
    subst (λ b. Header.parse (parser (b ++ rest)) ≡ (ParseResult.no_error, h, parser rest))
      (sym same) read

-- The checksum that `serialize` writes.
abbrev pub checked : TcpSegment → ℕ → TcpHeader
checked seg below =
    let blank = record (seg.header) { cksum = 0 } in
    record (seg.header) {
      cksum =
          Checksum.value
            (Checksum.add (Checksum.add (checksum below) (header_bytes blank)) seg.payload);
    }

checked_lem :
    (seg : TcpSegment) (below : ℕ)
    → IsHeader seg.header
    → below < 2 ^ 20
    → 4 * seg.header.doff + length seg.payload < 2 ^ 16
    → let h = checked seg below in
      (h.cksum < 2 ^ 16)
      × (Checksum.value (Checksum.add (checksum below) (header_bytes h ++ seg.payload)) ≡ 0)
checked_lem seg below v p room =
    let h = seg.header in
    let h' = checked seg below in
    let blank = record h { cksum = 0 } in
    let even = before-even h in
    let short : length (before h) + length (behind h seg.payload) < 2 ^ 16 =
      omega (arith, even.1, length-behind h seg.payload) in
    let proof = verify below (before h) (behind h seg.payload) p (even.0) short in
    let joined : Checksum.add (Checksum.add (checksum below) (header_bytes blank)) seg.payload
        ≡ Checksum.add (checksum below) (before h ++ (unparse_int 2 0 ++ behind h seg.payload)) =
      sym (add-append (header_bytes blank) (checksum below) seg.payload)
      ∙ ap (Checksum.add (checksum below)) (around_cksum blank seg.payload) in
    rw (around_cksum h' seg.payload, joined) proof

-- A segment whose header fields are within their types, with a data offset from 5 to 15 and
-- fewer than 65536 bytes in all, serializes to that many bytes, and comes back from its bytes
-- with the checksum that stands in them, whatever segment it is read into, for the same sum of
-- the layer below, which is less than 2 ^ 20.
pub parse-serialize_segment :
    (old seg : TcpSegment) (below : ℕ)
    → IsHeader seg.header
    → below < 2 ^ 20
    → 4 * seg.header.doff + length seg.payload < 2 ^ 16
    → (bytes : List ℕ) × (serialize seg below ≡ some bytes)
      × (parse old bytes below ≡ (ParseResult.no_error, record seg { header = checked seg below }))
      × (length bytes ≡ 4 * seg.header.doff + length seg.payload)
unfolding parse serialize
parse-serialize_segment old seg below v p room =
    let h = checked seg below in
    let (small, check) = checked_lem seg below v p room in
    let fits : IsHeader h = record {
      sport = v.sport;
      dport = v.dport;
      seqno = v.seqno;
      ackno = v.ackno;
      least = v.least;
      most = v.most;
      win = v.win;
      cksum = small;
      uptr = v.uptr;
    } in
    let blank = record (seg.header) { cksum = 0 } in
    (
      header_bytes h ++ seg.payload,
      rw (serialize, serialize-header_bytes blank v.least, serialize-header_bytes h v.least) refl,
      rw (parse, check, parse-header_bytes h seg.payload fits) refl,
      omega (arith, length-append (header_bytes h) seg.payload, length-header_bytes h v.least),
    )
