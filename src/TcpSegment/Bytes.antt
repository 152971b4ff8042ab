-- ===== src/TcpSegment/Bytes.antt =====
-- libsponge/tcp_helpers/tcp_segment.cc: the bytes of a segment. `datagram_layer_checksum` is the sum
-- that the layer below contributes.
use sponge.Prelude.{ℕ, not, Option, none, some, List, ◌++◌, ◌==◌, if◌then◌else◌}
use sponge.Parser.{ParseResult, parser}
use sponge.Checksum
use sponge.Checksum.{checksum}
use sponge.TcpSegment.{TcpSegment}
use sponge.TcpSegment.Header

-- The result of the header's parse is not looked at.
unfoldable pub parse : TcpSegment → List ℕ → ℕ → ParseResult × TcpSegment
parse old buffer datagram_layer_checksum =
    let check = Checksum.value (Checksum.add (checksum datagram_layer_checksum) buffer) in
    let (_, header, p) = Header.parse (parser buffer) in
    if not (check == 0)
    then (ParseResult.bad_checksum, old)
    else (p.result, record { header = header; payload = p.buffer })

-- A header that does not serialize is an exception, `none`.
unfoldable pub serialize : TcpSegment → ℕ → Option (List ℕ)
serialize seg datagram_layer_checksum =
    let blank = record (seg.header) { cksum = 0 } in
    elim (Header.serialize blank) [
      | none ↦ none
      | some zeroed ↦
          let check =
            Checksum.add (Checksum.add (checksum datagram_layer_checksum) zeroed) seg.payload in
          elim (Header.serialize (record blank { cksum = Checksum.value check })) [
            | none ↦ none
            | some bytes ↦ some (bytes ++ seg.payload)
          ]
    ]
