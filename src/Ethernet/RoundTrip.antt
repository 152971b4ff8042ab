-- ===== src/Ethernet/RoundTrip.antt =====
-- A frame of libsponge/tcp_helpers/ethernet_frame.cc through its bytes and back, and what becomes of
-- too short a one.
use sponge.Prelude.{
  ℕ, ◌^◌, ◌<◌, ◌≤◌, ◌≡◌, suc, refl, List, [], ◌∷◌, ◌++◌, length, arith, length-append, ap, ◌∙◌,
  append_assoc, lt→ltb, le→ltb,
}
use sponge.Parser.{ParseResult, parser, unparse_int, write_bytes, read_bytes}
use sponge.Parser.RoundTrip.{AllBytes, u16-unparse_int, read_bytes-write_bytes}
use sponge.Ethernet.{EthernetHeader, EthernetFrame, parse, serialize, parse_frame, serialize_frame}

-- Six bytes.
abbrev pub IsAddress : List ℕ → Type 0
IsAddress a = (length a ≡ 6) × AllBytes a

pub length-write_bytes : (bs : List ℕ) → length (write_bytes bs) ≡ length bs
unfolding write_bytes
length-write_bytes [] = refl
length-write_bytes (b ∷ bs) = ap suc (length-write_bytes bs)

pub read_address :
    (a rest : List ℕ)
    → IsAddress a
    → read_bytes 6 (parser (write_bytes a ++ rest)) ≡ (a, parser rest)
read_address a rest h = rw (← h.0) (read_bytes-write_bytes a rest h.1)

pub parse-serialize :
    (old header : EthernetHeader) (rest : List ℕ)
    → IsAddress header.dst
    → IsAddress header.src
    → header.type < 2 ^ 16
    → parse old (parser (serialize header ++ rest)) ≡ (ParseResult.no_error, header, parser rest)
unfolding parse serialize
parse-serialize old header rest d s t =
    let behind = unparse_int 2 header.type ++ rest in
    let from_src = write_bytes header.src ++ behind in
    let whole = write_bytes header.dst ++ from_src in
    let shape : serialize header ++ rest ≡ whole =
      append_assoc (write_bytes header.dst) (write_bytes header.src ++ unparse_int 2 header.type)
        rest
      ∙ ap (◌++◌ (write_bytes header.dst))
          (append_assoc (write_bytes header.src) (unparse_int 2 header.type) rest) in
    let long : 14 ≤ length whole =
      unfold unparse_int in
      omega (
        arith,
        length-append (write_bytes header.dst) from_src,
        length-append (write_bytes header.src) behind,
        length-write_bytes header.dst,
        length-write_bytes header.src,
        length-append (unparse_int 2 header.type) rest,
      ) in
    ap (λ b. parse old (parser b)) shape
    ∙ rw
        (
          le→ltb (length whole) 14 long,
          read_address header.dst from_src d,
          read_address header.src behind s,
          u16-unparse_int header.type rest t,
        )
        refl

-- A frame with well-formed addresses and a 16-bit type comes back from its bytes, whatever the header
-- that it is read into.
pub parse_frame-serialize_frame :
    (old : EthernetHeader) (frame : EthernetFrame)
    → IsAddress frame.header.dst
    → IsAddress frame.header.src
    → frame.header.type < 2 ^ 16
    → parse_frame old (serialize_frame frame) ≡ (ParseResult.no_error, frame)
unfolding parse_frame serialize_frame
parse_frame-serialize_frame old frame d s t =
    rw (parse-serialize old frame.header frame.payload d s t) refl

-- A buffer too short for a header is taken all the same, without an error, as the payload of a frame
-- whose header is left as it was.
pub parse_frame_short :
    (old : EthernetHeader) (buffer : List ℕ)
    → length buffer < 14
    → parse_frame old buffer ≡ (ParseResult.no_error, record { header = old; payload = buffer })
unfolding parse_frame parse
parse_frame_short old buffer h = rw (lt→ltb _ _ h) refl
