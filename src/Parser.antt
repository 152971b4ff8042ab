-- ===== src/Parser.antt =====
-- libsponge/util/parser.hh and parser.cc. A buffer is the list of its bytes.
pub mod RoundTrip
use sponge.Prelude.{
  ℕ, zero, suc, ◌+◌, ◌*◌, ◌/◌, ◌%◌, ◌^◌, Bool, true, false, List, [], ◌∷◌, length, take, drop, ltb,
  if◌then◌else◌,
}

pub data ParseResult : Type 0 where
  no_error bad_checksum packet_too_short wrong_ip_version header_too_short truncated_packet
        unsupported :
      ParseResult

pub record NetParser : Type 0 where
  pub buffer : List ℕ
  pub result : ParseResult

-- `NetParser(Buffer)`
abbrev pub parser : List ℕ → NetParser
parser buffer = record { buffer = buffer; result = ParseResult.no_error }

abbrev pub error : NetParser → Bool
error p = elim p.result [ ParseResult.no_error ↦ false | _ ↦ true ]

abbrev pub check_size : ℕ → NetParser → NetParser
check_size size p = record p {
  result = if ltb (length p.buffer) size then ParseResult.packet_too_short else p.result;
}

-- The loop of `_parse_int` for a type of `len` bytes.
abbrev pub big_endian : ℕ → ℕ → List ℕ → ℕ
big_endian len ret [] = ret
big_endian len ret (b ∷ bs) = big_endian len ((ret * 256 + b % 256) % 2 ^ (8 * len)) bs

unfoldable pub parse_int : ℕ → NetParser → ℕ × NetParser
parse_int len p =
    let checked = check_size len p in
    if error checked then (0, checked) else (
      big_endian len 0 (take len checked.buffer),
      record checked { buffer = drop len checked.buffer },
    )

abbrev pub u32 : NetParser → ℕ × NetParser
u32 p = parse_int 4 p

abbrev pub u16 : NetParser → ℕ × NetParser
u16 p = parse_int 2 p

abbrev pub u8 : NetParser → ℕ × NetParser
u8 p = parse_int 1 p

unfoldable pub remove_prefix : ℕ → NetParser → NetParser
remove_prefix n p =
    let checked = check_size n p in
    if error checked then checked else record checked { buffer = drop n checked.buffer }

-- A loop of `u8` over an array of bytes.
unfoldable pub read_bytes : ℕ → NetParser → List ℕ × NetParser
read_bytes zero p = ([], p)
read_bytes (suc n) p = let (b, p') = u8 p in let (bs, p'') = read_bytes n p' in (b ∷ bs, p'')

-- What `_unparse_int` appends for a type of `len` bytes.
unfoldable pub unparse_int : ℕ → ℕ → List ℕ
unparse_int zero val = []
unparse_int (suc i) val = (val / 2 ^ (8 * i) % 256) ∷ unparse_int i val

-- A loop of `NetUnparser::u8` over an array of bytes.
unfoldable pub write_bytes : List ℕ → List ℕ
write_bytes [] = []
write_bytes (b ∷ bs) = (b % 256) ∷ write_bytes bs
