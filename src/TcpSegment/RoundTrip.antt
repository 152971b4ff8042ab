-- ===== src/TcpSegment/RoundTrip.antt =====
-- A header of libsponge/tcp_helpers/tcp_header.cc through its bytes and back.
use sponge.Prelude.{
  ℕ, zero, suc, ◌+◌, ◌-◌, ◌*◌, ◌/◌, ◌%◌, ◌^◌, ◌<◌, ◌≤◌, ◌≡◌, refl, List, ◌++◌, length, drop, arith,
  length-append, ap, ◌∙◌, append_assoc, le→ltb, if_false, IsU32, some, true, false, Bool, replicate,
}
use sponge.Parser.{ParseResult, parser, unparse_int, remove_prefix}
use sponge.Parser.RoundTrip.{u8-unparse_int, u16-unparse_int, u32-unparse_int}
use sponge.TcpSegment.{TcpHeader, bit}
use sponge.TcpSegment.Header.{flag, flags, parse_fields, parse, serialize_fields, serialize}

-- The fields are within their types, and the offset fits its four bits.
pub record IsHeader (h : TcpHeader) : Type 0 where
  pub sport : h.sport < 2 ^ 16
  pub dport : h.dport < 2 ^ 16
  pub seqno : IsU32 h.seqno
  pub ackno : IsU32 h.ackno
  pub least : 5 ≤ h.doff
  pub most : h.doff < 16
  pub win : h.win < 2 ^ 16
  pub cksum : h.cksum < 2 ^ 16
  pub uptr : h.uptr < 2 ^ 16

flags_small : (h : TcpHeader) → flags h < 2 ^ 8
flags_small h = ground arith

pub flag_of : (n weight : ℕ) (b : Bool) → n / weight % 2 ≡ bit b → flag n weight ≡ b
flag_of n weight true h = rw h refl
flag_of n weight false h = rw h refl

pub bit_le_one : (b : Bool) → bit b ≤ 1
bit_le_one true = omega arith
bit_le_one false = omega arith

-- The binary digits of a sum of distinct powers of two.
places :
    (u a p r s f : ℕ)
    → u ≤ 1
    → a ≤ 1
    → p ≤ 1
    → r ≤ 1
    → s ≤ 1
    → f ≤ 1
    → let n = u * 32 + a * 16 + p * 8 + r * 4 + s * 2 + f in
      (n / 32 % 2 ≡ u)
      × (n / 16 % 2 ≡ a)
      × (n / 8 % 2 ≡ p)
      × (n / 4 % 2 ≡ r)
      × (n / 2 % 2 ≡ s)
      × (n / 1 % 2 ≡ f)
places u a p r s f hu ha hp hr hs hf =
    (omega arith, omega arith, omega arith, omega arith, omega arith, omega arith)

same_bits :
    (u a p r s f : Bool)
    → let n = bit u * 32 + bit a * 16 + bit p * 8 + bit r * 4 + bit s * 2 + bit f in
      (flag n 32 ≡ u)
      × (flag n 16 ≡ a)
      × (flag n 8 ≡ p)
      × (flag n 4 ≡ r)
      × (flag n 2 ≡ s)
      × (flag n 1 ≡ f)
same_bits u a p r s f =
    let n = bit u * 32 + bit a * 16 + bit p * 8 + bit r * 4 + bit s * 2 + bit f in
    let q =
      places (bit u) (bit a) (bit p) (bit r) (bit s) (bit f) (bit_le_one u) (bit_le_one a)
        (bit_le_one p) (bit_le_one r) (bit_le_one s) (bit_le_one f) in
    (
      flag_of n 32 u q.0,
      flag_of n 16 a q.1,
      flag_of n 8 p q.2,
      flag_of n 4 r q.3,
      flag_of n 2 s q.4,
      flag_of n 1 f q.5,
    )

parse_fields-serialize_fields :
    (h : TcpHeader) (rest : List ℕ)
    → IsHeader h
    → parse_fields (parser (serialize_fields h ++ rest)) ≡ (h, parser rest)
unfolding parse_fields serialize_fields unparse_int
parse_fields-serialize_fields h rest v =
    let a8 = unparse_int 2 h.uptr ++ rest in
    let a7 = unparse_int 2 h.cksum ++ a8 in
    let a6 = unparse_int 2 h.win ++ a7 in
    let a5 = unparse_int 1 (flags h) ++ a6 in
    let a4 = unparse_int 1 (h.doff * 16 % 256) ++ a5 in
    let a3 = unparse_int 4 h.ackno ++ a4 in
    let a2 = unparse_int 4 h.seqno ++ a3 in
    let a1 = unparse_int 2 h.dport ++ a2 in
    let bits = same_bits h.urg h.ack h.psh h.rst h.syn h.fin in
    let offset : h.doff * 16 % 256 / 16 ≡ h.doff = omega (arith, v.most) in
    rw
      (
        u16-unparse_int h.sport a1 v.sport,
        u16-unparse_int h.dport a2 v.dport,
        u32-unparse_int h.seqno a3 v.seqno,
        u32-unparse_int h.ackno a4 v.ackno,
        u8-unparse_int (h.doff * 16 % 256) a5 (omega arith),
        u8-unparse_int (flags h) a6 (flags_small h),
        u16-unparse_int h.win a7 v.win,
        u16-unparse_int h.cksum a8 v.cksum,
        u16-unparse_int h.uptr rest v.uptr,
      )
      (λ i. (
        record h {
          doff = offset i;
          urg = bits.0 i;
          ack = bits.1 i;
          psh = bits.2 i;
          rst = bits.3 i;
          syn = bits.4 i;
          fin = bits.5 i;
        },
        parser rest,
      ))

drop_zeros : (n : ℕ) (rest : List ℕ) → drop n (replicate n 0 ++ rest) ≡ rest
drop_zeros zero rest = refl
drop_zeros (suc n) rest = drop_zeros n rest

pub length-replicate : (n : ℕ) → length {A = ℕ} (replicate n 0) ≡ n
length-replicate zero = refl
length-replicate (suc n) = ap suc (length-replicate n)

pub remove_prefix-replicate :
    (n : ℕ) (rest : List ℕ) → remove_prefix n (parser (replicate n 0 ++ rest)) ≡ parser rest
unfolding remove_prefix
remove_prefix-replicate n rest =
    let enough : n ≤ length (replicate n 0 ++ rest) =
      omega (arith, length-append (replicate n 0) rest, length-replicate n) in
    rw (le→ltb (length (replicate n 0 ++ rest)) n enough) (ap (λ b. parser b) (drop_zeros n rest))

-- A header whose fields are within their types, with a data offset from 5 to 15, comes back from its
-- bytes, and the parser stands behind them.
pub parse-serialize_header :
    (h : TcpHeader) (rest : List ℕ)
    → IsHeader h
    → (bytes : List ℕ) × (serialize h ≡ some bytes)
      × (parse (parser (bytes ++ rest)) ≡ (ParseResult.no_error, h, parser rest))
unfolding parse serialize
parse-serialize_header h rest v =
    let pad = replicate (4 * h.doff - 20) 0 in
    let fields = parse_fields-serialize_fields h (pad ++ rest) v in
    let padded : remove_prefix (h.doff * 4 - 20) (parser (pad ++ rest)) ≡ parser rest =
      ap (λ (n : ℕ). remove_prefix n (parser (pad ++ rest))) (omega arith)
      ∙ remove_prefix-replicate (4 * h.doff - 20) rest in
    let large = le→ltb h.doff 5 v.least in
    (
      serialize_fields h ++ pad,
      if_false _ _ _ large,
      rw (append_assoc (serialize_fields h) pad rest, fields, large, padded) refl,
    )
