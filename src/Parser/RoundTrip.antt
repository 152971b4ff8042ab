-- ===== src/Parser/RoundTrip.antt =====
-- What libsponge/util/parser.cc writes, it reads back.
use sponge.Prelude.{
  ℕ, ◌%◌, ◌^◌, ◌≤◌, ◌<◌, ◌≡◌, le→ltb, refl, List, [], ◌∷◌, ◌++◌, length, take, drop, arith, ap, ◌∙◌,
}
use sponge.Parser.{
  parser, parse_int, u8, u16, u32, read_bytes, unparse_int, write_bytes, big_endian,
}

-- Where there are bytes enough.
parse_int_enough :
    (len : ℕ) (buffer : List ℕ)
    → len ≤ length buffer
    → parse_int len (parser buffer) ≡ (big_endian len 0 (take len buffer), parser (drop len buffer))
unfolding parse_int
parse_int_enough len buffer h = rw (le→ltb _ _ h) refl

pub u16-unparse_int :
    (v : ℕ) (rest : List ℕ) → v < 2 ^ 16 → u16 (parser (unparse_int 2 v ++ rest)) ≡ (v, parser rest)
unfolding unparse_int
u16-unparse_int v rest h =
    parse_int_enough 2 (unparse_int 2 v ++ rest) (omega arith)
    ∙ ap (λ (n : ℕ). (n, parser rest)) (omega arith)

pub u32-unparse_int :
    (v : ℕ) (rest : List ℕ) → v < 2 ^ 32 → u32 (parser (unparse_int 4 v ++ rest)) ≡ (v, parser rest)
unfolding unparse_int
u32-unparse_int v rest h =
    parse_int_enough 4 (unparse_int 4 v ++ rest) (omega arith)
    ∙ ap (λ (n : ℕ). (n, parser rest)) (omega arith)

pub u8-unparse_int :
    (v : ℕ) (rest : List ℕ) → v < 2 ^ 8 → u8 (parser (unparse_int 1 v ++ rest)) ≡ (v, parser rest)
unfolding unparse_int
u8-unparse_int v rest h =
    parse_int_enough 1 (unparse_int 1 v ++ rest) (omega arith)
    ∙ ap (λ (n : ℕ). (n, parser rest)) (omega arith)

-- The bytes of an array.
abbrev pub AllBytes : List ℕ → Type 0
AllBytes [] = Unit {0}
AllBytes (b ∷ bs) = (b < 256) × AllBytes bs

pub read_bytes-write_bytes :
    (bs rest : List ℕ)
    → AllBytes bs
    → read_bytes (length bs) (parser (write_bytes bs ++ rest)) ≡ (bs, parser rest)
unfolding read_bytes write_bytes
read_bytes-write_bytes [] rest h = refl
read_bytes-write_bytes (b ∷ bs) rest h =
    let first : u8 (parser ((b % 256) ∷ (write_bytes bs ++ rest)))
        ≡ (b, parser (write_bytes bs ++ rest)) =
      parse_int_enough 1 ((b % 256) ∷ (write_bytes bs ++ rest)) (omega arith)
      ∙ ap (λ (n : ℕ). (n, parser (write_bytes bs ++ rest))) (omega arith) in
    rw (first, read_bytes-write_bytes bs rest h.1) refl
