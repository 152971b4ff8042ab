-- ===== src/Wrapping.antt =====
-- libsponge/wrapping_integers.hh and wrapping_integers.cc. A `WrappingInt32` is its raw value, a
-- number below 2 ^ 32; an absolute sequence number is a `uint64_t`.
pub mod Closest
use sponge.Prelude.{ℕ, ◌+◌, ◌*◌, ◌/◌, ◌%◌, ◌^◌, ltb, if◌then◌else◌, add64, sub64, add32, sub32}

-- `operator-(WrappingInt32, WrappingInt32)`. Its `int32_t` result is kept as its bit pattern, which
-- is what both callers convert it back to.
abbrev pub offset_of : ℕ → ℕ → ℕ
offset_of a b = sub32 a b

-- `operator+(WrappingInt32, uint32_t)`
abbrev pub advance : ℕ → ℕ → ℕ
advance a b = add32 a b

-- `operator-(WrappingInt32, uint32_t)`, which is `a + -b`.
abbrev pub retreat : ℕ → ℕ → ℕ
retreat a b = advance a (sub32 0 b)

unfoldable pub wrap : ℕ → ℕ → ℕ
wrap n isn = advance isn (n % 2 ^ 32)

unfoldable pub unwrap : ℕ → ℕ → ℕ → ℕ
unwrap n isn checkpoint =
    let offset = offset_of n isn in
    let delta = if ltb offset checkpoint then sub64 checkpoint offset else 0 in
    let wrap_num = add64 delta (2 ^ 32 / 2) / 2 ^ 32 in add64 (wrap_num * 2 ^ 32 % 2 ^ 64) offset
