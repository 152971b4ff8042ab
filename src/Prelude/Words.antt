-- ===== src/Prelude/Words.antt =====
-- Machine words as native numbers: `uint64_t` and `size_t` wrap at 2 ^ 64, `uint32_t` at 2 ^ 32.
use Prim.Native.Nat.{ℕ, ◌+◌, ◌-◌, ◌%◌, ◌^◌, ◌<◌}

abbrev pub add64 : ℕ → ℕ → ℕ
add64 a b = (a + b) % 2 ^ 64

abbrev pub sub64 : ℕ → ℕ → ℕ
sub64 a b = (a + 2 ^ 64 - b) % 2 ^ 64

abbrev pub add32 : ℕ → ℕ → ℕ
add32 a b = (a + b) % 2 ^ 32

abbrev pub sub32 : ℕ → ℕ → ℕ
sub32 a b = (a + 2 ^ 32 - b) % 2 ^ 32

abbrev pub IsU64 : ℕ → Type 0
IsU64 a = a < 2 ^ 64

abbrev pub IsU32 : ℕ → Type 0
IsU32 a = a < 2 ^ 32
