-- ===== src/Wrapping/Closest.antt =====
-- What `unwrap` of libsponge/wrapping_integers.cc chooses, and how it and `wrap` undo each other.
use sponge.Prelude.{ℕ, ◌+◌, ◌-◌, ◌^◌, ◌≤◌, ◌<◌, ◌≡◌, arith, IsU32}
use sponge.Wrapping.{wrap, unwrap}

-- The distance between two absolute sequence numbers.
abbrev pub dist : ℕ → ℕ → ℕ
dist a b = (a - b) + (b - a)

-- Whatever the checkpoint, a 32-bit sequence number comes back from `unwrap` through `wrap`.
pub wrap-unwrap :
    (n isn checkpoint : ℕ) → IsU32 n → IsU32 isn → wrap (unwrap n isn checkpoint) isn ≡ n
unfolding wrap unwrap
wrap-unwrap n isn checkpoint hn hi = ground arith

-- For a checkpoint at least 2 ^ 32 below the end of the 64-bit range, no absolute sequence number that
-- wraps to `n` is closer to the checkpoint than `unwrap` of `n`.
pub unwrap_closest :
    (n isn checkpoint m : ℕ)
    → IsU32 n
    → IsU32 isn
    → checkpoint + 2 ^ 32 < 2 ^ 64
    → wrap m isn ≡ n
    → dist (unwrap n isn checkpoint) checkpoint ≤ dist m checkpoint
unfolding wrap unwrap
unwrap_closest n isn checkpoint m hn hi hc hm = ground arith

-- An absolute sequence number less than 2 ^ 31 away from a checkpoint that is at least 2 ^ 32 below the
-- end of the 64-bit range comes back from `wrap` through `unwrap`.
pub unwrap-wrap :
    (x isn checkpoint : ℕ)
    → IsU32 isn
    → checkpoint + 2 ^ 32 < 2 ^ 64
    → dist x checkpoint < 2 ^ 31
    → unwrap (wrap x isn) isn checkpoint ≡ x
unfolding wrap unwrap
unwrap-wrap x isn checkpoint hi hc hx = ground arith
