-- ===== src/Checksum.antt =====
-- `InternetChecksum` of libsponge/util/util.hh and util.cc.
pub mod Verify
use sponge.Prelude.{
  ℕ, zero, suc, ◌+◌, ◌-◌, ◌*◌, ◌/◌, ◌%◌, ◌^◌, ◌≤◌, ◌≡◌, refl, Bool, false, not, List, [], ◌∷◌, ltb,
  if◌then◌else◌, add32, IsU32, arith,
}

pub record InternetChecksum : Type 0 where
  pub sum : ℕ
  pub parity : Bool

abbrev pub checksum : ℕ → InternetChecksum
checksum initial_sum = record { sum = initial_sum; parity = false }

unfoldable pub add : InternetChecksum → List ℕ → InternetChecksum
add c [] = c
add c (b ∷ bs) =
    let val = if c.parity then b % 256 else (b % 256 * 256 % 2 ^ 16) in
    add (record { sum = add32 c.sum val; parity = not c.parity }) bs

-- The loop of `value`, on fuel.
unfoldable pub fold : ℕ → ℕ → ℕ
fold zero ret = ret
fold (suc fuel) ret =
    let rest = fold fuel (ret / 2 ^ 16 + ret % 2 ^ 16) in if ltb 0xffff ret then rest else ret

-- Two rounds bring 32 bits into 16.
unfoldable pub value : InternetChecksum → ℕ
unfolding fold
value c = 0xffff - fold 2 c.sum

-- The sum of 32 bits that `value` folds fits 16 bits after the two rounds, the fuel given, and so any
-- more fuel makes no difference.
pub fold_fuel :
    (fuel ret : ℕ) → IsU32 ret → (fold 2 ret ≤ 0xffff) × (fold (suc (suc fuel)) ret ≡ fold 2 ret)
unfolding fold
fold_fuel zero ret h = (ground arith, refl)
fold_fuel (suc fuel) ret h = ground arith
