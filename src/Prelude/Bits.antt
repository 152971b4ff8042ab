-- ===== src/Prelude/Bits.antt =====
-- The masks of an IPv4 prefix, as `bit_and` sees them.
use Prim.Native.Nat.{
  ℕ, zero, suc, ◌+◌, ◌-◌, ◌*◌, ◌/◌, ◌%◌, ◌^◌, ◌≤◌, ◌<◌, min, bit_and, digits, bit_and-bitwise,
}
use mathlib.Core.Path.{◌≡◌, refl, sym, ap, ◌∙◌}
use native.Mathlib.Nat.{pow-suc, div-div-eq-div-mul, mul_assoc}
use native.Mathlib.Omega.{arith}

abbrev low_digits : ℕ → ℕ → ℕ → ℕ
low_digits n a b = digits (λ x. zero) min n a b

-- As many digits as the first number has are enough.
low_digits_enough : (n m a b : ℕ) → a ≤ n → a ≤ m → low_digits n a b ≡ low_digits m a b
low_digits_enough zero zero a b h g = refl
low_digits_enough zero (suc m) zero b h g = refl
low_digits_enough zero (suc m) (suc a) b h g = absurd (omega arith)
low_digits_enough (suc n) zero zero b h g = refl
low_digits_enough (suc n) zero (suc a) b h g = absurd (omega arith)
low_digits_enough (suc n) (suc m) zero b h g = refl
low_digits_enough (suc n) (suc m) (suc a) b h g =
    let rest = low_digits_enough n m (suc a / 2) (b / 2) (omega arith) (omega arith) in
    ap (λ (d : ℕ). d * 2 + min (suc a % 2) (b % 2)) rest

-- The lowest digit apart.
halve-bit_and : (a b : ℕ) → bit_and a b ≡ 2 * bit_and (a / 2) (b / 2) + min (a % 2) (b % 2)
halve-bit_and zero b = omega (arith, bit_and-bitwise 0 b, bit_and-bitwise 0 (b / 2))
halve-bit_and (suc a) b = omega (
  arith,
  low_digits_enough a (suc a / 2) (suc a / 2) (b / 2) (omega arith) (omega arith),
  bit_and-bitwise (suc a) b,
  bit_and-bitwise (suc a / 2) (b / 2),
)

double_pow : (n : ℕ) → 2 ^ suc n ≡ 2 * 2 ^ n
double_pow n = omega (arith, pow-suc 2 n)

pow_positive : (n : ℕ) → 0 < 2 ^ n
pow_positive zero = omega arith
pow_positive (suc n) = omega (arith, double_pow n, pow_positive n)

-- `n` ones keep a number that has no more digits.
ones : (n a : ℕ) → a < 2 ^ n → bit_and a (2 ^ n - 1) ≡ a
ones zero zero h = refl
ones zero (suc a) h = absurd (omega arith)
ones (suc n) a h =
    let half : (2 ^ suc n - 1) / 2 ≡ 2 ^ n - 1 = omega (arith, double_pow n, pow_positive n) in
    omega (
      arith,
      halve-bit_and a (2 ^ suc n - 1),
      ap (bit_and (a / 2)) half,
      double_pow n,
      pow_positive n,
      ones n (a / 2) (omega (arith, double_pow n)),
    )

-- `n` ones above `k` zeros clear the `k` lowest digits.
pub high_ones :
    (n k a : ℕ) → a < 2 ^ k * 2 ^ n → bit_and a (2 ^ k * (2 ^ n - 1)) ≡ 2 ^ k * (a / 2 ^ k)
high_ones n zero a h = omega (
  arith,
  ap (bit_and a) (let e : 2 ^ 0 * (2 ^ n - 1) ≡ 2 ^ n - 1 = omega arith in e),
  ones n a (omega arith),
)
high_ones n (suc k) a h =
    let mask = 2 ^ k * (2 ^ n - 1) in
    let twice : 2 ^ suc k * (2 ^ n - 1) ≡ 2 * mask =
      ap (λ (x : ℕ). x * (2 ^ n - 1)) (double_pow k) ∙ mul_assoc 2 (2 ^ k) (2 ^ n - 1) in
    let half : 2 * mask / 2 ≡ mask = omega arith in
    let wide : 2 ^ suc k * 2 ^ n ≡ 2 * (2 ^ k * 2 ^ n) =
      ap (λ (x : ℕ). x * 2 ^ n) (double_pow k) ∙ mul_assoc 2 (2 ^ k) (2 ^ n) in
    let inner = high_ones n k (a / 2) (omega (arith, wide)) in
    let quotient : a / 2 / 2 ^ k ≡ a / 2 ^ suc k =
      div-div-eq-div-mul a 2 (2 ^ k) ∙ ap (λ (d : ℕ). a / d) (sym (double_pow k)) in
    let last : 2 * (2 ^ k * (a / 2 / 2 ^ k)) ≡ 2 ^ suc k * (a / 2 ^ suc k) =
      sym (mul_assoc 2 (2 ^ k) (a / 2 / 2 ^ k))
      ∙ ap (λ (x : ℕ). x * (a / 2 / 2 ^ k)) (sym (double_pow k))
      ∙ ap (λ (x : ℕ). 2 ^ suc k * x) quotient in
    let halves =
      halve-bit_and a (2 * mask)
      ∙ ap (λ (x : ℕ). 2 * bit_and (a / 2) x + min (a % 2) (2 * mask % 2)) half in
    ap (bit_and a) twice ∙ omega (arith, halves, inner, last)
