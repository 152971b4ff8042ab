-- ===== src/Router/Mask.antt =====
-- The prefix masks of libsponge/router.cc: what an entry of the table matches.
use Prim.Native.Nat.{bit_and}
use sponge.Prelude.{
  ℕ, zero, suc, ◌-◌, ◌*◌, ◌/◌, ◌^◌, ◌≤◌, ◌<◌, ◌≡◌, ◌⊎◌, inl, inr, refl, Bool, true, false, ◌&&◌,
  leb, ◌==◌, Bool-cases, arith, and_true, IsU32, sym, ap, ◌∙◌, leb→le, leb→lt, ==→eq, ==→ne,
}
use native.Mathlib.Nat.{pow-suc, mul-div_cancel_left}
use sponge.Prelude.Bits.{high_ones}
use sponge.Router.{RouterEntry, mask, fits}

-- The destination agrees with the route in its first `prefix_length` bits of 32.
abbrev pub Matches : ℕ → RouterEntry → Type 0
Matches dest e =
    (e.prefix_length ≤ 32)
    × (dest / 2 ^ (32 - e.prefix_length) ≡ e.route_prefix / 2 ^ (32 - e.prefix_length))

-- The mask has `n` ones above `32 - n` zeros.
abbrev right_mask : ℕ → Bool
right_mask n = (mask n == 2 ^ (32 - n) * (2 ^ n - 1)) && (2 ^ (32 - n) * 2 ^ n == 2 ^ 32)

right_masks : ℕ → Bool
right_masks zero = true
right_masks (suc n) = right_mask n && right_masks n

right_masks_at : (m n : ℕ) → right_masks m ≡ true → n < m → right_mask n ≡ true
unfolding right_masks
right_masks_at zero n h l = absurd (omega arith)
right_masks_at (suc m) n h l =
    let both = and_true (right_mask m) (right_masks m) h in
    elim (Bool-cases (n == m)) [
      | inl e ↦ let same : n ≡ m = ==→eq n m e in rw same both.0
      | inr e ↦ let other = ==→ne n m e in right_masks_at m n both.1 (omega arith)
    ]

right_masks_33 : right_masks 33 ≡ true
unfolding right_masks mask
right_masks_33 = refl

masked : (n a : ℕ) → n ≤ 32 → IsU32 a → bit_and a (mask n) ≡ 2 ^ (32 - n) * (a / 2 ^ (32 - n))
masked n a h small =
    let both = and_true _ _ (right_masks_at 33 n right_masks_33 (omega arith)) in
    let whole = ==→eq (2 ^ (32 - n) * 2 ^ n) (2 ^ 32) both.1 in
    ap (bit_and a) (==→eq _ _ both.0) ∙ high_ones n (32 - n) a (omega (arith, whole))

pow_positive : (n : ℕ) → 0 < 2 ^ n
pow_positive zero = omega arith
pow_positive (suc n) = omega (arith, pow-suc 2 n, pow_positive n)

cancel : (k x y : ℕ) → 2 ^ k * x ≡ 2 ^ k * y → x ≡ y
cancel k x y h =
    sym (mul-div_cancel_left x (pow_positive k))
    ∙ ap (λ (z : ℕ). z / 2 ^ k) h
    ∙ mul-div_cancel_left y (pow_positive k)

-- The test of the loop says exactly whether an entry matches.
pub fits-Matches :
    (dest : ℕ) (e : RouterEntry)
    → IsU32 dest
    → IsU32 e.route_prefix
    → ((fits dest e ≡ true) × Matches dest e) ⊎ ((fits dest e ≡ false) × ¬ Matches dest e)
unfolding fits
fits-Matches dest e d p =
    let n = e.prefix_length in
    elim (Bool-cases (leb n 32)) [
      | inr l ↦ inr (rw l refl, λ m. absurd (omega (arith, leb→lt n 32 l, m.0)))
      | inl l ↦
          let le = leb→le n 32 l in
          let of_dest = masked n dest le d in
          let of_prefix = masked n e.route_prefix le p in
          elim (Bool-cases (bit_and dest (mask n) == bit_and e.route_prefix (mask n))) [
            | inl q ↦
                inl (
                  rw (l, q) refl,
                  (le, cancel (32 - n) _ _ (sym of_dest ∙ ==→eq _ _ q ∙ of_prefix)),
                )
            | inr q ↦ inr (
              rw (l, q) refl,
              λ m. ==→ne _ _ q (of_dest ∙ ap (λ (x : ℕ). 2 ^ (32 - n) * x) m.1 ∙ sym of_prefix),
            )
          ]
    ]
