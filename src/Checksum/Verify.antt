-- ===== src/Checksum/Verify.antt =====
-- The checksum of libsponge/util/util.cc over bytes that hold their own checksum.
use sponge.Prelude.{
  ℕ, ◌+◌, ◌-◌, ◌*◌, ◌%◌, ◌^◌, ◌≤◌, ◌<◌, ◌≡◌, refl, Bool, true, false, not, List, [], ◌∷◌, ◌++◌,
  length, if◌then◌else◌, add32, arith, ap, ◌∙◌,
}
use sponge.Parser.{unparse_int}
use sponge.Checksum.{InternetChecksum, checksum, add, fold, value}

-- What bytes add to the sum, and whether they end in the middle of a word.
abbrev pub weight : Bool → List ℕ → ℕ
weight parity [] = 0
weight parity (b ∷ bs) = (if parity then b % 256 else b % 256 * 256) + weight (not parity) bs

abbrev pub ends : Bool → List ℕ → Bool
ends parity [] = parity
ends parity (b ∷ bs) = ends (not parity) bs

weight_bound : (parity : Bool) (bs : List ℕ) → weight parity bs ≤ 65280 * length bs
weight_bound parity [] = omega arith
weight_bound true (b ∷ bs) = omega (arith, weight_bound false bs)
weight_bound false (b ∷ bs) = omega (arith, weight_bound true bs)

pub weight-append :
    (parity : Bool) (xs ys : List ℕ)
    → weight parity (xs ++ ys) ≡ weight parity xs + weight (ends parity xs) ys
weight-append parity [] ys = omega arith
weight-append parity (b ∷ xs) ys = omega (arith, weight-append (not parity) xs ys)

add_lem :
    (parity : Bool) (sum : ℕ) (bs : List ℕ)
    → sum + weight parity bs < 2 ^ 32
    → add (record { sum = sum; parity = parity }) bs
      ≡ record { sum = sum + weight parity bs; parity = ends parity bs }
unfolding add
add_lem parity sum [] h =
    let same : sum ≡ sum + 0 = omega arith in ap (λ s. record { sum = s; parity = parity }) same
add_lem true sum (b ∷ bs) h =
    let small : add32 sum (b % 256) ≡ sum + b % 256 = omega arith in
    let sums : sum + b % 256 + weight false bs ≡ sum + (b % 256 + weight false bs) = omega arith in
    rw (small, add_lem false (sum + b % 256) bs (omega arith), sums) refl
add_lem false sum (b ∷ bs) h =
    let small : add32 sum (b % 256 * 256 % 2 ^ 16) ≡ sum + b % 256 * 256 = omega arith in
    let sums : sum + b % 256 * 256 + weight true bs ≡ sum + (b % 256 * 256 + weight true bs) =
      omega arith in
    rw (small, add_lem true (sum + b % 256 * 256) bs (omega arith), sums) refl

-- The sum and its complement fold to all ones.
complement : (s : ℕ) → s + 0xffff < 2 ^ 32 → fold 2 (s + (0xffff - fold 2 s)) ≡ 0xffff
unfolding fold
complement s h = ground arith

value-add :
    (initial : ℕ) (bs : List ℕ)
    → initial + weight false bs < 2 ^ 32
    → value (add (checksum initial) bs) ≡ 0xffff - fold 2 (initial + weight false bs)
unfolding value
value-add initial bs h = rw (add_lem false initial bs h) refl

-- A word between two parts, the first of which ends with a word.
weight-word :
    (before after : List ℕ) (c : ℕ)
    → ends false before ≡ false
    → c < 2 ^ 16
    → weight false (before ++ (unparse_int 2 c ++ after))
      ≡ weight false before + weight false after + c
unfolding unparse_int
weight-word before after c h small =
    let split = weight-append false before (unparse_int 2 c ++ after) in
    let word : weight false (unparse_int 2 c ++ after) ≡ c + weight false after = omega arith in
    rw (split, h, word) (omega arith)

value_small : (c : InternetChecksum) → value c < 2 ^ 16
unfolding value
value_small c = omega arith

-- The checksum that is computed with zeros in its place, two bytes behind an even number of
-- others, from an initial sum below 2 ^ 20 and over fewer than 65536 other bytes, fits 16 bits,
-- and once it stands there the whole has the checksum zero.
pub verify :
    (initial : ℕ) (before after : List ℕ)
    → initial < 2 ^ 20
    → ends false before ≡ false
    → length before + length after < 2 ^ 16
    → let c = value (add (checksum initial) (before ++ (unparse_int 2 0 ++ after))) in
      (c < 2 ^ 16) × (value (add (checksum initial) (before ++ (unparse_int 2 c ++ after))) ≡ 0)
verify initial before after p h room =
    let blank = before ++ (unparse_int 2 0 ++ after) in
    let c = value (add (checksum initial) blank) in
    let small : c < 2 ^ 16 = value_small (add (checksum initial) blank) in
    let zeroed = weight-word before after 0 h (omega arith) in
    let filled = weight-word before after c h small in
    let s = initial + (weight false before + weight false after) in
    let bound : s + 0xffff < 2 ^ 32 =
      omega (arith, weight_bound false before, weight_bound false after) in
    let sum : c ≡ 0xffff - fold 2 s =
      value-add initial blank (omega arith) ∙ ap (λ t. 0xffff - fold 2 t) (omega arith) in
    let total : initial + weight false (before ++ (unparse_int 2 c ++ after))
        ≡ s + (0xffff - fold 2 s) =
      omega arith in
    (
      small,
      value-add initial (before ++ (unparse_int 2 c ++ after)) (omega arith)
          ∙ ap (λ t. 0xffff - fold 2 t) total
          ∙ ap (λ t. 0xffff - t) (complement s bound),
    )

pub add-append :
    (xs : List ℕ) (c : InternetChecksum) (ys : List ℕ) → add c (xs ++ ys) ≡ add (add c xs) ys
unfolding add
add-append [] c ys = refl
add-append (b ∷ xs) c ys = add-append xs _ ys
