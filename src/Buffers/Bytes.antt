-- ===== src/Buffers/Bytes.antt =====
-- Lists of buffers and of views of libsponge/util/buffer.cc against the bytes that they hold.
use sponge.Prelude.{
  ℕ, zero, suc, ◌+◌, ◌-◌, ◌≤◌, ◌<◌, ◌≡◌, ◌⊎◌, inl, inr, refl, Option, none, some, List, [], ◌∷◌,
  ◌++◌, length, drop, ltb, ◌==◌, add64, arith, tests, ap, sym, ◌∙◌, Bool-cases, length-append,
  length-drop, drop_all, le→ltb, IsU64, append-nil, append_assoc,
}
use sponge.Buffers.{
  Buffer, append, size, view_size, str, remove_prefix, concatenate, list_remove_prefix, views,
  view_remove_prefix,
}

-- The offset is inside the string, whose length is a size_t.
abbrev pub IsBuffer : Buffer → Type 0
IsBuffer b = elim (b.storage) [
  | none ↦ Unit {0}
  | some bytes ↦ (b.starting_offset ≤ length bytes) × IsU64 (length bytes)
]

abbrev pub AllBuffers : List Buffer → Type 0
AllBuffers [] = Unit {0}
AllBuffers (b ∷ bs) = IsBuffer b × AllBuffers bs

drop-nil : (n : ℕ) → drop {A = ℕ} n [] ≡ []
drop-nil zero = refl
drop-nil (suc n) = refl

drop-drop : (m n : ℕ) (xs : List ℕ) → drop n (drop m xs) ≡ drop (m + n) xs
drop-drop zero n xs = ap (λ k. drop k xs) (omega arith)
drop-drop (suc m) n [] = drop-nil n ∙ sym (drop-nil (suc m + n))
drop-drop (suc m) n (x ∷ xs) =
    let next : suc (m + n) ≡ suc m + n = omega arith in
    drop-drop m n xs ∙ ap (λ k. drop k (x ∷ xs)) next

-- A cut inside the first part, and one behind it.
drop-append_inside : (n : ℕ) (xs ys : List ℕ) → n ≤ length xs → drop n (xs ++ ys) ≡ drop n xs ++ ys
drop-append_inside zero xs ys h = refl
drop-append_inside (suc n) [] ys h = absurd (omega arith)
drop-append_inside (suc n) (x ∷ xs) ys h = drop-append_inside n xs ys (omega arith)

drop-append_behind :
    (n : ℕ) (xs ys : List ℕ) → length xs ≤ n → drop n (xs ++ ys) ≡ drop (n - length xs) ys
drop-append_behind n [] ys h = ap (λ k. drop k ys) (omega arith)
drop-append_behind zero (x ∷ xs) ys h = absurd (omega arith)
drop-append_behind (suc n) (x ∷ xs) ys h =
    drop-append_behind n xs ys (omega arith) ∙ ap (λ k. drop k ys) (omega arith)

-- Where there are bytes enough, they are dropped from a buffer.
remove_prefix_lem :
    (storage : Option (List ℕ)) (offset n : ℕ)
    → let b : Buffer = record { storage = storage; starting_offset = offset } in
      IsBuffer b
      → n ≤ length (str b)
      → (b' : Buffer) × (remove_prefix b n ≡ some b') × IsBuffer b' × (str b' ≡ drop n (str b))
unfolding remove_prefix
remove_prefix_lem none offset n v h = (
  record { storage = none; starting_offset = add64 offset n },
  rw (remove_prefix, le→ltb 0 n h) refl,
  tt,
  sym (drop-nil n),
)
remove_prefix_lem (some bytes) offset n v h =
    let size = length-drop offset bytes in
    let sum : add64 offset n ≡ offset + n = omega (arith, v.0, v.1) in
    elim (Bool-cases (offset + n == length bytes)) [
      | inl all ↦ (
        record { storage = none; starting_offset = offset + n },
        rw (remove_prefix, le→ltb (length (drop offset bytes)) n h, sum, all) refl,
        tt,
        sym (drop_all n (drop offset bytes) (omega (tests, size))),
      )
      | inr part ↦ (
        record { storage = some bytes; starting_offset = offset + n },
        rw (remove_prefix, le→ltb (length (drop offset bytes)) n h, sum, part) refl,
        (omega (arith, v.0), v.1),
        sym (drop-drop offset n bytes),
      )
    ]

-- Both lists lose the same bytes, or both have too few.
pub record Removed (bs : List Buffer) (n : ℕ) (bs' : List Buffer) : Type 0 where
  pub enough : n ≤ length (concatenate bs)
  pub removes : list_remove_prefix bs n ≡ some bs'
  pub views : view_remove_prefix (views bs) n ≡ some (views bs')
  pub valid : AllBuffers bs'
  pub bytes : concatenate bs' ≡ drop n (concatenate bs)

-- On a list of buffers whose offsets are inside their strings, BufferList::remove_prefix and
-- BufferViewList::remove_prefix of its views throw exactly if there are fewer bytes than are to
-- be removed; otherwise the bytes that the buffers then hold are those before with that many
-- dropped, the views are the views of what is left, and the offsets are still inside.
pub list_remove_prefix_lem :
    (bs : List Buffer) (n : ℕ)
    → AllBuffers bs
    → ((length (concatenate bs) < n)
        × (list_remove_prefix bs n ≡ none)
        × (view_remove_prefix (views bs) n ≡ none))
      ⊎ ((bs' : List Buffer) × Removed bs n bs')
unfolding list_remove_prefix view_remove_prefix
list_remove_prefix_lem bs zero v =
    inr (bs, record { enough = omega arith; removes = refl; views = refl; valid = v; bytes = refl })
list_remove_prefix_lem [] (suc n) v = inl (omega arith, refl, refl)
list_remove_prefix_lem (b ∷ bs) (suc n) v =
    let total = length-append (str b) (concatenate bs) in
    elim (Bool-cases (ltb (suc n) (length (str b)))) [
      | inl inside ↦
          let (b', cut, ok, bytes) =
            remove_prefix_lem b.storage b.starting_offset (suc n) (v.0) (omega tests) in
          inr (
            b' ∷ bs,
            record {
              enough = omega tests;
              removes = rw (list_remove_prefix, inside, cut) refl;
              views = rw (view_remove_prefix, inside, bytes) refl;
              valid = (ok, v.1);
              bytes =
                  ap (λ s. s ++ concatenate bs) bytes
                  ∙ sym (drop-append_inside (suc n) (str b) (concatenate bs) (omega tests));
            },
          )
      | inr behind ↦ elim (list_remove_prefix_lem bs (suc n - length (str b)) (v.1)) [
        | inl (few, throws, throws') ↦ inl (
          omega tests,
          rw (list_remove_prefix, behind) throws,
          rw (view_remove_prefix, behind) throws',
        )
        | inr (bs', r) ↦ inr (
          bs',
          record {
            enough = omega (tests, r.enough);
            removes = rw (list_remove_prefix, behind) (r.removes);
            views = rw (view_remove_prefix, behind) (r.views);
            valid = r.valid;
            bytes =
                r.bytes ∙ sym (drop-append_behind (suc n) (str b) (concatenate bs) (omega tests));
          },
        )
      ]
    ]

concatenate-last :
    (bs : List Buffer) (b : Buffer) → concatenate (bs ++ (b ∷ [])) ≡ concatenate bs ++ str b
concatenate-last [] b = append-nil (str b)
concatenate-last (c ∷ bs) b =
    ap (◌++◌ (str c)) (concatenate-last bs b) ∙ sym (append_assoc (str c) (concatenate bs) (str b))

pub concatenate-append :
    (bs other : List Buffer) → concatenate (append bs other) ≡ concatenate bs ++ concatenate other
concatenate-append bs [] = sym (append-nil (concatenate bs))
concatenate-append bs (b ∷ other) =
    concatenate-append (bs ++ (b ∷ [])) other
    ∙ ap (λ s. s ++ concatenate other) (concatenate-last bs b)
    ∙ append_assoc (concatenate bs) (str b) (concatenate other)

-- The sizes add up to the number of the bytes, if that is a size_t.
pub size_lem :
    (bs : List Buffer)
    → IsU64 (length (concatenate bs))
    → (size bs ≡ length (concatenate bs)) × (view_size (views bs) ≡ length (concatenate bs))
size_lem [] h = (refl, refl)
size_lem (b ∷ bs) h =
    let total = length-append (str b) (concatenate bs) in
    let (sizes, view_sizes) = size_lem bs (omega arith) in
    (omega (arith, sizes), omega (arith, view_sizes))
