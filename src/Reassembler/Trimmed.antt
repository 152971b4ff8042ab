-- ===== src/Reassembler/Trimmed.antt =====
-- The loop of `push_substring` of libsponge/stream_reassembler.cc that makes room for a substring,
-- as a relation with a rule for each way through its body.
use sponge.Prelude.{
  ℕ, ◌+◌, ◌-◌, ◌^◌, ◌≤◌, ◌<◌, ◌≡◌, ◌≢◌, ◌⊎◌, inl, inr, List, [], ◌∷◌, length, arith, sub64, add64,
  Bool-cases, ltb, ltb→lt, tests,
}
use sponge.Prelude.Maps.{insert}
use sponge.Reassembler.{Entries, Trim, trim}
use sponge.Reassembler.Stored.{Agrees, Stored, Stored-le, Stored-mono, Covered, Clear}

pub data Trims (n sz : ℕ) : ℕ → Entries → Trim → Type 0 where
  done : (u : ℕ) → Trims n sz u [] (record { data_size = sz; unassembled = u; rest = [] })
  below :
      {u : ℕ} {m : Entries} {t : Trim} (i : ℕ) (d : List ℕ)
      → i < n
      → Trims n sz u m t
      → Trims n sz u ((i, d) ∷ m) (record t { rest = (i, d) ∷ t.rest })
  overlap :
      (u i : ℕ) (d : List ℕ) (m : Entries)
      → n ≤ i
      → i < n + sz
      → n + sz < i + length d
      → Trims n sz u ((i, d) ∷ m) (record { data_size = i - n; unassembled = u; rest = (i, d) ∷ m })
  cover :
      {u : ℕ} {m : Entries} {t : Trim} (i : ℕ) (d : List ℕ)
      → n ≤ i
      → i + length d ≤ n + sz
      → Trims n sz (sub64 u (length d)) m t
      → Trims n sz u ((i, d) ∷ m) t
  apart :
      (u i : ℕ) (d : List ℕ) (m : Entries)
      → n + sz ≤ i
      → Trims n sz u ((i, d) ∷ m) (record { data_size = sz; unassembled = u; rest = (i, d) ∷ m })

insert_before :
    (n i : ℕ) (bytes d : List ℕ) (m : Entries)
    → n < i
    → insert n bytes ((i, d) ∷ m) ≡ (n, bytes) ∷ (i, d) ∷ m
unfolding insert
insert_before n i bytes d m h = ground arith

pub insert_after :
    (n i : ℕ) (bytes d : List ℕ) (m : Entries)
    → i < n
    → insert n bytes ((i, d) ∷ m) ≡ (i, d) ∷ insert n bytes m
unfolding insert
insert_after n i bytes d m h = ground arith

-- No pair has the key `n`.
abbrev pub Fresh : ℕ → Entries → Type 0
Fresh n [] = Unit {0}
Fresh n ((i, d) ∷ m) = (i ≢ n) × Fresh n m

pub Stored-Fresh : (S : ℕ → ℕ) (top lo n : ℕ) (m : Entries) → n < lo → Stored S top lo m → Fresh n m
Stored-Fresh S top lo n [] h v = tt
Stored-Fresh S top lo n ((i, d) ∷ m) h v =
    (omega arith, Stored-Fresh S top (i + length d) n m (omega arith) v.3)

module _ (S : ℕ → ℕ) (top : ℕ) (small : top < 2 ^ 62) where
  pub trim-Trims :
      (n sz u lo : ℕ) (m : Entries)
      → n + sz ≤ top
      → Stored S top lo m
      → Trims n sz u m (trim n sz u m)
  unfolding trim
  trim-Trims n sz u lo [] e v = done u
  trim-Trims n sz u lo ((i, d) ∷ m) e v =
      let fits = Stored-le S top (i + length d) m v.3 in
      elim (Bool-cases (ltb i n)) [
        | inl b ↦ rw (b, trim) (below i d (ltb→lt i n b) (trim-Trims n sz u (i + length d) m e v.3))
        | inr b ↦ elim (Bool-cases (ltb i (add64 n sz))) [
          | inl c ↦ elim (Bool-cases (ltb (add64 n sz) (add64 i (length d)))) [
            | inl o ↦
                let eq : sub64 i n ≡ i - n = omega tests in
                rw (b, c, o, eq, trim) (overlap u i d m (omega tests) (omega tests) (omega tests))
            | inr o ↦
                rw (b, c, o, trim)
                  (cover i d (omega tests) (omega tests)
                    (trim-Trims n sz (sub64 u (length d)) (i + length d) m e v.3))
          ]
          | inr c ↦ rw (b, c, trim) (apart u i d m (omega tests))
        ]
      ]

  pub Trims-Stored :
      {n sz u : ℕ} {m : Entries} {t : Trim} (lo : ℕ)
      → Trims n sz u m t
      → Stored S top lo m
      → Stored S top lo t.rest
  Trims-Stored lo (done u) v = v
  Trims-Stored lo (below i d h r) v = (v.0, v.1, v.2, Trims-Stored (i + length d) r v.3)
  Trims-Stored lo (overlap u i d m h k o) v = v
  Trims-Stored lo (cover {m = m} i d h k r) v =
      Trims-Stored lo r (Stored-mono S top (i + length d) lo m (omega arith) v.3)
  Trims-Stored lo (apart u i d m h) v = v

  pub insert-Stored :
      {n sz u : ℕ} {m : Entries} {t : Trim} (lo : ℕ) (bytes : List ℕ)
      → Trims n sz u m t
      → n + sz ≤ top
      → lo ≤ n
      → Clear n m
      → Stored S top lo m
      → length bytes ≡ t.data_size
      → 0 < length bytes
      → Agrees S n bytes
      → Stored S top lo (insert n bytes t.rest)
  insert-Stored lo bytes (done u) e h c v s p a = unfold insert in (h, p, a, omega arith)
  insert-Stored {n} lo bytes (below {t = t'} i d q r) e h c v s p a =
      rw (insert_after n i bytes d t'.rest q)
        (v.0, v.1, v.2, insert-Stored (i + length d) bytes r e (omega (arith, c.0)) c.1 v.3 s p a)
  insert-Stored {n} lo bytes (overlap u i d m h k o) e h' c v s p a =
      rw (insert_before n i bytes d m (omega arith)) (h', p, a, (omega arith, v.1, v.2, v.3))
  insert-Stored lo bytes (cover {m = m} i d h k r) e h' c v s p a =
      insert-Stored lo bytes r e h' c.1 (Stored-mono S top (i + length d) lo m (omega arith) v.3) s
        p a
  insert-Stored {n} lo bytes (apart u i d m h) e h' c v s p a =
      rw (insert_before n i bytes d m (omega arith)) (h', p, a, (omega arith, v.1, v.2, v.3))

  pub Trims-front :
      {n sz u : ℕ} {m : Entries} {t : Trim}
      → Trims n sz u m t
      → n + sz ≤ top
      → Stored S top n m
      → 0 < t.data_size
      → Stored S top (n + t.data_size) t.rest
  Trims-front (done u) e v p = e
  Trims-front (below i d q r) e v p = absurd (omega arith)
  Trims-front (overlap u i d m h k o) e v p = (omega arith, v.1, v.2, v.3)
  Trims-front {n} (cover {m = m} i d h k r) e v p =
      Trims-front r e (Stored-mono S top (i + length d) n m (omega arith) v.3) p
  Trims-front (apart u i d m h) e v p = (omega arith, v.1, v.2, v.3)

  pub Trims-Fresh :
      {n sz u : ℕ} {m : Entries} {t : Trim} (lo : ℕ)
      → Trims n sz u m t
      → Stored S top lo m
      → 0 < t.data_size
      → Fresh n t.rest
  Trims-Fresh lo (done u) v p = tt
  Trims-Fresh lo (below i d q r) v p = (omega arith, Trims-Fresh (i + length d) r v.3 p)
  Trims-Fresh {n} lo (overlap u i d m h k o) v p =
      (omega arith, Stored-Fresh S top (i + length d) n m (omega arith) v.3)
  Trims-Fresh lo (cover i d h k r) v p = Trims-Fresh (i + length d) r v.3 p
  Trims-Fresh {n} lo (apart u i d m h) v p =
      (omega arith, Stored-Fresh S top (i + length d) n m (omega arith) v.3)

pub Trims-size : {n sz u : ℕ} {m : Entries} {t : Trim} → Trims n sz u m t → t.data_size ≤ sz
Trims-size (done u) = omega arith
Trims-size (below i d q r) = Trims-size r
Trims-size (overlap u i d m h k o) = omega arith
Trims-size (cover i d h k r) = Trims-size r
Trims-size (apart u i d m h) = omega arith

-- What the new substring still brings, and what is kept, hold every byte that either held.
pub Trims-new :
    {n sz u : ℕ} {m : Entries} {t : Trim} (x : ℕ)
    → Trims n sz u m t
    → n ≤ x
    → x < n + sz
    → Covered x t.rest ⊎ (x < n + t.data_size)
Trims-new x (done u) h k = inr k
Trims-new x (below i d q r) h k = elim (Trims-new x r h k) [ inl c ↦ inl (inr c) | inr b ↦ inr b ]
Trims-new {n} x (overlap u i d m q k o) h l = elim (Bool-cases (ltb x i)) [
  | inl b ↦ inr (omega tests)
  | inr b ↦ inl (inl (omega tests, omega tests))
]
Trims-new x (cover i d q k r) h l = Trims-new x r h l
Trims-new x (apart u i d m q) h k = inr k

pub Trims-old :
    {n sz u : ℕ} {m : Entries} {t : Trim} (x : ℕ)
    → Trims n sz u m t
    → Covered x m
    → Covered x t.rest ⊎ ((n ≤ x) × (x < n + t.data_size))
Trims-old x (done u) c = inl c
Trims-old x (below i d q r) (inl c) = inl (inl c)
Trims-old x (below i d q r) (inr c) = elim (Trims-old x r c) [ inl c ↦ inl (inr c) | inr b ↦ inr b ]
Trims-old x (overlap u i d m q k o) c = inl c
Trims-old x (cover i d q k r) (inl c) = elim (Trims-new x r (omega arith) (omega arith)) [
  | inl c' ↦ inl c'
  | inr b ↦ inr (omega arith, b)
]
Trims-old x (cover i d q k r) (inr c) = Trims-old x r c
Trims-old x (apart u i d m q) c = inl c

pub insert-Covered :
    (x n : ℕ) (bytes : List ℕ) (m : Entries)
    → Fresh n m
    → Covered x m ⊎ ((n ≤ x) × (x < n + length bytes))
    → Covered x (insert n bytes m)
unfolding insert
insert-Covered x n bytes [] f (inr c) = inl c
insert-Covered x n bytes [] f (inl c) = absurd c
insert-Covered x n bytes ((i, d) ∷ m) f c = elim (Bool-cases (ltb n i)) [
  | inl b ↦
      rw (insert_before n i bytes d m (omega tests)) (elim c [ inl c ↦ inr c | inr c ↦ inl c ])
  | inr b ↦ rw (insert_after n i bytes d m (omega (tests, f.0))) (elim c [
    | inl (inl c) ↦ inl c
    | inl (inr c) ↦ inr (insert-Covered x n bytes m f.1 (inl c))
    | inr c ↦ inr (insert-Covered x n bytes m f.1 (inr c))
  ])
]
