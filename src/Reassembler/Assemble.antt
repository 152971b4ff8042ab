-- ===== src/Reassembler/Assemble.antt =====
-- The loop of `push_substring` of libsponge/stream_reassembler.cc that writes what has come next.
use sponge.Prelude.{
  ℕ, zero, suc, ◌+◌, ◌^◌, ◌≤◌, ◌<◌, ◌≡◌, ◌≢◌, subst, ◌∙◌, ap, sym, ◌⊎◌, inl, inr, List, [], ◌∷◌,
  length, drop, arith, Bool-cases, ltb, refl, tests, add64, sub64, length-drop, ◌==◌, ==→eq, ==→ne,
  true, false,
}
use sponge.ByteStream
use sponge.ByteStream.{ByteStream}
use sponge.Prelude.Maps.{insert, erase}
use sponge.Reassembler.{Reassembler, Entries, assemble}
use sponge.Reassembler.Stored.{Agrees, Stored, Stored-le, Stored-mono, Covered, Agrees-drop}
use sponge.Reassembler.Trimmed.{insert_after}
use sponge.Reassembler.Output.{Output, write-Wrote, insert_front}

-- The byte of index `x` is assembled, or waits.
abbrev pub Known : ℕ → Reassembler → Type 0
Known x r = (x < r.next_assembled_idx) ⊎ Covered x r.unassemble_strs

-- The first pair starts above `n`.
abbrev pub HeadAbove : ℕ → Entries → Type 0
HeadAbove n [] = Unit {0}
HeadAbove n ((i, d) ∷ m) = n < i

-- Nothing waits that could be written.
abbrev pub IsFlushed : Reassembler → Type 0
IsFlushed r =
    (length r.output.buffer ≡ r.capacity) ⊎ HeadAbove r.next_assembled_idx r.unassemble_strs

erase_head : (i : ℕ) (d : List ℕ) (m : Entries) → erase i ((i, d) ∷ m) ≡ m
unfolding erase
erase_head i d m = ground arith

abbrev wholly : Reassembler → List ℕ → Reassembler
wholly r d =
    let w = ByteStream.write r.output d in
    record r {
      output = w.1;
      next_assembled_idx = add64 r.next_assembled_idx w.0;
      unassembled_bytes_num = sub64 r.unassembled_bytes_num (length d);
    }

-- The three ways through the body of the loop.
module _ (i : ℕ) (d : List ℕ) (m : Entries) (r : Reassembler) where
  abbrev partly : ℕ → Reassembler
  partly n =
      let w = ByteStream.write r.output d in
      record r {
        output = w.1;
        next_assembled_idx = add64 r.next_assembled_idx w.0;
        unassembled_bytes_num =
            sub64 (add64 r.unassembled_bytes_num (sub64 (length d) w.0)) (length d);
        unassemble_strs = erase i (insert (add64 n w.0) (drop w.0 d) ((i, d) ∷ m));
      }

  assemble_stop :
      (i == r.next_assembled_idx) ≡ false
      → assemble ((i, d) ∷ m) r ≡ record r { unassemble_strs = (i, d) ∷ m }
  unfolding assemble
  assemble_stop b = rw b

  assemble_part :
      (i == r.next_assembled_idx) ≡ true
      → ltb (ByteStream.write r.output d).0 (length d) ≡ true
      → assemble ((i, d) ∷ m) r ≡ partly i
  assemble_part b c =
      let opened : assemble ((i, d) ∷ m) r ≡ partly r.next_assembled_idx =
        unfold assemble in rw (b, c) in
      opened ∙ ap partly (sym (==→eq i r.next_assembled_idx b))

  assemble_whole :
      (i == r.next_assembled_idx) ≡ true
      → ltb (ByteStream.write r.output d).0 (length d) ≡ false
      → assemble ((i, d) ∷ m) r ≡ assemble m (wholly r d)
  assemble_whole b c = unfold assemble in rw (b, c)

module _ (S : ℕ → ℕ) (top : ℕ) (small : top < 2 ^ 62) where
  pub record Core (r : Reassembler) : Type 0 where
    pub output : Output S r.next_assembled_idx r.capacity r.output
    pub stored : Stored S top r.next_assembled_idx r.unassemble_strs

  -- What the loop leaves, begun at `r`.
  pub record Assembled (m : Entries) (r r' : Reassembler) : Type 0 where
    pub core : Core r'
    pub capacity : r'.capacity ≡ r.capacity
    pub eof : r'.eof_idx ≡ r.eof_idx
    pub ended : r'.output.input_ended ≡ r.output.input_ended
    pub reader : r'.output.bytes_read ≡ r.output.bytes_read
    pub flushed : IsFlushed r'
    pub grows : r.next_assembled_idx ≤ r'.next_assembled_idx
    pub keeps :
        (x : ℕ)
        → x < r.output.bytes_read + r.capacity
        → (x < r.next_assembled_idx) ⊎ Covered x m
        → Known x r'

  -- What a partial write leaves of the pairs.
  abbrev left_over : ℕ → ℕ → List ℕ → Entries → Entries
  left_over i k d m = erase i (insert (add64 i k) (drop k d) ((i, d) ∷ m))

  left_over_none : (i : ℕ) (d : List ℕ) (m : Entries) → i < 2 ^ 63 → left_over i 0 d m ≡ m
  unfolding insert erase
  left_over_none i d m h = ground arith

  left_over_some :
      (i k : ℕ) (d : List ℕ) (m : Entries)
      → i + k < 2 ^ 63
      → 0 < k
      → k < length d
      → Agrees S i d
      → Stored S top (i + length d) m
      → left_over i k d m ≡ (i + k, drop k d) ∷ m
  left_over_some i k d m h p q a v =
      let sum : add64 i k ≡ i + k = omega arith in
      let grows : i < i + k = omega arith in
      let lengths = length-drop k d in
      let front =
        insert_front S top (i + k) (i + k) (drop k d) m (omega arith) (omega arith)
          (Agrees-drop S k i (i + k) d refl a)
          (Stored-mono S top (i + length d) (i + k + length (drop k d)) m (omega arith) v) in
      rw (sum, insert_after (i + k) i (drop k d) d m grows, erase_head i d) front

  left_over-Stored :
      (i k : ℕ) (d : List ℕ) (m : Entries)
      → i + k < 2 ^ 63
      → k < length d
      → Agrees S i d
      → Stored S top (i + length d) m
      → Stored S top (i + k) (left_over i k d m)
  left_over-Stored i zero d m h q a v =
      rw (left_over_none i d m (omega arith))
        (Stored-mono S top (i + length d) (i + 0) m (omega arith) v)
  left_over-Stored i (suc k) d m h q a v = rw (left_over_some i (suc k) d m h (omega arith) q a v) (
    omega arith,
    omega (arith, length-drop (suc k) d),
    Agrees-drop S (suc k) i (i + suc k) d refl a,
    Stored-mono S top (i + length d) (i + suc k + length (drop (suc k) d)) m
        (omega (arith, length-drop (suc k) d)) v,
  )

  left_over-Known :
      (i k x : ℕ) (d : List ℕ) (m : Entries)
      → i + k < 2 ^ 63
      → 0 < k
      → k < length d
      → Agrees S i d
      → Stored S top (i + length d) m
      → Covered x ((i, d) ∷ m)
      → (x < i + k) ⊎ Covered x (left_over i k d m)
  left_over-Known i k x d m h p q a v c =
      rw (left_over_some i k d m h p q a v) (split c (Bool-cases (ltb x (i + k))))
    where
      split :
          Covered x ((i, d) ∷ m)
          → (ltb x (i + k) ≡ true) ⊎ (ltb x (i + k) ≡ false)
          → (x < i + k) ⊎ Covered x ((i + k, drop k d) ∷ m)
      split c (inl b) = inl (omega tests)
      split (inl c) (inr b) = inr (inl (omega tests, omega (arith, length-drop k d)))
      split (inr c) (inr b) = inr (inr c)

  -- The loop stops at a pair above `_next_assembled_idx`.
  stop-Assembled :
      (i : ℕ) (d : List ℕ) (m : Entries) (r : Reassembler)
      → Output S r.next_assembled_idx r.capacity r.output
      → Stored S top r.next_assembled_idx ((i, d) ∷ m)
      → i ≢ r.next_assembled_idx
      → Assembled ((i, d) ∷ m) r (record r { unassemble_strs = (i, d) ∷ m })
  stop-Assembled i d m r o v ne = record {
    core = record { output = o; stored = v };
    capacity = refl;
    eof = refl;
    ended = refl;
    reader = refl;
    flushed = inr (omega arith);
    grows = omega arith;
    keeps = λ x h k. k;
  }

  -- The pair fits in part, and the output is full.
  part-Assembled :
      (i : ℕ) (d : List ℕ) (m : Entries) (r : Reassembler) (u : ℕ)
      → Output S r.next_assembled_idx r.capacity r.output
      → Stored S top r.next_assembled_idx ((i, d) ∷ m)
      → i ≡ r.next_assembled_idx
      → let w = ByteStream.write r.output d in
        w.0 < length d
        → Assembled ((i, d) ∷ m) r (record r {
          output = w.1;
          next_assembled_idx = add64 r.next_assembled_idx w.0;
          unassembled_bytes_num = u;
          unassemble_strs = left_over i w.0 d m;
        })
  part-Assembled i d m r u o v e less =
      let w = ByteStream.write r.output d in
      let k = w.0 in
      let next = r.next_assembled_idx in
      let fits = Stored-le S top (i + length d) m v.3 in
      let a : Agrees S next d = subst (λ n. Agrees S n d) e v.2 in
      let wrote = write-Wrote S next r.capacity d r.output o a (omega arith) in
      let sum : add64 next k ≡ next + k = omega arith in
      rw sum (record {
        core = record {
          output = wrote.output;
          stored =
              subst (λ n. Stored S top (n + k) (left_over i k d m)) e
                (left_over-Stored i k d m (omega arith) less v.2 v.3);
        };
        capacity = refl;
        eof = refl;
        ended = wrote.ended;
        reader = wrote.reader;
        flushed = inl (omega (arith, wrote.count, wrote.size, o.bounded));
        grows = omega arith;
        keeps = λ x inside c. elim (Bool-cases (ltb 0 k)) [
          | inl p ↦ elim c [
            | inl before ↦ inl (omega arith)
            | inr c ↦ elim (left_over-Known i k x d m (omega arith) (omega tests) less v.2 v.3 c) [
              | inl p ↦ inl (omega arith)
              | inr c ↦ inr c
            ]
          ]
          | inr p ↦ inl (omega (tests, wrote.count, o.position, o.bounded))
        ];
      })

  -- The pair fits as a whole, and the loop goes on.
  whole-Assembled :
      (i : ℕ) (d : List ℕ) (m : Entries) (r r' : Reassembler) (u : ℕ)
      → Output S r.next_assembled_idx r.capacity r.output
      → Stored S top r.next_assembled_idx ((i, d) ∷ m)
      → i ≡ r.next_assembled_idx
      → let w = ByteStream.write r.output d in
        length d ≤ w.0
        → let next = record r {
          output = w.1;
          next_assembled_idx = add64 r.next_assembled_idx w.0;
          unassembled_bytes_num = u;
        } in
          (Output S next.next_assembled_idx r.capacity w.1
            → Stored S top next.next_assembled_idx m
            → Assembled m next r')
          → Assembled ((i, d) ∷ m) r r'
  whole-Assembled i d m r r' u o v e less rest =
      let w = ByteStream.write r.output d in
      let next = r.next_assembled_idx in
      let fits = Stored-le S top (i + length d) m v.3 in
      let a : Agrees S next d = subst (λ n. Agrees S n d) e v.2 in
      let wrote = write-Wrote S next r.capacity d r.output o a (omega arith) in
      let sum : add64 next w.0 ≡ next + w.0 = omega (arith, wrote.count) in
      let end : i + length d ≡ next + w.0 = omega (arith, wrote.count) in
      let out : Output S (add64 next w.0) r.capacity w.1 = rw sum wrote.output in
      let stored : Stored S top (add64 next w.0) m =
        rw sum (subst (λ n. Stored S top n m) end v.3) in
      let done = rest out stored in
      record {
        core = done.core;
        capacity = done.capacity;
        eof = done.eof;
        ended = done.ended ∙ wrote.ended;
        reader = done.reader ∙ wrote.reader;
        flushed = done.flushed;
        grows = omega (arith, done.grows);
        keeps = λ x inside c. done.keeps x (omega (arith, wrote.reader)) (elim c [
          | inl before ↦ inl (omega arith)
          | inr (inl p) ↦ inl (omega arith)
          | inr (inr c) ↦ inr c
        ]);
      }

  pub assemble-Assembled :
      (m : Entries) (r : Reassembler)
      → Output S r.next_assembled_idx r.capacity r.output
      → Stored S top r.next_assembled_idx m
      → Assembled m r (assemble m r)
  assemble-Assembled [] r o v =
      unfold assemble in
      record {
        core = record { output = o; stored = v };
        capacity = refl;
        eof = refl;
        ended = refl;
        reader = refl;
        flushed = inr tt;
        grows = omega arith;
        keeps = λ x h k. k;
      }
  assemble-Assembled ((i, d) ∷ m) r o v = elim (Bool-cases (i == r.next_assembled_idx)) [
    | inl b ↦ elim (Bool-cases (ltb w.0 (length d))) [
      | inl c ↦
          rw (assemble_part i d m r b c) (part-Assembled i d m r _ o v (==→eq _ _ b) (omega tests))
      | inr c ↦ rw (assemble_whole i d m r b c) (
          whole-Assembled i d m r _ (sub64 r.unassembled_bytes_num (length d)) o v (==→eq _ _ b)
            (omega tests) (assemble-Assembled m (wholly r d)))
    ]
    | inr b ↦ rw (assemble_stop i d m r b) (stop-Assembled i d m r o v (==→ne _ _ b))
  ]
    where
      w : ℕ × ByteStream
      w = ByteStream.write r.output d
