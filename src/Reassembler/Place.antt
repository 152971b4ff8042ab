-- ===== src/Reassembler/Place.antt =====
-- `push_substring` of libsponge/stream_reassembler.cc where the trimmed substring is written or
-- stored.
use sponge.Prelude.{
  ℕ, ◌+◌, ◌^◌, ◌≤◌, ◌<◌, ◌≡◌, subst, sym, ◌⊎◌, inl, inr, List, length, drop, arith, Bool-cases, ltb,
  refl, tests, add64, length-drop, ◌==◌, ==→eq,
}
use sponge.ByteStream
use sponge.ByteStream.{ByteStream}
use sponge.Reassembler.{Reassembler, Entries, Trim, place, store}
use sponge.Reassembler.Stored.{Agrees, Stored, Stored-mono, Clear, Agrees-drop}
use sponge.Reassembler.Trimmed.{
  Trims, Trims-front, Trims-size, Fresh, Trims-Fresh, insert-Stored, insert-Covered, Stored-Fresh,
}
use sponge.Reassembler.Output.{Output, Wrote, write-Wrote, insert_front-Stored}
use sponge.Reassembler.Assemble.{Known}

module _ (S : ℕ → ℕ) (top : ℕ) (small : top < 2 ^ 62) where
  -- What `place` makes of `r`, given the bytes from `n` up to `end`.
  pub record Placed (n end : ℕ) (r r' : Reassembler) : Type 0 where
    pub output : Output S r'.next_assembled_idx r'.capacity r'.output
    pub stored : Stored S top r'.next_assembled_idx r'.unassemble_strs
    pub capacity : r'.capacity ≡ r.capacity
    pub eof : r'.eof_idx ≡ r.eof_idx
    pub ended : r'.output.input_ended ≡ r.output.input_ended
    pub grows : r.next_assembled_idx ≤ r'.next_assembled_idx
    pub reader : r'.output.bytes_read ≡ r.output.bytes_read
    pub keeps : (x : ℕ) → Known x r ⊎ ((n ≤ x) × (x < end)) → Known x r'

  module _ (n sz u : ℕ) (m : Entries) (t : Trim) (r : Reassembler) (bytes : List ℕ)
      (trims : Trims n sz u m t) (rest : r.unassemble_strs ≡ t.rest)
      (output : Output S r.next_assembled_idx r.capacity r.output)
      (stored : Stored S top r.next_assembled_idx m) (clear : Clear n m) (fits : n + sz ≤ top)
      (after : r.next_assembled_idx ≤ n) (size : length bytes ≡ t.data_size)
      (nonempty : 0 < length bytes) (agrees : Agrees S n bytes) where
    fresh : Fresh n r.unassemble_strs
    fresh = rw rest (Trims-Fresh S top small r.next_assembled_idx trims stored (omega arith))

    -- It does not come next, and waits.
    store-Placed : Placed n (n + length bytes) r (store r n bytes)
    unfolding store
    store-Placed = record {
      output = output;
      stored = rw rest (
          insert-Stored S top small r.next_assembled_idx bytes trims fits after clear stored size
            nonempty agrees);
      capacity = refl;
      eof = refl;
      ended = refl;
      grows = omega arith;
      reader = refl;
      keeps = λ x k. elim k [
        | inl (inl b) ↦ inl b
        | inl (inr c) ↦ inr (insert-Covered x n bytes r.unassemble_strs fresh (inl c))
        | inr p ↦ inr (insert-Covered x n bytes r.unassemble_strs fresh (inr p))
      ];
    }

    w : ℕ × ByteStream
    w = ByteStream.write r.output bytes

    module _ (next : n ≡ r.next_assembled_idx) where
      written : Reassembler
      written = record r { output = w.1; next_assembled_idx = add64 r.next_assembled_idx w.0 }

      wrote : Wrote S r.next_assembled_idx r.capacity bytes r.output w
      unfolding w
      wrote =
          write-Wrote S r.next_assembled_idx r.capacity bytes r.output output
            (subst (λ k. Agrees S k bytes) next agrees) (omega (arith, Trims-size trims))

      sum : add64 r.next_assembled_idx w.0 ≡ n + w.0
      sum = omega (arith, wrote.count, Trims-size trims)

      front : Stored S top (n + length bytes) r.unassemble_strs
      front =
          rw (size, rest)
            (Trims-front S top small trims fits (subst (λ k. Stored S top k m) (sym next) stored)
              (omega arith))

      moved : Output S (add64 r.next_assembled_idx w.0) r.capacity w.1
      moved = subst (λ k. Output S k r.capacity w.1) (omega (arith, sum)) wrote.output

      whole-Placed : length bytes ≤ w.0 → Placed n (n + length bytes) r written
      unfolding written
      whole-Placed all = record {
        output = moved;
        stored =
            rw sum
              (subst (λ k. Stored S top k r.unassemble_strs) (omega (arith, wrote.count)) front);
        capacity = refl;
        eof = refl;
        ended = wrote.ended;
        grows = omega (arith, sum);
        reader = wrote.reader;
        keeps = λ x k. elim k [
          | inl (inl b) ↦ inl (omega (arith, sum))
          | inl (inr c) ↦ inr c
          | inr p ↦ inl (omega (arith, sum))
        ];
      }

      part-Placed :
          w.0 < length bytes
          → Placed n
              (n + length bytes)
              r
              (store written (add64 r.next_assembled_idx w.0) (drop w.0 bytes))
      unfolding written store
      part-Placed less =
          let left = length-drop w.0 bytes in
          let behind : Stored S top (n + w.0 + length (drop w.0 bytes)) r.unassemble_strs =
            Stored-mono S top (n + length bytes) (n + w.0 + length (drop w.0 bytes))
              r.unassemble_strs (omega arith) front in
          record {
            output = moved;
            stored = rw sum (
                insert_front-Stored S top (n + w.0) (n + w.0) (drop w.0 bytes) r.unassemble_strs
                  (omega arith) (omega arith) (Agrees-drop S w.0 n (n + w.0) bytes refl agrees)
                  behind);
            capacity = refl;
            eof = refl;
            ended = wrote.ended;
            grows = omega (arith, sum);
            reader = wrote.reader;
            keeps = rw sum λ x k.
                let held = insert-Covered x (n + w.0) (drop w.0 bytes) r.unassemble_strs (
                  Stored-Fresh S top (n + length bytes) (n + w.0) r.unassemble_strs (omega arith)
                    front) in
                elim k [
                  | inl (inl b) ↦ inl (omega arith)
                  | inl (inr c) ↦ inr (held (inl c))
                  | inr p ↦ elim (Bool-cases (ltb x (n + w.0))) [
                    | inl b ↦ inl (omega tests)
                    | inr b ↦ inr (held (inr (omega tests, omega tests)))
                  ]
                ];
          }

    pub place-Placed : Placed n (n + length bytes) r (place r n bytes)
    unfolding place w written
    place-Placed = elim (Bool-cases (n == r.next_assembled_idx)) [
      | inl b ↦ elim (Bool-cases (ltb w.0 (length bytes))) [
        | inl c ↦ rw (b, c) (part-Placed (==→eq _ _ b) (omega tests))
        | inr c ↦ rw (b, c) (whole-Placed (==→eq _ _ b) (omega tests))
      ]
      | inr b ↦ rw b store-Placed
    ]
