-- ===== src/Reassembler/Push.antt =====
-- `push_substring` of libsponge/stream_reassembler.cc as a whole, on substrings of one logical
-- stream `S` of `top` bytes.
use sponge.Prelude.{
  ℕ, ◌+◌, ◌-◌, ◌^◌, ◌≤◌, ◌<◌, ◌≡◌, subst, ◌∙◌, ap, sym, ◌⊎◌, inl, inr, List, length, take, drop,
  arith, Bool-cases, ltb, leb, refl, tests, add64, sub64, length-take, length-drop, Bool, true,
}
use sponge.Reassembler.{
  Reassembler, Trim, new_start, trim, place, accept, finish, positive, push_substring,
  first_unacceptable_idx,
}
use sponge.Reassembler.Stored.{Stored-le}
use sponge.Reassembler.Trimmed.{Trims, trim-Trims, Trims-old, Trims-new, Trims-size, Trims-Stored}
use sponge.Reassembler.Start.{IsStart, new_start-IsStart}
use sponge.Reassembler.Assemble.{Known, IsFlushed, Core}
use sponge.Reassembler.Place.{Placed, place-Placed}
use sponge.Reassembler.Finish.{IsValid, IsPart, finish-Frame, finish-IsValid_at}
use sponge.Reassembler.Accept.{Accepted, trim_nothing, cut, Placed-Accepted, accept_nothing}

module _ (S : ℕ → ℕ) (top : ℕ) (small : top < 2 ^ 62) where
  module _ (r : Reassembler) (bytes : List ℕ) (index : ℕ) (fin : Bool)
      (valid : IsValid S top small r) (part : IsPart S top small bytes index fin) where
    n : ℕ
    n = new_start r.next_assembled_idx r.unassemble_strs index

    start :
        IsStart S top index small
          (omega (arith, part.within))
          r.next_assembled_idx
          r.unassemble_strs
          n
    unfolding n
    start =
        new_start-IsStart S top index small (omega (arith, part.within)) r.next_assembled_idx
          r.unassemble_strs valid.core.stored

    t : Trim
    t = trim n (sub64 (length bytes) (sub64 n index)) r.unassembled_bytes_num r.unassemble_strs

    abbrev trimmed : Reassembler
    trimmed = record r { unassemble_strs = t.rest; unassembled_bytes_num = t.unassembled }

    skip : sub64 n index ≡ n - index
    skip = omega (arith, start.from_index, start.within_top)

    -- The substring brings nothing new.
    module _ (old : index + length bytes ≤ n) where
      same : t ≡ record {
        data_size = sub64 (length bytes) (n - index);
        unassembled = r.unassembled_bytes_num;
        rest = r.unassemble_strs;
      }
      unfolding t
      same = rw skip (
          trim_nothing n (sub64 (length bytes) (n - index)) r.unassembled_bytes_num
            r.unassemble_strs (omega (arith, start.from_index, start.within_top)))

    -- The substring brings something new.
    module _ (new : n < index + length bytes) where
      size : sub64 (length bytes) (sub64 n index) ≡ index + length bytes - n
      size = rw skip (omega (arith, start.from_index, start.within_top, part.within))

      trims : Trims n (index + length bytes - n) r.unassembled_bytes_num r.unassemble_strs t
      unfolding t
      trims = rw size (
          trim-Trims S top small n (index + length bytes - n) r.unassembled_bytes_num
            r.next_assembled_idx r.unassemble_strs (omega (arith, part.within)) valid.core.stored)

      trimmed-Core_new : Core S top small trimmed
      trimmed-Core_new = record {
        output = valid.core.output;
        stored = Trims-Stored S top small r.next_assembled_idx trims valid.core.stored;
      }

      left :
          (x : ℕ)
          → Known x r ⊎ ((index ≤ x) × (x < index + length bytes))
          → Known x trimmed ⊎ ((n ≤ x) × (x < n + t.data_size))
      left x (inl (inl b)) = inl (inl b)
      left x (inl (inr c)) = elim (Trims-old x trims c) [ inl c ↦ inl (inr c) | inr p ↦ inr p ]
      left x (inr p) = elim (Bool-cases (ltb x n)) [
        | inl b ↦ elim (start.known x p.0 (omega tests)) [
          | inl b ↦ inl (inl b)
          | inr c ↦ elim (Trims-old x trims c) [ inl c ↦ inl (inr c) | inr p ↦ inr p ]
        ]
        | inr b ↦ elim (Trims-new x trims (omega tests) (omega arith)) [
          | inl c ↦ inl (inr c)
          | inr q ↦ inr (omega tests, q)
        ]
      ]

      new_data : List ℕ
      new_data = take t.data_size (drop (sub64 n index) bytes)

      length-new_data : length new_data ≡ t.data_size
      unfolding new_data
      length-new_data = rw skip (
          omega (
            arith,
            length-take t.data_size (drop (n - index) bytes),
            length-drop (n - index) bytes,
            Trims-size trims,
            start.from_index,
          ))

      accept_some :
          0 < t.data_size
          → Accepted S top small n
              (n + t.data_size)
              trimmed
              (accept trimmed n (sub64 n index) t.data_size bytes)
      unfolding accept new_data
      accept_some p =
          let small_size = Trims-size trims in
          let pos : positive t.data_size ≡ true = ground (arith, start.within_top, part.within) in
          let placed =
            place-Placed S top small n (index + length bytes - n) r.unassembled_bytes_num
              r.unassemble_strs t trimmed new_data trims refl valid.core.output valid.core.stored
              start.clear (omega (arith, part.within)) start.from_lo length-new_data
              (omega (arith, length-new_data))
              (rw skip (cut S top small n index t.data_size bytes start.from_index part.agrees)) in
          rw pos (
            Placed-Accepted S top small n (n + t.data_size) trimmed (place trimmed n new_data) (
              subst (λ e. Placed S top small n (n + e) trimmed (place trimmed n new_data))
                length-new_data placed))

      accept_new :
          Accepted S top small n
            (n + t.data_size)
            trimmed
            (accept trimmed n (sub64 n index) t.data_size bytes)
      accept_new = elim (Bool-cases (ltb 0 t.data_size)) [
        | inl b ↦ accept_some (omega tests)
        | inr b ↦
            accept_nothing S top small n (n + t.data_size) (sub64 n index) t.data_size bytes trimmed
              trimmed-Core_new (ground arith) (omega tests)
      ]

    -- The substring against the state before the call.
    abbrev IsHeld : ℕ → Type 0
    IsHeld x = Known x r ⊎ ((index ≤ x) × (x < index + length bytes))

    record Joined (r' : Reassembler) : Type 0 where
      core : Core S top small r'
      capacity : r'.capacity ≡ r.capacity
      eof : r'.eof_idx ≡ r.eof_idx
      ended : r'.output.input_ended ≡ r.output.input_ended
      reader : r'.output.bytes_read ≡ r.output.bytes_read
      flushed : IsFlushed r'
      grows : r.next_assembled_idx ≤ r'.next_assembled_idx
      keeps : (x : ℕ) → x < r.output.bytes_read + r.capacity → IsHeld x → Known x r'

    join :
        (end : ℕ) (r' : Reassembler)
        → Accepted S top small n end trimmed r'
        → ((x : ℕ) → IsHeld x → Known x trimmed ⊎ ((n ≤ x) × (x < end)))
        → Joined r'
    join end r' a held = record {
      core = a.core;
      capacity = a.capacity;
      eof = a.eof;
      ended = a.ended;
      reader = a.reader;
      flushed = a.flushed;
      grows = a.grows;
      keeps = λ x inside k. a.keeps x inside (held x k);
    }

    held_old :
        index + length bytes ≤ n → t.rest ≡ r.unassemble_strs → (x : ℕ) → IsHeld x → Known x trimmed
    held_old old rest x (inl (inl b)) = inl b
    held_old old rest x (inl (inr c)) = inr (rw rest c)
    held_old old rest x (inr p) = elim (start.known x p.0 (omega arith)) [
      | inl b ↦ inl b
      | inr c ↦ inr (rw rest c)
    ]

    rest_old : index + length bytes ≤ n → t.rest ≡ r.unassemble_strs
    rest_old old = ap (λ (a : Trim). a.rest) (same old)

    trimmed-Core : Core S top small trimmed
    trimmed-Core = elim (Bool-cases (ltb n (index + length bytes))) [
      | inl b ↦ trimmed-Core_new (omega tests)
      | inr b ↦ record {
        output = valid.core.output;
        stored = rw (rest_old (omega tests)) valid.core.stored;
      }
    ]

    accept_old :
        index + length bytes ≤ n
        → Accepted S top small n n trimmed (accept trimmed n (sub64 n index) t.data_size bytes)
    accept_old old =
        let size : t.data_size ≡ sub64 (length bytes) (n - index) =
          ap (λ (a : Trim). a.data_size) (same old) in
        accept_nothing S top small n n (sub64 n index) t.data_size bytes trimmed trimmed-Core
          (rw size (ground (arith, start.from_index, start.within_top, part.within))) (omega arith)

    accepted : Joined (accept trimmed n (sub64 n index) t.data_size bytes)
    accepted = elim (Bool-cases (ltb n (index + length bytes))) [
      | inl b ↦ join (n + t.data_size) _ (accept_new (omega tests)) (left (omega tests))
      | inr b ↦
          join n _ (accept_old (omega tests))
            (λ x k. inl (held_old (omega tests) (rest_old (omega tests)) x k))
    ]

    next_le : (r' : Reassembler) → Core S top small r' → r'.next_assembled_idx ≤ top
    next_le r' c = Stored-le S top r'.next_assembled_idx r'.unassemble_strs c.stored

    end64 : add64 index (length bytes) ≡ index + length bytes
    end64 = omega (arith, part.within)

    finish-IsValid :
        (r' : Reassembler)
        → Joined r'
        → IsValid S top small (finish r' (add64 index (length bytes)) fin)
    finish-IsValid r' j = rw end64 (
        finish-IsValid_at S top small (index + length bytes) fin r' j.core
          (elim (Bool-cases fin) [
            | inl b ↦ inl (rw b (part.last b))
            | inr b ↦ rw (b, j.eof) valid.eof
          ])
          (λ h.
            let was = valid.ended (sym j.ended ∙ h) in
            (
              elim (Bool-cases fin) [ inl b ↦ rw b (part.last b) | inr b ↦ rw (b, j.eof) was.0 ],
              omega (arith, was.1, j.grows, next_le r' j.core),
            )))

    -- What the call as a whole does.
    pub record Pushed (r' : Reassembler) : Type 0 where
      pub valid' : IsValid S top small r'
      pub capacity : r'.capacity ≡ r.capacity
      pub reader : r'.output.bytes_read ≡ r.output.bytes_read
      pub grows : r.next_assembled_idx ≤ r'.next_assembled_idx
      pub keeps : (x : ℕ) → x < r.output.bytes_read + r.capacity → IsHeld x → Known x r'
      pub flushed :
          new_start r.next_assembled_idx r.unassemble_strs index < r.output.bytes_read + r.capacity
          → IsFlushed r'
      pub eof_kept : r.eof_idx ≡ top → r'.eof_idx ≡ top
      pub eof_known :
          new_start r.next_assembled_idx r.unassemble_strs index < r.output.bytes_read + r.capacity
          → fin ≡ true
          → r'.eof_idx ≡ top

    window : first_unacceptable_idx trimmed ≡ r.output.bytes_read + r.capacity
    window = omega (
      arith,
      valid.core.output.position,
      valid.core.output.bounded,
      valid.core.output.small,
      next_le r valid.core,
    )

    finished : (r' : Reassembler) → Joined r' → Pushed (finish r' (add64 index (length bytes)) fin)
    finished r' j =
        let f = finish-Frame r' (add64 index (length bytes)) fin in
        record {
          valid' = finish-IsValid r' j;
          capacity = f.capacity ∙ j.capacity;
          reader = f.reader ∙ j.reader;
          grows = omega (arith, f.next, j.grows);
          keeps = λ x inside k. rw (f.next, f.strs) (j.keeps x inside k);
          flushed = λ h. rw (f.next, f.strs, f.capacity, f.buffer) j.flushed;
          eof_kept = λ e. f.eof ∙ elim (Bool-cases fin) [
            | inl b ↦ rw (b, end64) (part.last b)
            | inr b ↦ rw b (j.eof ∙ e)
          ];
          eof_known = λ h last. f.eof ∙ (rw (last, end64) (part.last last));
        }

    refused : r.output.bytes_read + r.capacity ≤ n → Pushed trimmed
    unfolding n
    refused far = record {
      valid' = record {
        core = record { output = trimmed-Core.output; stored = trimmed-Core.stored };
        eof = valid.eof;
        ended = valid.ended;
        ends = valid.ends;
      };
      capacity = refl;
      reader = refl;
      grows = omega arith;
      keeps = λ x inside k. elim (Bool-cases (ltb n (index + length bytes))) [
        | inl b ↦ elim (left (omega tests) x k) [ inl k ↦ k | inr p ↦ absurd (omega arith) ]
        | inr b ↦ held_old (omega tests) (rest_old (omega tests)) x k
      ];
      flushed = λ h. absurd (omega arith);
      eof_kept = λ e. e;
      eof_known = λ h. absurd (omega arith);
    }

    pub push-Pushed : Pushed (push_substring r bytes index fin)
    unfolding push_substring n t
    push-Pushed = elim (Bool-cases (leb (first_unacceptable_idx trimmed) n)) [
      | inl b ↦ rw b (refused (omega (tests, window)))
      | inr b ↦ rw b (finished (accept trimmed n (sub64 n index) t.data_size bytes) accepted)
    ]
