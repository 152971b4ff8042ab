-- ===== src/Reassembler/Accept.antt =====
-- What `push_substring` of libsponge/stream_reassembler.cc does with what the trimming left.
use sponge.Prelude.{
  ℕ, ◌+◌, ◌-◌, ◌^◌, ◌≤◌, ◌<◌, ◌≡◌, ◌∙◌, ◌⊎◌, inl, inr, List, [], ◌∷◌, take, drop, arith, refl,
  add64, false,
}
use sponge.Reassembler.{Reassembler, Entries, trim, assemble, accept, positive}
use sponge.Reassembler.Stored.{Agrees, Agrees-take, Agrees-drop}
use sponge.Reassembler.Assemble.{Known, IsFlushed, Core, assemble-Assembled}
use sponge.Reassembler.Place.{Placed}

pub trim_nothing :
    (n sz u : ℕ) (m : Entries)
    → add64 n sz ≤ n
    → trim n sz u m ≡ record { data_size = sz; unassembled = u; rest = m }
unfolding trim
trim_nothing n sz u [] h = refl
trim_nothing n sz u ((i, d) ∷ m) h = ground (arith, trim_nothing n sz u m h)

module _ (S : ℕ → ℕ) (top : ℕ) (small : top < 2 ^ 62) where
  -- The bytes that `push_substring` cuts out are the stream's from `new_idx` on.
  pub cut :
      (n index k : ℕ) (bytes : List ℕ)
      → index ≤ n
      → Agrees S index bytes
      → Agrees S n (take k (drop (n - index) bytes))
  cut n index k bytes h a =
      Agrees-take S k n (drop (n - index) bytes)
        (Agrees-drop S (n - index) index n bytes (omega arith) a)

  -- What `accept` makes of the trimmed state.
  pub record Accepted (n end : ℕ) (r r' : Reassembler) : Type 0 where
    pub core : Core S top small r'
    pub capacity : r'.capacity ≡ r.capacity
    pub eof : r'.eof_idx ≡ r.eof_idx
    pub ended : r'.output.input_ended ≡ r.output.input_ended
    pub reader : r'.output.bytes_read ≡ r.output.bytes_read
    pub flushed : IsFlushed r'
    pub grows : r.next_assembled_idx ≤ r'.next_assembled_idx
    pub keeps :
        (x : ℕ)
        → x < r.output.bytes_read + r.capacity
        → Known x r ⊎ ((n ≤ x) × (x < end))
        → Known x r'

  pub Placed-Accepted :
      (n end : ℕ) (r r' : Reassembler)
      → Placed S top small n end r r'
      → Accepted n end r (assemble r'.unassemble_strs r')
  Placed-Accepted n end r r' p =
      let a = assemble-Assembled S top small r'.unassemble_strs r' p.output p.stored in
      record {
        core = a.core;
        capacity = a.capacity ∙ p.capacity;
        eof = a.eof ∙ p.eof;
        ended = a.ended ∙ p.ended;
        reader = a.reader ∙ p.reader;
        flushed = a.flushed;
        grows = omega (arith, a.grows, p.grows);
        keeps = λ x inside k. a.keeps x (omega (arith, p.reader, p.capacity)) (p.keeps x k);
      }

  pub accept_nothing :
      (n end start size : ℕ) (bytes : List ℕ) (r : Reassembler)
      → Core S top small r
      → positive size ≡ false
      → end ≤ n
      → Accepted n end r (accept r n start size bytes)
  unfolding accept
  accept_nothing n end start size bytes r c none h = rw none (
      Placed-Accepted n end r r (record {
        output = c.output;
        stored = c.stored;
        capacity = refl;
        eof = refl;
        ended = refl;
        grows = omega arith;
        reader = refl;
        keeps = λ x k. elim k [ inl k ↦ k | inr p ↦ absurd (omega arith) ];
      }))
