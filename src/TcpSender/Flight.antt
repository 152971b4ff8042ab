-- ===== src/TcpSender/Flight.antt =====
-- What is in flight in libsponge/tcp_sender.cc: `_outgoing_map` holds the sent sequence numbers from
-- the oldest unacknowledged one up to `_next_seqno`, with no gap.
use sponge.Prelude.{
  ℕ, ◌+◌, ◌^◌, ◌≤◌, ◌<◌, ◌≡◌, refl, List, [], ◌∷◌, arith, Bool-cases, tests, ◌⊎◌, inl, inr, leb,
  add64, sub64,
}
use sponge.Prelude.Maps.{insert}
use sponge.Wrapping.{wrap}
use sponge.TcpSegment.{TcpSegment, length_in_sequence_space}
use sponge.TcpSender.{TcpSender, drop_acked}

abbrev pub Flights : Type 0
Flights = List (ℕ × TcpSegment)

-- Segments from `lo` up to `hi`, each filed under its own absolute sequence number.
abbrev pub Chain : ℕ → ℕ → ℕ → Flights → Type 0
Chain isn lo hi [] = lo ≡ hi
Chain isn lo hi ((k, seg) ∷ m) =
    (k ≡ lo)
    × (0 < length_in_sequence_space seg)
    × (seg.header.seqno ≡ wrap k isn)
    × Chain isn (lo + length_in_sequence_space seg) hi m

pub Chain-le : (isn lo hi : ℕ) (m : Flights) → Chain isn lo hi m → lo ≤ hi
Chain-le isn lo hi [] c = omega arith
Chain-le isn lo hi ((k, seg) ∷ m) c =
    omega (arith, Chain-le isn (lo + length_in_sequence_space seg) hi m c.3)

insert_above :
    (n i : ℕ) (v w : TcpSegment) (m : Flights)
    → i < n
    → insert n v ((i, w) ∷ m) ≡ (i, w) ∷ insert n v m
unfolding insert
insert_above n i v w m h = ground arith

pub insert-Chain :
    (isn lo hi : ℕ) (seg : TcpSegment) (m : Flights)
    → Chain isn lo hi m
    → 0 < length_in_sequence_space seg
    → seg.header.seqno ≡ wrap hi isn
    → Chain isn lo (hi + length_in_sequence_space seg) (insert hi seg m)
unfolding insert
insert-Chain isn lo hi seg [] c p q = (omega arith, p, q, omega arith)
insert-Chain isn lo hi seg ((k, s) ∷ m) c p q =
    let below = Chain-le isn (lo + length_in_sequence_space s) hi m c.3 in
    let rest = insert-Chain isn (lo + length_in_sequence_space s) hi seg m c.3 p q in
    rw (insert_above hi k seg s m (omega arith)) (c.0, c.1, c.2, rest)

-- Every segment still filed ends above `abs`.
abbrev pub Unacked : ℕ → Flights → Type 0
Unacked abs [] = Unit {0}
Unacked abs ((k, seg) ∷ m) = (abs < k + length_in_sequence_space seg) × Unacked abs m

-- What the acknowledgment of `abs` does to the segments from `lo` on: it drops the oldest ones.
pub record Dropped (abs isn lo hi : ℕ) (s s' : TcpSender) : Type 0 where
  pub low : ℕ
  pub grows : lo ≤ low
  pub flight : s'.outgoing_bytes + low ≡ s.outgoing_bytes + lo
  pub chain : Chain isn low hi s'.outgoing_map
  pub unacked : Unacked abs s'.outgoing_map
  pub acked : (low ≤ abs) ⊎ (low ≡ lo)

pub Chain-Unacked : (abs isn lo hi : ℕ) (m : Flights) → abs < lo → Chain isn lo hi m → Unacked abs m
Chain-Unacked abs isn lo hi [] h c = tt
Chain-Unacked abs isn lo hi ((k, seg) ∷ m) h c =
    (omega arith, Chain-Unacked abs isn (lo + length_in_sequence_space seg) hi m (omega arith) c.3)

abbrev retired : ℕ → TcpSender → TcpSender
retired size s = record s {
  outgoing_bytes = sub64 s.outgoing_bytes size;
  timeout = s.initial_retransmission_timeout;
  timecount = 0;
}

pub drop_acked-Dropped :
    (abs isn lo hi : ℕ) (m : Flights) (s : TcpSender)
    → hi < 2 ^ 63
    → s.outgoing_bytes + lo ≡ hi
    → Chain isn lo hi m
    → Dropped abs isn lo hi s (drop_acked abs m s)
unfolding drop_acked
drop_acked-Dropped abs isn lo hi [] s small b c = record {
  low = lo;
  grows = omega arith;
  flight = refl;
  chain = c;
  unacked = tt;
  acked = inr refl;
}
drop_acked-Dropped abs isn lo hi ((k, seg) ∷ m) s small b c =
    let size = length_in_sequence_space seg in
    let below = Chain-le isn (lo + size) hi m c.3 in
    elim (Bool-cases (leb (add64 k size) abs)) [
      | inl e ↦
          let r =
            drop_acked-Dropped abs isn (lo + size) hi m (retired size s) small (omega arith) c.3 in
          rw e (record {
            low = r.low;
            grows = omega (arith, r.grows);
            flight = omega (arith, r.flight);
            chain = r.chain;
            unacked = r.unacked;
            acked = elim r.acked [ inl a ↦ inl a | inr a ↦ inl (omega tests) ];
          })
      | inr e ↦ rw e (record {
        low = lo;
        grows = omega arith;
        flight = refl;
        chain = c;
        unacked = (omega tests, Chain-Unacked abs isn (lo + size) hi m (omega tests) c.3);
        acked = inr refl;
      })
    ]
