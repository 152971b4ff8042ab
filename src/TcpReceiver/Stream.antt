-- ===== src/TcpReceiver/Stream.antt =====
-- libsponge/tcp_receiver.cc against the peer's stream: a segment's payload goes to its place in the
-- stream, and the acknowledgment and window say how far the stream has come.
use sponge.Prelude.{
  ℕ, ◌+◌, ◌^◌, ◌<◌, ◌≡◌, refl, false, true, not, some, arith, Bool-cases, ◌⊎◌, inl, inr, add64,
  IsU32, sym, ◌∙◌, if◌then◌else◌,
}
use sponge.Wrapping.{wrap}
use sponge.Wrapping.Closest.{dist, unwrap-wrap}
use mathlib.Core.Bool.{false≢true}
use sponge.Reassembler
use sponge.Reassembler.{Reassembler, push_substring}
use sponge.Reassembler.Stored.{Stored-le}
use sponge.Reassembler.Finish
use sponge.Reassembler.Finish.{IsPart}
use sponge.Reassembler.Push.{push-Pushed}
use sponge.Reassembler.History
use sponge.TcpSegment.{TcpSegment, bit}
use sponge.TcpReceiver.{
  TcpReceiver, init, segment_received, stream_index, stream_out, ackno, window_size,
}

module _ (S : ℕ → ℕ) (top : ℕ) (small : top < 2 ^ 62) (isn : ℕ) (narrow : IsU32 isn) where
  pub record IsValid (r : TcpReceiver) : Type 0 where
    pub reassembler : Finish.IsValid S top small r.reassembler
    pub room : r.capacity ≡ r.reassembler.capacity
    pub started : r.syn_flag ≡ true → r.isn ≡ isn

  -- A segment that carries bytes of the peer's stream from `index` on, under the peer's ISN and within
  -- half the sequence space of what was written.
  pub record IsHonest (r : TcpReceiver) (seg : TcpSegment) (index : ℕ) : Type 0 where
    pub part : IsPart S top small seg.payload index seg.header.fin
    pub seqno : seg.header.seqno ≡ wrap (index + bit (not seg.header.syn)) isn
    pub opens : seg.header.syn ≡ true → index ≡ 0
    pub near : dist (index + bit (not seg.header.syn)) (stream_out r).bytes_written < 2 ^ 31

  pub init-IsValid : (capacity : ℕ) → capacity < 2 ^ 62 → IsValid (init capacity)
  unfolding init Reassembler.init
  init-IsValid capacity h = record {
    reassembler = History.init-IsValid S top small capacity h;
    room = refl;
    started = λ e. cc;
  }

  index_is :
      (r : TcpReceiver) (seg : TcpSegment) (index : ℕ)
      → IsValid r
      → IsHonest r seg index
      → r.isn ≡ isn
      → stream_index r seg.header ≡ index
  index_is r seg index v h e =
      let next = Stored-le S top _ _ v.reassembler.core.stored in
      let written = v.reassembler.core.output.written in
      let near =
        unwrap-wrap (index + bit (not seg.header.syn)) isn (stream_out r).bytes_written narrow
          (omega arith) h.near in
      rw (e, h.seqno, near) (ground (arith, h.part.within))

  -- Where the receiver stands for a segment: it has seen the SYN, or the segment brings it.
  abbrev pub IsOpen : TcpReceiver → TcpSegment → Type 0
  IsOpen r seg = (r.syn_flag ≡ true) ⊎ (seg.header.syn ≡ true)

  push_at :
      (r : TcpReceiver) (seg : TcpSegment) (index : ℕ)
      → IsValid r
      → IsHonest r seg index
      → IsValid (record r {
        isn = isn;
        syn_flag = true;
        reassembler = push_substring r.reassembler seg.payload index seg.header.fin;
      })
  push_at r seg index v h =
      let pushed =
        push-Pushed S top small r.reassembler seg.payload index seg.header.fin v.reassembler
          h.part in
      record {
        reassembler = pushed.valid';
        room = v.room ∙ sym pushed.capacity;
        started = λ e. refl;
      }

  -- The SYN of the peer carries its ISN.
  syn_isn :
      (r : TcpReceiver) (seg : TcpSegment) (index : ℕ)
      → IsHonest r seg index
      → seg.header.syn ≡ true
      → seg.header.seqno ≡ isn
  unfolding wrap
  syn_isn r seg index h e = h.seqno ∙ rw (e, h.opens e) (omega arith)

  opened :
      (r : TcpReceiver) (seg : TcpSegment) (index : ℕ)
      → IsValid r
      → IsHonest r seg index
      → IsOpen r seg
      → segment_received r seg ≡ record r {
        isn = isn;
        syn_flag = true;
        reassembler = push_substring r.reassembler seg.payload index seg.header.fin;
      }
  unfolding segment_received
  opened r seg index v h open_to =
      let fresh = record r { isn = isn; syn_flag = true } in
      let at_fresh : stream_index fresh seg.header ≡ index =
        index_is fresh seg index
          (record { reassembler = v.reassembler; room = v.room; started = λ e. refl })
          (record { part = h.part; seqno = h.seqno; opens = h.opens; near = h.near }) refl in
      elim (Bool-cases r.syn_flag) [
        | inl e ↦ ground (arith, v.started e, at_fresh)
        | inr e ↦ elim open_to [
          | inl e' ↦ absurd (false≢true (sym e ∙ e'))
          | inr e' ↦ ground (arith, syn_isn r seg index h e', at_fresh)
        ]
      ]

  -- A closed receiver ignores the segment.
  IsOpen-cases :
      (r : TcpReceiver) (seg : TcpSegment)
      → IsOpen r seg ⊎ (¬ IsOpen r seg × (segment_received r seg ≡ r))
  unfolding segment_received
  IsOpen-cases r seg = elim (Bool-cases r.syn_flag) [
    | inl e ↦ inl (inl e)
    | inr e ↦ elim (Bool-cases seg.header.syn) [
      | inl e' ↦ inl (inr e')
      | inr e' ↦ inr (
        (λ o. elim o [ inl q ↦ false≢true (sym e ∙ q) | inr q ↦ false≢true (sym e' ∙ q) ]),
        rw (e, e') refl,
      )
    ]
  ]

  -- A segment from the peer that the receiver is open to goes to its place in the stream: the payload
  -- is pushed at the index that it has there, with the FIN as its end, under the peer's ISN. Before
  -- the SYN every other segment is ignored. The receiver stays valid.
  pub segment_received_lem :
      (r : TcpReceiver) (seg : TcpSegment) (index : ℕ)
      → IsValid r
      → IsHonest r seg index
      → let r' = segment_received r seg in
        IsValid r'
        × ((IsOpen r seg
              × (r' ≡ record r {
                isn = isn;
                syn_flag = true;
                reassembler = push_substring r.reassembler seg.payload index seg.header.fin;
              }))
            ⊎ (¬ IsOpen r seg × (r' ≡ r)))
  segment_received_lem r seg index v h = elim (IsOpen-cases r seg) [
    | inl o ↦ let e = opened r seg index v h o in (rw e (push_at r seg index v h), inl (o, e))
    | inr (o, e) ↦ (rw e v, inr (o, e))
  ]

  -- The acknowledgment stands for the bytes assembled, the SYN, and the FIN once it has come; it and
  -- the window end together where the reassembler stops to accept.
  pub ackno_window :
      (r : TcpReceiver)
      → IsValid r
      → r.syn_flag ≡ true
      → let next = r.reassembler.next_assembled_idx in
        (ackno r ≡ some (wrap (1 + next + bit (stream_out r).input_ended) isn))
        × (window_size r + next ≡ Reassembler.first_unacceptable_idx r.reassembler)
        × (((stream_out r).input_ended ≡ false) ⊎ (next ≡ top))
  unfolding ackno window_size
  ackno_window r v e =
      let next = Stored-le S top _ _ v.reassembler.core.stored in
      let out = v.reassembler.core.output in
      let sum : (if (stream_out r).input_ended
            then add64 (add64 (stream_out r).bytes_written 1) 1
            else add64 (stream_out r).bytes_written 1)
          ≡ 1 + r.reassembler.next_assembled_idx + bit (stream_out r).input_ended =
        ground (arith, out.written) in
      (
        rw (e, v.started e, sum),
        omega (arith, v.room, out.bounded, out.small, out.position),
        elim (Bool-cases (stream_out r).input_ended) [
          | inl h ↦ inr (v.reassembler.ended h).1
          | inr h ↦ inl h
        ],
      )
