-- ===== src/SpongeSocket/Delivered.antt =====
-- The receiver of a connection and the bytes of its stream that were written on, against the stream
-- of the peer.
use sponge.Prelude.{
  ℕ, ◌+◌, ◌^◌, ◌<◌, ◌≤◌, ◌≡◌, ◌⊎◌, refl, true, false, not, List, [], ◌++◌, Bool-cases, take, min,
  length, arith, inl, inr, sym, ap, ◌∙◌, subst, IsU32, take-take,
}
use sponge.Wrapping.{wrap}
use sponge.ByteStream
use sponge.ByteStream.Invariant.{length-peek_output}
use sponge.Reassembler.{push_substring}
use sponge.Reassembler.Bare.{push_nothing-Untouched}
use sponge.Reassembler.Stored.{Agrees, Agrees-append, Stored-le}
use sponge.Reassembler.Finish.{IsPart}
use sponge.Reassembler.History
use sponge.Reassembler.History.{IsTrace, step-IsTrace, read-IsTrace, Event}
use sponge.TcpSender.Segments.{bit_le}
use sponge.Reassembler.Finish
use sponge.TcpSegment.{TcpSegment, bit}
use sponge.TcpReceiver.{TcpReceiver, segment_received, stream_index, stream_out}
use sponge.TcpReceiver.Stream.{IsValid, IsHonest, segment_received_lem}
use sponge.TcpConnection.{set_receiver_error}

module _ (S : ℕ → ℕ) (top : ℕ) (small : top < 2 ^ 62) (short : top < 2 ^ 30) (isn : ℕ)
    (narrow : IsU32 isn) where
  -- Bytes of the peer's stream from `index` on, under its ISN.
  pub record IsPlaced (seg : TcpSegment) : Type 0 where
    pub index : ℕ
    pub part : IsPart S top small seg.payload index seg.header.fin
    pub seqno : seg.header.seqno ≡ wrap (index + bit (not seg.header.syn)) isn
    pub opens : seg.header.syn ≡ true → index ≡ 0

  -- A segment with no byte and no flag that takes a sequence number, wherever it stands.
  pub record IsBare (seg : TcpSegment) : Type 0 where
    pub payload : seg.payload ≡ []
    pub syn : seg.header.syn ≡ false
    pub fin : seg.header.fin ≡ false

  -- A segment of the peer.
  abbrev pub IsSent : TcpSegment → Type 0
  IsSent seg = IsPlaced seg ⊎ IsBare seg

  -- What was written on, and then what is buffered, are the first bytes of the peer's stream.
  pub record Delivered (r : TcpReceiver) (written : List ℕ) : Type 0 where
    pub valid : IsValid S top small isn narrow r
    pub trace : IsTrace S top small (record { state = r.reassembler; delivered = written })

  -- In a stream this short no sequence number is taken for one of another round.
  IsPlaced-IsHonest :
      (r : TcpReceiver) (seg : TcpSegment) (written : List ℕ)
      → Delivered r written
      → (sent : IsPlaced seg) → IsHonest S top small isn narrow r seg sent.index
  IsPlaced-IsHonest r seg written d sent =
      let next =
        Stored-le S top r.reassembler.next_assembled_idx r.reassembler.unassemble_strs
          d.valid.reassembler.core.stored in
      let out = d.valid.reassembler.core.output in
      record {
        part = sent.part;
        seqno = sent.seqno;
        opens = sent.opens;
        near = omega (arith, sent.part.within, out.written, bit_le (not seg.header.syn));
      }

  placed-Delivered :
      (r : TcpReceiver) (seg : TcpSegment) (written : List ℕ)
      → Delivered r written
      → IsPlaced seg
      → Delivered (segment_received r seg) written
  placed-Delivered r seg written d sent =
      let honest = IsPlaced-IsHonest r seg written d sent in
      let (valid, how) =
        segment_received_lem S top small isn narrow r seg sent.index d.valid honest in
      elim how [
        | inl (open_to, e) ↦
            let pushed =
              step-IsTrace S top small (record { state = r.reassembler; delivered = written })
                (Event.pushes seg.payload sent.index seg.header.fin) (sent.part, tt) d.trace in
            record {
              valid = valid;
              trace =
                  subst
                    (λ (x : TcpReceiver).
                      IsTrace S top small (record { state = x.reassembler; delivered = written }))
                    (sym e) (unfold History.step in pushed);
            }
        | inr (closed, e) ↦ subst (λ x. Delivered x written) (sym e) d
      ]

  -- Once the receiver is open, the bare segment is pushed at whatever index it stands for.
  bare_pushed :
      (r : TcpReceiver) (seg : TcpSegment)
      → IsBare seg
      → r.syn_flag ≡ true
      → segment_received r seg ≡ record r {
        reassembler = push_substring r.reassembler [] (stream_index r seg.header) false;
      }
  unfolding segment_received
  bare_pushed r seg bare open_to = rw (open_to, bare.payload, bare.fin) refl

  bare-Delivered :
      (r : TcpReceiver) (seg : TcpSegment) (written : List ℕ)
      → Delivered r written
      → IsBare seg
      → Delivered (segment_received r seg) written
  bare-Delivered r seg written d bare =
      let index = stream_index r seg.header in
      elim (Bool-cases r.syn_flag) [
        | inr closed ↦
            let same : segment_received r seg ≡ r =
              unfold segment_received in rw (closed, bare.syn) refl in
            subst (λ x. Delivered x written) (sym same) d
        | inl open_to ↦
            let u =
              push_nothing-Untouched S top small r.reassembler index d.valid.reassembler
                (omega arith) in
            subst (λ x. Delivered x written) (sym (bare_pushed r seg bare open_to))
              (record {
                valid = record {
                  reassembler = u.valid;
                  room = d.valid.room ∙ sym u.capacity;
                  started = d.valid.started;
                };
                trace = record {
                  valid = u.valid;
                  count = d.trace.count ∙ sym u.reader;
                  order = d.trace.order;
                };
              })
      ]

  pub segment_received-Delivered :
      (r : TcpReceiver) (seg : TcpSegment) (written : List ℕ)
      → Delivered r written
      → IsSent seg
      → Delivered (segment_received r seg) written
  segment_received-Delivered r seg written d (inl placed) = placed-Delivered r seg written d placed
  segment_received-Delivered r seg written d (inr bare) = bare-Delivered r seg written d bare

  pub set_receiver_error-Delivered :
      (r : TcpReceiver) (written : List ℕ)
      → Delivered r written
      → Delivered (set_receiver_error r) written
  unfolding ByteStream.set_error
  set_receiver_error-Delivered r written d =
      let v = d.valid.reassembler in
      let reset = set_receiver_error r in
      let failed : Finish.IsValid S top small reset.reassembler = record {
        core = record {
          output = record {
            small = v.core.output.small;
            room = v.core.output.room;
            bounded = v.core.output.bounded;
            position = v.core.output.position;
            written = v.core.output.written;
            bytes = v.core.output.bytes;
          };
          stored = v.core.stored;
        };
        eof = v.eof;
        ended = v.ended;
        ends = v.ends;
      } in
      record {
        valid = record { reassembler = failed; room = d.valid.room; started = d.valid.started };
        trace = record { valid = failed; count = d.trace.count; order = d.trace.order };
      }

  pub pop-Delivered :
      (r : TcpReceiver) (written : List ℕ) (len n : ℕ)
      → Delivered r written
      → n ≤ length (ByteStream.peek_output (stream_out r) len)
      → Delivered
          (record r {
            reassembler = record (r.reassembler) {
              output = ByteStream.pop_output (stream_out r) n;
            };
          })
          (written ++ take n (ByteStream.peek_output (stream_out r) len))
  pop-Delivered r written len n d within =
      let s = stream_out r in
      let k = min len (length s.buffer) in
      let most : n ≤ k = omega (arith, length-peek_output s len) in
      let all : min n (length s.buffer) ≡ n = omega arith in
      let same : ByteStream.peek_output s n ≡ take n (ByteStream.peek_output s len) =
        unfold ByteStream.peek_output in
        ap (λ m. take m s.buffer) all ∙ sym (take-take n k s.buffer most) in
      let trace : IsTrace S top small (record {
        state = record (r.reassembler) { output = ByteStream.pop_output s n };
        delivered = written ++ ByteStream.peek_output s n;
      }) =
        unfold History.step ByteStream.read in
        read-IsTrace S top small (record { state = r.reassembler; delivered = written }) n
          d.trace in
      record {
        valid = record {
          reassembler = trace.valid;
          room = d.valid.room;
          started = d.valid.started;
        };
        trace =
            subst
              (λ x. IsTrace S top small (record {
                state = record (r.reassembler) { output = ByteStream.pop_output s n };
                delivered = written ++ x;
              }))
              same trace;
      }

  pub Delivered-prefix :
      (r : TcpReceiver) (written : List ℕ)
      → Delivered r written
      → Agrees S 0 (written ++ (stream_out r).buffer)
  Delivered-prefix r written d =
      let out = d.valid.reassembler.core.output in
      Agrees-append S 0 (stream_out r).bytes_read written (stream_out r).buffer
        (omega (arith, d.trace.count)) d.trace.order out.bytes
