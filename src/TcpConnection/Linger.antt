-- ===== src/TcpConnection/Linger.antt =====
-- How `tick` of libsponge/tcp_connection.cc ends a connection that lingers.
use sponge.Prelude.{
  ℕ, ◌*◌, ◌≤◌, ◌≡◌, refl, Bool, true, false, ◌&&◌, Bool-cases, ◌⊎◌, inl, inr, leb, add64, sym, ◌∙◌,
  if◌then◌else◌, if_true, if_false, and_true, le→ltb, leb→le, le→leb,
}
use mathlib.Core.Bool.{false≢true}
use sponge.TcpSender
use sponge.TcpState.{State, ReceiverSummary, SenderSummary, of_state}
use sponge.TcpConnection.{
  TcpConnection, max_retx_attempts, state, stands, tick, flush_segments_with_ack,
}
use sponge.TcpConnection.Reset.{stands-closed}

-- Both streams are through, the connection lingers, and ten timeouts have passed since the last
-- segment.
abbrev pub IsExpired : TcpConnection → Type 0
IsExpired c =
    (stands c ReceiverSummary.fin_recv SenderSummary.fin_acked ≡ true)
    × (c.linger_after_streams_finish ≡ true)
    × (10 * c.cfg.rt_timeout ≤ c.time_since_last_segment_received_ms)

-- The connection once the tick has reached the sender and the clock.
abbrev pub after_tick : TcpConnection → ℕ → TcpConnection
after_tick c ms =
    let flushed = flush_segments_with_ack (record c { sender = TcpSender.tick c.sender ms }) in
    record flushed {
      time_since_last_segment_received_ms = add64 flushed.time_since_last_segment_received_ms ms;
    }

abbrev pub expired : TcpConnection → Bool
expired c =
    stands c ReceiverSummary.fin_recv SenderSummary.fin_acked
    && c.linger_after_streams_finish
    && leb (10 * c.cfg.rt_timeout) c.time_since_last_segment_received_ms

abbrev pub ended : TcpConnection → TcpConnection
ended c = record c { is_active = false; linger_after_streams_finish = false }

pub tick_within :
    (c : TcpConnection) (ms : ℕ)
    → TcpSender.consecutive_retransmissions (TcpSender.tick c.sender ms) ≤ max_retx_attempts
    → let later = after_tick c ms in tick c ms ≡ (if expired later then ended later else later)
unfolding tick
tick_within c ms h = if_false _ _ _ (le→ltb _ _ h)

three_true : (a b c : Bool) → a ≡ true → b ≡ true → c ≡ true → (a && b && c) ≡ true
three_true a b c p q r = rw (p, q, r) refl

expired_test :
    (c : TcpConnection) → (IsExpired c × (expired c ≡ true)) ⊎ (¬ IsExpired c × (expired c ≡ false))
expired_test c = elim (Bool-cases (expired c)) [
  | inl e ↦
      let p = and_true _ _ e in let q = and_true _ _ p.0 in inl ((q.0, q.1, leb→le _ _ p.1), e)
  | inr e ↦ inr ((λ x. false≢true (sym e ∙ three_true _ _ _ x.0 x.1 (le→leb _ _ x.2))), e)
]

-- A tick within the limit of retransmissions that finds the time of the lingering over leaves the
-- state CLOSED; any other one leaves the connection as active as it was, and still to linger if it
-- was.
pub tick_linger :
    (c : TcpConnection) (ms : ℕ)
    → TcpSender.consecutive_retransmissions (TcpSender.tick c.sender ms) ≤ max_retx_attempts
    → let later = after_tick c ms in
      let c' = tick c ms in
      (IsExpired later × (state c' ≡ of_state State.closed))
      ⊎ (¬ IsExpired later
          × (c'.is_active ≡ c.is_active)
          × (c'.linger_after_streams_finish ≡ c.linger_after_streams_finish)
          × (c'.time_since_last_segment_received_ms
              ≡ add64 c.time_since_last_segment_received_ms ms))
tick_linger c ms h =
    let later = after_tick c ms in
    rw (tick_within c ms h) (elim (expired_test later) [
      | inl (x, e) ↦
          inl (x, rw (if_true _ (ended later) later e) (stands-closed (ended later) x.0 refl))
      | inr (x, e) ↦ inr (
          rw (if_false _ (ended later) later e) (
            x,
            unfold flush_segments_with_ack in refl,
            unfold flush_segments_with_ack in refl,
            unfold flush_segments_with_ack in refl,
          ))
    ])
