-- ===== src/TcpSender/Timer.antt =====
-- The retransmission timer of libsponge/tcp_sender.cc, and the first segment of a sender whose stream
-- has ended before it starts.
use sponge.Prelude.{
  ℕ, zero, suc, ◌+◌, ◌*◌, ◌^◌, ◌≤◌, ◌<◌, ◌≡◌, ◌≢◌, refl, List, [], ◌∷◌, ◌++◌, replicate,
  append_assoc, append-nil, arith, sym, ◌∙◌, ap,
}
use native.Mathlib.Nat.{pow-suc}
use sponge.ByteStream
use sponge.TcpSegment.{TcpSegment}
use sponge.TcpSender.{
  TcpSender, init, tick, fill_window, current_window, bytes_in_flight, fill_loop, make_segment,
  send,
}

pow_two : (n : ℕ) → 2 ^ suc n ≡ 2 * 2 ^ n
pow_two n = omega (arith, pow-suc 2 n)

pub pow_two_pos : (n : ℕ) → 0 < 2 ^ n
pow_two_pos zero = omega arith
pow_two_pos (suc n) = omega (arith, pow_two n, pow_two_pos n)

-- `n` times over, the timer runs out.
unfoldable pub expire : ℕ → TcpSender → TcpSender
expire zero s = s
expire (suc n) s = expire n (tick s s.timeout)

-- What one expiry does.
pub record Expired (seg : TcpSegment) (s t : TcpSender) : Type 0 where
  pub timecount : t.timecount ≡ 0
  pub timeout : t.timeout ≡ 2 * s.timeout
  pub queue : t.segments_out ≡ s.segments_out ++ seg ∷ []
  pub count : t.consecutive_retransmissions_count ≡ s.consecutive_retransmissions_count + 1
  pub flight : t.outgoing_map ≡ s.outgoing_map
  pub window : t.last_window_size ≡ s.last_window_size

pub tick-Expired :
    (s : TcpSender) (k : ℕ) (seg : TcpSegment) (m : List (ℕ × TcpSegment))
    → s.outgoing_map ≡ (k, seg) ∷ m
    → s.timecount ≡ 0
    → s.last_window_size ≢ 0
    → 2 * s.timeout < 2 ^ 31
    → s.consecutive_retransmissions_count < 2 ^ 63
    → Expired seg s (tick s s.timeout)
unfolding tick
tick-Expired s k seg m e z w t c = ground arith

-- While the peer advertises a window and acknowledges nothing, each expiry queues the oldest segment
-- again and doubles the timeout: after `n` of them the timeout is 2 ^ n times what it was, and `n`
-- copies of that segment were queued and counted.
pub expire_backoff :
    (n : ℕ) (s : TcpSender) (k : ℕ) (seg : TcpSegment) (m : List (ℕ × TcpSegment))
    → s.outgoing_map ≡ (k, seg) ∷ m
    → s.timecount ≡ 0
    → s.last_window_size ≢ 0
    → 2 ^ n * s.timeout < 2 ^ 31
    → s.consecutive_retransmissions_count + n < 2 ^ 63
    → let t = expire n s in
      (t.timeout ≡ 2 ^ n * s.timeout)
      × (t.segments_out ≡ s.segments_out ++ replicate n seg)
      × (t.consecutive_retransmissions_count ≡ s.consecutive_retransmissions_count + n)
      × (t.outgoing_map ≡ s.outgoing_map)
unfolding expire
expire_backoff zero s k seg m e z w t c = (omega arith, sym (append-nil _), omega arith, refl)
expire_backoff (suc n) s k seg m e z w t c =
    let twice : 2 ^ suc n * s.timeout ≡ 2 ^ n * (2 * s.timeout) =
      omega (arith, ap (λ (x : ℕ). x * s.timeout) (pow_two n)) in
    let least : 2 * s.timeout ≤ 2 ^ n * (2 * s.timeout) = grind (arith, pow_two_pos n) in
    let x = tick-Expired s k seg m e z w (omega arith) (omega arith) in
    let s' = tick s s.timeout in
    let doubled : 2 ^ n * s'.timeout ≡ 2 ^ suc n * s.timeout =
      ap (λ (y : ℕ). 2 ^ n * y) x.timeout ∙ sym twice in
    let rest =
      expire_backoff n s' k seg m (x.flight ∙ e) x.timecount (rw x.window w) (omega arith)
        (omega (arith, x.count)) in
    (
      rest.0 ∙ doubled,
      rest.1
          ∙ ap (λ q. q ++ replicate n seg) x.queue
          ∙ append_assoc s.segments_out (seg ∷ []) (replicate n seg),
      omega (arith, rest.2, x.count),
      rest.3 ∙ x.flight,
    )

-- A sender whose stream ends with no byte written puts SYN and FIN in one segment: two sequence
-- numbers are in flight where the window is one.
pub fill_window_over :
    (capacity retx_timeout isn : ℕ)
    → let s = init capacity retx_timeout isn in
      let ended = record s { stream = ByteStream.end_input s.stream } in
      (current_window ended ≡ 1) × (bytes_in_flight (fill_window ended) ≡ 2)
unfolding init ByteStream.init ByteStream.end_input fill_window fill_loop make_segment send
    ByteStream.read ByteStream.peek_output ByteStream.pop_output
fill_window_over capacity retx_timeout isn = (refl, refl)
