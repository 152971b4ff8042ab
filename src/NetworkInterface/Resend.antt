-- ===== src/NetworkInterface/Resend.antt =====
-- The loop of `tick` in libsponge/network_interface.cc over the addresses that are asked for.
use sponge.Prelude.{
  ℕ, zero, suc, ◌+◌, ◌*◌, ◌^◌, ◌≤◌, ◌<◌, ◌≡◌, refl, true, false, none, some, List, [], ◌∷◌, ◌++◌,
  append-nil, append_assoc, length, leb, if◌then◌else◌, arith, add64, le→leb, lt→leb, Bool-cases,
  inl, inr, ap, ◌∙◌,
}
use sponge.Ethernet.{EthernetFrame}
use sponge.NetworkInterface.{
  NetworkInterface, ArpEntry, arp_cleanup_interval_ms, request_frame, push_frame, resend, tick,
  expire_entries,
}

-- No request has waited for 5 seconds.
abbrev pub AllFresh : List (ℕ × ℕ) → Type 0
AllFresh [] = Unit {0}
AllFresh ((ip, since) ∷ waiting) = (since < arp_cleanup_interval_ms) × AllFresh waiting

-- The time since a request, `ms` later. One that is sent again has the whole of `ms` behind it.
abbrev pub aged : ℕ → ℕ → ℕ
aged ms since = if leb arp_cleanup_interval_ms (since + ms) then ms else since + ms

abbrev pub aged_all : ℕ → List (ℕ × ℕ) → List (ℕ × ℕ)
aged_all ms [] = []
aged_all ms ((ip, since) ∷ waiting) = (ip, aged ms since) ∷ aged_all ms waiting

-- A request for each address that has waited for 5 seconds, `ms` later.
abbrev pub due_requests : NetworkInterface → ℕ → List (ℕ × ℕ) → List EthernetFrame
due_requests n ms [] = []
due_requests n ms ((ip, since) ∷ waiting) =
    if leb arp_cleanup_interval_ms (since + ms)
    then request_frame n ip ∷ due_requests n ms waiting
    else due_requests n ms waiting

abbrev pub resent : ℕ → List (ℕ × ℕ) → List (ℕ × ℕ) → NetworkInterface → NetworkInterface
resent ms passed rest n = record n {
  waiting_arp_response = passed ++ aged_all ms rest;
  frames_out = n.frames_out ++ due_requests n ms rest;
}

add64_small :
    (a b : ℕ) → a < arp_cleanup_interval_ms → b < arp_cleanup_interval_ms → add64 a b ≡ a + b
add64_small a b p q = omega arith

resend-pass :
    (fuel ms : ℕ) (passed rest : List (ℕ × ℕ)) (ip since : ℕ) (n : NetworkInterface)
    → ms < arp_cleanup_interval_ms
    → since < arp_cleanup_interval_ms
    → leb arp_cleanup_interval_ms (since + ms) ≡ false
    → resend (suc fuel) ms passed ((ip, since) ∷ rest) n
      ≡ resend fuel ms (passed ++ ((ip, since + ms) ∷ [])) rest n
unfolding resend
resend-pass fuel ms passed rest ip since n p q h =
    let small = add64_small since ms q p in
    let h' : leb arp_cleanup_interval_ms (add64 since ms) ≡ false = rw small h in
    let once : resend (suc fuel) ms passed ((ip, since) ∷ rest) n
        ≡ resend fuel ms (passed ++ ((ip, add64 since ms) ∷ [])) rest n =
      rw (resend, h') refl in
    once ∙ ap (λ t. resend fuel ms (passed ++ ((ip, t) ∷ [])) rest n) small

resend-again :
    (fuel ms : ℕ) (passed rest : List (ℕ × ℕ)) (ip since : ℕ) (n : NetworkInterface)
    → ms < arp_cleanup_interval_ms
    → since < arp_cleanup_interval_ms
    → leb arp_cleanup_interval_ms (since + ms) ≡ true
    → resend (suc (suc fuel)) ms passed ((ip, since) ∷ rest) n
      ≡ resend fuel ms (passed ++ ((ip, 0 + ms) ∷ [])) rest (push_frame n (request_frame n ip))
unfolding resend
resend-again fuel ms passed rest ip since n p q h =
    let h' : leb arp_cleanup_interval_ms (add64 since ms) ≡ true =
      rw (add64_small since ms q p) h in
    let n' = push_frame n (request_frame n ip) in
    let once : resend (suc (suc fuel)) ms passed ((ip, since) ∷ rest) n
        ≡ resend (suc fuel) ms passed ((ip, 0) ∷ rest) n' =
      rw (resend, h') refl in
    once
    ∙ resend-pass fuel ms passed rest ip 0 n' p (omega arith)
        (lt→leb arp_cleanup_interval_ms (0 + ms) (omega arith))

-- The requests are those of an interface with the same addresses.
due_requests_lem :
    (n : NetworkInterface) (table : List (ℕ × ArpEntry)) (frames : List EthernetFrame) (ms : ℕ)
    (waiting : List (ℕ × ℕ))
    → due_requests (record n { arp_table = table; frames_out = frames }) ms waiting
      ≡ due_requests n ms waiting
due_requests_lem n table frames ms [] = refl
due_requests_lem n table frames ms ((ip, since) ∷ waiting) =
    rw (due_requests_lem n table frames ms waiting) refl

resent-again :
    (ms : ℕ) (passed rest : List (ℕ × ℕ)) (ip since : ℕ) (n : NetworkInterface)
    → leb arp_cleanup_interval_ms (since + ms) ≡ true
    → resent ms (passed ++ ((ip, 0 + ms) ∷ [])) rest (push_frame n (request_frame n ip))
      ≡ resent ms passed ((ip, since) ∷ rest) n
resent-again ms passed rest ip since n h =
    let zero_ms : 0 + ms ≡ ms = omega arith in
    rw
      (
        h,
        zero_ms,
        due_requests_lem n (n.arp_table) (n.frames_out ++ (request_frame n ip ∷ [])) ms rest,
        append_assoc passed ((ip, ms) ∷ []) (aged_all ms rest),
        append_assoc (n.frames_out) (request_frame n ip ∷ []) (due_requests n ms rest),
      )
      refl

resent-pass :
    (ms : ℕ) (passed rest : List (ℕ × ℕ)) (ip since : ℕ) (n : NetworkInterface)
    → leb arp_cleanup_interval_ms (since + ms) ≡ false
    → resent ms (passed ++ ((ip, since + ms) ∷ [])) rest n ≡ resent ms passed ((ip, since) ∷ rest) n
resent-pass ms passed rest ip since n h =
    rw (h, append_assoc passed ((ip, since + ms) ∷ []) (aged_all ms rest)) refl

pub resend_lem :
    (fuel ms : ℕ) (passed rest : List (ℕ × ℕ)) (n : NetworkInterface)
    → ms < arp_cleanup_interval_ms
    → AllFresh rest
    → 2 * length rest ≤ fuel
    → resend fuel ms passed rest n ≡ some (resent ms passed rest n)
unfolding resend
resend_lem fuel ms passed [] n p fresh enough =
    rw (append-nil passed, append-nil (n.frames_out)) refl
resend_lem (suc (suc fuel)) ms passed ((ip, since) ∷ rest) n p fresh enough =
    let n' = push_frame n (request_frame n ip) in
    elim (Bool-cases (leb arp_cleanup_interval_ms (since + ms))) [
      | inl h ↦
          resend-again fuel ms passed rest ip since n p (fresh.0) h
          ∙ resend_lem fuel ms (passed ++ ((ip, 0 + ms) ∷ [])) rest n' p (fresh.1) (omega arith)
          ∙ ap some (resent-again ms passed rest ip since n h)
      | inr h ↦
          resend-pass (suc fuel) ms passed rest ip since n p (fresh.0) h
          ∙ resend_lem (suc fuel) ms (passed ++ ((ip, since + ms) ∷ [])) rest n p (fresh.1)
              (omega arith)
          ∙ ap some (resent-pass ms passed rest ip since n h)
    ]
resend_lem _ ms passed ((ip, since) ∷ rest) n p fresh enough = absurd (omega arith)

-- With fewer than 5000 ms since the last tick, no request older than 5 seconds, and fuel for two
-- looks at each, tick ends: it ages the table and the requests, and queues one new request for each
-- address that has waited for 5 seconds, in order; such a request starts again with the whole of
-- the time since the last tick behind it.
pub tick_lem :
    (fuel ms : ℕ) (n : NetworkInterface)
    → ms < arp_cleanup_interval_ms
    → AllFresh (n.waiting_arp_response)
    → 2 * length (n.waiting_arp_response) ≤ fuel
    → tick fuel n ms
      ≡ some (record n {
        arp_table = expire_entries ms n.arp_table;
        waiting_arp_response = aged_all ms n.waiting_arp_response;
        frames_out = n.frames_out ++ due_requests n ms n.waiting_arp_response;
      })
unfolding tick
tick_lem fuel ms n p fresh enough =
    resend_lem fuel ms [] (n.waiting_arp_response)
      (record n { arp_table = expire_entries ms n.arp_table }) p fresh enough
    ∙ rw
        (due_requests_lem n (expire_entries ms n.arp_table) (n.frames_out) ms
          (n.waiting_arp_response))
        refl

-- Once a request is due for a tick of 5 seconds or more, it is due again at once.
pub resend-stuck :
    (fuel ms ip since : ℕ) (passed rest : List (ℕ × ℕ)) (n : NetworkInterface)
    → arp_cleanup_interval_ms ≤ ms
    → since + ms < 2 ^ 64
    → resend fuel ms passed ((ip, since) ∷ rest) n ≡ none
unfolding resend
resend-stuck zero ms ip since passed rest n p q = refl
resend-stuck (suc fuel) ms ip since passed rest n p q =
    let due : leb arp_cleanup_interval_ms (add64 since ms) ≡ true =
      le→leb arp_cleanup_interval_ms (add64 since ms) (omega arith) in
    rw (resend, due)
      (resend-stuck fuel ms ip 0 passed rest (push_frame n (request_frame n ip)) p (omega arith))

-- With 5000 ms or more since the last tick and a request that waits, tick never ends: no fuel is
-- enough, as long as the first timer does not overflow.
pub tick-stuck :
    (fuel ms ip since : ℕ) (rest : List (ℕ × ℕ)) (n : NetworkInterface)
    → n.waiting_arp_response ≡ (ip, since) ∷ rest
    → arp_cleanup_interval_ms ≤ ms
    → since + ms < 2 ^ 64
    → tick fuel n ms ≡ none
unfolding tick
tick-stuck fuel ms ip since rest n asked p q = rw asked (
    resend-stuck fuel ms ip since [] rest
      (record n {
        arp_table = expire_entries ms n.arp_table;
        waiting_arp_response = (ip, since) ∷ rest;
      })
      p q)
