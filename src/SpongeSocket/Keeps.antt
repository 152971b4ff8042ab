-- ===== src/SpongeSocket/Keeps.antt =====
-- What holds of a TCPSpongeSocket in every round of _tcp_loop
-- (libsponge/tcp_helpers/tcp_sponge_socket.cc).
use mathlib.Core.Option.{some-injective}
use sponge.Prelude.{
  ℕ, ◌≡◌, Bool, ◌||◌, some, List, [], ◌∷◌, inl, inr, subst, bind-some, Bool-cases, sub64,
}
use sponge.EventLoop.{Rule, wait_next_event}
use sponge.EventLoop.Keeps.{AllKeep, wait_next_event-Keeps}
use sponge.TcpConnection
use sponge.TcpConnection.{active}
use sponge.SpongeSocket.{Adapter, SpongeSocket, Round, is_exit}
use sponge.SpongeSocket.Loop.{tcp_loop}

module _ {ℓ κ} {A : Type ℓ} (adapter : Adapter A) (P : SpongeSocket A → Type κ) where
  -- What the loop does when no rule runs.
  abbrev pub TickKeeps : Type (ℓ ⊔ κ)
  TickKeeps =
      (s : SpongeSocket A) (a : A) (ms : ℕ)
      → P s
      → adapter.tick s.datagram_adapter ms ≡ some a
      → P (record s { tcp = TcpConnection.tick s.tcp ms; datagram_adapter = a })

  abbrev Kept : Bool × SpongeSocket A × List (Rule (SpongeSocket A)) → Type (ℓ ⊔ κ)
  Kept p = P (p.1) × AllKeep P (p.2)

  pub tcp_loop-Keeps :
      (condition : SpongeSocket A → Bool) (rounds : List Round) (base_time : ℕ)
      (live kept : List (Rule (SpongeSocket A))) (s s' : SpongeSocket A) (ended : Bool)
      → TickKeeps
      → AllKeep P live
      → P s
      → tcp_loop adapter condition rounds base_time live s ≡ some (ended, s', kept)
      → P s' × AllKeep P kept
  unfolding tcp_loop
  tcp_loop-Keeps condition [] base_time live kept s s' ended ticks keep d e =
      subst Kept (some-injective _ (ended, s', kept) e) (d, keep)
  tcp_loop-Keeps condition (round ∷ rounds) base_time live kept s s' ended ticks keep d e =
      let end : Bool × SpongeSocket A × List (Rule (SpongeSocket A)) = (ended, s', kept) in
      elim (Bool-cases (condition s)) [
        | inr over ↦ subst Kept (some-injective _ end (rw (over, tcp_loop) at e)) (d, keep)
        | inl goes ↦
            let ((result, t, left), waited, rest) =
              bind-some (wait_next_event live s round.poll) _ end (rw (goes, tcp_loop) at e) in
            let after = wait_next_event-Keeps P live left s t round.poll result keep d waited in
            elim (Bool-cases (is_exit result || round.abort)) [
              | inl broke ↦ subst Kept (some-injective _ end (rw broke at rest)) after
              | inr stays ↦
                  let more = rw stays at rest in
                  elim (Bool-cases (active t.tcp)) [
                    | inr closed ↦
                        tcp_loop-Keeps condition rounds base_time left kept t s' ended ticks after.1
                          after.0 (rw closed at more)
                    | inl open_ ↦
                        let ms = sub64 round.now base_time in
                        let (a, ticked, on) =
                          bind-some (adapter.tick t.datagram_adapter ms) _ end (rw open_ at more) in
                        tcp_loop-Keeps condition rounds round.now left kept
                          (record t { tcp = TcpConnection.tick t.tcp ms; datagram_adapter = a }) s'
                          ended ticks after.1 (ticks t a ms after.0 ticked) on
                  ]
            ]
      ]
