-- ===== src/EventLoop/Keeps.antt =====
-- What holds of the state of a program however the event loop of libsponge/util/eventloop.cc runs
-- it.
use mathlib.Core.Option.{none-ne-some, some-injective}
use sponge.Prelude.{
  ℕ, ◌+◌, ◌≡◌, ◌⊎◌, inl, inr, refl, Bool, true, false, ◌&&◌, Option, none, some, List, [], ◌∷◌,
  get_elem?, length, ◌==◌, ◌≢◌, Bool-cases, Option-cases, ap, sym, ◌∙◌, subst, arith,
}
use sponge.EventLoop.{
  Rule, Revents, Polled, Result, service_count, set_up, process, serve, polled, something_to_poll,
  no_revents, wait_next_event,
}
use sponge.EventLoop.Prepared.{Prepared, set_up-Prepared, Prepared-length}
use sponge.EventLoop.Served.{Served, process-Served}

module _ {ℓ κ} {S : Type ℓ} (P : S → Type κ) where
  pub record Keeps (r : Rule S) : Type (ℓ ⊔ κ) where
    pub callback : (s s' : S) → P s → r.callback s ≡ some s' → P s'
    pub cancel : (s s' : S) → P s → r.cancel s ≡ some s' → P s'

  abbrev pub AllKeep : List (Rule S) → Type (ℓ ⊔ κ)
  AllKeep [] = Unit
  AllKeep (r ∷ rules) = Keeps r × AllKeep rules

  Prepared-Keeps :
      {rules kept : List (Rule S)} {asks : List Bool} {s s' : S}
      → Prepared rules s s' kept asks
      → AllKeep rules
      → P s
      → P s' × AllKeep kept
  Prepared-Keeps (Prepared.none_left s) keep p = (p, tt)
  Prepared-Keeps (Prepared.ended r rules kept asks s s' s'' over cancelled rest) keep p =
      Prepared-Keeps rest keep.1 (keep.0.cancel s s' p cancelled)
  Prepared-Keeps (Prepared.stays r rules kept asks s s' going rest) keep p =
      let ih = Prepared-Keeps rest keep.1 p in (ih.0, (keep.0, ih.1))

  Served-Keeps :
      {revents : ℕ → Revents} {idx : ℕ} {rules : List (Rule S)} {asks : List Bool} {s s' : S}
      {kept : List (Rule S)}
      → Served revents idx rules asks s s' kept
      → AllKeep rules
      → P s
      → P s' × AllKeep kept
  Served-Keeps (Served.done idx s) keep p = (p, tt)
  Served-Keeps (Served.hung idx r ask rules kept asks s s' s'' fine gone cancelled rest) keep p =
      Served-Keeps rest keep.1 (keep.0.cancel s s' p cancelled)
  Served-Keeps (Served.idle idx r ask rules kept asks s s' fine not_hung not_ready rest) keep p =
      let ih = Served-Keeps rest keep.1 p in (ih.0, (keep.0, ih.1))
  Served-Keeps (Served.called idx r ask rules kept asks s s' s'' fine is_ready ran rest) keep p =
      let ih = Served-Keeps rest keep.1 (keep.0.callback s s' p ran.ran) in (ih.0, (keep.0, ih.1))

  processed-Keeps :
      (asks : List Bool) (revents : ℕ → Revents) (rules kept : List (Rule S)) (s s' : S)
      (result : Result)
      → length asks ≡ length rules
      → AllKeep rules
      → P s
      → (elim (process asks revents 0 rules s) as (λ _. Option (Result × S × List (Rule S))) [
        | none ↦ none
        | some (t, live) ↦ some (Result.success, t, live)
      ])
        ≡ some (result, s', kept)
      → P s' × AllKeep kept
  processed-Keeps asks revents rules kept s s' result same keep p e =
      elim (Option-cases (process asks revents 0 rules s)) [
        | inl none_ ↦ absurd (none-ne-some (result, s', kept) (sym (rw none_ refl) ∙ e))
        | inr ((t, live), processed) ↦
            let served =
              process-Served asks asks revents 0 rules live s t
                (λ i. let start : 0 + i ≡ i = omega arith in ap (get_elem? asks) start) same
                processed in
            subst (λ (q : Result × S × List (Rule S)). P (q.1) × AllKeep (q.2))
              (some-injective (Result.success, t, live) (result, s', kept)
                (sym (rw processed refl) ∙ e))
              (Served-Keeps served keep p)
      ]

  polled-Keeps :
      (asks : List Bool) (poll : Polled) (rules kept : List (Rule S)) (s s' : S) (result : Result)
      → length asks ≡ length rules
      → AllKeep rules
      → P s
      → polled asks poll rules s ≡ some (result, s', kept)
      → P s' × AllKeep kept
  polled-Keeps asks Polled.no_descriptor rules kept s s' result same keep p e =
      subst (λ (q : Result × S × List (Rule S)). P (q.1) × AllKeep (q.2))
        (some-injective (Result.timeout, s, rules) (result, s', kept) e) (p, keep)
  polled-Keeps asks Polled.interrupted rules kept s s' result same keep p e =
      subst (λ (q : Result × S × List (Rule S)). P (q.1) × AllKeep (q.2))
        (some-injective (Result.exit, s, rules) (result, s', kept) e) (p, keep)
  polled-Keeps asks Polled.failed rules kept s s' result same keep p e =
      processed-Keeps asks (λ i. no_revents) rules kept s s' result same keep p e
  polled-Keeps asks (Polled.ready revents) rules kept s s' result same keep p e =
      processed-Keeps asks revents rules kept s s' result same keep p e

  -- What every rule keeps, with the rules that are left, holds after a call that returns.
  pub wait_next_event-Keeps :
      (rules kept : List (Rule S)) (s s' : S) (poll : Polled) (result : Result)
      → AllKeep rules
      → P s
      → wait_next_event rules s poll ≡ some (result, s', kept)
      → P s' × AllKeep kept
  unfolding wait_next_event
  wait_next_event-Keeps rules kept s s' poll result keep p e =
      elim (Option-cases (set_up rules s)) [
        | inl none_ ↦
            absurd (none-ne-some (result, s', kept) (sym (rw (wait_next_event, none_) refl) ∙ e))
        | inr ((t, live, asks), is_live) ↦
            let prepared = set_up-Prepared rules s t live asks is_live in
            let start = Prepared-Keeps prepared keep p in
            elim (Bool-cases (something_to_poll asks)) [
              | inr nothing ↦
                  subst (λ (q : Result × S × List (Rule S)). P (q.1) × AllKeep (q.2))
                    (some-injective (Result.exit, t, live) (result, s', kept)
                      (sym (rw (wait_next_event, is_live, nothing) refl) ∙ e))
                    start
              | inl asked ↦
                  polled-Keeps asks poll live kept t s' result (Prepared-length prepared) start.1
                    start.0 (sym (rw (wait_next_event, is_live, asked) refl) ∙ e)
            ]
      ]

and_right : (a : Bool) → (a && false) ≡ false
and_right true = refl
and_right false = refl

-- A callback that reads or writes, or ends its interest, is not taken for busy.
pub serve-callback {ℓ} :
    {S : Type ℓ} (r : Rule S) (s : S)
    → ((s' : S)
        → r.callback s ≡ some s'
        → (service_count r s ≢ service_count r s') ⊎ (r.interest s' ≡ false))
    → serve r s ≡ r.callback s
unfolding serve
serve-callback r s moves = elim (Option-cases (r.callback s)) [
  | inl none_ ↦ rw (serve, none_) refl
  | inr (s', ran) ↦ elim (moves s' ran) [
    | inl counted ↦
        let differs : (service_count r s == service_count r s') ≡ false = ground (arith, counted) in
        rw (serve, ran, differs) refl
    | inr over ↦ rw (serve, ran, over, and_right) refl
  ]
]
