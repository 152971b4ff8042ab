-- ===== src/EventLoop/Served.antt =====
-- What a call of wait_next_event in libsponge/util/eventloop.cc has done to each rule.
use mathlib.Core.Bool.{false≢true}
use mathlib.Core.Option.{none-ne-some, some-injective}
use sponge.Prelude.{
  ℕ, suc, ◌+◌, ◌≡◌, ◌≢◌, ◌⊎◌, inl, inr, refl, Bool, true, false, not, ◌&&◌, if◌then◌else◌, ◌||◌,
  some, List, [], ◌∷◌, get_elem?, length, ◌==◌, ==→ne, Bool-cases, Option-cases, ap, sym, ◌∙◌,
  subst, arith,
}
use sponge.EventLoop.Prepared.{Decides, Prepared, set_up-Prepared, Prepared-length}
use sponge.EventLoop.{
  Direction, Rule, Revents, Polled, Result, is_input, service_count, set_up, serve, process, polled,
  something_to_poll, wait_next_event,
}

and_left : (a : Bool) → (a && true) ≡ false → a ≡ false
and_left true h = h
and_left false h = refl

exit-ne-success : Result.exit ≢ Result.success
exit-ne-success e =
    subst
      (λ x. elim x as (λ y. Type 0) [
        | Result.success ↦ ⊥
        | Result.timeout ↦ ⊥
        | Result.exit ↦ Unit
      ])
      e tt

not_busy : (m n : ℕ) (b : Bool) → (m == n && b) ≡ false → (m ≢ n) ⊎ (b ≡ false)
not_busy m n true h = inl (==→ne m n (and_left (m == n) h))
not_busy m n false h = inr refl

-- What poll(2) offers in a direction.
abbrev pub IsOffered : Direction → Revents → Type 0
IsOffered Direction.input rev = rev.pollin ≡ true
IsOffered Direction.output rev = rev.pollout ≡ true

-- It was asked for and is offered.
abbrev pub IsReady : Direction → Bool → Revents → Type 0
IsReady d ask rev = (ask ≡ true) × IsOffered d rev

-- It was asked for, and the descriptor was hung up and offers nothing in that direction.
abbrev pub IsHung : Direction → Bool → Revents → Type 0
IsHung d ask rev = (rev.pollhup ≡ true) × (ask ≡ true) × ¬ IsOffered d rev

abbrev pub IsFine : Revents → Type 0
IsFine rev = (rev.pollerr ≡ false) × (rev.pollnval ≡ false)

IsOffered-test :
    (d : Direction) (rev : Revents)
    → Decides (IsOffered d rev) (if is_input d then rev.pollin else rev.pollout)
IsOffered-test Direction.input rev = elim (Bool-cases rev.pollin) [
  | inl e ↦ inl (e, e)
  | inr e ↦ inr ((λ p. false≢true (sym e ∙ p)), e)
]
IsOffered-test Direction.output rev = elim (Bool-cases rev.pollout) [
  | inl e ↦ inl (e, e)
  | inr e ↦ inr ((λ p. false≢true (sym e ∙ p)), e)
]

IsReady-test :
    (d : Direction) (ask : Bool) (rev : Revents)
    → Decides (IsReady d ask rev) (ask && (if is_input d then rev.pollin else rev.pollout))
IsReady-test d false rev = inr ((λ p. false≢true p.0), refl)
IsReady-test d true rev = elim (IsOffered-test d rev) [
  | inl (o, e) ↦ inl ((refl, o), e)
  | inr (n, e) ↦ inr ((λ p. n p.1), e)
]

IsHung-test :
    (d : Direction) (ask : Bool) (rev : Revents)
    → Decides
        (IsHung d ask rev)
        (rev.pollhup && ask && not (ask && (if is_input d then rev.pollin else rev.pollout)))
IsHung-test d ask rev = elim (Bool-cases rev.pollhup) [
  | inr e ↦ inr ((λ p. false≢true (sym e ∙ p.0)), rw e refl)
  | inl e ↦ elim (Bool-cases ask) [
    | inr a ↦ inr ((λ p. false≢true (sym a ∙ p.1)), rw (e, a) refl)
    | inl a ↦ elim (IsOffered-test d rev) [
      | inl (o, b) ↦ inr ((λ p. p.2 o), rw (e, a, b) refl)
      | inr (n, b) ↦ inl ((e, a, n), rw (e, a, b) refl)
    ]
  ]
]

both_false : (a b : Bool) → (a || b) ≡ false → (a ≡ false) × (b ≡ false)
both_false false b h = (refl, h)
both_false true b h = absurd (false≢true (sym h))

module _ {ℓ} {S : Type ℓ} where
  -- The callback ran and did not throw, and it read or wrote, or lost its interest.
  pub record Called (r : Rule S) (s s' : S) : Type ℓ where
    pub ran : r.callback s ≡ some s'
    pub moved : (service_count r s ≢ service_count r s') ⊎ (r.interest s' ≡ false)

  -- Each rule in turn, with what poll(2) said of its own descriptor.
  pub data Served (revents : ℕ → Revents)
      : ℕ → List (Rule S) → List Bool → S → S → List (Rule S) → Type ℓ where
    done : (idx : ℕ) (s : S) → Served revents idx [] [] s s []
    hung :
        (idx : ℕ) (r : Rule S) (ask : Bool) (rules kept : List (Rule S)) (asks : List Bool)
        (s s' s'' : S)
        → IsFine (revents idx)
        → IsHung r.direction ask (revents idx)
        → r.cancel s ≡ some s'
        → Served revents (suc idx) rules asks s' s'' kept
        → Served revents idx (r ∷ rules) (ask ∷ asks) s s'' kept
    idle :
        (idx : ℕ) (r : Rule S) (ask : Bool) (rules kept : List (Rule S)) (asks : List Bool)
        (s s' : S)
        → IsFine (revents idx)
        → ¬ IsHung r.direction ask (revents idx)
        → ¬ IsReady r.direction ask (revents idx)
        → Served revents (suc idx) rules asks s s' kept
        → Served revents idx (r ∷ rules) (ask ∷ asks) s s' (r ∷ kept)
    called :
        (idx : ℕ) (r : Rule S) (ask : Bool) (rules kept : List (Rule S)) (asks : List Bool)
        (s s' s'' : S)
        → IsFine (revents idx)
        → IsReady r.direction ask (revents idx)
        → Called r s s'
        → Served revents (suc idx) rules asks s' s'' kept
        → Served revents idx (r ∷ rules) (ask ∷ asks) s s'' (r ∷ kept)

  serve-Called : (r : Rule S) (s s' : S) → serve r s ≡ some s' → Called r s s'
  unfolding serve
  serve-Called r s s' e = elim (Option-cases (r.callback s)) [
    | inl none_ ↦ absurd (none-ne-some s' (sym (rw (serve, none_) refl) ∙ e))
    | inr (t, ran) ↦ elim (Bool-cases (service_count r s == service_count r t && r.interest t)) [
      | inl busy ↦ absurd (none-ne-some s' (sym (rw (serve, ran, busy) refl) ∙ e))
      | inr fine ↦
          let same : t ≡ s' = some-injective t s' (sym (rw (serve, ran, fine) refl) ∙ e) in
          subst (Called r s) same (record {
            ran = ran;
            moved = not_busy (service_count r s) (service_count r t) (r.interest t) fine;
          })
    ]
  ]

  -- `rest` is what `asks` holds from an index on, one for each rule.
  pub process-Served :
      (asks rest : List Bool) (revents : ℕ → Revents) (idx : ℕ) (rules kept : List (Rule S))
      (s s' : S)
      → ((i : ℕ) → get_elem? asks (idx + i) ≡ get_elem? rest i)
      → length rest ≡ length rules
      → process asks revents idx rules s ≡ some (s', kept)
      → Served revents idx rules rest s s' kept
  unfolding process
  process-Served asks [] revents idx [] kept s s' at same e =
      subst (λ p. Served revents idx [] [] s (p.0) (p.1)) (some-injective (s, []) (s', kept) e)
        (Served.done idx s)
  process-Served asks (ask ∷ rest) revents idx [] kept s s' at same e = absurd (omega arith)
  process-Served asks [] revents idx (r ∷ rules) kept s s' at same e = absurd (omega arith)
  process-Served asks (ask ∷ rest) revents idx (r ∷ rules) kept s s' at same e =
      let start : idx + 0 ≡ idx = omega arith in
      let found : get_elem? asks idx ≡ some ask = ap (get_elem? asks) (sym start) ∙ at 0 in
      let next : (i : ℕ) → get_elem? asks (suc idx + i) ≡ get_elem? rest i = λ i.
        let moved : suc idx + i ≡ idx + suc i = omega arith in
        ap (get_elem? asks) moved ∙ at (suc i) in
      let size : length rest ≡ length rules = omega arith in
      elim (Bool-cases ((revents idx).pollerr || (revents idx).pollnval)) [
        | inl bad ↦ absurd (none-ne-some (s', kept) (sym (rw (process, found, bad) refl) ∙ e))
        | inr good ↦
            let fine = both_false _ _ good in
            elim (IsHung-test r.direction ask (revents idx)) [
              | inl (hung_up, gone) ↦ elim (Option-cases (r.cancel s)) [
                | inl throws ↦ absurd (
                    none-ne-some (s', kept)
                      (sym (rw (process, found, good, gone, throws) refl) ∙ e))
                | inr (t, cancelled) ↦
                    Served.hung idx r ask rules kept rest s t s' fine hung_up cancelled (
                      process-Served asks rest revents (suc idx) rules kept t s' next size
                        (sym (rw (process, found, good, gone, cancelled) refl) ∙ e))
              ]
              | inr (not_hung, alive) ↦ elim (IsReady-test r.direction ask (revents idx)) [
                | inl (asked, is_ready) ↦ elim (Option-cases (serve r s)) [
                  | inl throws ↦ absurd (
                      none-ne-some (s', kept)
                        (sym (rw (process, found, good, alive, is_ready, throws) refl) ∙ e))
                  | inr (t, served) ↦ elim (Option-cases (process asks revents (suc idx) rules t)) [
                    | inl none_ ↦ absurd (
                        none-ne-some (s', kept)
                          (sym (rw (process, found, good, alive, is_ready, served, none_) refl)
                            ∙ e))
                    | inr ((u, stay), rest_lem) ↦
                        let pair : (u, r ∷ stay) ≡ (s', kept) =
                          some-injective (u, r ∷ stay) (s', kept)
                            (sym (rw (process, found, good, alive, is_ready, served, rest_lem) refl)
                              ∙ e) in
                        subst (λ p. Served revents idx (r ∷ rules) (ask ∷ rest) s (p.0) (p.1)) pair
                          (Served.called idx r ask rules stay rest s t u fine asked
                            (serve-Called r s t served)
                            (process-Served asks rest revents (suc idx) rules stay t u next size
                              rest_lem))
                  ]
                ]
                | inr (not_asked, quiet) ↦
                    elim (Option-cases (process asks revents (suc idx) rules s)) [
                      | inl none_ ↦ absurd (
                          none-ne-some (s', kept)
                            (sym (rw (process, found, good, alive, quiet, none_) refl) ∙ e))
                      | inr ((u, stay), rest_lem) ↦
                          let pair : (u, r ∷ stay) ≡ (s', kept) =
                            some-injective (u, r ∷ stay) (s', kept)
                              (sym (rw (process, found, good, alive, quiet, rest_lem) refl) ∙ e) in
                          subst (λ p. Served revents idx (r ∷ rules) (ask ∷ rest) s (p.0) (p.1))
                            pair
                            (Served.idle idx r ask rules stay rest s u fine not_hung not_asked (
                              process-Served asks rest revents (suc idx) rules stay s u next size
                                rest_lem))
                    ]
              ]
            ]
      ]

  -- A call that succeeds: the rules that are left when those at their end are cancelled, what they
  -- ask for, and then each of these served.
  pub record Passed (revents : ℕ → Revents) (rules : List (Rule S)) (s s' : S)
      (kept : List (Rule S)) : Type ℓ where
    pub start : S
    pub live : List (Rule S)
    pub asks : List Bool
    pub prepared : Prepared rules s start live asks
    pub served : Served revents 0 live asks start s' kept

  -- A call that succeeds when poll(2) has filled in results has gone through the rules in order: one
  -- for input whose descriptor was at its end, or any whose descriptor was closed, was cancelled and
  -- dropped, and any other stayed. It has then gone through those that stayed, in order, each with
  -- what poll(2) said of it, which was no error: one that had an interest and was hung up, with
  -- nothing in its direction, was cancelled and dropped; one that had an interest and was ready in its
  -- direction was called, and its callback read or wrote or ended its interest; any other stayed and
  -- was not called.
  pub wait_next_event-Passed :
      (rules kept : List (Rule S)) (s s' : S) (revents : ℕ → Revents)
      → wait_next_event rules s (Polled.ready revents) ≡ some (Result.success, s', kept)
      → Passed revents rules s s' kept
  unfolding wait_next_event
  wait_next_event-Passed rules kept s s' revents e = elim (Option-cases (set_up rules s)) [
    | inl none_ ↦
        absurd
          (none-ne-some (Result.success, s', kept) (sym (rw (wait_next_event, none_) refl) ∙ e))
    | inr ((t, live, asks), is_live) ↦ elim (Bool-cases (something_to_poll asks)) [
      | inr nothing ↦ absurd (
          exit-ne-success (
            ap (λ p. p.0)
              (some-injective (Result.exit, t, live) (Result.success, s', kept)
                (sym (rw (wait_next_event, is_live, nothing) refl) ∙ e))))
      | inl asked ↦ elim (Option-cases (process asks revents 0 live t)) [
        | inl none_ ↦ absurd (
            none-ne-some (Result.success, s', kept)
              (sym (rw (wait_next_event, is_live, asked, polled, none_) refl) ∙ e))
        | inr ((u, stay), processed) ↦
            let same : (Result.success, u, stay) ≡ (Result.success, s', kept) =
              some-injective (Result.success, u, stay) (Result.success, s', kept)
                (sym (rw (wait_next_event, is_live, asked, polled, processed) refl) ∙ e) in
            let run : process asks revents 0 live t ≡ some (s', kept) =
              processed ∙ ap (λ (p : Result × S × List (Rule S)). some (p.1, p.2)) same in
            record {
              start = t;
              live = live;
              asks = asks;
              prepared = set_up-Prepared rules s t live asks is_live;
              served =
                  process-Served asks asks revents 0 live kept t s'
                    (λ i. let start : 0 + i ≡ i = omega arith in ap (get_elem? asks) start)
                    (Prepared-length (set_up-Prepared rules s t live asks is_live)) run;
            }
      ]
    ]
  ]
