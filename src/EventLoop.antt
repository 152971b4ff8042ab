-- ===== src/EventLoop.antt =====
-- libsponge/util/eventloop.hh and eventloop.cc. The callbacks of a rule act on the state `S` of the
-- program, which holds what its file descriptors have read and written. What poll(2) returns is an
-- argument, and an exception is `none`. The callbacks neither add nor drop rules.
pub mod Prepared
pub mod Served
pub mod Keeps
use sponge.Prelude.{
  ◌++◌, ℕ, zero, suc, Bool, true, false, not, ◌&&◌, ◌||◌, Option, none, some, List, [], ◌∷◌,
  get_elem?, ◌==◌, if◌then◌else◌,
}

pub data Direction : Type 0 where
  input : Direction
  output : Direction

pub data Result : Type 0 where
  success : Result
  timeout : Result
  exit : Result

-- The bits of `revents`.
pub record Revents : Type 0 where
  pub pollin : Bool
  pub pollout : Bool
  pub pollerr : Bool
  pub pollhup : Bool
  pub pollnval : Bool

-- How the call of poll(2) ends. It fills in a result for each descriptor.
pub data Polled : Type 0 where
  no_descriptor : Polled
  interrupted : Polled
  failed : Polled
  ready : (ℕ → Revents) → Polled

pub record Rule {ℓ} (S : Type ℓ) : Type ℓ where
  pub direction : Direction
  pub eof : S → Bool
  pub closed : S → Bool
  pub read_count : S → ℕ
  pub write_count : S → ℕ
  pub callback : S → Option S
  pub interest : S → Bool
  pub cancel : S → Option S

abbrev pub is_input : Direction → Bool
is_input Direction.input = true
is_input Direction.output = false

abbrev pub something_to_poll : List Bool → Bool
something_to_poll [] = false
something_to_poll (ask ∷ asks) = ask || something_to_poll asks

abbrev pub no_revents : Revents
no_revents = record {
  pollin = false;
  pollout = false;
  pollerr = false;
  pollhup = false;
  pollnval = false;
}

module _ {ℓ} {S : Type ℓ} where
  abbrev pub service_count : Rule S → S → ℕ
  service_count r s = if is_input r.direction then r.read_count s else r.write_count s

  abbrev pub add_rule : List (Rule S) → Rule S → List (Rule S)
  add_rule rules r = rules ++ r ∷ []

  -- The rules that stay, each with whether it asks for its direction.
  unfoldable pub set_up : List (Rule S) → S → Option (S × List (Rule S) × List Bool)
  set_up [] s = some (s, [], [])
  set_up (r ∷ rules) s = elim (is_input r.direction && r.eof s || r.closed s) [
    | true ↦ elim (r.cancel s) [ none ↦ none | some s' ↦ set_up rules s' ]
    | false ↦ elim (set_up rules s) [
      | none ↦ none
      | some (s', kept, asks) ↦ some (s', r ∷ kept, r.interest s ∷ asks)
    ]
  ]

  -- `poll_ready` and the test for a hangup alone.
  abbrev pub poll_ready : Rule S → Bool → Revents → Bool
  poll_ready r ask rev = ask && (if is_input r.direction then rev.pollin else rev.pollout)

  abbrev pub defunct : Rule S → Bool → Revents → Bool
  defunct r ask rev = rev.pollhup && ask && not (poll_ready r ask rev)

  -- The call of the callback, which throws for a busy wait.
  unfoldable pub serve : Rule S → S → Option S
  serve r s = elim (r.callback s) [
    | none ↦ none
    | some s' ↦ if service_count r s == service_count r s' && r.interest s' then none else some s'
  ]

  -- The loop over the rules, with its index into the results, of which there are as many as `asks`.
  unfoldable pub process :
      List Bool → (ℕ → Revents) → ℕ → List (Rule S) → S → Option (S × List (Rule S))
  unfolding serve
  process asks revents idx [] s = some (s, [])
  process asks revents idx (r ∷ rules) s = elim (get_elem? asks idx) [
    | none ↦ none
    | some ask ↦ elim ((revents idx).pollerr || (revents idx).pollnval) [
      | true ↦ none
      | false ↦ elim (defunct r ask (revents idx)) [
        | true ↦ elim (r.cancel s) [
          | none ↦ none
          | some s' ↦ process asks revents (suc idx) rules s'
        ]
        | false ↦ elim (if poll_ready r ask (revents idx) then serve r s else some s) [
          | none ↦ none
          | some s' ↦ elim (process asks revents (suc idx) rules s') [
            | none ↦ none
            | some (s'', kept) ↦ some (s'', r ∷ kept)
          ]
        ]
      ]
    ]
  ]

  abbrev pub polled : List Bool → Polled → List (Rule S) → S → Option (Result × S × List (Rule S))
  polled asks Polled.no_descriptor rules s = some (Result.timeout, s, rules)
  polled asks Polled.interrupted rules s = some (Result.exit, s, rules)
  polled asks Polled.failed rules s = elim (process asks (λ i. no_revents) 0 rules s) [
    | none ↦ none
    | some (s', kept) ↦ some (Result.success, s', kept)
  ]
  polled asks (Polled.ready revents) rules s = elim (process asks revents 0 rules s) [
    | none ↦ none
    | some (s', kept) ↦ some (Result.success, s', kept)
  ]

  -- The result, the state, and the rules that are left.
  unfoldable pub wait_next_event : List (Rule S) → S → Polled → Option (Result × S × List (Rule S))
  unfolding set_up process
  wait_next_event rules s poll = elim (set_up rules s) [
    | none ↦ none
    | some (s', kept, asks) ↦ elim (something_to_poll asks) [
      | false ↦ some (Result.exit, s', kept)
      | true ↦ polled asks poll kept s'
    ]
  ]
