-- ===== src/Examples/Events.antt =====
-- Runs of the event loop.
use sponge.Prelude.{ℕ, suc, ◌+◌, refl, true, false, some, List, [], ◌∷◌, ◌==◌, if◌then◌else◌}
use sponge.EventLoop.{Direction, Revents, Rule, add_rule, no_revents}
use sponge.EventLoop.Served.{Passed, wait_next_event-Passed}

-- A descriptor that has been read so many times.
abbrev reader : Rule ℕ
reader = record {
  direction = Direction.input;
  eof = λ s. false;
  closed = λ s. false;
  read_count = λ s. s;
  write_count = λ s. 0;
  callback = λ s. some (suc s);
  interest = λ s. true;
  cancel = λ s. some s;
}

abbrev at_end : Rule ℕ
at_end = record reader { eof = λ s. true; cancel = λ s. some (s + 10) }

abbrev closed_writer : Rule ℕ
closed_writer = record reader {
  direction = Direction.output;
  closed = λ s. true;
  cancel = λ s. some (s + 20);
}

abbrev hung_up : Rule ℕ
hung_up = record reader { cancel = λ s. some (s + 30) }

-- The first two go before poll(2), the third by its hangup, and the last two stay.
abbrev rules : List (Rule ℕ)
rules = add_rule (add_rule (at_end ∷ closed_writer ∷ hung_up ∷ []) reader) reader

abbrev results : ℕ → Revents
results i =
    if i == 0
    then record no_revents { pollhup = true }
    else if i == 1
    then record no_revents { pollin = true }
    else no_revents

wait_next_event-Passed_example : Passed results rules 0 61 (reader ∷ reader ∷ [])
unfolding sponge.EventLoop.wait_next_event
wait_next_event-Passed_example =
    wait_next_event-Passed rules (reader ∷ reader ∷ []) 0 61 results refl
