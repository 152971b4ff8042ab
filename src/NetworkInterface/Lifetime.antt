-- ===== src/NetworkInterface/Lifetime.antt =====
-- How long an address stays in the table of libsponge/network_interface.cc.
use sponge.Prelude.{
  ℕ, ◌+◌, ◌*◌, ◌≤◌, ◌<◌, ◌≡◌, refl, Option, none, some, List, [], ◌∷◌, ◌++◌, length, leb, le→leb,
  lt→leb, if◌then◌else◌, add64, Bool-cases, inl, inr, sym, ap, ◌∙◌, arith, tests,
}
use sponge.Prelude.Maps.{find}
use sponge.Prelude.Maps.Laws.{IsSorted, IsAbove-IsSorted, find-IsAbove}
use sponge.NetworkInterface.{
  NetworkInterface, ArpEntry, arp_cleanup_interval_ms, arp_timeout_ms, expire_entries, tick,
}
use sponge.NetworkInterface.Resend.{aged_all, due_requests, tick_lem}
use sponge.NetworkInterface.Invariant.{IsValid, find-expire_entries}
use sponge.NetworkInterface.Keeps.{tick-IsValid}

-- What a tick makes of an entry that is found, or of none.
abbrev expired : ℕ → Option ArpEntry → Option ArpEntry
expired ms none = none
expired ms (some entry) =
    if leb arp_timeout_ms (add64 entry.last_seen ms)
    then none
    else some (record entry { last_seen = add64 entry.last_seen ms })

find-expired :
    (ip ms : ℕ) (table : List (ℕ × ArpEntry))
    → IsSorted table
    → find ip (expire_entries ms table) ≡ expired ms (find ip table)
unfolding find expire_entries
find-expired ip ms [] s = refl
find-expired ip ms ((ip', entry) ∷ table) s = ground (
  arith,
  find-expired ip ms table (IsAbove-IsSorted ip' table s),
  find-IsAbove ip' ip table s,
  find-expire_entries ip ms table,
)

-- One tick after the other.
abbrev pub tick_all : ℕ → List ℕ → NetworkInterface → Option NetworkInterface
tick_all fuel [] n = some n
tick_all fuel (ms ∷ rest) n = elim (tick fuel n ms) [
  | none ↦ none
  | some n' ↦ tick_all fuel rest n'
]

abbrev pub total : List ℕ → ℕ
total [] = 0
total (ms ∷ rest) = ms + total rest

abbrev pub AllShort : List ℕ → Type 0
AllShort [] = Unit {0}
AllShort (ms ∷ rest) = (ms < arp_cleanup_interval_ms) × AllShort rest

length-aged_all : (ms : ℕ) (asked : List (ℕ × ℕ)) → length (aged_all ms asked) ≡ length asked
length-aged_all ms [] = refl
length-aged_all ms ((ip, since) ∷ asked) = omega (arith, length-aged_all ms asked)

-- A short tick of a valid interface.
record Ticked (fuel ms : ℕ) (n : NetworkInterface) : Type 0 where
  next : NetworkInterface
  ticks : tick fuel n ms ≡ some next
  valid : IsValid next
  enough : 2 * length next.waiting_arp_response ≤ fuel
  finds : (ip : ℕ) → find ip next.arp_table ≡ expired ms (find ip n.arp_table)

tick-Ticked :
    (fuel ms : ℕ) (n : NetworkInterface)
    → ms < arp_cleanup_interval_ms
    → 2 * length n.waiting_arp_response ≤ fuel
    → IsValid n
    → Ticked fuel ms n
tick-Ticked fuel ms n p enough v =
    let next : NetworkInterface = record n {
      arp_table = expire_entries ms n.arp_table;
      waiting_arp_response = aged_all ms n.waiting_arp_response;
      frames_out = n.frames_out ++ due_requests n ms n.waiting_arp_response;
    } in
    let e = tick_lem fuel ms n p (v.fresh) enough in
    record {
      next = next;
      ticks = e;
      valid = tick-IsValid fuel ms n next p enough v e;
      enough = omega (arith, length-aged_all ms n.waiting_arp_response);
      finds = λ ip. find-expired ip ms n.arp_table (v.table);
    }

tick_all-tick :
    (fuel ms : ℕ) (waits : List ℕ) (n next : NetworkInterface)
    → tick fuel n ms ≡ some next
    → tick_all fuel (ms ∷ waits) n ≡ tick_all fuel waits next
tick_all-tick fuel ms waits n next e = rw (tick_all, e) refl

tick_all-absent :
    (fuel : ℕ) (waits : List ℕ) (n : NetworkInterface) (ip : ℕ)
    → IsValid n
    → AllShort waits
    → 2 * length n.waiting_arp_response ≤ fuel
    → find ip n.arp_table ≡ none
    → (n' : NetworkInterface) × (tick_all fuel waits n ≡ some n') × (find ip n'.arp_table ≡ none)
tick_all-absent fuel [] n ip v short enough h = (n, refl, h)
tick_all-absent fuel (ms ∷ waits) n ip v short enough h =
    let t = tick-Ticked fuel ms n (short.0) enough v in
    let (n', e, gone) =
      tick_all-absent fuel waits t.next ip (t.valid) (short.1) (t.enough)
        (t.finds ip ∙ rw h refl) in
    (n', tick_all-tick fuel ms waits n t.next (t.ticks) ∙ e, gone)

-- An entry `ms` later: it is dropped after 30 seconds.
abbrev pub entry_after : ArpEntry → ℕ → Option ArpEntry
entry_after entry ms =
    if leb arp_timeout_ms (entry.last_seen + ms)
    then none
    else some (record entry { last_seen = entry.last_seen + ms })

entry_after_zero :
    (entry : ArpEntry) → entry.last_seen < arp_timeout_ms → entry_after entry 0 ≡ some entry
entry_after_zero entry young =
    let same : entry.last_seen + 0 ≡ entry.last_seen = omega arith in
    rw (same, lt→leb arp_timeout_ms entry.last_seen young) refl

-- A short tick computes without wrap-around.
expired-entry_after :
    (entry : ArpEntry) (ms : ℕ)
    → entry.last_seen < arp_timeout_ms
    → ms < arp_cleanup_interval_ms
    → expired ms (some entry) ≡ entry_after entry ms
expired-entry_after entry ms young p =
    let small : add64 entry.last_seen ms ≡ entry.last_seen + ms = omega arith in rw small refl

-- However a time is split into ticks below 5000 ms, they all end, given fuel for two looks at each
-- request, and an entry of a valid interface's table is there afterwards exactly if it is then less
-- than 30 seconds old, with its age.
pub tick_all_lem :
    (fuel : ℕ) (waits : List ℕ) (n : NetworkInterface) (ip : ℕ) (entry : ArpEntry)
    → IsValid n
    → AllShort waits
    → 2 * length n.waiting_arp_response ≤ fuel
    → find ip n.arp_table ≡ some entry
    → entry.last_seen < arp_timeout_ms
    → (n' : NetworkInterface) × (tick_all fuel waits n ≡ some n')
      × (find ip n'.arp_table ≡ entry_after entry (total waits))
tick_all_lem fuel [] n ip entry v short enough h young =
    (n, refl, h ∙ sym (entry_after_zero entry young))
tick_all_lem fuel (ms ∷ waits) n ip entry v short enough h young =
    let t = tick-Ticked fuel ms n (short.0) enough v in
    let step = tick_all-tick fuel ms waits n t.next (t.ticks) in
    let found : find ip t.next.arp_table ≡ entry_after entry ms =
      t.finds ip ∙ ap (expired ms) h ∙ expired-entry_after entry ms young (short.0) in
    let regroup : entry.last_seen + (ms + total waits) ≡ entry.last_seen + ms + total waits =
      omega arith in
    elim (Bool-cases (leb arp_timeout_ms (entry.last_seen + ms))) [
      | inl old ↦
          let (n', e, gone) =
            tick_all-absent fuel waits t.next ip (t.valid) (short.1) (t.enough) (rw old at found) in
          let late = le→leb arp_timeout_ms (entry.last_seen + ms + total waits) (omega tests) in
          (n', step ∙ e, gone ∙ rw (regroup, late) refl)
      | inr stays ↦
          let entry' : ArpEntry = record entry { last_seen = entry.last_seen + ms } in
          let (n', e, kept) =
            tick_all_lem fuel waits t.next ip entry' (t.valid) (short.1) (t.enough)
              (rw stays at found) (omega tests) in
          (n', step ∙ e, kept ∙ rw regroup refl)
    ]
