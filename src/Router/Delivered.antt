-- ===== src/Router/Delivered.antt =====
-- The loops of `route` in libsponge/router.cc against the datagrams alone: in the order of the
-- interfaces, each by `route_one_datagram` and `send_datagram`, with no queue in between.
use mathlib.Core.Option
use sponge.Prelude.{
  ℕ, zero, suc, ◌≡◌, ◌⊎◌, refl, Option, none, some, List, [], ◌∷◌, ◌++◌, length, get_elem?,
  Option-cases, inl, inr, ap, sym, ◌∙◌, subst, arith, length-append,
}
use sponge.Ipv4.{Ipv4Datagram}
use sponge.NetworkInterface.{NetworkInterface, send_datagram}
use sponge.Router.{RouterEntry, Forward, route_one_datagram}
use sponge.Router.Interfaces.{
  AsyncNetworkInterface, at_interface, send_on, route_one, pop_datagram, route_queue,
}

abbrev pub bases : List AsyncNetworkInterface → List NetworkInterface
bases [] = []
bases (a ∷ rest) = a.base ∷ bases rest

abbrev pub queues : List AsyncNetworkInterface → List (List Ipv4Datagram)
queues [] = []
queues (a ∷ rest) = a.datagrams_out ∷ queues rest

abbrev pub all_of : List (List Ipv4Datagram) → List Ipv4Datagram
all_of [] = []
all_of (queue ∷ rest) = queue ++ all_of rest

abbrev pub emptied : List (List Ipv4Datagram) → List (List Ipv4Datagram)
emptied [] = []
emptied (queue ∷ rest) = [] ∷ emptied rest

-- One datagram, and one after the other.
abbrev pub deliver :
    List RouterEntry → Ipv4Datagram → List NetworkInterface → Option (List NetworkInterface)
deliver table dgram interfaces = elim (route_one_datagram table dgram) [
  | none ↦ some interfaces
  | some f ↦ at_interface f.interface_num (λ n. send_datagram n f.dgram f.next_hop) interfaces
]

abbrev pub deliver_all :
    List RouterEntry → List Ipv4Datagram → List NetworkInterface → Option (List NetworkInterface)
deliver_all table [] interfaces = some interfaces
deliver_all table (dgram ∷ rest) interfaces = elim (deliver table dgram interfaces) [
  | none ↦ none
  | some sent ↦ deliver_all table rest sent
]

-- Both fail, or both succeed with the same interfaces, and the queues are as given.
abbrev pub Agree :
    Option (List AsyncNetworkInterface)
    → Option (List NetworkInterface)
    → List (List Ipv4Datagram)
    → Type 0
Agree none none qs = Unit {0}
Agree (some xs) (some ns) qs = (bases xs ≡ ns) × (queues xs ≡ qs)
Agree none (some ns) qs = ⊥
Agree (some xs) none qs = ⊥

pub Agree-cases :
    (o : Option (List AsyncNetworkInterface)) (o' : Option (List NetworkInterface))
    (qs : List (List Ipv4Datagram))
    → Agree o o' qs
    → ((o ≡ none) × (o' ≡ none))
      ⊎ ((xs : List AsyncNetworkInterface) × (o ≡ some xs)
          × (o' ≡ some (bases xs))
          × (queues xs ≡ qs))
Agree-cases none none qs h = inl (refl, refl)
Agree-cases none (some ns) qs h = elim h [ ]
Agree-cases (some xs) none qs h = elim h [ ]
Agree-cases (some xs) (some ns) qs h = inr (xs, refl, ap some (sym (h.0)), h.1)

-- One step after another.
pub Agree-then :
    (o : Option (List AsyncNetworkInterface)) (o' : Option (List NetworkInterface))
    (qs qs' : List (List Ipv4Datagram))
    (k : List AsyncNetworkInterface → Option (List AsyncNetworkInterface))
    (k' : List NetworkInterface → Option (List NetworkInterface))
    → Agree o o' qs
    → ((xs : List AsyncNetworkInterface) → queues xs ≡ qs → Agree (k xs) (k' (bases xs)) qs')
    → Agree
        (elim o [ none ↦ none | some xs ↦ k xs ])
        (elim o' [ none ↦ none | some ns ↦ k' ns ])
        qs'
Agree-then none none qs qs' k k' h next = tt
Agree-then none (some ns) qs qs' k k' h next = elim h [ ]
Agree-then (some xs) none qs qs' k k' h next = elim h [ ]
Agree-then (some xs) (some ns) qs qs' k k' h next =
    subst (λ ns. Agree (k xs) (k' ns) qs') (h.0) (next xs (h.1))

Agree-cons :
    (a : AsyncNetworkInterface) (o : Option (List AsyncNetworkInterface))
    (o' : Option (List NetworkInterface)) (qs : List (List Ipv4Datagram))
    → Agree o o' qs
    → Agree (Option.map (◌∷◌ a) o) (Option.map (◌∷◌ (a.base)) o') (a.datagrams_out ∷ qs)
Agree-cons a none none qs h = tt
Agree-cons a none (some ns) qs h = elim h [ ]
Agree-cons a (some xs) none qs h = elim h [ ]
Agree-cons a (some xs) (some ns) qs h = (ap (◌∷◌ (a.base)) (h.0), ap (◌∷◌ (a.datagrams_out)) (h.1))

at_interface-send_on :
    (i : ℕ) (f : Forward) (xs : List AsyncNetworkInterface)
    → Agree
        (at_interface i (send_on f) xs)
        (at_interface i (λ n. send_datagram n f.dgram f.next_hop) (bases xs))
        (queues xs)
unfolding at_interface
at_interface-send_on i f [] = tt
at_interface-send_on zero f (a ∷ xs) =
    elim (Option-cases (send_datagram a.base f.dgram f.next_hop)) [
      | inl e ↦ rw e tt
      | inr (base, e) ↦ rw e (refl, refl)
    ]
at_interface-send_on (suc i) f (a ∷ xs) = Agree-cons a _ _ (queues xs) (at_interface-send_on i f xs)

route_one-deliver :
    (table : List RouterEntry) (dgram : Ipv4Datagram) (xs : List AsyncNetworkInterface)
    → Agree (route_one table dgram xs) (deliver table dgram (bases xs)) (queues xs)
unfolding route_one
route_one-deliver table dgram xs = elim (Option-cases (route_one_datagram table dgram)) [
  | inl e ↦ rw (route_one, deliver, e) (refl, refl)
  | inr (f, e) ↦ rw (route_one, deliver, e) (at_interface-send_on f.interface_num f xs)
]

-- The interface with a number is the one behind that many queues.
at_interface-pop :
    (before : List (List Ipv4Datagram)) (queue : List Ipv4Datagram) (dgram : Ipv4Datagram)
    (after : List (List Ipv4Datagram)) (xs : List AsyncNetworkInterface)
    → queues xs ≡ before ++ (dgram ∷ queue) ∷ after
    → Agree
        (at_interface (length before) pop_datagram xs)
        (some (bases xs))
        (before ++ queue ∷ after)
unfolding at_interface
at_interface-pop before queue dgram after [] e =
    absurd (omega (arith, ap length e, length-append before ((dgram ∷ queue) ∷ after)))
at_interface-pop [] queue dgram after (a ∷ xs) e =
    let own : a.datagrams_out ≡ dgram ∷ queue = cc in
    let rest : queues xs ≡ after = cc in
    rw (at_interface, pop_datagram, own) (refl, ap (◌∷◌ queue) rest)
at_interface-pop (q ∷ before) queue dgram after (a ∷ xs) e =
    let own : a.datagrams_out ≡ q = cc in
    let rest : queues xs ≡ before ++ (dgram ∷ queue) ∷ after = cc in
    subst
      (λ q.
        Agree (at_interface (suc (length before)) pop_datagram (a ∷ xs)) (some (bases (a ∷ xs)))
          (q ∷ (before ++ queue ∷ after)))
      own (Agree-cons a _ _ _ (at_interface-pop before queue dgram after xs rest))

pub route_queue-deliver_all :
    (table : List RouterEntry) (before : List (List Ipv4Datagram)) (queue : List Ipv4Datagram)
    (after : List (List Ipv4Datagram)) (xs : List AsyncNetworkInterface)
    → queues xs ≡ before ++ queue ∷ after
    → Agree
        (route_queue table (length before) queue xs)
        (deliver_all table queue (bases xs))
        (before ++ [] ∷ after)
unfolding route_queue
route_queue-deliver_all table before [] after xs e = (refl, e)
route_queue-deliver_all table before (dgram ∷ queue) after xs e =
    Agree-then (route_one table dgram xs) (deliver table dgram (bases xs)) (queues xs) _ _ _
      (route_one-deliver table dgram xs)
      (λ sent same.
        Agree-then (at_interface (length before) pop_datagram sent) (some (bases sent))
          (before ++ queue ∷ after) _ _ (deliver_all table queue)
          (at_interface-pop before queue dgram after sent (same ∙ e))
          (λ popped. route_queue-deliver_all table before queue after popped))

pub deliver_all-append :
    (table : List RouterEntry) (xs ys : List Ipv4Datagram) (ns : List NetworkInterface)
    → deliver_all table (xs ++ ys) ns
      ≡ elim (deliver_all table xs ns) [ none ↦ none | some sent ↦ deliver_all table ys sent ]
deliver_all-append table [] ys ns = refl
deliver_all-append table (dgram ∷ xs) ys ns = elim (Option-cases (deliver table dgram ns)) [
  | inl e ↦ rw (deliver_all, e) refl
  | inr (sent, e) ↦ rw (deliver_all, e) (deliver_all-append table xs ys sent)
]

pub get_elem?-queues :
    (before : List (List Ipv4Datagram)) (queue : List Ipv4Datagram)
    (after : List (List Ipv4Datagram)) (xs : List AsyncNetworkInterface)
    → queues xs ≡ before ++ queue ∷ after
    → (a : AsyncNetworkInterface) × (get_elem? xs (length before) ≡ some a)
      × (a.datagrams_out ≡ queue)
get_elem?-queues before queue after [] e =
    absurd (omega (arith, ap length e, length-append before (queue ∷ after)))
get_elem?-queues [] queue after (a ∷ xs) e = (a, refl, cc)
get_elem?-queues (q ∷ before) queue after (a ∷ xs) e = get_elem?-queues before queue after xs cc
