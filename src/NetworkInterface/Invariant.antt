-- ===== src/NetworkInterface/Invariant.antt =====
-- What every operation of libsponge/network_interface.cc keeps: datagrams wait for exactly the addresses
-- that are asked for, and these are unknown.

use sponge.Prelude.{
  ℕ, ◌<◌, ◌≡◌, refl, Bool, true, false, ◌||◌, none, List, [], ◌∷◌, ◌++◌, ◌==◌, if◌then◌else◌, arith,
  is_some,
}
use sponge.Prelude.Maps.{assign, erase, find}
use sponge.Prelude.Maps.Laws.{IsAbove, IsSorted, IsAbove-lt, IsAbove-IsSorted, find-erase}
use sponge.Ipv4.{Ipv4Datagram}
use sponge.NetworkInterface.{
  NetworkInterface, ArpEntry, arp_cleanup_interval_ms, init, expire_entries,
}
use sponge.NetworkInterface.Resend.{AllFresh, aged_all}
use sponge.NetworkInterface.Learning.{others, answered}

abbrev pub waits : ℕ → List (ℕ × Ipv4Datagram) → Bool
waits ip [] = false
waits ip ((hop, dgram) ∷ waiting) = ip == hop || waits ip waiting

pub record IsValid (n : NetworkInterface) : Type 0 where
  pub table : IsSorted n.arp_table
  pub sorted : IsSorted n.waiting_arp_response
  pub fresh : AllFresh n.waiting_arp_response
  pub asked : (ip : ℕ) → is_some (find ip n.waiting_arp_response) ≡ waits ip n.waiting_ip_response
  pub unknown : (ip : ℕ) → waits ip n.waiting_ip_response ≡ true → find ip n.arp_table ≡ none

pub init-IsValid : (mac : List ℕ) (ip : ℕ) → IsValid (init mac ip)
unfolding init find
init-IsValid mac ip = record {
  table = tt;
  sorted = tt;
  fresh = tt;
  asked = λ ip'. refl;
  unknown = λ ip' h. refl;
}

-- One more datagram at the end.
pub waits-append :
    (ip hop : ℕ) (dgram : Ipv4Datagram) (waiting : List (ℕ × Ipv4Datagram))
    → waits ip (waiting ++ ((hop, dgram) ∷ [])) ≡ (ip == hop || waits ip waiting)
waits-append ip hop dgram [] = refl
waits-append ip hop dgram ((hop', dgram') ∷ waiting) =
    ground (arith, waits-append ip hop dgram waiting)

pub waits-others :
    (ip src_ip : ℕ) (waiting : List (ℕ × Ipv4Datagram))
    → waits ip (others src_ip waiting) ≡ (if ip == src_ip then false else waits ip waiting)
waits-others ip src_ip [] = ground arith
waits-others ip src_ip ((hop, dgram) ∷ waiting) = ground (arith, waits-others ip src_ip waiting)

pub assign-AllFresh :
    (ip : ℕ) (asked : List (ℕ × ℕ)) → AllFresh asked → AllFresh (assign ip 0 asked)
unfolding assign
assign-AllFresh ip [] h = (omega arith, tt)
assign-AllFresh ip ((ip', since) ∷ asked) h = ground (arith, assign-AllFresh ip asked)

pub erase-AllFresh : (ip : ℕ) (asked : List (ℕ × ℕ)) → AllFresh asked → AllFresh (erase ip asked)
unfolding erase
erase-AllFresh ip [] h = tt
erase-AllFresh ip ((ip', since) ∷ asked) h = ground (arith, erase-AllFresh ip asked)

pub aged_all-AllFresh :
    (ms : ℕ) (asked : List (ℕ × ℕ))
    → ms < arp_cleanup_interval_ms
    → AllFresh asked
    → AllFresh (aged_all ms asked)
aged_all-AllFresh ms [] p h = tt
aged_all-AllFresh ms ((ip', since) ∷ asked) p h = ground (arith, aged_all-AllFresh ms asked)

pub find-aged_all :
    (ip ms : ℕ) (asked : List (ℕ × ℕ))
    → is_some (find ip (aged_all ms asked)) ≡ is_some (find ip asked)
unfolding find
find-aged_all ip ms [] = refl
find-aged_all ip ms ((ip', since) ∷ asked) = ground (arith, find-aged_all ip ms asked)

aged_all-IsAbove :
    (lo ms : ℕ) (asked : List (ℕ × ℕ)) → IsAbove lo asked → IsAbove lo (aged_all ms asked)
aged_all-IsAbove lo ms [] h = tt
aged_all-IsAbove lo ms ((ip', since) ∷ asked) h = (h.0, aged_all-IsAbove ip' ms asked (h.1))

pub aged_all-IsSorted :
    (ms : ℕ) (asked : List (ℕ × ℕ)) → IsSorted asked → IsSorted (aged_all ms asked)
aged_all-IsSorted ms [] h = tt
aged_all-IsSorted ms ((ip', since) ∷ asked) h = aged_all-IsAbove ip' ms asked h

pub find-expire_entries :
    (ip ms : ℕ) (table : List (ℕ × ArpEntry))
    → find ip table ≡ none
    → find ip (expire_entries ms table) ≡ none
unfolding find expire_entries
find-expire_entries ip ms [] h = refl
find-expire_entries ip ms ((ip', entry) ∷ table) h = ground (arith, find-expire_entries ip ms table)

-- Whether or not the loop turns, the address is not asked for afterwards.
find-answered :
    (ip src_ip : ℕ) (waiting : List (ℕ × Ipv4Datagram)) (asked : List (ℕ × ℕ))
    → IsSorted asked
    → is_some (find ip asked) ≡ waits ip waiting
    → is_some (find ip (answered src_ip waiting asked))
      ≡ (if ip == src_ip then false else is_some (find ip asked))
find-answered ip src_ip [] asked s e = ground (arith, e)
find-answered ip src_ip (d ∷ waiting) asked s e = rw (find-erase ip src_ip asked s) (ground arith)

IsAbove-expire_entries :
    (lo ms : ℕ) (table : List (ℕ × ArpEntry))
    → IsAbove lo table
    → IsAbove lo (expire_entries ms table)
unfolding expire_entries
IsAbove-expire_entries lo ms [] h = tt
IsAbove-expire_entries lo ms ((ip, entry) ∷ table) h = ground (
  arith,
  IsAbove-expire_entries ip ms table (h.1),
  IsAbove-lt ip lo (expire_entries ms table) (h.0),
)

pub expire_entries-IsSorted :
    (ms : ℕ) (table : List (ℕ × ArpEntry)) → IsSorted table → IsSorted (expire_entries ms table)
unfolding expire_entries
expire_entries-IsSorted ms [] h = tt
expire_entries-IsSorted ms ((ip, entry) ∷ table) h =
    ground
      (arith, IsAbove-expire_entries ip ms table h, IsAbove-IsSorted ip (expire_entries ms table))
