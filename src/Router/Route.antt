-- ===== src/Router/Route.antt =====
-- The whole of `route` in libsponge/router.cc.

use sponge.Prelude.{
  suc, ◌≡◌, ◌⊎◌, refl, none, some, List, [], ◌∷◌, ◌++◌, length, inl, inr, sym, ◌∙◌, subst,
  append_assoc, arith, length-append,
}
use sponge.Ipv4.{Ipv4Datagram}
use sponge.Router.{RouterEntry}
use sponge.Router.Interfaces.{AsyncNetworkInterface, Router, route_queue, route_interfaces, route}
use sponge.Router.Delivered.{
  Agree, Agree-cases, Agree-then, bases, queues, all_of, emptied, deliver_all, deliver_all-append,
  get_elem?-queues, route_queue-deliver_all,
}

route_interfaces-deliver_all :
    (table : List RouterEntry) (before rest : List (List Ipv4Datagram))
    (xs : List AsyncNetworkInterface)
    → queues xs ≡ before ++ rest
    → Agree
        (route_interfaces table (length before) (length rest) xs)
        (deliver_all table (all_of rest) (bases xs))
        (before ++ emptied rest)
unfolding route_interfaces
route_interfaces-deliver_all table before [] xs e = (refl, e)
route_interfaces-deliver_all table before (queue ∷ rest) xs e =
    let (a, found, own) = get_elem?-queues before queue rest xs e in
    let count : length (before ++ ([] ∷ [])) ≡ suc (length before) =
      omega (arith, length-append before ([] ∷ [])) in
    rw (route_interfaces, found, own, deliver_all-append table queue (all_of rest) (bases xs))
      (Agree-then (route_queue table (length before) queue xs) (deliver_all table queue (bases xs))
        (before ++ [] ∷ rest) _ _ (deliver_all table (all_of rest))
        (route_queue-deliver_all table before queue rest xs e)
        (λ routed same.
          subst
            (λ i.
              Agree (route_interfaces table i (length rest) routed)
                (deliver_all table (all_of rest) (bases routed)) (before ++ emptied (queue ∷ rest)))
            count
            (subst
              (Agree (route_interfaces table (length (before ++ ([] ∷ []))) (length rest) routed)
                (deliver_all table (all_of rest) (bases routed)))
              (append_assoc before ([] ∷ []) (emptied rest))
              (route_interfaces-deliver_all table (before ++ ([] ∷ [])) rest routed
                (same ∙ sym (append_assoc before ([] ∷ []) rest))))))

length-queues : (xs : List AsyncNetworkInterface) → length (queues xs) ≡ length xs
length-queues [] = refl
length-queues (a ∷ xs) = omega (arith, length-queues xs)

-- route gives every datagram that its interfaces have received to route_one_datagram and what
-- that chooses to send_datagram of the interface, interface by interface and in the order in
-- which they came, and leaves the queues empty and the table as it was; it throws exactly if one
-- of these calls does, for an interface that does not exist or a datagram that does not
-- serialize.
pub route_lem :
    (r : Router)
    → ((route r ≡ none)
        × (deliver_all r.router_table (all_of (queues r.interfaces)) (bases r.interfaces) ≡ none))
      ⊎ ((r' : Router) × (route r ≡ some r')
          × (deliver_all r.router_table (all_of (queues r.interfaces)) (bases r.interfaces)
              ≡ some (bases r'.interfaces))
          × (r'.router_table ≡ r.router_table)
          × (queues r'.interfaces ≡ emptied (queues r.interfaces)))
unfolding route
route_lem r =
    let all : Agree (route_interfaces r.router_table 0 (length r.interfaces) r.interfaces)
        (deliver_all r.router_table (all_of (queues r.interfaces)) (bases r.interfaces))
        (emptied (queues r.interfaces)) =
      subst
        (λ n.
          Agree (route_interfaces r.router_table 0 n r.interfaces)
            (deliver_all r.router_table (all_of (queues r.interfaces)) (bases r.interfaces))
            (emptied (queues r.interfaces)))
        (length-queues r.interfaces)
        (route_interfaces-deliver_all r.router_table [] (queues r.interfaces) r.interfaces refl) in
    elim (Agree-cases _ _ _ all) [
      | inl (failed, fails) ↦ inl (rw (route, failed) refl, fails)
      | inr (xs, done, same, empty) ↦
          inr (record r { interfaces = xs }, rw (route, done) refl, same, refl, empty)
    ]
