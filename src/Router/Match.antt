-- ===== src/Router/Match.antt =====
-- The route that libsponge/router.cc chooses is the first of those with the longest prefix.
use sponge.Prelude.{
  subst, ℕ, suc, ◌-◌, ◌≤◌, ◌<◌, ◌≡◌, ◌⊎◌, inl, inr, refl, true, false, Option, none, some, List, [],
  ◌∷◌, ◌++◌, ◌==◌, Bool-cases, tests, arith, if_true, if_false, if_elim, ◌||◌, if◌then◌else◌, IsU32,
  ap, ◌∙◌, append_assoc, append-nil, Option-cases, ltb→lt,
}
use sponge.Ipv4.{Ipv4Datagram}
use sponge.Router.{RouterEntry, fits, scan, longer, route_one_datagram}
use sponge.Router.Mask.{Matches, fits-Matches}

abbrev pub AllPrefixes : List RouterEntry → Type 0
AllPrefixes [] = Unit {0}
AllPrefixes (e ∷ table) = IsU32 e.route_prefix × AllPrefixes table

-- Every entry that matches has a prefix below `n`.
abbrev pub Shorter : ℕ → ℕ → List RouterEntry → Type 0
Shorter dest n [] = Unit {0}
Shorter dest n (e ∷ table) = (¬ Matches dest e ⊎ (e.prefix_length < n)) × Shorter dest n table

-- No entry matches, or the chosen one does, stands before all others that have as long a prefix, and
-- none has a longer one.
abbrev pub IsBest : ℕ → List RouterEntry → Option RouterEntry → Type 0
IsBest dest table none = Shorter dest 0 table
IsBest dest table (some e) =
    Matches dest e
    × (before : List RouterEntry) × (after : List RouterEntry) × (table ≡ before ++ e ∷ after)
    × Shorter dest e.prefix_length before
    × Shorter dest (suc e.prefix_length) after

Shorter-append :
    (dest n : ℕ) (xs ys : List RouterEntry)
    → Shorter dest n xs
    → Shorter dest n ys
    → Shorter dest n (xs ++ ys)
Shorter-append dest n [] ys p q = q
Shorter-append dest n (x ∷ xs) ys p q = (p.0, Shorter-append dest n xs ys p.1 q)

Shorter-le : (dest n m : ℕ) (xs : List RouterEntry) → n ≤ m → Shorter dest n xs → Shorter dest m xs
Shorter-le dest n m [] h p = tt
Shorter-le dest n m (x ∷ xs) h p =
    (elim p.0 [ inl a ↦ inl a | inr b ↦ inr (omega arith) ], Shorter-le dest n m xs h p.1)

-- Another entry at the end that does not match, or is no longer than the best one.
keep-IsBest :
    (dest : ℕ) (e : RouterEntry) (best : Option RouterEntry) (table : List RouterEntry)
    → ¬ Matches dest e ⊎ (longer e best ≡ false)
    → IsBest dest table best
    → IsBest dest (table ++ e ∷ []) best
keep-IsBest dest e none table c b =
    Shorter-append dest 0 table (e ∷ []) b (elim c [ inl a ↦ inl a | inr q ↦ inl (λ _. cc) ], tt)
keep-IsBest dest e (some f) table c b =
    let (m, before, after, split, left, right) = b in
    (
      m,
      before,
      after ++ e ∷ [],
      ap (λ t. t ++ e ∷ []) split ∙ append_assoc before (f ∷ after) (e ∷ []),
      left,
      Shorter-append dest _ after (e ∷ []) right
          (elim c [ inl a ↦ inl a | inr q ↦ inr (omega tests) ], tt),
    )

-- An entry at the end that matches and is longer than the best one so far.
take-IsBest :
    (dest : ℕ) (e : RouterEntry) (best : Option RouterEntry) (table : List RouterEntry)
    → Matches dest e
    → longer e best ≡ true
    → IsBest dest table best
    → IsBest dest (table ++ e ∷ []) (some e)
take-IsBest dest e none table m c b =
    (m, table, [], refl, Shorter-le dest 0 _ table (omega arith) b, tt)
take-IsBest dest e (some f) table m c b =
    let (_, before, after, split, left, right) = b in
    let less = ltb→lt f.prefix_length e.prefix_length c in
    let all =
      Shorter-append dest e.prefix_length before (f ∷ after)
        (Shorter-le dest f.prefix_length e.prefix_length before (omega arith) left)
        (inr less, Shorter-le dest (suc f.prefix_length) e.prefix_length after less right) in
    (m, table, [], refl, rw split all, tt)

step-IsBest :
    (dest : ℕ) (e : RouterEntry) (best : Option RouterEntry) (table : List RouterEntry)
    → IsU32 dest
    → IsU32 e.route_prefix
    → IsBest dest table best
    → IsBest dest
        (table ++ e ∷ [])
        (if fits dest e then (if longer e best then some e else best) else best)
step-IsBest dest e best table d p b =
    let table' = table ++ e ∷ [] in
    elim (fits-Matches dest e d p) [
      | inl (q, m) ↦ rw q (
          if_elim (IsBest dest table') (longer e best) (some e) best
            (λ l. take-IsBest dest e best table m l b)
            (λ l. keep-IsBest dest e best table (inr l) b))
      | inr (q, n) ↦ rw q (keep-IsBest dest e best table (inl n) b)
    ]

scan-IsBest :
    (dest : ℕ) (best : Option RouterEntry) (done table : List RouterEntry)
    → IsU32 dest
    → AllPrefixes table
    → IsBest dest done best
    → IsBest dest (done ++ table) (scan dest best table)
unfolding scan
scan-IsBest dest best done [] d p b = rw (append-nil done) b
scan-IsBest dest best done (e ∷ table) d p b =
    let best' = if fits dest e then (if longer e best then some e else best) else best in
    rw (← append_assoc done (e ∷ []) table)
      (scan-IsBest dest best' (done ++ e ∷ []) table d p.1 (step-IsBest dest e best done d p.0 b))

-- The datagram is dropped if its time to live is at most one, or if no route matches its destination.
-- Otherwise it goes, with the time to live less by one, to the interface and the next hop of a route
-- that matches, whose prefix is no shorter than that of any other, and the first such in the table; a
-- route without a next hop means the destination itself.
pub route_one_datagram_lem :
    (table : List RouterEntry) (dgram : Ipv4Datagram)
    → IsU32 dgram.header.dst
    → AllPrefixes table
    → let dest = dgram.header.dst in
      let r = route_one_datagram table dgram in
      ((dgram.header.ttl ≤ 1) × (r ≡ none))
      ⊎ (((1 < dgram.header.ttl) × IsBest dest table none × (r ≡ none))
          ⊎ ((1 < dgram.header.ttl)
              × ((e : RouterEntry) × IsBest dest table (some e)
                  × (r
                      ≡ some (record {
                        interface_num = e.interface_num;
                        next_hop = elim e.next_hop [ none ↦ dest | some hop ↦ hop ];
                        dgram = record dgram {
                          header = record (dgram.header) { ttl = dgram.header.ttl - 1 };
                        };
                      })))))
unfolding route_one_datagram
route_one_datagram_lem table dgram d p =
    let ttl = dgram.header.ttl in
    let best = scan-IsBest dgram.header.dst none [] table d p tt in
    elim (Bool-cases (ttl == 0 || (ttl - 1) == 0)) [
      | inl e ↦ inl (ground arith, if_true _ _ _ e)
      | inr e ↦
          let alive : 1 < ttl = ground arith in
          elim (Option-cases (scan dgram.header.dst none table)) [
            | inl s ↦ inr (
                inl (
                  alive,
                  subst (IsBest dgram.header.dst table) s best,
                  if_false _ _ _ e ∙ rw s refl,
                ))
            | inr (f, s) ↦ inr (
                inr (
                  alive,
                  (f, subst (IsBest dgram.header.dst table) s best, if_false _ _ _ e ∙ rw s refl),
                ))
          ]
    ]
