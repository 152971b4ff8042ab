-- ===== src/EventLoop/Prepared.antt =====
-- What a call of wait_next_event in libsponge/util/eventloop.cc does to each rule before poll(2).
use mathlib.Core.Bool.{false≢true}
use mathlib.Core.Option.{none-ne-some, some-injective}
use sponge.Prelude.{
  ◌≡◌, ◌⊎◌, inl, inr, refl, Bool, true, false, ◌&&◌, ◌||◌, some, List, [], ◌∷◌, length, suc,
  Option-cases, ap, sym, ◌∙◌, subst,
}
use sponge.EventLoop.{Direction, Rule, is_input, set_up}

-- What a Boolean test decides.
abbrev pub Decides : Type 0 → Bool → Type 0
Decides P b = (P × (b ≡ true)) ⊎ (¬ P × (b ≡ false))

module _ {ℓ} {S : Type ℓ} where
  -- The descriptor of a rule for input is at its end, or that of any rule is closed.
  abbrev pub IsEnded : Rule S → S → Type 0
  IsEnded r s = ((r.direction ≡ Direction.input) × (r.eof s ≡ true)) ⊎ (r.closed s ≡ true)

  IsEnded-test :
      (r : Rule S) (s : S) → Decides (IsEnded r s) (is_input r.direction && r.eof s || r.closed s)
  IsEnded-test r s = go r.direction (r.eof s) (r.closed s)
    where
      go :
          (d : Direction) (e c : Bool)
          → Decides (((d ≡ Direction.input) × (e ≡ true)) ⊎ (c ≡ true)) (is_input d && e || c)
      go Direction.input true c = inl (inl (refl, refl), refl)
      go Direction.input false true = inl (inr refl, refl)
      go Direction.input false false =
          inr ((λ p. elim p [ inl q ↦ false≢true q.1 | inr q ↦ false≢true q ]), refl)
      go Direction.output e true = inl (inr refl, refl)
      go Direction.output e false =
          inr ((λ p. elim p [ inl q ↦ false≢true (ap is_input q.0) | inr q ↦ false≢true q ]), refl)

  -- Each rule in turn before poll(2): one at its end is cancelled and dropped, any other stays, with
  -- whether it has an interest now.
  pub data Prepared : List (Rule S) → S → S → List (Rule S) → List Bool → Type ℓ where
    none_left : (s : S) → Prepared [] s s [] []
    ended :
        (r : Rule S) (rules kept : List (Rule S)) (asks : List Bool) (s s' s'' : S)
        → IsEnded r s
        → r.cancel s ≡ some s'
        → Prepared rules s' s'' kept asks
        → Prepared (r ∷ rules) s s'' kept asks
    stays :
        (r : Rule S) (rules kept : List (Rule S)) (asks : List Bool) (s s' : S)
        → ¬ IsEnded r s
        → Prepared rules s s' kept asks
        → Prepared (r ∷ rules) s s' (r ∷ kept) (r.interest s ∷ asks)

  pub set_up-Prepared :
      (rules : List (Rule S)) (s s' : S) (kept : List (Rule S)) (asks : List Bool)
      → set_up rules s ≡ some (s', kept, asks)
      → Prepared rules s s' kept asks
  unfolding set_up
  set_up-Prepared [] s s' kept asks e =
      subst (λ (p : S × List (Rule S) × List Bool). Prepared [] s p.0 p.1 p.2)
        (some-injective (s, [], []) (s', kept, asks) e) (Prepared.none_left s)
  set_up-Prepared (r ∷ rules) s s' kept asks e = elim (IsEnded-test r s) [
    | inl (over, gone) ↦ elim (Option-cases (r.cancel s)) [
      | inl throws ↦
          absurd (none-ne-some (s', kept, asks) (sym (rw (set_up, gone, throws) refl) ∙ e))
      | inr (t, cancelled) ↦
          Prepared.ended r rules kept asks s t s' over cancelled
            (set_up-Prepared rules t s' kept asks (sym (rw (set_up, gone, cancelled) refl) ∙ e))
    ]
    | inr (going, alive) ↦ elim (Option-cases (set_up rules s)) [
      | inl none_ ↦
          absurd (none-ne-some (s', kept, asks) (sym (rw (set_up, alive, none_) refl) ∙ e))
      | inr ((t, stay, wants), rest) ↦
          subst (λ (p : S × List (Rule S) × List Bool). Prepared (r ∷ rules) s p.0 p.1 p.2)
            (some-injective (t, r ∷ stay, r.interest s ∷ wants) (s', kept, asks)
              (sym (rw (set_up, alive, rest) refl) ∙ e))
            (Prepared.stays r rules stay wants s t going
              (set_up-Prepared rules s t stay wants rest))
    ]
  ]

  -- A rule stays with what it asks for, so there is one of these for each.
  pub Prepared-length :
      {rules kept : List (Rule S)} {s s' : S} {asks : List Bool}
      → Prepared rules s s' kept asks
      → length asks ≡ length kept
  Prepared-length (Prepared.none_left s) = refl
  Prepared-length (Prepared.ended r rules kept asks s s' s'' o c p) = Prepared-length p
  Prepared-length (Prepared.stays r rules kept asks s s' n p) = ap suc (Prepared-length p)
