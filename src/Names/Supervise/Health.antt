-- ===== src/Names/Supervise/Health.antt =====
-- internal/names/forwarder.go, `supervise`: when the forwarder counts as healthy.
use goat_client.Prelude.{
  ℕ, suc, Bool, true, false, not, List, [], ◌∷◌, ◌==◌, if◌then◌else◌, ltb, ◌≡◌, refl, sym, subst,
  ap, ◌∙◌, arith, Bool-cases, inl, inr,
}
use goat_client.Names.Supervise.{
  Listener, serving, rebinding, Supervisor, ladder, differs, set_healthy, begin, Step, crashes,
  fails, binds, Reachable, at_start, after,
}

-- Healthy while it serves, and through the attempts before the ladder is exhausted.
abbrev pub counts_as_healthy : Listener → Bool
counts_as_healthy serving = true
counts_as_healthy (rebinding i) = ltb i ladder

-- The callback is called with `false` and `true` in turn, and last with the health as it is.
abbrev pub Alternate : Bool → List Bool → Type 0
Alternate h [] = h ≡ true
Alternate h (e ∷ es) = (e ≡ h) × Alternate (not h) es

pub record IsFaithful (s : Supervisor) : Type 0 where
  pub health : s.healthy ≡ counts_as_healthy s.listener
  pub told : Alternate s.healthy s.events

set_healthy-Alternate :
    (b : Bool) (s : Supervisor)
    → Alternate s.healthy s.events
    → Alternate b (set_healthy b s).events
unfolding set_healthy
set_healthy-Alternate b s h = go b s.healthy h
  where
    go :
        (b h : Bool)
        → Alternate h s.events
        → Alternate b
            (if differs h b
              then record s { healthy = b; events = b ∷ s.events }
              else record s { healthy = b }).events
    go true true a = a
    go true false a = (refl, a)
    go false true a = (refl, a)
    go false false a = a

set_healthy-healthy : (b : Bool) (s : Supervisor) → (set_healthy b s).healthy ≡ b
unfolding set_healthy
set_healthy-healthy b s = ground arith

set_healthy-listener : (s : Supervisor) → (set_healthy true s).listener ≡ s.listener
unfolding set_healthy
set_healthy-listener s = ground arith

begin-IsFaithful :
    (i : ℕ) (s : Supervisor)
    → Alternate s.healthy s.events
    → ((i == ladder) ≡ false → s.healthy ≡ ltb i ladder)
    → IsFaithful (begin i s)
unfolding begin
begin-IsFaithful i s a h = elim (Bool-cases (i == ladder)) [
  | inl e ↦ rw e (record {
    health = set_healthy-healthy false s ∙ ground (arith, e);
    told =
        subst (λ b. Alternate b (set_healthy false s).events) (sym (set_healthy-healthy false s))
          (set_healthy-Alternate false s a);
  })
  | inr e ↦ rw e (record { health = h e; told = a })
]

Step-IsFaithful : (s s' : Supervisor) → Step s s' → IsFaithful s → IsFaithful s'
Step-IsFaithful s s' (crashes _ e) f =
    begin-IsFaithful 0 s f.told (λ n. f.health ∙ ap counts_as_healthy e)
Step-IsFaithful s s' (fails _ i e) f =
    let was : s.healthy ≡ ltb i ladder = f.health ∙ ap counts_as_healthy e in
    begin-IsFaithful (suc i) s f.told (λ n. was ∙ ground (arith, n))
Step-IsFaithful s s' (binds _ i e) f =
    let back : Supervisor = record s { listener = serving } in
    record {
      health =
          set_healthy-healthy true back ∙ ap counts_as_healthy (sym (set_healthy-listener back));
      told =
          subst (λ b. Alternate b (set_healthy true back).events)
            (sym (set_healthy-healthy true back)) (set_healthy-Alternate true back f.told);
    }

-- In every state that the listener can reach, it counts as healthy exactly while it serves or before its
-- fifth attempt to bind has failed, and the callback was called with `false` and `true` in turn, last with
-- the health as it is.
pub Reachable-IsFaithful : (s : Supervisor) → Reachable s → IsFaithful s
Reachable-IsFaithful s at_start = record { health = refl; told = refl }
Reachable-IsFaithful s (after before _ r step) =
    Step-IsFaithful before s step (Reachable-IsFaithful before r)
