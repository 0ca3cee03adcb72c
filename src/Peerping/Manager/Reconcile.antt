-- ===== src/Peerping/Manager/Reconcile.antt =====
-- internal/peerping/manager.go, `SetTargets`: the samplers are those of the targets.
use goat_client.Prelude.{
  ℕ, ◌+◌, Bool, true, false, not, Option, none, some, List, [], ◌∷◌, Str, same, same_iff, is_some,
  length, ◌||◌, ◌&&◌, if◌then◌else◌, ◌≡◌, refl, sym, ap, ap₂, ◌∙◌, arith, Bool-cases, inl, inr,
  length-map,
}
use goat_client.Prelude.Assoc.{lookup, insert, lookup-insert}
use goat_client.Peerping.Ring.{Sample}
use goat_client.Peerping.Manager.{
  Target, ManagerConfig, PeerRunner, Manager, new_manager, listen, start, wanted_from, retain, gone,
  stop_gone, runner, spawn, start_new, set_targets, stop, sample_if, sampled,
}

-- The last of the targets with an address, and none for the empty address.
pub last_target : Str → List Target → Option Target → Option Target
last_target ip [] before = before
last_target ip (t ∷ ts) before =
    last_target ip ts (if same t.ip ip && not (same ip []) then some t else before)

wanted_from-last_target :
    (ip : Str) (ts : List Target) (w : List (Str × Target))
    → lookup ip (wanted_from w ts) ≡ last_target ip ts (lookup ip w)
unfolding wanted_from last_target
wanted_from-last_target ip [] w = refl
wanted_from-last_target ip (t ∷ ts) w =
    wanted_from-last_target ip ts (if same t.ip [] then w else insert t.ip t w)
    ∙ ap (last_target ip ts) (step (same t.ip []) refl)
  where
    step :
        (b : Bool)
        → same t.ip [] ≡ b
        → lookup ip (if b then w else insert t.ip t w)
          ≡ (if same t.ip ip && not (same ip []) then some t else lookup ip w)
    step true e = ground (arith, same_iff t.ip [], same_iff t.ip ip, same_iff ip [])
    step false e =
        ground
          (arith, lookup-insert t.ip ip t w, same_iff t.ip [], same_iff t.ip ip, same_iff ip [])

retain-lookup :
    (ip : Str) (w : List (Str × Target)) (ps : List (Str × PeerRunner))
    → lookup ip (retain w ps) ≡ (if is_some (lookup ip w) then lookup ip ps else none)
unfolding lookup retain
retain-lookup ip w [] = ground arith
retain-lookup ip w ((j, pr) ∷ ps) = ground (
  arith,
  retain-lookup ip w ps,
  λ (e : same j ip ≡ true). ap (λ k. is_some (lookup k w)) ((same_iff j ip).0 e),
)

length-retain :
    (w : List (Str × Target)) (ps : List (Str × PeerRunner))
    → length (retain w ps) + gone w ps ≡ length ps
unfolding retain gone
length-retain w [] = refl
length-retain w ((j, pr) ∷ ps) = ground (arith, length-retain w ps)

-- What `SetTargets` makes of a peer: no target, no sampler; a sampler that runs stays as it is; and
-- a new one has an empty ring.
abbrev pub reconciled : ℕ → Option Target → Option PeerRunner → Option PeerRunner
reconciled history none pr = none
reconciled history (some t) (some pr) = some pr
reconciled history (some t) none = some (runner history t)

-- The samplers that are not cancelled are as many as the peers, and once stopped there is none.
pub record IsValid (m : Manager) : Type 0 where
  pub live : m.spawned ≡ m.cancelled + length m.peers
  pub none_after_stop : m.stopped ≡ true → length m.peers ≡ 0

abbrev or_new : ℕ → Option Target → Option PeerRunner → Option PeerRunner
or_new history t (some pr) = some pr
or_new history none none = none
or_new history (some t) none = some (runner history t)

unchanged : (history : ℕ) (o : Option PeerRunner) → o ≡ or_new history none o
unchanged history none = refl
unchanged history (some pr) = refl

spawn-lookup :
    (ip j : Str) (t : Target) (m : Manager)
    → lookup ip (spawn j t (lookup j m.peers) m).peers
      ≡ or_new m.cfg.history (if same j ip then some t else none) (lookup ip m.peers)
unfolding lookup
spawn-lookup ip j t m = go (lookup j m.peers) refl
  where
    go :
        (o : Option PeerRunner)
        → lookup j m.peers ≡ o
        → lookup ip (spawn j t o m).peers
          ≡ or_new m.cfg.history (if same j ip then some t else none) (lookup ip m.peers)
    go (some pr) e = elim (Bool-cases (same j ip)) [
      | inl k ↦
          let found : lookup ip m.peers ≡ some pr =
            ap (λ i. lookup i m.peers) (sym ((same_iff j ip).0 k)) ∙ e in
          rw (found)
      | inr k ↦ rw k (unchanged m.cfg.history (lookup ip m.peers))
    ]
    go none e = elim (Bool-cases (same j ip)) [
      | inl k ↦
          let absent : lookup ip m.peers ≡ none =
            ap (λ i. lookup i m.peers) (sym ((same_iff j ip).0 k)) ∙ e in
          rw (k, absent)
      | inr k ↦ rw k (unchanged m.cfg.history (lookup ip m.peers))
    ]

spawn-cfg :
    (j : Str) (t : Target) (o : Option PeerRunner) (m : Manager) → (spawn j t o m).cfg ≡ m.cfg
spawn-cfg j t none m = refl
spawn-cfg j t (some pr) m = refl

start_new-lookup :
    (ip : Str) (w : List (Str × Target)) (m : Manager)
    → lookup ip (start_new w m).peers ≡ or_new m.cfg.history (lookup ip w) (lookup ip m.peers)
unfolding start_new lookup
start_new-lookup ip [] m = unchanged m.cfg.history (lookup ip m.peers)
start_new-lookup ip ((j, t) ∷ w) m =
    start_new-lookup ip w (spawn j t (lookup j m.peers) m)
    ∙ ap₂ (λ c o. or_new c.history (lookup ip w) o) (spawn-cfg j t (lookup j m.peers) m)
        (spawn-lookup ip j t m)
    ∙ merge (same j ip) (lookup ip w) (lookup ip m.peers)
  where
    merge :
        (b : Bool) (o : Option Target) (p : Option PeerRunner)
        → or_new m.cfg.history o (or_new m.cfg.history (if b then some t else none) p)
          ≡ or_new m.cfg.history (if b then some t else o) p
    merge true o none = refl
    merge true o (some pr) = refl
    merge false o none = refl
    merge false o (some pr) = refl

start_new-live :
    (w : List (Str × Target)) (m : Manager)
    → m.spawned ≡ m.cancelled + length m.peers
    → (start_new w m).spawned ≡ (start_new w m).cancelled + length (start_new w m).peers
unfolding start_new
start_new-live [] m h = h
start_new-live ((j, t) ∷ w) m h =
    start_new-live w (spawn j t (lookup j m.peers) m) (one (lookup j m.peers))
  where
    one :
        (o : Option PeerRunner)
        → (spawn j t o m).spawned ≡ (spawn j t o m).cancelled + length (spawn j t o m).peers
    one none = omega arith
    one (some pr) = h

pub start_new-stopped :
    (w : List (Str × Target)) (m : Manager) → (start_new w m).stopped ≡ m.stopped
unfolding start_new
start_new-stopped [] m = refl
start_new-stopped ((j, t) ∷ w) m =
    start_new-stopped w (spawn j t (lookup j m.peers) m) ∙ kept (lookup j m.peers)
  where
    kept : (o : Option PeerRunner) → (spawn j t o m).stopped ≡ m.stopped
    kept none = refl
    kept (some pr) = refl

-- One call of the manager, or one sample of a sampler.
pub data Op : Type 0 where
  starts : Bool → Op
  sets : List Target → Op
  samples : Str → Sample → Op
  stops : Op

unfoldable pub apply : Op → Manager → Manager
unfolding start set_targets stop sampled
apply (starts bind_fails) m = (start bind_fails m).0
apply (sets ts) m = set_targets ts m
apply (samples ip s) m = sampled ip s m
apply stops m = stop m

unfoldable pub run : List Op → Manager → Manager
run [] m = m
run (o ∷ os) m = run os (apply o m)

pub set_targets-IsValid : (ts : List Target) (m : Manager) → IsValid m → IsValid (set_targets ts m)
unfolding set_targets stop_gone
set_targets-IsValid ts m v = elim (Bool-cases (not m.started || m.stopped)) [
  | inl idle ↦ rw idle v
  | inr runs ↦ rw runs (reconciles (ground arith))
]
  where
    w : List (Str × Target)
    w = wanted_from [] ts

    reconciles : m.stopped ≡ false → IsValid (start_new w (stop_gone w m))
    reconciles e = record {
      live = start_new-live w (stop_gone w m) (omega (arith, v.live, length-retain w m.peers));
      none_after_stop = (λ s. absurd (cc (start_new-stopped w (stop_gone w m))));
    }

pub start-IsValid : (bind_fails : Bool) (m : Manager) → IsValid m → IsValid (start bind_fails m).0
unfolding start
start-IsValid b m v = go m.started (same m.cfg.bind_addr []) b
  where
    go :
        (p q r : Bool)
        → IsValid
            (if p
              then (m, true)
              else if q
              then (record m { started = true }, false)
              else listen r (record m { started = true })).0
    go true q r = v
    go false true r = record { live = v.live; none_after_stop = v.none_after_stop }
    go false false true = record { live = v.live; none_after_stop = v.none_after_stop }
    go false false false = record { live = v.live; none_after_stop = v.none_after_stop }

pub stop-IsValid : (m : Manager) → IsValid m → IsValid (stop m)
unfolding stop
stop-IsValid m v = go m.stopped
  where
    emptied : Manager
    emptied = record m {
      stopped = true;
      conn = false;
      peers = [];
      cancelled = m.cancelled + length m.peers;
    }

    go : (b : Bool) → IsValid (if b then m else emptied)
    go true = v
    go false = record { live = omega (arith, v.live); none_after_stop = (λ s. refl) }

sampled-IsValid : (ip : Str) (s : Sample) (m : Manager) → IsValid m → IsValid (sampled ip s m)
unfolding sampled
sampled-IsValid ip s m v = record {
  live = v.live ∙ ap (λ n. m.cancelled + n) (sym (length-map (sample_if ip s) m.peers));
  none_after_stop = (λ e. length-map (sample_if ip s) m.peers ∙ v.none_after_stop e);
}

-- The last target of an address, and what runs for it.
pub set_targets-lookup :
    (ts : List Target) (m : Manager)
    → m.started ≡ true
    → m.stopped ≡ false
    → (ip : Str)
    → lookup ip (set_targets ts m).peers
      ≡ reconciled m.cfg.history (last_target ip ts none) (lookup ip m.peers)
unfolding set_targets stop_gone lookup
set_targets-lookup ts m started running ip =
    ap (λ b. lookup ip (if b then m else start_new w (stop_gone w m)).peers) active
    ∙ start_new-lookup ip w (stop_gone w m)
    ∙ ap (or_new m.cfg.history (lookup ip w)) (retain-lookup ip w m.peers)
    ∙ merged (lookup ip w) (lookup ip m.peers)
    ∙ ap (λ t. reconciled m.cfg.history t (lookup ip m.peers)) (wanted_from-last_target ip ts [])
  where
    w : List (Str × Target)
    w = wanted_from [] ts

    active : (not m.started || m.stopped) ≡ false
    active = ground arith

    merged :
        (t : Option Target) (p : Option PeerRunner)
        → or_new m.cfg.history t (if is_some t then p else none) ≡ reconciled m.cfg.history t p
    merged none p = refl
    merged (some t) none = refl
    merged (some t) (some pr) = refl

apply-IsValid : (o : Op) (m : Manager) → IsValid m → IsValid (apply o m)
unfolding apply
apply-IsValid (starts b) m v = start-IsValid b m v
apply-IsValid (sets ts) m v = set_targets-IsValid ts m v
apply-IsValid (samples ip s) m v = sampled-IsValid ip s m v
apply-IsValid stops m v = stop-IsValid m v

run-IsValid : (os : List Op) (m : Manager) → IsValid m → IsValid (run os m)
unfolding run
run-IsValid [] m v = v
run-IsValid (o ∷ os) m v = run-IsValid os (apply o m) (apply-IsValid o m v)

-- After any calls of a new manager and any samples, the samplers that run are as many as its peers.
-- Between `Start` and `Stop` a further `SetTargets` keeps that so and makes the peers those of the
-- targets, the last of an address counting and the empty address none: a peer that stays keeps its
-- sampler and its ring, a new one starts with an empty ring, and no other is left.
pub set_targets-reconciles :
    (cfg : ManagerConfig) (os : List Op) (ts : List Target)
    → (run os (new_manager cfg)).started ≡ true
    → (run os (new_manager cfg)).stopped ≡ false
    → IsValid (set_targets ts (run os (new_manager cfg)))
      × ((ip : Str)
          → lookup ip (set_targets ts (run os (new_manager cfg))).peers
            ≡ reconciled
                (run os (new_manager cfg)).cfg.history
                (last_target ip ts none)
                (lookup ip (run os (new_manager cfg)).peers))
unfolding new_manager
set_targets-reconciles cfg os ts started running = (
  set_targets-IsValid ts m
      (run-IsValid os (new_manager cfg) (record { live = refl; none_after_stop = (λ e. refl) })),
  set_targets-lookup ts m started running,
)
  where
    m : Manager
    m = run os (new_manager cfg)
