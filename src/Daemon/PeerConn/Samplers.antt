-- ===== src/Daemon/PeerConn/Samplers.antt =====
-- internal/daemon/daemon.go, `runPeerConn`: the samplers of a manager that is fed, started or stopped.
use goat_client.Prelude.{
  ℕ, Bool, true, false, not, Option, none, some, List, [], ◌∷◌, Str, same, is_some, ◌||◌, All, ◌≡◌,
  refl, ap, ◌∙◌, arith, if◌then◌else◌,
}
use goat_client.Prelude.Assoc.{lookup}
use goat_client.Innermesh.Peers.{PeerStatus}
use goat_client.Peerping.Manager.{
  Target, ManagerConfig, PeerRunner, Manager, new_manager, listen, start, stop, set_targets,
  start_new, stop_gone, spawn, wanted_from,
}
use goat_client.Peerping.Manager.Reconcile.{
  IsValid, last_target, reconciled, set_targets-IsValid, start_new-stopped, set_targets-lookup,
}
use goat_client.Daemon.PeerConn.{PeerConn, targets_of, feed}

-- A manager between its `Start` and its `Stop`, with as many samplers as peers.
pub record IsRunning (m : Manager) : Type 0 where
  pub started : m.started ≡ true
  pub not_stopped : m.stopped ≡ false
  pub valid : IsValid m

-- One that was stopped: every sampler that it started is cancelled.
pub record IsOver (m : Manager) : Type 0 where
  pub stopped : m.stopped ≡ true
  pub all_cancelled : m.spawned ≡ m.cancelled

abbrev pub HasRunning : Option Manager → Type 0
HasRunning none = Unit {0}
HasRunning (some m) = IsRunning m

pub record IsSound (st : PeerConn) : Type 0 where
  pub running : HasRunning st.ctrl
  pub over : All IsOver st.stopped

start_new-started : (w : List (Str × Target)) (m : Manager) → (start_new w m).started ≡ m.started
unfolding start_new
start_new-started [] m = refl
start_new-started ((j, x) ∷ w) m =
    start_new-started w (spawn j x (lookup j m.peers) m) ∙ kept (lookup j m.peers)
  where
    kept : (o : Option PeerRunner) → (spawn j x o m).started ≡ m.started
    kept none = refl
    kept (some pr) = refl

pub set_targets-IsRunning :
    (ts : List Target) (m : Manager) → IsRunning m → IsRunning (set_targets ts m)
unfolding set_targets stop_gone
set_targets-IsRunning ts m r = record {
  started = go (not m.started || m.stopped);
  not_stopped = still (not m.started || m.stopped);
  valid = set_targets-IsValid ts m r.valid;
}
  where
    w : List (Str × Target)
    w = wanted_from [] ts

    go : (b : Bool) → (if b then m else start_new w (stop_gone w m)).started ≡ true
    go true = r.started
    go false = start_new-started w (stop_gone w m) ∙ r.started

    still : (b : Bool) → (if b then m else start_new w (stop_gone w m)).stopped ≡ false
    still true = r.not_stopped
    still false = start_new-stopped w (stop_gone w m) ∙ r.not_stopped

-- A new manager that starts without an error runs.
pub start-IsRunning :
    (b : Bool) (c : ManagerConfig)
    → (start b (new_manager c)).1 ≡ false
    → IsRunning (start b (new_manager c)).0
unfolding start new_manager
start-IsRunning b c h = go (same c.bind_addr []) b h
  where
    blank : Manager
    blank = record (new_manager c) { started = true }

    none_yet : IsValid blank
    none_yet = record { live = refl; none_after_stop = (λ e. refl) }

    go :
        (q r : Bool)
        → (if q then (blank, false) else listen r blank).1 ≡ false
        → IsRunning (if q then (blank, false) else listen r blank).0
    go true r e = record { started = refl; not_stopped = refl; valid = none_yet }
    go false true e = absurd (cc)
    go false false e = record {
      started = refl;
      not_stopped = refl;
      valid = record { live = refl; none_after_stop = (λ x. refl) };
    }

pub stop-IsOver : (m : Manager) → IsRunning m → IsOver (stop m)
unfolding stop
stop-IsOver m r = rw r.not_stopped (record { stopped = refl; all_cancelled = r.valid.live })

-- Where a manager runs, its peers are those that the mesh reports.
abbrev pub Fed : Option (List PeerStatus) → Option Manager → Type 0
Fed none o = Unit {0}
Fed (some ps) none = Unit {0}
Fed (some ps) (some m) =
    (ip : Str) → is_some (lookup ip m.peers) ≡ is_some (last_target ip (targets_of ps) none)

pub Fed-none : (ps : Option (List PeerStatus)) → Fed ps none
Fed-none none = tt
Fed-none (some ps) = tt

reconciled-target :
    (history : ℕ) (t : Option Target) (o : Option PeerRunner)
    → is_some (reconciled history t o) ≡ is_some t
reconciled-target history none o = refl
reconciled-target history (some t) none = refl
reconciled-target history (some t) (some pr) = refl

pub feed-lem :
    (m : Manager) (ps : Option (List PeerStatus)) (st : PeerConn)
    → IsRunning m
    → All IsOver st.stopped
    → IsSound (feed m ps st) × Fed ps (feed m ps st).ctrl
feed-lem m none st r o = (record { running = r; over = o }, tt)
feed-lem m (some ps) st r o = (
  record { running = set_targets-IsRunning (targets_of ps) m r; over = o },
  (λ ip.
      ap is_some (set_targets-lookup (targets_of ps) m r.started r.not_stopped ip)
      ∙ reconciled-target _ (last_target ip (targets_of ps) none) _),
)

pub fed_some :
    (m : Manager) (ps : Option (List PeerStatus)) (st : PeerConn)
    → is_some (feed m ps st).ctrl ≡ true
fed_some m none st = refl
fed_some m (some ps) st = refl

pub start-fine : (c : ManagerConfig) → (start false (new_manager c)).1 ≡ false
unfolding start new_manager
start-fine c = ground arith
