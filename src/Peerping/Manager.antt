-- ===== src/Peerping/Manager.antt =====
-- internal/peerping/manager.go: the set of samplers, one for each peer. A sampler is a goroutine that
-- adds to its ring until its context is cancelled: the model counts those started and those
-- cancelled. A method holds the lock from end to end.
pub mod Reconcile
use goat_client.Prelude.{
  ℕ, suc, ◌+◌, Bool, true, false, not, Option, none, some, List, [], ◌∷◌, Str, same, is_some,
  length, ltb, ◌||◌, map, if◌then◌else◌,
}
use goat_client.Prelude.Assoc.{lookup, insert}
use goat_client.Peerping.Ring.{Ring, Sample, Stats, new_ring, stats, samples}
use goat_client.Peerping.Ring

abbrev pub default_port : ℕ
default_port = 51822

-- A port that is not positive is 0.
pub record Target : Type 0 where
  pub ip : Str
  pub port : ℕ

abbrev pub port_of : Target → ℕ
port_of t = if ltb 0 t.port then t.port else default_port

pub record ManagerConfig : Type 0 where
  pub bind_addr : Str
  pub history : ℕ

-- What a sampler probes, and its ring.
pub record PeerRunner : Type 0 where
  pub target : Target
  pub port : ℕ
  pub ring : Ring

pub record Manager : Type 0 where
  pub cfg : ManagerConfig
  pub started : Bool
  pub stopped : Bool
  pub conn : Bool
  pub peers : List (Str × PeerRunner)
  pub spawned : ℕ
  pub cancelled : ℕ

unfoldable pub new_manager : ManagerConfig → Manager
new_manager cfg = record {
  cfg = cfg;
  started = false;
  stopped = false;
  conn = false;
  peers = [];
  spawned = 0;
  cancelled = 0;
}

abbrev pub listen : Bool → Manager → Manager × Bool
listen true m = (m, true)
listen false m = (record m { conn = true }, false)

-- `Start`, with whether it returns an error; the flag says whether the socket cannot be bound.
unfoldable pub start : Bool → Manager → Manager × Bool
start bind_fails m =
    if m.started
    then (m, true)
    else if same m.cfg.bind_addr []
    then (record m { started = true }, false)
    else listen bind_fails (record m { started = true })

-- The map of `SetTargets`: the last target of an address counts.
unfoldable pub wanted_from : List (Str × Target) → List Target → List (Str × Target)
wanted_from w [] = w
wanted_from w (t ∷ ts) = wanted_from (if same t.ip [] then w else insert t.ip t w) ts

-- Of the peers, those that are wanted.
unfoldable pub retain : List (Str × Target) → List (Str × PeerRunner) → List (Str × PeerRunner)
retain w [] = []
retain w ((ip, pr) ∷ ps) =
    let rest = retain w ps in if is_some (lookup ip w) then (ip, pr) ∷ rest else rest

-- How many are not.
unfoldable pub gone : List (Str × Target) → List (Str × PeerRunner) → ℕ
gone w [] = 0
gone w ((ip, pr) ∷ ps) = if is_some (lookup ip w) then gone w ps else suc (gone w ps)

unfoldable pub stop_gone : List (Str × Target) → Manager → Manager
stop_gone w m = record m { peers = retain w m.peers; cancelled = m.cancelled + gone w m.peers }

abbrev pub runner : ℕ → Target → PeerRunner
runner history t = record { target = t; port = port_of t; ring = new_ring history }

abbrev pub spawn : Str → Target → Option PeerRunner → Manager → Manager
spawn ip t (some pr) m = m
spawn ip t none m = record m {
  peers = (ip, runner m.cfg.history t) ∷ m.peers;
  spawned = m.spawned + 1;
}

unfoldable pub start_new : List (Str × Target) → Manager → Manager
start_new [] m = m
start_new ((ip, t) ∷ w) m = start_new w (spawn ip t (lookup ip m.peers) m)

unfoldable pub set_targets : List Target → Manager → Manager
set_targets ts m =
    if not m.started || m.stopped
    then m
    else start_new (wanted_from [] ts) (stop_gone (wanted_from [] ts) m)

unfoldable pub stop : Manager → Manager
stop m = if m.stopped then m else record m {
  stopped = true;
  conn = false;
  peers = [];
  cancelled = m.cancelled + length m.peers;
}

abbrev pub sample_if : Str → Sample → Str × PeerRunner → Str × PeerRunner
sample_if ip s (j, pr) = if same j ip then (j, record pr { ring = Ring.add pr.ring s }) else (j, pr)

-- The sampler of an address adds a sample.
unfoldable pub sampled : Str → Sample → Manager → Manager
sampled ip s m = record m { peers = map (sample_if ip s) m.peers }

abbrev pub stats_of : Str × PeerRunner → Str × Stats
stats_of (ip, pr) = (ip, stats pr.ring)

unfoldable pub snapshot : Manager → List (Str × Stats)
snapshot m = map stats_of m.peers

abbrev pub samples_of : Option PeerRunner → Option (List Sample)
samples_of none = none
samples_of (some pr) = some (samples pr.ring)

unfoldable pub samples_for : Str → Manager → Option (List Sample)
samples_for ip m = samples_of (lookup ip m.peers)
