-- ===== src/Daemon/PeerConn.antt =====
-- internal/daemon/daemon.go, `runPeerConn`: the life of the peer probes. One turn of its ticker is one
-- step. `stopped` are the managers that it has stopped.
pub mod Samplers
pub mod Running
use goat_client.Prelude.{
  ℕ, Bool, true, false, not, Option, none, some, List, [], ◌∷◌, Str, same, ◌&&◌, if◌then◌else◌,
}
use goat_client.Mode.{Mode, includes_netbird}
use goat_client.Innermesh.Netbird.{State}
use goat_client.Innermesh.Peers.{PeerStatus}
use goat_client.Peerping.Ring.{default_history}
use goat_client.Peerping.Manager.{
  Target, ManagerConfig, Manager, new_manager, start, stop, set_targets,
}
use goat_client.Daemon.Filedrop.{mesh_is_up}

pub record PeerConn : Type 0 where
  pub ctrl : Option Manager
  pub failed_bind : Str
  pub stopped : List Manager

abbrev pub idle : PeerConn
idle = record { ctrl = none; failed_bind = []; stopped = [] }

-- What a turn sees. The address is empty where it is not known or where the status failed, and the
-- peers are `none` where the status failed; the flag says whether the socket cannot be bound.
pub record Turn : Type 0 where
  pub current_mode : Mode
  pub mesh : Option State
  pub local_ip : Str
  pub peers : Option (List PeerStatus)
  pub bind_fails : Bool

abbrev pub is_on : Turn → Bool
is_on t = includes_netbird t.current_mode && mesh_is_up t.mesh

abbrev pub stop_ctrl : Option Manager → PeerConn → PeerConn
stop_ctrl none st = record st { failed_bind = [] }
stop_ctrl (some m) st = record st { ctrl = none; failed_bind = []; stopped = stop m ∷ st.stopped }

-- The targets: a peer's port is the default.
unfoldable pub targets_of : List PeerStatus → List Target
targets_of [] = []
targets_of (p ∷ ps) =
    let rest = targets_of ps in if same p.ip [] then rest else record { ip = p.ip; port = 0 } ∷ rest

abbrev pub feed : Manager → Option (List PeerStatus) → PeerConn → PeerConn
feed m none st = record st { ctrl = some m }
feed m (some ps) st = record st { ctrl = some (set_targets (targets_of ps) m) }

abbrev pub after_start : Str → Option (List PeerStatus) → Manager × Bool → PeerConn → PeerConn
after_start bind ps (m, true) st = record st { failed_bind = bind }
after_start bind ps (m, false) st = feed m ps (record st { failed_bind = [] })

-- `join` is `net.JoinHostPort` with the default port of the probes.
module _ (join : Str → Str) where
  abbrev pub bind_of : Turn → Str
  bind_of t = if same t.local_ip [] then [] else join t.local_ip

  abbrev pub start_ctrl : Turn → Str → PeerConn → PeerConn
  start_ctrl t bind st =
      if not (same bind []) && same bind st.failed_bind
      then st
      else after_start bind t.peers
          (start t.bind_fails
            (new_manager (record { bind_addr = bind; history = default_history })))
          st

  abbrev pub keep_up : Turn → Option Manager → PeerConn → PeerConn
  keep_up t none st = start_ctrl t (bind_of t) st
  keep_up t (some m) st = feed m t.peers st

  -- `reconcile`.
  unfoldable pub reconcile : Turn → PeerConn → PeerConn
  reconcile t st = if is_on t then keep_up t st.ctrl st else stop_ctrl st.ctrl st

  unfoldable pub run_peer_conn : List Turn → PeerConn → PeerConn
  run_peer_conn [] st = st
  run_peer_conn (t ∷ ts) st = run_peer_conn ts (reconcile t st)
