-- ===== src/Daemon/Supervisor.antt =====
-- internal/daemon/daemon.go: `runMeshSupervisor`. One round of the loop is one firing of its timer,
-- with what the daemon's state is then and how the reconnection ends. A `time.Duration` is its
-- 64-bit pattern in nanoseconds.
pub mod Backoff
use goat_client.Prelude.{
  ℕ, zero, suc, ◌+◌, ◌*◌, ◌%◌, ◌^◌, Bool, true, false, not, List, [], ◌∷◌, ◌&&◌, ◌||◌,
  if◌then◌else◌,
}
use goat_client.Mode.{Mode, includes_netbird}
use goat_client.Innermesh.Netbird.{State, closed, configuring, up, error}
use goat_client.Peerping.Ring.{lt_int64}

-- What the round sees: the daemon's intent and mode, the mesh's state or `missing`, whether a
-- bundle is loaded, and whether the reconnection succeeds, should one be made.
pub data MeshSeen : Type 0 where
  missing : MeshSeen
  seen : State → MeshSeen

pub record Round : Type 0 where
  pub wanted : Bool
  pub current_mode : Mode
  pub mesh : MeshSeen
  pub has_bundle : Bool
  pub reconnects : Bool

-- How long the timer is set for, the delay that the loop keeps, and whether it reconnected.
pub record Turn : Type 0 where
  pub wait : ℕ
  pub delay : ℕ
  pub attempted : Bool

abbrev pub or_positive : ℕ → ℕ → ℕ
or_positive d other = if lt_int64 0 d then d else other

abbrev pub base_delay : ℕ → ℕ
base_delay interval = or_positive interval (15 * 10 ^ 9)

abbrev pub max_delay : ℕ → ℕ
max_delay most = or_positive most (120 * 10 ^ 9)

abbrev pub doubled : ℕ → ℕ → ℕ
doubled most delay = let twice = delay * 2 % 2 ^ 64 in if lt_int64 most twice then most else twice

abbrev pub is_missing : MeshSeen → Bool
is_missing missing = true
is_missing (seen s) = false

module _ (base most : ℕ) where
  abbrev pub reconnect : Bool → ℕ → Turn
  reconnect true delay = record { wait = base; delay = base; attempted = true }
  reconnect false delay = record { wait = delay; delay = doubled most delay; attempted = true }

  abbrev pub settle : MeshSeen → Bool → ℕ → Turn
  settle (seen error) ok delay = reconnect ok delay
  settle (seen up) ok delay = record { wait = base; delay = base; attempted = false }
  settle (seen closed) ok delay = record { wait = base; delay = delay; attempted = false }
  settle (seen configuring) ok delay = record { wait = base; delay = delay; attempted = false }
  settle missing ok delay = record { wait = base; delay = base; attempted = false }

  unfoldable pub supervise : Round → ℕ → Turn
  supervise r delay =
      if not r.wanted
        || (not (includes_netbird r.current_mode) || (is_missing r.mesh || not r.has_bundle))
      then record { wait = base; delay = base; attempted = false }
      else settle r.mesh r.reconnects delay

  -- The delay that the loop keeps after some rounds.
  unfoldable pub delay_after : List Round → ℕ → ℕ
  delay_after [] delay = delay
  delay_after (r ∷ rs) delay = delay_after rs ((supervise r delay).delay)

-- `runMeshSupervisor`, up to the round given: the delay starts at the base.
unfoldable pub run_mesh_supervisor : ℕ → ℕ → List Round → Round → Turn
run_mesh_supervisor interval most rs r =
    let base = base_delay interval in
    let top = max_delay most in supervise base top r (delay_after base top rs base)
