-- ===== src/Daemon/Switch.antt =====
-- internal/daemon/daemon.go: the operations that change the mode, the Rosenpass intent or the
-- active profile, and bring the legs after it. The errors of single legs are only logged.
pub mod Modes
pub mod Meshes
use goat_client.Prelude.{
  ℕ, Bool, true, false, not, Option, none, some, List, [], ◌∷◌, Str, same, ◌&&◌, if◌then◌else◌,
}
use goat_client.Bundle.{EnrollmentBundle}
use goat_client.Mode.{Mode, default_mode, valid, mode_string, includes_wg_cp0, includes_netbird}
use goat_client.Profile.Disk.{Disk, Result, ok, err}
use goat_client.Profile.Store.{
  Info, Profile, load, set_active, update_mode, update_rosenpass, remove, rename,
}
use goat_client.Tunnel.{Config}
use goat_client.Tunnel.Manager.{Manager, TunnelError, configure_manager, connect}
use goat_client.Tunnel.FromBundle.{Derived, config, refused, from_bundle}
use goat_client.Innermesh.Netbird.{Netbird, State, up, closed, configuring, error}
use goat_client.Innermesh.Netbird
use goat_client.Daemon.{
  RosenpassIntent, DaemonError, store_error, Session, Outcome, override_from_profile, make_mesh,
  drop_mesh, outer_down,
}
use goat_client.Daemon.Legs.{Host, configure_mesh, tear_down_mode, tear_down_all}

-- `mesh.Configure` and `mesh.Connect`, where there are a mesh and a bundle.
abbrev pub bring_mesh_up : Host → Option Netbird → Option EnrollmentBundle → Session → Session
bring_mesh_up host none o d = d
bring_mesh_up host (some m) none d = d
bring_mesh_up host (some m) (some b) d = record d {
  mesh = some ((Netbird.connect (configure_mesh host b m d)).0);
}

abbrev pub outer_by : Derived → Session → Session
outer_by (refused e) d = d
outer_by (config c) d = record d { manager = (connect ((configure_manager c d.manager).0)).0 }

abbrev pub bring_outer_up : Host → Option EnrollmentBundle → Session → Session
bring_outer_up host none d = d
bring_outer_up host (some b) d =
    outer_by (from_bundle host.platform host.parse_addr host.parse_prefix b) d

abbrev pub persist_mode : Mode → ℕ → Session → Session
persist_mode m now d =
    if same d.current_slug []
    then d
    else record d { disk = (update_mode d.current_slug m now d.disk).0 }

-- What `SetMode` takes down, and the mesh that it makes.
unfoldable pub reconcile_mode : Host → Mode → Mode → Session → Session
reconcile_mode host prev new d =
    let d₁ = if includes_wg_cp0 prev && not (includes_wg_cp0 new) then outer_down d else d in
    let d₂ = if includes_netbird prev && not (includes_netbird new) then drop_mesh d₁ else d₁ in
    if not (includes_netbird prev) && includes_netbird new then make_mesh host.device_id d₂ else d₂

-- `SetMode` on a parsed mode; `config.toml` is left out.
unfoldable pub set_mode : Host → Mode → ℕ → Session → Session
set_mode host new now d =
    if same (mode_string d.current_mode) (mode_string new)
    then d
    else let d₁ = reconcile_mode host d.current_mode new (record d { current_mode = new }) in
      let d₂ = if includes_wg_cp0 new then bring_outer_up host d₁.current_bundle d₁ else d₁ in
      let d₃ =
        if includes_netbird new then bring_mesh_up host d₂.mesh d₂.current_bundle d₂ else d₂ in
      persist_mode new now d₃

abbrev pub is_up : State → Bool
is_up up = true
is_up closed = false
is_up configuring = false
is_up error = false

-- The reconnection of `SetRosenpass`, made only when the mesh is up.
abbrev pub rebuilt : Host → Option Netbird → Option EnrollmentBundle → Session → Session
rebuilt host none o d = d
rebuilt host (some m) none d = d
rebuilt host (some m) (some b) d =
    if includes_netbird d.current_mode && is_up m.state
    then bring_mesh_up host (some ((Netbird.disconnect m).0)) (some b) d
    else d

unfoldable pub set_rosenpass : Host → Bool → Bool → ℕ → Session → Session
set_rosenpass host en pm now d =
    let d₁ = record d { rosenpass_override = some (record { enabled = en; permissive = pm }) } in
    let d₂ = rebuilt host d₁.mesh d₁.current_bundle d₁ in
    if same d₂.current_slug []
    then d₂
    else record d₂ { disk = (update_rosenpass d₂.current_slug (some en) (some pm) now d₂.disk).0 }

abbrev pub valid_or_default : Mode → Mode
valid_or_default m = if valid m then m else default_mode

abbrev pub mesh_for : Host → Bool → Option Netbird → Session → Session
mesh_for host true none d = make_mesh host.device_id d
mesh_for host true (some m) d = d
mesh_for host false none d = d
mesh_for host false (some m) d = record d { mesh = none; dropped = m ∷ d.dropped }

abbrev pub outer_connected : Config → Manager × Option TunnelError → Session → Session
outer_connected c (m, none) d = record d { manager = m; last_dns = some c.interface_name }
outer_connected c (m, some e) d = record d { manager = m }

abbrev pub outer_to : Bool → Derived → Session → Session
outer_to wg (refused e) d = d
outer_to true (config c) d = outer_connected c (connect ((configure_manager c d.manager).0)) d
outer_to false (config c) d = record d { manager = (configure_manager c d.manager).0 }

-- Steps 2 to 5 of `setActiveLocked`, on the profile that was loaded.
unfoldable pub switch_to : Host → Str → Profile → Session → Session
switch_to host slug p d =
    let new = valid_or_default p.mode in
    let d₁ = if same d.current_slug [] then d else tear_down_mode d.current_mode d in
    let d₂ = record d₁ {
      current_bundle = some p.bundle;
      current_mode = new;
      current_slug = slug;
      rosenpass_override = override_from_profile p;
    } in
    let d₃ = mesh_for host (includes_netbird new) d₂.mesh d₂ in
    let d₄ =
      outer_to (includes_wg_cp0 new)
        (from_bundle host.platform host.parse_addr host.parse_prefix p.bundle) d₃ in
    let d₅ = if includes_netbird new then bring_mesh_up host d₄.mesh (some p.bundle) d₄ else d₄ in
    record d₅ { disk = (set_active slug d₅.disk).0; last_err = none }

abbrev pub switched : Host → Str → Disk × Result Profile → Session → Outcome
switched host slug (disk, err e) d = (record d { disk = disk }, some (store_error e))
switched host slug (disk, ok p) d = (switch_to host slug p (record d { disk = disk }), none)

-- `setActiveLocked`.
unfoldable pub set_active_profile : Host → Str → Session → Outcome
set_active_profile host slug d = switched host slug (load host.store slug d.disk) d

abbrev pub removed : Disk × Result (Unit {0}) → Session → Outcome
removed (disk, ok _) d = (record d { disk = disk }, none)
removed (disk, err e) d = (record d { disk = disk }, some (store_error e))

-- `RemoveProfile`: the active profile's legs come down first.
unfoldable pub remove_profile : Str → Session → Outcome
remove_profile slug d =
    let d' =
      if same slug d.current_slug
      then record (tear_down_all d) { current_bundle = none; current_slug = [] }
      else d in
    removed (remove slug d'.disk) d'

abbrev pub renamed : Str → Disk × Result Info → Session → Outcome
renamed slug (disk, err e) d = (record d { disk = disk }, some (store_error e))
renamed slug (disk, ok i) d = (
  record d {
    disk = disk;
    current_slug = if same d.current_slug slug then i.slug else d.current_slug;
  },
  none,
)

unfoldable pub rename_profile : Host → Str → Str → ℕ → Session → Outcome
rename_profile host slug name now d = renamed slug (rename host.store slug name now d.disk) d
