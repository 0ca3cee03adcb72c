-- ===== src/Daemon/Legs.antt =====
-- internal/daemon/daemon.go: the operations that bring the legs of a mode up and down. Each runs
-- alone, as from one client; a reachable management plane answers within the bound of
-- `connectMesh`, and one that does not is a fault of `Start`.
pub mod Up
pub mod Meshes
use goat_client.Prelude.{
  ℕ, Bool, true, false, not, Option, none, some, List, [], Str, same, ◌&&◌, if◌then◌else◌,
}
use goat_client.Bundle.{EnrollmentBundle}
use goat_client.Mode.{Mode, default_mode, valid, mode_string, includes_wg_cp0, includes_netbird}
use goat_client.Profile.Disk.{Disk, Result, ok, err}
use goat_client.Profile.Store.{
  Env, Info, Profile, load, set_active, update_mode, update_rosenpass, remove, rename,
}
use goat_client.Tunnel.{Platform, Addr, Prefix, Config}
use goat_client.Tunnel.Manager.{Manager, TunnelError, configure_manager}
use goat_client.Tunnel.Manager
use goat_client.Tunnel.FromBundle.{Derived, config, refused, from_bundle}
use goat_client.Innermesh.Netbird.{Netbird, MeshError, State, up, closed, configuring, error}
use goat_client.Innermesh.Netbird
use goat_client.Daemon.{
  RosenpassIntent, DaemonError, no_bundle, mode_without_mesh, mesh_not_constructed, derive_error,
  tunnel_error, mesh_error, store_error, Session, Outcome, and_then, override_from_profile,
  mesh_config, make_mesh, drop_mesh, outer_down,
}

-- What the daemon is given: the store's surroundings, the store's directory, the name of the
-- device, the platform, and the parsing of addresses.
pub record Host : Type 0 where
  pub store : Env
  pub store_dir : Str
  pub device_id : Str
  pub platform : Platform
  pub parse_addr : Str → Option Addr
  pub parse_prefix : Str → Option Prefix

abbrev pub configure_mesh : Host → EnrollmentBundle → Netbird → Session → Netbird
configure_mesh host b m d = (Netbird.configure (mesh_config host.store_dir d b) m).0

abbrev pub tunnel_up : Config → Manager × Option TunnelError → Session → Outcome
tunnel_up c (m, some e) d =
    (record d { manager = m; last_err = some (tunnel_error e) }, some (tunnel_error e))
tunnel_up c (m, none) d = (record d { manager = m; last_dns = some c.interface_name }, none)

abbrev pub tunnel_configured : Config → Manager × Option TunnelError → Session → Outcome
tunnel_configured c (m, some e) d = (record d { manager = m }, some (tunnel_error e))
tunnel_configured c (m, none) d = tunnel_up c (Manager.connect m) (record d { manager = m })

abbrev pub outer_with : Derived → Session → Outcome
outer_with (refused e) d = (d, some (derive_error e))
outer_with (config c) d = tunnel_configured c (configure_manager c d.manager) d

-- The outer leg of `Connect`.
unfoldable pub connect_outer : Host → EnrollmentBundle → Session → Outcome
connect_outer host b d =
    if includes_wg_cp0 d.current_mode
    then outer_with (from_bundle host.platform host.parse_addr host.parse_prefix b) d
    else (d, none)

abbrev pub mesh_up : Netbird × Option MeshError → Session → Outcome
mesh_up (m, some e) d =
    (record d { mesh = some m; last_err = some (mesh_error e) }, some (mesh_error e))
mesh_up (m, none) d = (record d { mesh = some m }, none)

-- `Configure`, its error only logged, and then `connectMesh`.
abbrev pub mesh_start : Host → EnrollmentBundle → Option Netbird → Session → Outcome
mesh_start host b none d = (d, none)
mesh_start host b (some m) d = mesh_up (Netbird.connect (configure_mesh host b m d)) d

abbrev pub inner_leg : Host → EnrollmentBundle → Bool → Option Netbird → Session → Outcome
inner_leg host b false o d = (d, none)
inner_leg host b true (some m) d = mesh_start host b (some m) (record d { mesh_wanted = true })
inner_leg host b true none d =
    let d' = make_mesh host.device_id d in
    mesh_start host b d'.mesh (record d' { mesh_wanted = true })

-- The inner leg of `Connect`, with the intent recorded before the attempt.
unfoldable pub connect_inner : Host → EnrollmentBundle → Session → Outcome
connect_inner host b d = inner_leg host b (includes_netbird d.current_mode) d.mesh d

abbrev pub connect_with : Host → Option EnrollmentBundle → Session → Outcome
connect_with host none d = (d, some no_bundle)
connect_with host (some b) d =
    and_then (and_then (connect_outer host b d) (connect_inner host b))
      (λ d'. (record d' { last_err = none }, none))

unfoldable pub connect : Host → Session → Outcome
connect host d = connect_with host d.current_bundle d

abbrev pub tunnel_down : Manager × Option TunnelError → Session → Outcome
tunnel_down (m, some e) d = (record d { manager = m }, some (tunnel_error e))
tunnel_down (m, none) d = (record d { manager = m }, none)

abbrev pub mesh_down : Netbird × Option MeshError → Session → Outcome
mesh_down (m, some e) d = (record d { mesh = some m }, some (mesh_error e))
mesh_down (m, none) d = (record d { mesh = some m }, none)

abbrev pub mesh_stop : Option Netbird → Session → Outcome
mesh_stop none d = (d, none)
mesh_stop (some m) d = mesh_down (Netbird.disconnect m) (record d { mesh_wanted = false })

unfoldable pub disconnect_outer : Session → Outcome
disconnect_outer d =
    if includes_wg_cp0 d.current_mode
    then tunnel_down (Manager.disconnect d.manager) (record d { last_dns = none })
    else (d, none)

unfoldable pub disconnect_inner : Session → Outcome
disconnect_inner d = if includes_netbird d.current_mode then mesh_stop d.mesh d else (d, none)

-- `Disconnect`: the outer leg, its name resolution first, and then the inner one.
unfoldable pub disconnect : Session → Outcome
disconnect d = and_then (disconnect_outer d) disconnect_inner

abbrev pub mesh_enabled : Netbird × Option MeshError → Session → Outcome
mesh_enabled (m, none) d = (record d { mesh = some m }, none)
mesh_enabled (m, some e) d = (record d { mesh = some m }, some (mesh_error e))

abbrev pub enabled : Option Netbird → Session → Outcome
enabled none d = (d, some mesh_not_constructed)
enabled (some m) d = mesh_enabled (Netbird.connect m) (record d { mesh_wanted = true })

unfoldable pub enable_inner_mesh : Session → Outcome
enable_inner_mesh d =
    if includes_netbird d.current_mode then enabled d.mesh d else (d, some mode_without_mesh)

abbrev pub disabled : Option Netbird → Session → Outcome
disabled none d = (record d { mesh_wanted = false }, none)
disabled (some m) d = mesh_down (Netbird.disconnect m) (record d { mesh_wanted = false })

unfoldable pub disable_inner_mesh : Session → Outcome
disable_inner_mesh d = disabled d.mesh d

-- The legs that a mode includes go, with the errors only logged.
unfoldable pub tear_down_mode : Mode → Session → Session
tear_down_mode m d =
    let d' = if includes_wg_cp0 m then outer_down d else d in
    if includes_netbird m then record (drop_mesh d') { mesh_wanted = false } else d'

unfoldable pub tear_down_all : Session → Session
tear_down_all d = record (drop_mesh (outer_down d)) { mesh_wanted = false }
