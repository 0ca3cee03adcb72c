-- ===== src/Daemon.antt =====
-- internal/daemon/daemon.go: the daemon's state, and the parts that bring a leg up or down. Legs
-- has the operations made of them, Supervisor the loop that brings a failed inner mesh back. The other
-- modules have the rest of the handlers, the log, the host's resolver, the peer probes and the file drop.
-- `Session` is `Daemon` without its log, clock and name service; `dropped` are the meshes that it
-- has let go of, and `mesh_faults` the schedules of faults of the meshes to come.
pub mod Supervisor
pub mod Legs
pub mod Switch
pub mod Log
pub mod Imports
pub mod Profiles
pub mod Filedrop
pub mod PeerConn
pub mod Status
pub mod Dns
use goat_client.Prelude.{
  ℕ, Bool, true, false, Option, none, some, List, [], ◌∷◌, ◌++◌, Str, codes, same, if◌then◌else◌,
}
use goat_client.Bundle.{EnrollmentBundle}
use goat_client.Mode.{Mode}
use goat_client.Profile.Disk.{Disk, StoreError}
use goat_client.Profile.Store.{Profile}
use goat_client.Tunnel.Manager.{Manager, TunnelError, configure_manager, disconnect}
use goat_client.Tunnel.Manager
use goat_client.Tunnel.FromBundle.{FromBundleError}
use goat_client.Innermesh.{Config, from_bundle, config, missing_inner_mesh_setup, Derived}
use goat_client.Innermesh.Netbird.{Netbird, MeshError, new_netbird, configure, close}
use goat_client.Innermesh.Netbird

pub record RosenpassIntent : Type 0 where
  pub enabled : Bool
  pub permissive : Bool

pub data DaemonError : Type 0 where
  no_bundle mode_without_mesh mesh_not_constructed slug_required unknown_mode : DaemonError
  derive_error : FromBundleError → DaemonError
  tunnel_error : TunnelError → DaemonError
  mesh_error : MeshError → DaemonError
  store_error : StoreError → DaemonError

pub record Session : Type 0 where
  pub current_mode : Mode
  pub current_slug : Str
  pub rosenpass_override : Option RosenpassIntent
  pub current_bundle : Option EnrollmentBundle
  pub manager : Manager
  pub mesh : Option Netbird
  pub mesh_wanted : Bool
  pub last_err : Option DaemonError
  pub last_dns : Option Str
  pub disk : Disk
  pub dropped : List Netbird
  pub mesh_faults : List (List Bool)

abbrev pub Outcome : Type 0
Outcome = Session × Option DaemonError

-- One step after another, up to the first error.
unfoldable pub and_then : Outcome → (Session → Outcome) → Outcome
and_then (d, some e) f = (d, some e)
and_then (d, none) f = f d

abbrev pub zero_config : Config
zero_config = record {
  setup_key = [];
  management_url = [];
  prefer_kernel_wg = false;
  admin_access_token = [];
  mobile_cert = [];
  pre_shared_key = [];
  rosenpass_enabled = false;
  rosenpass_permissive = false;
  config_path = [];
  state_path = [];
  bundle_device_id = [];
}

abbrev or_zero : Derived → Config
or_zero (config c) = c
or_zero missing_inner_mesh_setup = zero_config

unfoldable pub mesh_config_from_bundle : EnrollmentBundle → Config
mesh_config_from_bundle b = or_zero (from_bundle b)

unfoldable pub override_from_profile : Profile → Option RosenpassIntent
override_from_profile p = lift p.rosenpass_enabled p.rosenpass_permissive
  where
    lift : Option Bool → Option Bool → Option RosenpassIntent
    lift none pm = none
    lift (some en) none = some (record { enabled = en; permissive = false })
    lift (some en) (some pm) = some (record { enabled = en; permissive = pm })

abbrev pub overlay : Option RosenpassIntent → Config → Config
overlay none c = c
overlay (some i) c = record c { rosenpass_enabled = i.enabled; rosenpass_permissive = i.permissive }

-- `store_dir` is the store's directory, as a clean path.
unfoldable pub fill_mesh_persist_paths : Str → Str → Config → Config
fill_mesh_persist_paths store_dir slug c =
    let stem = if same slug [] then codes "default" else slug in
    let dir = store_dir ++ codes "/" ++ stem ++ codes ".innermesh" in
    record c { config_path = dir ++ codes "/config.json"; state_path = dir ++ codes "/state.json" }

unfoldable pub mesh_config : Str → Session → EnrollmentBundle → Config
mesh_config store_dir d b =
    fill_mesh_persist_paths store_dir d.current_slug
      (overlay d.rosenpass_override (mesh_config_from_bundle b))

-- `meshFactory`, with the faults that the new mesh will meet.
abbrev pub mesh_with : Str → List (List Bool) → Netbird × List (List Bool)
mesh_with device_id [] = (new_netbird device_id [], [])
mesh_with device_id (fs ∷ fss) = (new_netbird device_id fs, fss)

unfoldable pub make_mesh : Str → Session → Session
make_mesh device_id d =
    let (m, fss) = mesh_with device_id d.mesh_faults in
    record d { mesh = some m; mesh_faults = fss }

abbrev pub dropping : Option Netbird → Session → Session
dropping none d = d
dropping (some m) d = record d {
  mesh = none;
  dropped = (close ((Netbird.disconnect m).0)).0 ∷ d.dropped;
}

-- The daemon lets go of its mesh: disconnected and closed, with the errors only logged.
unfoldable pub drop_mesh : Session → Session
drop_mesh d = dropping d.mesh d

-- `manager.Disconnect` behind the restored DNS, with the error only logged.
unfoldable pub outer_down : Session → Session
outer_down d = record d { manager = (disconnect d.manager).0; last_dns = none }
