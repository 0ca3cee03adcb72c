-- ===== src/Tests/Daemon.antt =====
-- Runs of internal/daemon.
use goat_client.Prelude.{
  ◌*◌, ◌^◌, min, true, false, none, some, List, [], ◌∷◌, codes, length, same, ◌≡◌, refl, arith,
}
use goat_client.Bundle.{EnrollmentBundle, check_cp_device_keypair, has_inner_mesh}
use goat_client.Mode.{combined, wg_cp0_only, netbird_only, includes_wg_cp0, includes_netbird}
use goat_client.Profile.Disk.{Disk}
use goat_client.Tunnel.{darwin}
use goat_client.Tunnel.Manager.{new_manager}
use goat_client.Tunnel.Manager
use goat_client.Tunnel.FromBundle.{from_bundle, first_relay, parse_allowed}
use goat_client.Innermesh
use goat_client.Innermesh.Netbird
use goat_client.Innermesh.Netbird.{error, begin_connect, connect_calls, finish_connect, new_netbird}
use goat_client.Daemon.{
  Session, and_then, make_mesh, mesh_config, fill_mesh_persist_paths, mesh_config_from_bundle,
}
use goat_client.Daemon.Supervisor.{Round, seen, base_delay, max_delay, run_mesh_supervisor}
use goat_client.Daemon.Supervisor.Backoff.{StaysDown, run_mesh_supervisor-backoff}
use goat_client.Daemon.Legs.{Host, connect, connect_outer, connect_inner}
use goat_client.Daemon.Legs.Up.{ConnectSpec, connect-ConnectSpec}
use goat_client.Daemon.Legs.Meshes.{MeshFits}
use goat_client.Daemon.Switch.Meshes.{
  Action, connecting, setting_mode, activating, act_all, act_all-MeshFits,
}
use goat_client.Tests.Store.{env}
use goat_client.Tests.Lifecycle.{wg_bundle, parse_addr, parse_prefix}

abbrev down_round : Round
down_round = record {
  wanted = true;
  current_mode = combined;
  mesh = seen error;
  has_bundle = true;
  reconnects = false;
}

down_round-StaysDown : StaysDown down_round
unfolding includes_netbird
down_round-StaysDown =
    (record { wanted = refl; in_mode = refl; failed = refl; loaded = refl }, refl)

run_mesh_supervisor-backoff_example :
    let t = run_mesh_supervisor 10 50 (down_round ∷ down_round ∷ []) down_round in
    (t.attempted ≡ true)
    × (t.wait ≡ min (base_delay 10 * 2 ^ length (down_round ∷ down_round ∷ [])) (max_delay 50))
run_mesh_supervisor-backoff_example =
    run_mesh_supervisor-backoff 10 50 (down_round ∷ down_round ∷ []) down_round (omega arith)
      (omega arith) (down_round-StaysDown, (down_round-StaysDown, tt)) down_round-StaysDown

abbrev pub host : Host
host = record {
  store = env;
  store_dir = codes "/p";
  device_id = codes "host";
  platform = darwin;
  parse_addr = parse_addr;
  parse_prefix = parse_prefix;
}

abbrev full_bundle : EnrollmentBundle
full_bundle = record wg_bundle {
  inner_mesh_setup = record wg_bundle.inner_mesh_setup {
    management_url = codes "m";
    setup_key = codes "k";
  };
}

abbrev empty_disk : Disk
empty_disk = record { metas = []; bundles = []; active = none; faults = [] }

abbrev pub session : Session
session = record {
  current_mode = combined;
  current_slug = codes "home";
  rosenpass_override = none;
  current_bundle = some full_bundle;
  manager = new_manager darwin [];
  mesh = none;
  mesh_wanted = false;
  last_err = none;
  last_dns = none;
  disk = empty_disk;
  dropped = [];
  mesh_faults = [];
}

connects : (connect host session).1 ≡ none
unfolding connect and_then connect_outer includes_wg_cp0 from_bundle check_cp_device_keypair
    first_relay parse_allowed Manager.configure_manager Manager.connect connect_inner
    includes_netbird make_mesh Netbird.connect begin_connect Netbird.configure mesh_config
    fill_mesh_persist_paths has_inner_mesh mesh_config_from_bundle connect_calls finish_connect
    new_netbird Innermesh.from_bundle same Manager.with_defaults
connects = refl

connect-ConnectSpec_example : ConnectSpec session ((connect host session).0)
connect-ConnectSpec_example = connect-ConnectSpec host session connects

session-MeshFits : MeshFits session
session-MeshFits e = refl

abbrev actions : List Action
actions =
    connecting
    ∷ setting_mode wg_cp0_only 5
    ∷ setting_mode netbird_only 6
    ∷ activating (codes "home")
    ∷ []

act_all-MeshFits_example : MeshFits (act_all host actions session)
act_all-MeshFits_example = act_all-MeshFits host actions session session-MeshFits
