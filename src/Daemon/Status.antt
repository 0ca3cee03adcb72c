-- ===== src/Daemon/Status.antt =====
-- internal/daemon/daemon.go: the handlers that report on the tunnels, and `SetInnerMeshProfile`. The text of
-- the last error, the status of the mesh's client, the counters of the device and the names are arguments.
use goat_client.Prelude.{
  ℕ, ◌*◌, Bool, true, false, not, Option, none, some, is_some, List, [], ◌∷◌, Str, map, ltb,
  if◌then◌else◌,
}
use goat_client.Prelude.Assoc.{lookup}
use goat_client.Bundle.{EnrollmentBundle}
use goat_client.Mode.{mode_string, includes_wg_cp0, includes_netbird}
use goat_client.Tunnel.Manager
use goat_client.Innermesh.{Config}
use goat_client.Innermesh.Netbird.{Netbird}
use goat_client.Innermesh.Netbird
use goat_client.Innermesh.Peers.{Stats, PeerStatus, path}
use goat_client.Peerping.Ring
use goat_client.Ipc.Wire.{
  TunnelState, Ratio, InnerMeshSnapshot, NamesSnapshot, StatusReply, GetModeReply, PeerConnectivity,
  GetPeerConnectivityReply, InnerMeshDiagnosticsReply, SetInnerMeshProfileRequest,
}
use goat_client.Daemon.{
  mode_without_mesh, mesh_not_constructed, mesh_error, Session, Outcome, overlay, mesh_config,
  fill_mesh_persist_paths, zero_config,
}

unfoldable pub map_mesh_state : Netbird.State → TunnelState
map_mesh_state Netbird.State.configuring = TunnelState.connecting
map_mesh_state Netbird.State.up = TunnelState.connected
map_mesh_state Netbird.State.error = TunnelState.error
map_mesh_state Netbird.State.closed = TunnelState.disconnected

unfoldable pub map_tunnel_state : Manager.State → Bool → TunnelState
map_tunnel_state s false = TunnelState.no_bundle
map_tunnel_state Manager.State.closed true = TunnelState.disconnected
map_tunnel_state Manager.State.configuring true = TunnelState.connecting
map_tunnel_state Manager.State.up true = TunnelState.connected
map_tunnel_state Manager.State.error true = TunnelState.error

-- The device's counters and its last handshake.
pub record DeviceStats : Type 0 where
  pub bytes_in : ℕ
  pub bytes_out : ℕ
  pub last_handshake : ℕ

abbrev pub blank_snapshot : TunnelState → InnerMeshSnapshot
blank_snapshot s = record {
  state = s;
  peer_count = 0;
  bytes_in = 0;
  bytes_out = 0;
  last_handshake = 0;
  rosenpass_peers = 0;
  rosenpass_enabled = false;
  rosenpass_permissive = false;
}

abbrev pub with_stats : Option Stats → InnerMeshSnapshot → InnerMeshSnapshot
with_stats none snap = snap
with_stats (some st) snap = record snap {
  peer_count = st.peer_count;
  bytes_in = st.bytes_in;
  bytes_out = st.bytes_out;
  last_handshake = st.last_handshake;
  rosenpass_peers = st.rosenpass_peers;
}

-- `meshConfig` of a bundle that may be nil.
abbrev pub mesh_config_of : Str → Session → Option EnrollmentBundle → Config
mesh_config_of store_dir d none =
    fill_mesh_persist_paths store_dir d.current_slug (overlay d.rosenpass_override zero_config)
mesh_config_of store_dir d (some b) = mesh_config store_dir d b

-- The intent in force.
abbrev pub with_intent : Config → InnerMeshSnapshot → InnerMeshSnapshot
with_intent c snap = record snap {
  rosenpass_enabled = c.rosenpass_enabled;
  rosenpass_permissive = c.rosenpass_permissive;
}

abbrev pub mesh_snapshot : Str → Session → Option Stats → Netbird → InnerMeshSnapshot
mesh_snapshot store_dir d st m =
    with_intent (mesh_config_of store_dir d d.current_bundle)
      (with_stats st (blank_snapshot (map_mesh_state m.state)))

abbrev pub snapshot_in_mode :
    Str → Session → Option Stats → Bool → Option Netbird → Option InnerMeshSnapshot
snapshot_in_mode store_dir d st false o = none
snapshot_in_mode store_dir d st true none = none
snapshot_in_mode store_dir d st true (some m) = some (mesh_snapshot store_dir d st m)

abbrev pub or_disconnected : Option InnerMeshSnapshot → InnerMeshSnapshot
or_disconnected none = blank_snapshot TunnelState.disconnected
or_disconnected (some snap) = snap

unfoldable pub get_inner_mesh_status : Str → Option Stats → Session → InnerMeshSnapshot
get_inner_mesh_status store_dir st d =
    or_disconnected (snapshot_in_mode store_dir d st (includes_netbird d.current_mode) d.mesh)

abbrev pub outer_state : Session → TunnelState
outer_state d =
    if includes_wg_cp0 d.current_mode
    then map_tunnel_state d.manager.state (is_some d.current_bundle)
    else if is_some d.current_bundle
    then TunnelState.disconnected
    else TunnelState.no_bundle

abbrev no_device : DeviceStats
no_device = record { bytes_in = 0; bytes_out = 0; last_handshake = 0 }

-- The counters are read only in a mode with the outer tunnel.
abbrev outer_stats : Bool → Option DeviceStats → DeviceStats
outer_stats true (some st) = st
outer_stats true none = no_device
outer_stats false o = no_device

abbrev pub of_bundle : Option EnrollmentBundle → StatusReply → StatusReply
of_bundle none r = r
of_bundle (some b) r = record r {
  device_id = b.device_id;
  site = b.site;
  bundle_expires_at = b.expires_at;
  peer_pubkey = b.peer_pubkey;
  configured_endpoints = map (λ e. e.addr) b.known_endpoints;
}

unfoldable pub get_status :
    Str → Option DeviceStats → Option Stats → Option NamesSnapshot → Str → Session → StatusReply
get_status store_dir device st names last_error d =
    let outer = outer_stats (includes_wg_cp0 d.current_mode) device in
    of_bundle d.current_bundle (record {
      mode = mode_string d.current_mode;
      state = outer_state d;
      bundle_loaded = is_some d.current_bundle;
      device_id = [];
      site = [];
      bundle_expires_at = 0;
      peer_pubkey = [];
      last_handshake = outer.last_handshake;
      bytes_in = outer.bytes_in;
      bytes_out = outer.bytes_out;
      configured_endpoints = [];
      error_message = last_error;
      inner_mesh = snapshot_in_mode store_dir d st (includes_netbird d.current_mode) d.mesh;
      names = names;
    })

abbrev pub get_mode : Session → GetModeReply
get_mode d = record { mode = mode_string d.current_mode }

abbrev pub dur_ms : ℕ → Ratio
dur_ms d = record { num = d; den = 1000000 }

abbrev no_ratio : Ratio
no_ratio = record { num = 0; den = 1 }

abbrev pub connectivity_of : PeerStatus → PeerConnectivity
connectivity_of p = record {
  ip = p.ip;
  fqdn = p.fqdn;
  pub_key = p.pub_key;
  connected = p.connected;
  path = path p;
  local_ice_type = p.local_ice_type;
  remote_ice_type = p.remote_ice_type;
  relay_address = p.relay_address;
  last_handshake = p.last_handshake;
  bytes_rx = p.bytes_rx;
  bytes_tx = p.bytes_tx;
  measured = false;
  samples = 0;
  loss_pct = no_ratio;
  rtt_last_ms = no_ratio;
  rtt_avg_ms = no_ratio;
  rtt_min_ms = no_ratio;
  rtt_max_ms = no_ratio;
}

abbrev pub measured : Option Ring.Stats → PeerConnectivity → PeerConnectivity
measured none c = c
measured (some st) c = if not (ltb 0 st.n) then c else record c {
  measured = true;
  samples = st.n;
  loss_pct = record { num = 100 * st.lost; den = st.n };
  rtt_last_ms = dur_ms st.last;
  rtt_avg_ms = dur_ms st.avg;
  rtt_min_ms = dur_ms st.min;
  rtt_max_ms = dur_ms st.max;
}

-- The round trips by the address of the peer.
unfoldable pub join_rtt : List (Str × Ring.Stats) → List PeerStatus → List PeerConnectivity
join_rtt rtt [] = []
join_rtt rtt (p ∷ ps) = measured (lookup p.ip rtt) (connectivity_of p) ∷ join_rtt rtt ps

-- `none` is the error of the mesh's status.
abbrev pub connectivity_from :
    Bool
    → Option Netbird
    → Option (List PeerStatus)
    → List (Str × Ring.Stats)
    → Option GetPeerConnectivityReply
connectivity_from false o ps rtt = some (record { peers = [] })
connectivity_from true none ps rtt = some (record { peers = [] })
connectivity_from true (some m) none rtt = none
connectivity_from true (some m) (some ps) rtt = some (record { peers = join_rtt rtt ps })

unfoldable pub get_peer_connectivity :
    Option (List PeerStatus) → List (Str × Ring.Stats) → Session → Option GetPeerConnectivityReply
get_peer_connectivity ps rtt d = connectivity_from (includes_netbird d.current_mode) d.mesh ps rtt

-- With the lines of the mesh's log.
unfoldable pub get_inner_mesh_diagnostics : List Str → Session → InnerMeshDiagnosticsReply
get_inner_mesh_diagnostics lines d = elim d.mesh [
  | none ↦ record { log_tail = []; peer_stats = [] }
  | some m ↦ record { log_tail = lines; peer_stats = [] }
]

abbrev pub profile_config : SetInnerMeshProfileRequest → Config
profile_config req = record zero_config {
  management_url = req.management_url;
  setup_key = req.setup_key;
  admin_access_token = req.admin_access_token;
  mobile_cert = req.mobile_cert;
  pre_shared_key = req.pre_shared_key;
}

abbrev pub reconfigured : Netbird.Outcome → Session → Outcome
reconfigured (m, none) d = (record d { mesh = some m }, none)
reconfigured (m, some e) d = (record d { mesh = some m }, some (mesh_error e))

abbrev pub configure_held : Str → SetInnerMeshProfileRequest → Option Netbird → Session → Outcome
configure_held store_dir req none d = (d, some mesh_not_constructed)
configure_held store_dir req (some m) d =
    reconfigured
      (Netbird.configure (fill_mesh_persist_paths store_dir d.current_slug (profile_config req)) m)
      d

unfoldable pub set_inner_mesh_profile : Str → SetInnerMeshProfileRequest → Session → Outcome
set_inner_mesh_profile store_dir req d =
    if includes_netbird d.current_mode
    then configure_held store_dir req d.mesh d
    else (d, some mode_without_mesh)
