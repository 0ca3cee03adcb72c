-- ===== src/Tests/Lifecycle.antt =====
-- Runs of internal/tunnel and internal/innermesh.
use goat_client.Prelude.{
  ◌<◌, true, false, Option, none, some, List, [], ◌∷◌, Str, codes, replicate, ◌≡◌, refl, subst,
  arith,
}
use goat_client.Bundle.{EnrollmentBundle, KnownEndpoint, relay, peer, check_cp_device_keypair}
use goat_client.Tunnel.{linux, Addr, Prefix, Config}
use goat_client.Tunnel.Manager.{new_manager}
use goat_client.Tunnel.Manager.Invariant.{
  IsValid, Op, configuring_to, connecting, disconnecting, closing, run, run-IsValid,
}
use goat_client.Tunnel.FromBundle.{config, from_bundle, first_relay, parse_allowed, relay_config}
use goat_client.Tunnel.FromBundle.Laws.{Derives, from_bundle-Derives}
use goat_client.Innermesh
use goat_client.Innermesh.Netbird.{
  Netbird, new_netbird, configure, begin_connect, finish_connect, connect_calls, connect, close,
}
use goat_client.Innermesh.Netbird.Clients
use goat_client.Innermesh.Netbird.Clients.{
  Reachable, in_flight, Reachable-IsValid, close-leaves_running,
}
use goat_client.Innermesh.LogBuffer.{new_ring_writer}
use goat_client.Innermesh.LogBuffer.Bounds.{Holds, write_all, joined, log-Holds}
use goat_client.Tests.Store.{no_mesh}

abbrev some_prefix : Prefix
some_prefix = record { addr = record { text = codes "198.18.0.6"; bit_len = 32 }; bits = 24 }

abbrev some_config : Config
some_config = record {
  interface_name = [];
  private_key = replicate 32 1;
  local_address = some_prefix;
  peer = record {
    public_key = replicate 32 2;
    endpoint = codes "h:1";
    allowed_ips = [];
    persistent_keepalive = 25;
  };
  mtu = 0;
  listen_port = 0;
  dns_servers = [];
  search_domains = [];
  match_domains = [];
}

-- The second connection finds the device gone bad.
abbrev ops : List Op
ops = configuring_to some_config ∷ connecting ∷ disconnecting ∷ connecting ∷ closing ∷ []

run-IsValid_example :
    IsValid (run ops (new_manager linux (false ∷ false ∷ false ∷ false ∷ true ∷ [])))
run-IsValid_example = run-IsValid linux ops (false ∷ false ∷ false ∷ false ∷ true ∷ [])

abbrev a_relay : KnownEndpoint
a_relay = record {
  addr = codes "r:51820";
  pubkey = replicate 32 2;
  kind = relay;
  mesh_addr = codes "198.18.0.3";
  allowed_ips = codes "198.18.0.0/24" ∷ [];
}

abbrev pub wg_bundle : EnrollmentBundle
wg_bundle = record {
  version = 1;
  device_id = codes "laptop";
  peer_pubkey = [];
  acl_groups = [];
  site = codes "site";
  known_endpoints = record a_relay { kind = peer } ∷ a_relay ∷ [];
  issued_at = 0;
  activation_deadline = 10;
  expires_at = 20;
  nonce = [];
  ca_id = [];
  snitch_probe_key = [];
  tls_trust_anchor = [];
  cp_device_pubkey = replicate 32 3;
  cp_device_privkey = replicate 32 4;
  cp_device_address = codes "198.18.0.6/24";
  inner_mesh_setup = no_mesh;
  mobile_cert = [];
  signature = [];
}

abbrev pub parse_addr : Str → Option Addr
parse_addr s = some (record { text = s; bit_len = 32 })

abbrev pub parse_prefix : Str → Option Prefix
parse_prefix s = some (record { addr = record { text = s; bit_len = 32 }; bits = 24 })

abbrev derived_config : Config
derived_config =
    relay_config linux wg_bundle
      (record { addr = record { text = codes "198.18.0.6/24"; bit_len = 32 }; bits = 24 }) a_relay
      (record { addr = record { text = codes "198.18.0.3"; bit_len = 32 }; bits = 32 }
        ∷ record { addr = record { text = codes "198.18.0.0/24"; bit_len = 32 }; bits = 24 }
        ∷ [])

wg_bundle_gives : from_bundle linux parse_addr parse_prefix wg_bundle ≡ config derived_config
unfolding from_bundle first_relay parse_allowed check_cp_device_keypair
wg_bundle_gives = refl

from_bundle-Derives_example : Derives linux parse_addr parse_prefix wg_bundle derived_config
from_bundle-Derives_example =
    from_bundle-Derives linux parse_addr parse_prefix wg_bundle derived_config wg_bundle_gives

abbrev mesh_config : Innermesh.Config
mesh_config = record {
  setup_key = codes "key";
  management_url = codes "https://m";
  prefer_kernel_wg = false;
  admin_access_token = [];
  mobile_cert = [];
  pre_shared_key = [];
  rosenpass_enabled = false;
  rosenpass_permissive = false;
  config_path = codes "/c";
  state_path = [];
  bundle_device_id = codes "laptop";
}

abbrev configured : Netbird
configured = (configure mesh_config (new_netbird (codes "host") [])).0

abbrev connected : Netbird
connected = (connect configured).0

no_client_yet : configured.client ≡ none
unfolding configure new_netbird
no_client_yet = refl

begun : in_flight configured.cfg (begin_connect configured) ≡ some mesh_config
unfolding begin_connect configure new_netbird
begun = refl

abbrev finished : Netbird
finished = (finish_connect mesh_config (begin_connect configured).0).0

finished-Reachable : Reachable false none finished
finished-Reachable = Clients.finishes false mesh_config ((begin_connect configured).0) (
    subst (λ o. Reachable false o ((begin_connect configured).0)) begun
      (Clients.begins false configured no_client_yet (
        Clients.configures false none mesh_config (new_netbird (codes "host") [])
          (Clients.starts (codes "host") []))))

Reachable-IsValid_example : Clients.IsValid false none finished
Reachable-IsValid_example = Reachable-IsValid false none finished finished-Reachable

one_runs : connected.running ≡ 0 ∷ []
unfolding connect begin_connect finish_connect connect_calls configure new_netbird
one_runs = refl

one_started : 0 < connected.started
unfolding connect begin_connect finish_connect connect_calls configure new_netbird
one_started = omega arith

connects_again : (connect connected).1 ≡ none
unfolding connect begin_connect finish_connect connect_calls configure new_netbird
connects_again = refl

one_held : connected.client ≡ some 0
unfolding connect begin_connect finish_connect connect_calls configure new_netbird
one_held = refl

close-leaves_running_example :
    (((connect connected).0).client ≡ some connected.started)
    × (((connect connected).0).running ≡ connected.started ∷ 0 ∷ [])
    × (((close ((connect connected).0)).0).client ≡ none)
    × (((close ((connect connected).0)).0).running ≡ 0 ∷ [])
close-leaves_running_example =
    close-leaves_running connected 0 one_held one_runs one_started connects_again

abbrev pieces : List Str
pieces = codes "one\ntwo\n" ∷ codes "three\n" ∷ []

log-Holds_example : Holds (write_all (new_ring_writer 10) pieces) 10 (joined pieces)
log-Holds_example = log-Holds 10 pieces (omega arith)
