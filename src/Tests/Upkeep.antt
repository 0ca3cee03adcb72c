-- ===== src/Tests/Upkeep.antt =====
-- Runs of the imports and the loops of internal/daemon, and of the refresh and the listener of internal/names.
use goat_client.Prelude.{
  true, false, Option, none, some, [], ◌∷◌, Str, codes, ◌≡◌, ◌≢◌, refl, is_some,
}
use goat_client.Mode.{combined}
use goat_client.Innermesh.Netbird
use goat_client.Innermesh.Peers.{PeerStatus}
use goat_client.Filedrop.{handle_put}
use goat_client.Tests.Filedrop.{request, inbox, host_only}
use goat_client.Daemon.Imports.{import_bundle}
use goat_client.Daemon.Imports.Verified.{ImportSpec, import_bundle-ImportSpec}
use goat_client.Daemon.PeerConn.{Turn, idle, reconcile, run_peer_conn}
use goat_client.Daemon.PeerConn.Running.{TurnSpec, run_peer_conn-TurnSpec}
use goat_client.Daemon.Filedrop.{peers}
use goat_client.Daemon.Filedrop.Peers.{server, FromPeer, handle_put-FromPeer}
use goat_client.Daemon.Dns.{DnsConfig, Net, Resolver, Seen, reapply, restore_dns}
use goat_client.Daemon.Dns.Restored.{transitions, restore_dns-transitions}
use goat_client.Names.Refresh.{Writes, refresh}
use goat_client.Names.Refresh.Monotone.{RefreshSpec, refresh-RefreshSpec}
use goat_client.Names.{lands}
use goat_client.Names.Snapshots.{new_store-Coherent}
use goat_client.Names.Supervise.{started, begin, crashes, Reachable, at_start, after}
use goat_client.Names.Supervise.Health.{IsFaithful, Reachable-IsFaithful}
use goat_client.Tests.Daemon.{host, session}
use goat_client.Tests.Resolver.{crypto, roots, file, env, service}

import_bundle-ImportSpec_example :
    ImportSpec host (codes "new") 5 session (import_bundle host (codes "new") 5 session)
import_bundle-ImportSpec_example = import_bundle-ImportSpec host (codes "new") 5 session

abbrev peer : PeerStatus
peer = record {
  ip = codes "100.64.0.2";
  pub_key = codes "k";
  fqdn = codes "host.mesh";
  connected = true;
  relayed = false;
  local_ice_type = [];
  remote_ice_type = [];
  relay_address = [];
  last_handshake = 0;
  bytes_rx = 0;
  bytes_tx = 0;
  latency = 0;
}

abbrev turn : Turn
turn = record {
  current_mode = combined;
  mesh = some Netbird.State.up;
  local_ip = codes "100.64.0.1";
  peers = some (peer ∷ []);
  bind_fails = false;
}

abbrev join : Str → Str
join ip = ip

run_peer_conn-TurnSpec_example :
    TurnSpec join turn
      (run_peer_conn join (turn ∷ []) idle)
      (reconcile join turn (run_peer_conn join (turn ∷ []) idle))
run_peer_conn-TurnSpec_example = run_peer_conn-TurnSpec join (turn ∷ []) turn

handle_put-FromPeer_example :
    FromPeer
      (peers (peer ∷ []))
      100
      host_only
      request
      inbox
      (handle_put (server (peers (peer ∷ [])) 100 host_only request inbox) request inbox)
handle_put-FromPeer_example = handle_put-FromPeer (peers (peer ∷ [])) 100 host_only request inbox

abbrev net : Net
net = record { parse_addr_port = λ s. none; parse_addr = λ s. none; join_port = λ s p. s }

abbrev direct : DnsConfig
direct = record { nameservers = []; search_domains = []; match_domains = []; port = 0 }

abbrev resolver : Resolver
resolver = record {
  host = some (codes "wg0", direct);
  last_dns = some (codes "wg0", direct);
  upstreams = [];
}

abbrev seen : Seen
seen = record {
  forwarder = none;
  fronted_fails = false;
  direct_fails = false;
  restore_fails = false;
}

is_active : resolver.last_dns ≢ none
is_active h = absurd (cc)

restore_dns-transitions_example :
    ((transitions net true (seen ∷ []) (restore_dns false resolver)).host ≡ none)
    × (is_some (reapply net true seen resolver.last_dns (restore_dns false resolver)).host ≡ true)
    × ((reapply net true seen resolver.last_dns (restore_dns false resolver)).last_dns ≡ none)
restore_dns-transitions_example =
    restore_dns-transitions net true resolver (seen ∷ []) seen is_active refl

abbrev writes : Writes
writes = record { sig = lands 8; artifact = lands 9; claims_fail = false }

abbrev get : Str → Option Str
get url = some (66 ∷ [])

refresh-RefreshSpec_example :
    RefreshSpec env get writes (codes "u") service (refresh env get writes (codes "u") service)
refresh-RefreshSpec_example =
    refresh-RefreshSpec env get writes (codes "u") service
      (new_store-Coherent crypto roots (some file) (some file))

crashed : Reachable (begin 0 started)
crashed = after started (begin 0 started) at_start (crashes started refl)

Reachable-IsFaithful_example : IsFaithful (begin 0 started)
Reachable-IsFaithful_example = Reachable-IsFaithful (begin 0 started) crashed
