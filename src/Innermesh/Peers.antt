-- ===== src/Innermesh/Peers.antt =====
-- internal/innermesh/netbird.go: what is read of the embedded client's status, `Stats`, `Peers` and
-- `LocalIP`. The client is third party: its `FullStatus` is a value.
use goat_client.Prelude.{
  ℕ, ◌+◌, ◌%◌, ◌^◌, Bool, Option, none, some, List, [], ◌∷◌, Str, codes, same, length, ltb, map,
  if◌then◌else◌,
}

-- What the program reads of a `peer.State`; `conn_status` is its text, the counters are the 64-bit
-- patterns of an int64, and times are in nanoseconds.
pub record PeerState : Type 0 where
  pub ip : Str
  pub pub_key : Str
  pub fqdn : Str
  pub conn_status : Str
  pub relayed : Bool
  pub local_ice_candidate_type : Str
  pub remote_ice_candidate_type : Str
  pub relay_server_address : Str
  pub last_wireguard_handshake : ℕ
  pub bytes_rx : ℕ
  pub bytes_tx : ℕ
  pub latency : ℕ
  pub rosenpass_enabled : Bool

pub record FullStatus : Type 0 where
  pub peers : List PeerState
  pub local_peer_ip : Str

-- `client.Status`: no client, an error, or the status.
pub data ClientStatus : Type 0 where
  no_client status_failed : ClientStatus
  status : FullStatus → ClientStatus

pub record Stats : Type 0 where
  pub peer_count : ℕ
  pub bytes_in : ℕ
  pub bytes_out : ℕ
  pub last_handshake : ℕ
  pub rosenpass_peers : ℕ

pub record PeerStatus : Type 0 where
  pub ip : Str
  pub pub_key : Str
  pub fqdn : Str
  pub connected : Bool
  pub relayed : Bool
  pub local_ice_type : Str
  pub remote_ice_type : Str
  pub relay_address : Str
  pub last_handshake : ℕ
  pub bytes_rx : ℕ
  pub bytes_tx : ℕ
  pub latency : ℕ

unfoldable pub path : PeerStatus → Str
path p = if p.relayed then codes "relayed" else codes "direct"

abbrev pub no_stats : Stats
no_stats = record {
  peer_count = 0;
  bytes_in = 0;
  bytes_out = 0;
  last_handshake = 0;
  rosenpass_peers = 0;
}

abbrev pub count_peer : PeerState → Stats → Stats
count_peer p s = record s {
  bytes_in = (s.bytes_in + p.bytes_rx) % 2 ^ 64;
  bytes_out = (s.bytes_out + p.bytes_tx) % 2 ^ 64;
  last_handshake =
      if ltb s.last_handshake p.last_wireguard_handshake
      then p.last_wireguard_handshake
      else s.last_handshake;
  rosenpass_peers = if p.rosenpass_enabled then s.rosenpass_peers + 1 else s.rosenpass_peers;
}

unfoldable pub count_peers : Stats → List PeerState → Stats
count_peers s [] = s
count_peers s (p ∷ ps) = count_peers (count_peer p s) ps

-- An error is `none`.
unfoldable pub stats : ClientStatus → Option Stats
stats no_client = some no_stats
stats status_failed = none
stats (status fs) = some (count_peers (record no_stats { peer_count = length fs.peers }) fs.peers)

abbrev pub peer_status : PeerState → PeerStatus
peer_status p = record {
  ip = p.ip;
  pub_key = p.pub_key;
  fqdn = p.fqdn;
  connected = same p.conn_status (codes "Connected");
  relayed = p.relayed;
  local_ice_type = p.local_ice_candidate_type;
  remote_ice_type = p.remote_ice_candidate_type;
  relay_address = p.relay_server_address;
  last_handshake = p.last_wireguard_handshake;
  bytes_rx = p.bytes_rx;
  bytes_tx = p.bytes_tx;
  latency = p.latency;
}

unfoldable pub peers : ClientStatus → Option (List PeerStatus)
peers no_client = some []
peers status_failed = none
peers (status fs) = some (map peer_status fs.peers)

abbrev or_self : Str → Option Str → Str
or_self s none = s
or_self s (some ip) = ip

-- `parse_prefix` is `netip.ParsePrefix`, to the text of its address.
module _ (parse_prefix : Str → Option Str) where
  unfoldable pub bare_overlay_ip : Str → Str
  bare_overlay_ip s = if same s [] then s else or_self s (parse_prefix s)

  unfoldable pub local_ip : ClientStatus → Option Str
  local_ip no_client = some []
  local_ip status_failed = none
  local_ip (status fs) = some (bare_overlay_ip fs.local_peer_ip)
