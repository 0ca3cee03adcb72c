-- ===== src/Ipc/Wire.antt =====
-- internal/ipc/ipc.go: the values on the wire that are about tunnels, modes and files. Times are Unix
-- nanoseconds, and 0 is the zero time. A float64 is the quotient that the source computes for it.
use goat_client.Prelude.{ℕ, Bool, Option, List, Str}

pub record Ratio : Type 0 where
  pub num : ℕ
  pub den : ℕ

pub data TunnelState : Type 0 where
  no_bundle disconnected connecting connected error : TunnelState

pub record InnerMeshSnapshot : Type 0 where
  pub state : TunnelState
  pub peer_count : ℕ
  pub bytes_in : ℕ
  pub bytes_out : ℕ
  pub last_handshake : ℕ
  pub rosenpass_peers : ℕ
  pub rosenpass_enabled : Bool
  pub rosenpass_permissive : Bool

pub record NamesSnapshot : Type 0 where
  pub grade : Str
  pub serial : ℕ
  pub age : Str
  pub records : ℕ
  pub observed : ℕ
  pub forwarder_addr : Str
  pub fallback_served : ℕ
  pub last_fallback : ℕ

pub record StatusReply : Type 0 where
  pub mode : Str
  pub state : TunnelState
  pub bundle_loaded : Bool
  pub device_id : Str
  pub site : Str
  pub bundle_expires_at : ℕ
  pub peer_pubkey : Str
  pub last_handshake : ℕ
  pub bytes_in : ℕ
  pub bytes_out : ℕ
  pub configured_endpoints : List Str
  pub error_message : Str
  pub inner_mesh : Option InnerMeshSnapshot
  pub names : Option NamesSnapshot

pub record IncomingFile : Type 0 where
  pub name : Str
  pub size : ℕ
  pub from : Str
  pub from_ip : Str
  pub path : Str
  pub at : ℕ

pub record GetIncomingFilesReply : Type 0 where
  pub files : List IncomingFile

pub record PeerConnectivity : Type 0 where
  pub ip : Str
  pub fqdn : Str
  pub pub_key : Str
  pub connected : Bool
  pub path : Str
  pub local_ice_type : Str
  pub remote_ice_type : Str
  pub relay_address : Str
  pub last_handshake : ℕ
  pub bytes_rx : ℕ
  pub bytes_tx : ℕ
  pub measured : Bool
  pub samples : ℕ
  pub loss_pct : Ratio
  pub rtt_last_ms : Ratio
  pub rtt_avg_ms : Ratio
  pub rtt_min_ms : Ratio
  pub rtt_max_ms : Ratio

pub record GetPeerConnectivityReply : Type 0 where
  pub peers : List PeerConnectivity

pub record InnerMeshPeerStats : Type 0 where
  pub peer_pub_key : Str
  pub bytes_in : ℕ
  pub bytes_out : ℕ
  pub last_handshake : ℕ

pub record InnerMeshDiagnosticsReply : Type 0 where
  pub log_tail : List Str
  pub peer_stats : List InnerMeshPeerStats

pub record DiagnosticsReply : Type 0 where
  pub log_tail : List Str
  pub last_connect_attempt : ℕ
  pub last_error : Str
  pub uptime_seconds : ℕ

pub record ImportBundleRequest : Type 0 where
  pub bundle_bytes : Str

pub record ImportBundleReply : Type 0 where
  pub device_id : Str
  pub site : Str
  pub issued_at : ℕ
  pub expires_at : ℕ
  pub peer_pubkey : Str
  pub endpoints_count : ℕ
  pub has_cp_device_key : Bool

pub record SendFileRequest : Type 0 where
  pub peer : Str
  pub path : Str

pub record SendFileReply : Type 0 where
  pub name : Str
  pub size : ℕ
  pub to_peer : Str
  pub to_ip : Str

pub record GetModeReply : Type 0 where
  pub mode : Str

pub record SetModeRequest : Type 0 where
  pub mode : Str

pub record SetModeReply : Type 0 where
  pub previous_mode : Str
  pub mode : Str

pub record SetRosenpassRequest : Type 0 where
  pub enabled : Bool
  pub permissive : Bool

pub record SetRosenpassReply : Type 0 where
  pub previous_enabled : Bool
  pub previous_permissive : Bool
  pub enabled : Bool
  pub permissive : Bool

pub record SetInnerMeshProfileRequest : Type 0 where
  pub management_url : Str
  pub setup_key : Str
  pub admin_access_token : Str
  pub mobile_cert : Str
  pub pre_shared_key : Str
