-- ===== src/Ipc/Client.antt =====
-- internal/ipc/client.go and types.go: the client of the daemon. The connection is seen as the lines that the
-- daemon wrote to it and the client has not read; what befalls a call is its `Turn`.
pub mod Late
pub mod Methods
use goat_client.Prelude.{
  ℕ, ◌+◌, ◌^◌, ◌%◌, Bool, true, false, Option, none, some, List, [], ◌∷◌, ◌++◌, Str, codes, same,
  if◌then◌else◌,
}
use goat_client.Ipc.Wire.{
  TunnelState, NamesSnapshot, InnerMeshSnapshot, StatusReply, ImportBundleReply, DiagnosticsReply,
  GetModeReply, SetModeReply, SendFileReply, IncomingFile, GetIncomingFilesReply, PeerConnectivity,
  GetPeerConnectivityReply,
}
use goat_client.Ipc.Profiles.{
  ProfileInfo, ListProfilesReply, AddProfileReply, RenameProfileReply, SetActiveProfileReply,
  GetActiveProfileReply,
}
use goat_client.Ipc.Dispatch.{Method, RpcRequest, RpcResponse, ErrorCode, Answer}

pub data CallError : Type 0 where
  marshal_failed write_failed read_failed bad_response bad_result : CallError
  rpc_error : ErrorCode → Str → CallError

pub data Result (A : Type 0) : Type 0 where
  ok : A → Result A
  err : CallError → Result A

pub record Client : Type 0 where
  pub next : ℕ
  pub unread : List Str

abbrev pub new_client : Client
new_client = record { next = 0; unread = [] }

-- The parameters, where they can be marshalled; whether the request cannot be written; the line that the
-- daemon answers it with; and whether a line comes before the deadline.
pub record Turn (Json : Type 0) : Type 0 where
  pub method : Method
  pub params : Option Json
  pub write_fails : Bool
  pub answer : RpcRequest Json → Str
  pub in_time : Bool

-- `idGenerator.Next`.
abbrev pub bump : ℕ → ℕ
bump n = (n + 1) % 2 ^ 64

-- `json.Marshal` of a number, and `json.Unmarshal` of a response.
module _ {Json : Type 0} (number : ℕ → Json) (decode : Str → Option (RpcResponse Json)) where
  abbrev pub request : ℕ → Turn Json → Json → RpcRequest Json
  request n t p = record { jsonrpc = codes "2.0"; id = number n; method = t.method; params = p }

  abbrev pub answered : Answer Json → Result Json
  answered (Answer.result j) = ok j
  answered (Answer.error code message) = err (rpc_error code message)

  abbrev pub taken : Option (RpcResponse Json) → Result Json
  taken none = err bad_response
  taken (some r) = answered r.answer

  abbrev pub take_line : List Str → Client → Client × Result Json
  take_line [] c = (c, err read_failed)
  take_line (l ∷ ls) c = (record c { unread = ls }, taken (decode l))

  abbrev pub receive : Bool → Client → Client × Result Json
  receive false c = (c, err read_failed)
  receive true c = take_line c.unread c

  abbrev pub exchange : Turn Json → Option Json → Bool → Client → Client × Result Json
  exchange t none write_fails c = (c, err marshal_failed)
  exchange t (some p) true c = (c, err write_failed)
  exchange t (some p) false c =
      receive t.in_time (record c { unread = c.unread ++ t.answer (request c.next t p) ∷ [] })

  -- `call`, up to the result, which the caller has decoded.
  unfoldable pub call_raw : Turn Json → Client → Client × Result Json
  call_raw t c = exchange t t.params t.write_fails (record c { next = bump c.next })

  abbrev pub decoded : {A B : Type 0} → (Json → Option A) → (A → B) → Result Json → Result B
  decoded out f (err e) = err e
  decoded out f (ok j) = elim (out j) [ none ↦ err bad_result | some a ↦ ok (f a) ]

  -- A method of `realClient`: a call, and what is made of its reply.
  unfoldable pub call :
      {A B : Type 0} → (Json → Option A) → (A → B) → Turn Json → Client → Client × Result B
  call out f t c = let (c', r) = call_raw t c in (c', decoded out f r)

  -- Calls one after another, with what each took for its result.
  unfoldable pub call_all : List (Turn Json) → Client → Client × List (Result Json)
  call_all [] c = (c, [])
  call_all (t ∷ ts) c = let (c₁, r) = call_raw t c in let (c₂, rs) = call_all ts c₁ in (c₂, r ∷ rs)

pub data State : Type 0 where
  disconnected connecting connected error : State

pub record BundleInfo : Type 0 where
  pub issued_to : Str
  pub site : Str
  pub not_before : ℕ
  pub not_after : ℕ
  pub peer_pub_key : Str
  pub endpoints : List Str

pub record InnerMeshInfo : Type 0 where
  pub state : State
  pub peer_count : ℕ
  pub bytes_in : ℕ
  pub bytes_out : ℕ
  pub last_handshake : ℕ
  pub rosenpass_peers : ℕ
  pub rosenpass_enabled : Bool
  pub rosenpass_permissive : Bool

pub record StatusInfo : Type 0 where
  pub mode : Str
  pub state : State
  pub interface_name : Str
  pub last_handshake : ℕ
  pub bytes_in : ℕ
  pub bytes_out : ℕ
  pub peer_pub_key : Str
  pub endpoints : List Str
  pub bundle_imported : Bool
  pub bundle : Option BundleInfo
  pub error_message : Str
  pub inner_mesh : Option InnerMeshInfo
  pub names : Option NamesSnapshot

pub record Diagnostics : Type 0 where
  pub log_tail : List Str
  pub last_probe : ℕ
  pub reachable : Bool
  pub probe_error : Str

unfoldable pub map_wire_state : TunnelState → State
map_wire_state TunnelState.connecting = connecting
map_wire_state TunnelState.connected = connected
map_wire_state TunnelState.error = error
map_wire_state TunnelState.no_bundle = disconnected
map_wire_state TunnelState.disconnected = disconnected

abbrev mesh_info : InnerMeshSnapshot → InnerMeshInfo
mesh_info s = record {
  state = map_wire_state s.state;
  peer_count = s.peer_count;
  bytes_in = s.bytes_in;
  bytes_out = s.bytes_out;
  last_handshake = s.last_handshake;
  rosenpass_peers = s.rosenpass_peers;
  rosenpass_enabled = s.rosenpass_enabled;
  rosenpass_permissive = s.rosenpass_permissive;
}

abbrev pub mesh_info_of : Option InnerMeshSnapshot → Option InnerMeshInfo
mesh_info_of none = none
mesh_info_of (some s) = some (mesh_info s)

-- `base64` is `base64.StdEncoding.EncodeToString`.
module _ (base64 : Str → Str) where
  -- `ImportBundle` leaves the endpoints empty.
  abbrev pub bundle_info : ImportBundleReply → BundleInfo
  bundle_info r = record {
    issued_to = r.device_id;
    site = r.site;
    not_before = r.issued_at;
    not_after = r.expires_at;
    peer_pub_key = base64 r.peer_pubkey;
    endpoints = [];
  }

  abbrev loaded_bundle : StatusReply → BundleInfo
  loaded_bundle r = record {
    issued_to = r.device_id;
    site = r.site;
    not_before = 0;
    not_after = r.bundle_expires_at;
    peer_pub_key = base64 r.peer_pubkey;
    endpoints = r.configured_endpoints;
  }

  unfoldable pub status_info : StatusReply → StatusInfo
  status_info r = record {
    mode = r.mode;
    state = map_wire_state r.state;
    interface_name = [];
    last_handshake = r.last_handshake;
    bytes_in = r.bytes_in;
    bytes_out = r.bytes_out;
    peer_pub_key = base64 r.peer_pubkey;
    endpoints = r.configured_endpoints;
    bundle_imported = r.bundle_loaded;
    bundle = if r.bundle_loaded then some (loaded_bundle r) else none;
    error_message = r.error_message;
    inner_mesh = mesh_info_of r.inner_mesh;
    names = r.names;
  }

abbrev pub diagnostics : DiagnosticsReply → Diagnostics
diagnostics r = record {
  log_tail = r.log_tail;
  last_probe = r.last_connect_attempt;
  reachable = same r.last_error [];
  probe_error = r.last_error;
}
