-- ===== src/Ipc/Dispatch.antt =====
-- internal/ipc/dispatch.go: the dispatch of one connection's requests to the daemon. The daemon is a
-- `Handler` over a state of any type; JSON is the argument `Codec`.
pub mod Guard
use goat_client.Prelude.{
  ℕ, Bool, true, false, not, Option, none, some, List, [], ◌∷◌, Str, codes, same, ◌&&◌, ◌||◌, ◌==◌,
  if◌then◌else◌,
}
use goat_client.Ipc.Wire.{
  StatusReply, DiagnosticsReply, ImportBundleRequest, ImportBundleReply, GetModeReply,
  SetModeRequest, SetModeReply, SetRosenpassRequest, SetRosenpassReply, InnerMeshSnapshot,
  GetPeerConnectivityReply, GetIncomingFilesReply, SendFileRequest, SendFileReply,
  SetInnerMeshProfileRequest, InnerMeshDiagnosticsReply,
}
use goat_client.Ipc.Profiles.{
  PeerCreds, ListProfilesReply, AddProfileRequest, AddProfileReply, RemoveProfileRequest,
  RenameProfileRequest, RenameProfileReply, SetActiveProfileRequest, SetActiveProfileReply,
  GetActiveProfileReply,
}

-- A method is a string in the source: its known values are constructors, and `other` holds any
-- further text, the empty one included.
pub data Method : Type 0 where
  import_bundle get_status connect disconnect get_diagnostics get_mode set_mode set_rosenpass :
      Method
  get_inner_mesh_status get_peer_connectivity get_incoming_files send_file : Method
  set_inner_mesh_profile enable_inner_mesh disable_inner_mesh get_inner_mesh_diagnostics : Method
  list_profiles add_profile remove_profile rename_profile set_active_profile get_active_profile :
      Method
  other : Str → Method

-- A value, or the text of an error.
pub data Outcome (A : Type 0) : Type 0 where
  ok : A → Outcome A
  err : Str → Outcome A

pub data Reply : Type 0 where
  empty : Reply
  status : StatusReply → Reply
  diagnostics : DiagnosticsReply → Reply
  imported : ImportBundleReply → Reply
  mode : GetModeReply → Reply
  mode_set : SetModeReply → Reply
  rosenpass_set : SetRosenpassReply → Reply
  inner_mesh : InnerMeshSnapshot → Reply
  peer_connectivity : GetPeerConnectivityReply → Reply
  incoming_files : GetIncomingFilesReply → Reply
  file_sent : SendFileReply → Reply
  inner_mesh_diagnostics : InnerMeshDiagnosticsReply → Reply
  profiles : ListProfilesReply → Reply
  profile_added : AddProfileReply → Reply
  profile_renamed : RenameProfileReply → Reply
  profile_activated : SetActiveProfileReply → Reply
  active_profile : GetActiveProfileReply → Reply

abbrev pub Call : Type 0 → Type 0 → Type 0
Call S A = S → S × Outcome A

-- The interface `Handler`. Where the source returns only an error, the reply is `tt`.
pub record Handler (S : Type 0) : Type 0 where
  pub import_bundle : ImportBundleRequest → Call S ImportBundleReply
  pub get_status : Call S StatusReply
  pub connect : Call S (Unit {0})
  pub disconnect : Call S (Unit {0})
  pub get_diagnostics : Call S DiagnosticsReply
  pub get_mode : Call S GetModeReply
  pub set_mode : SetModeRequest → Call S SetModeReply
  pub set_rosenpass : SetRosenpassRequest → Call S SetRosenpassReply
  pub get_inner_mesh_status : Call S InnerMeshSnapshot
  pub get_peer_connectivity : Call S GetPeerConnectivityReply
  pub get_incoming_files : Call S GetIncomingFilesReply
  pub send_file : SendFileRequest → Call S SendFileReply
  pub set_inner_mesh_profile : SetInnerMeshProfileRequest → Call S (Unit {0})
  pub enable_inner_mesh : Call S (Unit {0})
  pub disable_inner_mesh : Call S (Unit {0})
  pub get_inner_mesh_diagnostics : Call S InnerMeshDiagnosticsReply
  pub list_profiles : Call S ListProfilesReply
  pub add_profile : AddProfileRequest → Call S AddProfileReply
  pub remove_profile : RemoveProfileRequest → Call S (Unit {0})
  pub rename_profile : RenameProfileRequest → Call S RenameProfileReply
  pub set_active_profile : SetActiveProfileRequest → Call S SetActiveProfileReply
  pub get_active_profile : Call S GetActiveProfileReply

pub record RpcRequest (Json : Type 0) : Type 0 where
  pub jsonrpc : Str
  pub id : Json
  pub method : Method
  pub params : Json

pub data ErrorCode : Type 0 where
  parse invalid_request method_not_found invalid_params internal unauthorized : ErrorCode

pub data Answer (Json : Type 0) : Type 0 where
  result : Json → Answer Json
  error : ErrorCode → Str → Answer Json

-- The id is `none` where the request did not parse.
pub record RpcResponse (Json : Type 0) : Type 0 where
  pub id : Option Json
  pub answer : Answer Json

-- `json.Unmarshal` of a line and of the parameters, and `json.Marshal` of a reply.
pub record Codec (Json : Type 0) : Type 0 where
  pub decode : Str → Outcome (RpcRequest Json)
  pub decode_import : Json → Outcome ImportBundleRequest
  pub decode_set_mode : Json → Outcome SetModeRequest
  pub decode_set_rosenpass : Json → Outcome SetRosenpassRequest
  pub decode_send_file : Json → Outcome SendFileRequest
  pub decode_mesh_profile : Json → Outcome SetInnerMeshProfileRequest
  pub decode_add : Json → Outcome AddProfileRequest
  pub decode_remove : Json → Outcome RemoveProfileRequest
  pub decode_rename : Json → Outcome RenameProfileRequest
  pub decode_set_active : Json → Outcome SetActiveProfileRequest
  pub encode : Reply → Outcome Json

unfoldable pub is_mutating : Method → Bool
is_mutating import_bundle = true
is_mutating connect = true
is_mutating disconnect = true
is_mutating set_mode = true
is_mutating set_rosenpass = true
is_mutating set_inner_mesh_profile = true
is_mutating enable_inner_mesh = true
is_mutating disable_inner_mesh = true
is_mutating add_profile = true
is_mutating remove_profile = true
is_mutating rename_profile = true
is_mutating set_active_profile = true
is_mutating send_file = true
is_mutating _ = false

abbrev pub is_empty : Method → Bool
is_empty (other []) = true
is_empty _ = false

unfoldable pub authorized_for_mutate : PeerCreds → ℕ → Bool
authorized_for_mutate creds trusted_uid = (trusted_uid == 0) || (creds.uid == trusted_uid)

-- What `bufio.Scanner` and the connection do at the next line: whether the context is done by then,
-- and whether the response can be written. A line above 1 MiB is `too_long`.
pub data Line : Type 0 where
  line : Str → Bool → Bool → Line
  too_long : Line

pub data End : Type 0 where
  finished cancelled write_failed scan_failed : End

abbrev pub done : Unit {0} → Reply
done t = empty

-- A response to a line that is no request is written without a look at the error.
abbrev pub stops : {A : Type 0} → Outcome A → Bool → Bool
stops (err e) write_fails = false
stops (ok req) write_fails = write_fails

module _ {S Json : Type 0} (codec : Codec Json) where
  abbrev pub fill_result : {A : Type 0} → (A → Reply) → S × Outcome A → S × Answer Json
  fill_result wrap (s, err e) = (s, error internal e)
  fill_result wrap (s, ok a) =
      (s, elim (codec.encode (wrap a)) [ ok j ↦ result j | err e ↦ error internal e ])

  abbrev pub with_params :
      {P A : Type 0} → (A → Reply) → Outcome P → (P → Call S A) → S → S × Answer Json
  with_params wrap (err e) f s = (s, error invalid_params e)
  with_params wrap (ok p) f s = fill_result wrap (f p s)

  -- The switch of `handle`.
  unfoldable pub route : Handler S → Method → Json → S → S × Answer Json
  route h import_bundle p s = with_params imported (codec.decode_import p) h.import_bundle s
  route h get_status p s = fill_result status (h.get_status s)
  route h connect p s = fill_result done (h.connect s)
  route h disconnect p s = fill_result done (h.disconnect s)
  route h get_diagnostics p s = fill_result diagnostics (h.get_diagnostics s)
  route h get_mode p s = fill_result mode (h.get_mode s)
  route h set_mode p s = with_params mode_set (codec.decode_set_mode p) h.set_mode s
  route h set_rosenpass p s =
      with_params rosenpass_set (codec.decode_set_rosenpass p) h.set_rosenpass s
  route h get_inner_mesh_status p s = fill_result inner_mesh (h.get_inner_mesh_status s)
  route h get_peer_connectivity p s = fill_result peer_connectivity (h.get_peer_connectivity s)
  route h get_incoming_files p s = fill_result incoming_files (h.get_incoming_files s)
  route h send_file p s = with_params file_sent (codec.decode_send_file p) h.send_file s
  route h set_inner_mesh_profile p s =
      with_params done (codec.decode_mesh_profile p) h.set_inner_mesh_profile s
  route h enable_inner_mesh p s = fill_result done (h.enable_inner_mesh s)
  route h disable_inner_mesh p s = fill_result done (h.disable_inner_mesh s)
  route h get_inner_mesh_diagnostics p s =
      fill_result inner_mesh_diagnostics (h.get_inner_mesh_diagnostics s)
  route h list_profiles p s = fill_result profiles (h.list_profiles s)
  route h add_profile p s = with_params profile_added (codec.decode_add p) h.add_profile s
  route h remove_profile p s = with_params done (codec.decode_remove p) h.remove_profile s
  route h rename_profile p s =
      with_params profile_renamed (codec.decode_rename p) h.rename_profile s
  route h set_active_profile p s =
      with_params profile_activated (codec.decode_set_active p) h.set_active_profile s
  route h get_active_profile p s = fill_result active_profile (h.get_active_profile s)
  route h (other m) p s = (s, error method_not_found (codes "ipc: unknown method"))

  unfoldable pub answer_to : Handler S → PeerCreds → ℕ → RpcRequest Json → S → S × Answer Json
  answer_to h creds trusted_uid req s =
      if not (same req.jsonrpc (codes "2.0")) || is_empty req.method
      then (s, error invalid_request (codes "missing jsonrpc:2.0 or method"))
      else if is_mutating req.method && not (authorized_for_mutate creds trusted_uid)
      then (s, error unauthorized (codes "ipc: peer uid not authorized"))
      else route h req.method req.params s

  abbrev pub respond : Option Json → S × Answer Json → S × RpcResponse Json
  respond i (s, a) = (s, record { id = i; answer = a })

  unfoldable pub handle : Handler S → PeerCreds → ℕ → RpcRequest Json → S → S × RpcResponse Json
  handle h creds trusted_uid req s = respond (some req.id) (answer_to h creds trusted_uid req s)

  abbrev pub reply_to :
      Handler S → PeerCreds → ℕ → Outcome (RpcRequest Json) → S → S × RpcResponse Json
  reply_to h creds trusted_uid (err e) s = (s, record { id = none; answer = error parse e })
  reply_to h creds trusted_uid (ok req) s = handle h creds trusted_uid req s

  abbrev pub and_then :
      Bool
      → S × RpcResponse Json
      → (S → S × List (RpcResponse Json) × End)
      → S × List (RpcResponse Json) × End
  and_then true (s, r) k = (s, [], write_failed)
  and_then false (s, r) k = let (s', rs, e) = k s in (s', r ∷ rs, e)

  -- `Serve`, with the responses that it wrote, or tried to where the error is not looked at.
  unfoldable pub serve :
      Handler S → PeerCreds → ℕ → List Line → S → S × List (RpcResponse Json) × End
  serve h creds trusted_uid [] s = (s, [], finished)
  serve h creds trusted_uid (too_long ∷ ls) s = (s, [], scan_failed)
  serve h creds trusted_uid (line l is_done write_fails ∷ ls) s = elim is_done [
    | true ↦ (s, [], cancelled)
    | false ↦
        and_then (stops (codec.decode l) write_fails)
          (reply_to h creds trusted_uid (codec.decode l) s) (serve h creds trusted_uid ls)
  ]
