-- ===== src/Ipc/Client/Methods.antt =====
-- internal/ipc/client.go: the methods of `realClient`, each of which is one call. JSON is the argument
-- `Messages`, and a `Turn` says what befalls the call.
use goat_client.Prelude.{ℕ, Bool, Option, some, List, Str}
use goat_client.Ipc.Wire.{
  StatusReply, ImportBundleRequest, ImportBundleReply, DiagnosticsReply, GetModeReply,
  SetModeRequest, SetModeReply, SetRosenpassRequest, SetRosenpassReply, SendFileRequest,
  SendFileReply, IncomingFile, GetIncomingFilesReply, PeerConnectivity, GetPeerConnectivityReply,
}
use goat_client.Ipc.Profiles.{
  ProfileInfo, ListProfilesReply, AddProfileRequest, AddProfileReply, RemoveProfileRequest,
  RenameProfileRequest, RenameProfileReply, SetActiveProfileRequest, SetActiveProfileReply,
  GetActiveProfileReply,
}
use goat_client.Ipc.Dispatch.{Method, RpcResponse}
use goat_client.Ipc.Client.{
  Result, Client, Turn, call, BundleInfo, StatusInfo, Diagnostics, bundle_info, status_info,
  diagnostics,
}

-- `json.Marshal` of the parameters, and `json.Unmarshal` of the results.
pub record Messages (Json : Type 0) : Type 0 where
  pub number : ℕ → Json
  pub decode : Str → Option (RpcResponse Json)
  pub empty : Option Json
  pub to_import : ImportBundleRequest → Option Json
  pub to_set_mode : SetModeRequest → Option Json
  pub to_set_rosenpass : SetRosenpassRequest → Option Json
  pub to_send_file : SendFileRequest → Option Json
  pub to_add : AddProfileRequest → Option Json
  pub to_remove : RemoveProfileRequest → Option Json
  pub to_rename : RenameProfileRequest → Option Json
  pub to_set_active : SetActiveProfileRequest → Option Json
  pub of_import : Json → Option ImportBundleReply
  pub of_status : Json → Option StatusReply
  pub of_connectivity : Json → Option GetPeerConnectivityReply
  pub of_files : Json → Option GetIncomingFilesReply
  pub of_sent : Json → Option SendFileReply
  pub of_mode : Json → Option GetModeReply
  pub of_mode_set : Json → Option SetModeReply
  pub of_rosenpass : Json → Option SetRosenpassReply
  pub of_diagnostics : Json → Option DiagnosticsReply
  pub of_profiles : Json → Option ListProfilesReply
  pub of_added : Json → Option AddProfileReply
  pub of_renamed : Json → Option RenameProfileReply
  pub of_activated : Json → Option SetActiveProfileReply
  pub of_active : Json → Option GetActiveProfileReply

module _ {Json : Type 0} (base64 : Str → Str) (msg : Messages Json) where
  abbrev Calls : Type 0 → Type 0
  Calls A = Turn Json → Client → Client × Result A

  abbrev ask : {A B : Type 0} → Method → Option Json → (Json → Option A) → (A → B) → Calls B
  ask m params out f t c =
      call msg.number msg.decode out f (record t { method = m; params = params }) c

  -- With no result to decode.
  abbrev order : Method → Option Json → Calls (Unit {0})
  order m params = ask m params (λ j. some tt) (λ u. u)

  abbrev import_bundle : Str → Calls BundleInfo
  import_bundle raw =
      ask Method.import_bundle (msg.to_import (record { bundle_bytes = raw })) msg.of_import
        (bundle_info base64)

  abbrev get_status : Calls StatusInfo
  get_status = ask Method.get_status msg.empty msg.of_status (status_info base64)

  abbrev get_peer_connectivity : Calls (List PeerConnectivity)
  get_peer_connectivity =
      ask Method.get_peer_connectivity msg.empty msg.of_connectivity (λ r. r.peers)

  abbrev get_incoming_files : Calls (List IncomingFile)
  get_incoming_files = ask Method.get_incoming_files msg.empty msg.of_files (λ r. r.files)

  abbrev send_file : Str → Str → Calls SendFileReply
  send_file peer path =
      ask Method.send_file (msg.to_send_file (record { peer = peer; path = path })) msg.of_sent
        (λ r. r)

  abbrev connect : Calls (Unit {0})
  connect = order Method.connect msg.empty

  abbrev disconnect : Calls (Unit {0})
  disconnect = order Method.disconnect msg.empty

  abbrev get_mode : Calls Str
  get_mode = ask Method.get_mode msg.empty msg.of_mode (λ r. r.mode)

  abbrev set_mode : Str → Calls Str
  set_mode m =
      ask Method.set_mode (msg.to_set_mode (record { mode = m })) msg.of_mode_set
        (λ r. r.previous_mode)

  abbrev set_rosenpass : Bool → Bool → Calls SetRosenpassReply
  set_rosenpass enabled permissive =
      ask Method.set_rosenpass
        (msg.to_set_rosenpass (record { enabled = enabled; permissive = permissive }))
        msg.of_rosenpass (λ r. r)

  abbrev get_diagnostics : Calls Diagnostics
  get_diagnostics = ask Method.get_diagnostics msg.empty msg.of_diagnostics diagnostics

  abbrev list_profiles : Calls (List ProfileInfo)
  list_profiles = ask Method.list_profiles msg.empty msg.of_profiles (λ r. r.profiles)

  abbrev add_profile : AddProfileRequest → Calls ProfileInfo
  add_profile req = ask Method.add_profile (msg.to_add req) msg.of_added (λ r. r.profile)

  abbrev remove_profile : Str → Calls (Unit {0})
  remove_profile slug = order Method.remove_profile (msg.to_remove (record { slug = slug }))

  abbrev rename_profile : Str → Str → Calls ProfileInfo
  rename_profile slug new_name =
      ask Method.rename_profile (msg.to_rename (record { slug = slug; new_name = new_name }))
        msg.of_renamed (λ r. r.profile)

  abbrev set_active_profile : Str → Calls (Str × ProfileInfo)
  set_active_profile slug =
      ask Method.set_active_profile (msg.to_set_active (record { slug = slug })) msg.of_activated
        (λ r. (r.previous_active, r.active))

  abbrev get_active_profile : Calls (ProfileInfo × Bool)
  get_active_profile =
      ask Method.get_active_profile msg.empty msg.of_active (λ r. (r.active, r.has_any))
