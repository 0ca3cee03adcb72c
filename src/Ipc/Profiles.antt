-- ===== src/Ipc/Profiles.antt =====
-- internal/ipc/ipc.go: the values on the wire that are about profiles, and the caller.
use goat_client.Prelude.{ℕ, Bool, List, Str}

pub record ProfileInfo : Type 0 where
  pub name : Str
  pub slug : Str
  pub mode : Str
  pub device_id : Str
  pub site : Str
  pub expires_at : ℕ
  pub created_at : ℕ
  pub updated_at : ℕ
  pub active : Bool

pub record ListProfilesReply : Type 0 where
  pub profiles : List ProfileInfo

pub record AddProfileRequest : Type 0 where
  pub name : Str
  pub mode : Str
  pub bundle_bytes : Str
  pub replace : Bool
  pub set_active : Bool

pub record AddProfileReply : Type 0 where
  pub profile : ProfileInfo
  pub previous_active : Str

pub record RemoveProfileRequest : Type 0 where
  pub slug : Str

pub record RenameProfileRequest : Type 0 where
  pub slug : Str
  pub new_name : Str

pub record RenameProfileReply : Type 0 where
  pub profile : ProfileInfo

pub record SetActiveProfileRequest : Type 0 where
  pub slug : Str

pub record SetActiveProfileReply : Type 0 where
  pub previous_active : Str
  pub active : ProfileInfo

pub record GetActiveProfileReply : Type 0 where
  pub active : ProfileInfo
  pub has_any : Bool

pub record PeerCreds : Type 0 where
  pub uid : ℕ
  pub pid : ℕ
