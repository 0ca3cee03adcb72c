-- ===== src/Innermesh.antt =====
-- internal/innermesh: the inner mesh. Here the configuration (innermesh.go, frombundle.go) and the
-- peer name; Netbird is the life cycle over the embedded client, LogBuffer its bounded log,
-- Peers what is read of its status.
pub mod Netbird
pub mod Peers
pub mod LogBuffer
use goat_client.Prelude.{Bool, true, false, List, [], ◌∷◌, ◌++◌, Str, codes, if◌then◌else◌}
use goat_client.Text.{trim_space}
use goat_client.Bundle.{EnrollmentBundle, has_inner_mesh}

pub record Config : Type 0 where
  pub setup_key : Str
  pub management_url : Str
  pub prefer_kernel_wg : Bool
  pub admin_access_token : Str
  pub mobile_cert : Str
  pub pre_shared_key : Str
  pub rosenpass_enabled : Bool
  pub rosenpass_permissive : Bool
  pub config_path : Str
  pub state_path : Str
  pub bundle_device_id : Str

pub data Derived : Type 0 where
  config : Config → Derived
  missing_inner_mesh_setup : Derived

-- The slices are copied, so the configuration shares none with the bundle.
unfoldable pub from_bundle : EnrollmentBundle → Derived
from_bundle b =
    if has_inner_mesh b
    then config (record {
      setup_key = b.inner_mesh_setup.setup_key;
      management_url = b.inner_mesh_setup.management_url;
      prefer_kernel_wg = false;
      admin_access_token = b.inner_mesh_setup.admin_access_token;
      mobile_cert = b.mobile_cert;
      pre_shared_key = b.inner_mesh_setup.pre_shared_key;
      rosenpass_enabled = b.inner_mesh_setup.rosenpass_enabled;
      rosenpass_permissive = b.inner_mesh_setup.rosenpass_permissive;
      config_path = [];
      state_path = [];
      bundle_device_id = b.device_id;
    })
    else missing_inner_mesh_setup

abbrev pub join_identity : Str → Str → Str
join_identity [] d = d
join_identity (c ∷ b) [] = c ∷ b
join_identity (c ∷ b) (e ∷ d) = (c ∷ b) ++ codes " (" ++ (e ∷ d) ++ codes ")"

unfoldable pub compose_identity : Str → Str → Str
compose_identity bundle_device_id device_id =
    join_identity (trim_space bundle_device_id) (trim_space device_id)
