-- ===== src/Bundle.antt =====
-- internal/bundle: the enrollment bundle, its checks (here), the trust roots that verify it (Trust)
-- and the dialog's preview of it (Preview). CBOR, SHA-256 and ECDSA are third-party or library code
-- that the program only calls: they are the fields of `Codec`.
pub mod Trust
pub mod Preview
use goat_client.Prelude.{
  ℕ, Bool, true, false, Option, none, some, List, [], ◌∷◌, Str, codes, same, length, ltb, not, ◌==◌,
  ◌&&◌, if◌then◌else◌,
}

pub data Kind : Type 0 where
  relay peer mgmt : Kind
  other : Str → Kind

pub record KnownEndpoint : Type 0 where
  pub addr : Str
  pub pubkey : Str
  pub kind : Kind
  pub mesh_addr : Str
  pub allowed_ips : List Str

pub record InnerMeshSetup : Type 0 where
  pub management_url : Str
  pub setup_key : Str
  pub admin_access_token : Str
  pub pre_shared_key : Str
  pub rosenpass_enabled : Bool
  pub rosenpass_permissive : Bool

pub record EnrollmentBundle : Type 0 where
  pub version : ℕ
  pub device_id : Str
  pub peer_pubkey : Str
  pub acl_groups : List Str
  pub site : Str
  pub known_endpoints : List KnownEndpoint
  pub issued_at : ℕ
  pub activation_deadline : ℕ
  pub expires_at : ℕ
  pub nonce : Str
  pub ca_id : Str
  pub snitch_probe_key : Str
  pub tls_trust_anchor : Str
  pub cp_device_pubkey : Str
  pub cp_device_privkey : Str
  pub cp_device_address : Str
  pub inner_mesh_setup : InnerMeshSetup
  pub mobile_cert : Str
  pub signature : Str

-- An `*ecdsa.PublicKey`: the name of its curve, if it has one, and its point.
pub record Key : Type 0 where
  pub curve : Option Str
  pub point : ℕ

-- What the package calls: `cbor.Unmarshal`, `em.Marshal` in canonical mode, `sha256.Sum256` and
-- `ecdsa.VerifyASN1`.
pub record Codec : Type 0 where
  pub cbor_unmarshal : Str → Option EnrollmentBundle
  pub cbor_marshal : EnrollmentBundle → Option Str
  pub sha256 : Str → Str
  pub verify_asn1 : Key → Str → Str → Bool

pub data BundleError : Type 0 where
  nil_key wrong_curve empty_signature not_encodable bad_signature : BundleError
  expired deadline_passed keypair_unpaired : BundleError
  no_trust_roots untrusted cbor_error empty_input no_keys : BundleError

-- A method that returns `error`: `none` is nil.
abbrev pub Check : Type 0
Check = Option BundleError

abbrev pub is_empty : Str → Bool
is_empty [] = true
is_empty (c ∷ s) = false

unfoldable pub has_inner_mesh : EnrollmentBundle → Bool
has_inner_mesh b =
    not (is_empty (b.inner_mesh_setup.management_url))
    && not (is_empty (b.inner_mesh_setup.setup_key))

abbrev differ : Bool → Bool → Bool
differ true q = not q
differ false q = q

unfoldable pub check_cp_device_keypair : EnrollmentBundle → Check
check_cp_device_keypair b =
    let pub_key = ltb 0 (length b.cp_device_pubkey) in
    let priv_key = ltb 0 (length b.cp_device_privkey) in
    if differ pub_key priv_key then some keypair_unpaired else none

abbrev no_error : Check → Bool
no_error none = true
no_error (some e) = false

unfoldable pub has_wg_cp0 : EnrollmentBundle → Bool
unfolding check_cp_device_keypair
has_wg_cp0 b =
    if not (no_error (check_cp_device_keypair b))
    then false
    else length b.cp_device_pubkey == 32
      && (length b.cp_device_privkey == 32 && not (is_empty b.cp_device_address))

unfoldable pub has_mobile_cert : EnrollmentBundle → Bool
has_mobile_cert b = ltb 0 (length b.mobile_cert)

-- `now.After(t)` on instants.
unfoldable pub check_expiry : EnrollmentBundle → ℕ → Check
check_expiry b now = if ltb b.expires_at now then some expired else none

unfoldable pub check_activation_deadline : EnrollmentBundle → ℕ → Check
check_activation_deadline b now =
    if ltb b.activation_deadline now then some deadline_passed else none

module _ (codec : Codec) where
  unfoldable pub unmarshal : Str → Option EnrollmentBundle
  unmarshal bytes = codec.cbor_unmarshal bytes

  -- The signature is cleared, so it takes no part in what it signs.
  unfoldable pub signable : EnrollmentBundle → Option Str
  signable b = codec.cbor_marshal (record b { signature = [] })

  unfoldable pub marshal : EnrollmentBundle → Option Str
  marshal b = codec.cbor_marshal b

  abbrev pub is_p256 : Key → Bool
  is_p256 k = elim (k.curve) [ none ↦ false | some c ↦ same c (codes "P-256") ]

  -- `ecdsa.VerifyASN1` over the digest of the signable bytes.
  abbrev pub check_signature : Key → Str → Option Str → Check
  check_signature k sig none = some not_encodable
  check_signature k sig (some payload) =
      if codec.verify_asn1 k (codec.sha256 payload) sig then none else some bad_signature

  unfoldable pub verify : EnrollmentBundle → Option Key → Check
  unfolding signable
  verify b none = some nil_key
  verify b (some k) =
      if not (is_p256 k)
      then some wrong_curve
      else if is_empty b.signature
      then some empty_signature
      else check_signature k b.signature (signable b)
