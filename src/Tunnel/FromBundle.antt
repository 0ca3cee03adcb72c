-- ===== src/Tunnel/FromBundle.antt =====
-- internal/tunnel/tunnel.go, `FromBundle`: the first relay of the bundle as the tunnel's one peer.
-- Parsing of addresses is the standard library's.
pub mod Laws
pub mod Parts
use goat_client.Prelude.{
  ℕ, Bool, true, false, not, Option, none, some, List, [], ◌∷◌, ◌++◌, Str, length, map, ◌==◌, ◌&&◌,
  ◌||◌, if◌then◌else◌, ◌≡◌, refl, sym, ap, All, Bool-cases, arith, inl, inr, codes, Option-cases,
}
use goat_client.Bundle.{
  EnrollmentBundle, KnownEndpoint, Kind, relay, peer, mgmt, other, BundleError,
  check_cp_device_keypair, is_empty,
}
use goat_client.Tunnel.{
  Platform, Addr, Prefix, PeerConfig, Config, default_interface_name, default_mtu,
}

pub data FromBundleError : Type 0 where
  keypair : BundleError → FromBundleError
  missing_keypair missing_address bad_address bad_mesh_addr bad_allowed_ips no_endpoint :
      FromBundleError

pub data Derived : Type 0 where
  config : Config → Derived
  refused : FromBundleError → Derived

abbrev pub is_relay : Kind → Bool
is_relay relay = true
is_relay peer = false
is_relay mgmt = false
is_relay (other s) = false

abbrev host_prefix : Addr → Prefix
host_prefix a = record { addr = a; bits = a.bit_len }

abbrev pub relay_config :
    Platform → EnrollmentBundle → Prefix → KnownEndpoint → List Prefix → Config
relay_config platform b addr e allowed = record {
  interface_name = default_interface_name platform;
  private_key = b.cp_device_privkey;
  local_address = addr;
  peer = record {
    public_key = e.pubkey;
    endpoint = e.addr;
    allowed_ips = allowed;
    persistent_keepalive = 25;
  };
  mtu = default_mtu;
  listen_port = 0;
  dns_servers = [];
  search_domains = [];
  match_domains = [];
}

module _ (platform : Platform) (parse_addr : Str → Option Addr)
    (parse_prefix : Str → Option Prefix) where
  -- The parsed prefixes, up to the first that does not parse.
  unfoldable pub parse_allowed : List Str → Option (List Prefix)
  parse_allowed [] = some []
  parse_allowed (s ∷ ss) =
      let rest = parse_allowed ss in
      elim (parse_prefix s) [
        | none ↦ none
        | some p ↦ elim rest [ none ↦ none | some ps ↦ some (p ∷ ps) ]
      ]

  abbrev pub mesh_prefixes : Str → Option (List Prefix)
  mesh_prefixes [] = some []
  mesh_prefixes (c ∷ s) = elim (parse_addr (c ∷ s)) [
    | none ↦ none
    | some a ↦ some (host_prefix a ∷ [])
  ]

  abbrev pub with_allowed :
      EnrollmentBundle
      → Prefix
      → KnownEndpoint
      → Option (List Prefix)
      → Option (List Prefix)
      → Derived
  with_allowed b addr e none ps = refused bad_mesh_addr
  with_allowed b addr e (some ms) none = refused bad_allowed_ips
  with_allowed b addr e (some ms) (some ps) = config (relay_config platform b addr e (ms ++ ps))

  unfoldable pub first_relay : EnrollmentBundle → Prefix → List KnownEndpoint → Derived
  first_relay b addr [] = refused no_endpoint
  first_relay b addr (e ∷ es) =
      let rest = first_relay b addr es in
      if not (is_relay e.kind)
      then rest
      else with_allowed b addr e (mesh_prefixes e.mesh_addr) (parse_allowed e.allowed_ips)

  abbrev pub with_address : EnrollmentBundle → Option Prefix → Derived
  with_address b none = refused bad_address
  with_address b (some addr) = first_relay b addr b.known_endpoints

  abbrev pub paired : EnrollmentBundle → Option BundleError → Derived
  paired b (some e) = refused (keypair e)
  paired b none =
      if not (length b.cp_device_privkey == 32) || not (length b.cp_device_pubkey == 32)
      then refused missing_keypair
      else if is_empty b.cp_device_address
      then refused missing_address
      else with_address b (parse_prefix b.cp_device_address)

  unfoldable pub from_bundle : EnrollmentBundle → Derived
  from_bundle b = paired b (check_cp_device_keypair b)
