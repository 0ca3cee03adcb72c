-- ===== src/Tunnel/FromBundle/Laws.antt =====
-- internal/tunnel/tunnel.go: what a configuration from `FromBundle` is made of.
use goat_client.Prelude.{
  Bool, true, false, not, Option, none, some, List, [], ◌∷◌, ◌++◌, Str, length, ◌==◌, ◌||◌,
  if◌then◌else◌, ◌≡◌, ◌≢◌, refl, ap, arith,
}
use goat_client.Bundle.{
  EnrollmentBundle, KnownEndpoint, Kind, relay, peer, mgmt, other, BundleError,
  check_cp_device_keypair, is_empty,
}
use goat_client.Tunnel.{Platform, Addr, Prefix, Config}
use goat_client.Tunnel.FromBundle.{
  config, refused, missing_keypair, missing_address, is_relay, parse_allowed, mesh_prefixes,
  relay_config, with_allowed, first_relay, with_address, paired, from_bundle,
}
use goat_client.Tunnel.FromBundle.Parts.{
  FirstRelay, Carries, mesh_prefixes-MeshPrefix, parse_allowed-AllParsed, Carries-relay_config,
}

module _ (platform : Platform) (parse_addr : Str → Option Addr)
    (parse_prefix : Str → Option Prefix) where
  not_relay : (k : Kind) → is_relay k ≡ false → k ≢ relay
  not_relay k h e = let yes : is_relay k ≡ true = ap is_relay e in absurd (cc)

  a_relay : (k : Kind) → is_relay k ≡ true → k ≡ relay
  a_relay relay h = refl
  a_relay peer h = absurd (cc)
  a_relay mgmt h = absurd (cc)
  a_relay (other s) h = absurd (cc)

  -- The configuration is that of some first relay.
  abbrev FromRelay : EnrollmentBundle → Prefix → List KnownEndpoint → Config → Type 0
  FromRelay b addr es c =
      (e : KnownEndpoint) × ((allowed : List Prefix) × (FirstRelay platform parse_addr parse_prefix
            es e allowed
          × Carries platform parse_addr parse_prefix b addr e allowed c))

  abbrev pub Derives : EnrollmentBundle → Config → Type 0
  Derives b c =
      (length b.cp_device_privkey ≡ 32)
      × ((length b.cp_device_pubkey ≡ 32)
          × ((is_empty b.cp_device_address ≡ false)
              × ((addr : Prefix) × ((parse_prefix b.cp_device_address ≡ some addr)
                    × FromRelay b addr b.known_endpoints c))))

  module _ (b : EnrollmentBundle) (addr : Prefix) (c : Config) where
    found :
        (e : KnownEndpoint) (es : List KnownEndpoint) (m p : Option (List Prefix))
        → mesh_prefixes platform parse_addr parse_prefix e.mesh_addr ≡ m
        → parse_allowed platform parse_addr parse_prefix e.allowed_ips ≡ p
        → is_relay e.kind ≡ true
        → with_allowed platform parse_addr parse_prefix b addr e m p ≡ config c
        → FromRelay b addr (e ∷ es) c
    found e es none p em ep r h = absurd (cc)
    found e es (some ms) none em ep r h = absurd (cc)
    found e es (some ms) (some ps) em ep r h =
        let same_config : relay_config platform b addr e (ms ++ ps) ≡ c = cc in
        (
          e,
          (
            ms ++ ps,
            (
              record {
                before = [];
                after = es;
                splits = refl;
                none_before = tt;
                is_one = a_relay e.kind r;
                mesh = ms;
                own = ps;
                mesh_parsed =
                    mesh_prefixes-MeshPrefix platform parse_addr parse_prefix e.mesh_addr ms em;
                own_parsed =
                    parse_allowed-AllParsed platform parse_addr parse_prefix e.allowed_ips ps ep;
                joined = refl;
              },
              Carries-relay_config platform parse_addr parse_prefix b addr e (ms ++ ps) c
                  same_config,
            ),
          ),
        )

    later :
        (x : KnownEndpoint) (es : List KnownEndpoint)
        → is_relay x.kind ≡ false
        → FromRelay b addr es c
        → FromRelay b addr (x ∷ es) c
    later x es n (e, (allowed, (f, same_config))) = (
      e,
      (
        allowed,
        (
          record {
            before = x ∷ f.before;
            after = f.after;
            splits = ap (◌∷◌ x) f.splits;
            none_before = (not_relay x.kind n, f.none_before);
            is_one = f.is_one;
            mesh = f.mesh;
            own = f.own;
            mesh_parsed = f.mesh_parsed;
            own_parsed = f.own_parsed;
            joined = f.joined;
          },
          same_config,
        ),
      ),
    )

    finds :
        (es : List KnownEndpoint)
        → first_relay platform parse_addr parse_prefix b addr es ≡ config c
        → FromRelay b addr es c
    unfolding first_relay
    finds [] h = absurd (cc)
    finds (e ∷ es) h = decide (is_relay e.kind) refl (finds es) h
      where
        decide :
            (r : Bool)
            → is_relay e.kind ≡ r
            → (first_relay platform parse_addr parse_prefix b addr es ≡ config c
                → FromRelay b addr es c)
            → (if not r
                then first_relay platform parse_addr parse_prefix b addr es
                else with_allowed platform parse_addr parse_prefix b addr e
                    (mesh_prefixes platform parse_addr parse_prefix e.mesh_addr)
                    (parse_allowed platform parse_addr parse_prefix e.allowed_ips))
              ≡ config c
            → FromRelay b addr (e ∷ es) c
        decide false n f h = later e es n (f h)
        decide true r f h =
            found e es (mesh_prefixes platform parse_addr parse_prefix e.mesh_addr)
              (parse_allowed platform parse_addr parse_prefix e.allowed_ips) refl refl r h

  -- A configuration that `FromBundle` returns has the device's own private key, where both its keys
  -- have 32 bytes, and its parsed address, the interface name of the platform, and the key and the
  -- address of the first relay in the bundle. It routes the relay's mesh address, where it has one, as a prefix of the address's whole
  -- length first and then all of the relay's own prefixes in order.
  pub from_bundle-Derives :
      (b : EnrollmentBundle) (c : Config)
      → from_bundle platform parse_addr parse_prefix b ≡ config c
      → Derives b c
  unfolding from_bundle
  from_bundle-Derives b c h = keys (check_cp_device_keypair b) h
    where
      addressed :
          (e : Bool) (o : Option Prefix)
          → is_empty b.cp_device_address ≡ e
          → parse_prefix b.cp_device_address ≡ o
          → length b.cp_device_privkey ≡ 32
          → length b.cp_device_pubkey ≡ 32
          → (if e
              then refused missing_address
              else with_address platform parse_addr parse_prefix b o)
            ≡ config c
          → Derives b c
      addressed true o ee eo p q h = absurd (cc)
      addressed false none ee eo p q h = absurd (cc)
      addressed false (some addr) ee eo p q h =
          (p, (q, (ee, (addr, (eo, finds b addr c (b.known_endpoints) h)))))

      sized :
          (p q : Bool)
          → length b.cp_device_privkey == 32 ≡ p
          → length b.cp_device_pubkey == 32 ≡ q
          → (if not p || not q
              then refused missing_keypair
              else (if is_empty b.cp_device_address
                  then refused missing_address
                  else with_address platform parse_addr parse_prefix b
                      (parse_prefix b.cp_device_address)))
            ≡ config c
          → Derives b c
      sized false q ep eq h = absurd (cc)
      sized true false ep eq h = absurd (cc)
      sized true true ep eq h =
          addressed (is_empty b.cp_device_address) (parse_prefix b.cp_device_address) refl refl
            (ground (arith, ep)) (ground (arith, eq)) h

      keys :
          (o : Option BundleError)
          → paired platform parse_addr parse_prefix b o ≡ config c
          → Derives b c
      keys (some e) h = absurd (cc)
      keys none h =
          sized (length b.cp_device_privkey == 32) (length b.cp_device_pubkey == 32) refl refl h
