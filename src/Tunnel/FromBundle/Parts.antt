-- ===== src/Tunnel/FromBundle/Parts.antt =====
-- internal/tunnel/tunnel.go, `FromBundle`: the parts of a configuration, stated on their own.
use goat_client.Prelude.{
  Option, none, some, List, [], ◌∷◌, ◌++◌, Str, ◌≡◌, ◌≢◌, refl, ap, ◌∙◌, subst, All,
}
use goat_client.Bundle.{EnrollmentBundle, KnownEndpoint, relay}
use goat_client.Tunnel.{Platform, Addr, Prefix, Config, default_interface_name}
use goat_client.Tunnel.FromBundle.{parse_allowed, mesh_prefixes, relay_config}

module _ (platform : Platform) (parse_addr : Str → Option Addr)
    (parse_prefix : Str → Option Prefix) where
  -- The mesh address as a prefix of its whole length, or none where there is no such address.
  abbrev pub MeshPrefix : Str → List Prefix → Type 0
  MeshPrefix [] ps = ps ≡ []
  MeshPrefix (c ∷ s) ps =
      (a : Addr) × ((parse_addr (c ∷ s) ≡ some a)
        × (ps ≡ record { addr = a; bits = a.bit_len } ∷ []))

  -- Each text parses to the prefix at its place.
  abbrev pub AllParsed : List Str → List Prefix → Type 0
  AllParsed [] [] = Unit
  AllParsed [] (p ∷ ps) = ⊥
  AllParsed (s ∷ ss) [] = ⊥
  AllParsed (s ∷ ss) (p ∷ ps) = (parse_prefix s ≡ some p) × AllParsed ss ps

  pub mesh_prefixes-MeshPrefix :
      (s : Str) (ps : List Prefix)
      → mesh_prefixes platform parse_addr parse_prefix s ≡ some ps
      → MeshPrefix s ps
  mesh_prefixes-MeshPrefix [] ps h = cc
  mesh_prefixes-MeshPrefix (c ∷ s) ps h = go (parse_addr (c ∷ s)) refl h
    where
      go :
          (o : Option Addr)
          → parse_addr (c ∷ s) ≡ o
          → ◌≡◌ {A = Option (List Prefix)}
              (elim o [ none ↦ none | some a ↦ some (record { addr = a; bits = a.bit_len } ∷ []) ])
              (some ps)
          → MeshPrefix (c ∷ s) ps
      go none e k = absurd (cc)
      go (some a) e k = (a, (e, cc))

  pub parse_allowed-AllParsed :
      (ss : List Str) (ps : List Prefix)
      → parse_allowed platform parse_addr parse_prefix ss ≡ some ps
      → AllParsed ss ps
  unfolding parse_allowed
  parse_allowed-AllParsed [] [] h = tt
  parse_allowed-AllParsed [] (p ∷ ps) h = absurd (cc)
  parse_allowed-AllParsed (s ∷ ss) ps h =
      go ps (parse_prefix s) (parse_allowed platform parse_addr parse_prefix ss) refl refl
        (parse_allowed-AllParsed ss) h
    where
      go :
          (ps : List Prefix) (o : Option Prefix) (rest : Option (List Prefix))
          → parse_prefix s ≡ o
          → parse_allowed platform parse_addr parse_prefix ss ≡ rest
          → ((qs : List Prefix)
              → parse_allowed platform parse_addr parse_prefix ss ≡ some qs
              → AllParsed ss qs)
          → ◌≡◌ {A = Option (List Prefix)}
              (elim o [
                | none ↦ none
                | some p ↦ elim rest [ none ↦ none | some qs ↦ some (p ∷ qs) ]
              ])
              (some ps)
          → AllParsed (s ∷ ss) ps
      go ps none rest eo er later k = absurd (cc)
      go ps (some p) none eo er later k = absurd (cc)
      go [] (some p) (some qs) eo er later k = absurd (cc)
      go (q ∷ ps) (some p) (some qs) eo er later k =
          let first : p ≡ q = cc in
          let others : qs ≡ ps = cc in
          (eo ∙ ap some first, subst (AllParsed ss) others (later qs er))

  -- The endpoint is the first relay of the list, and these are its prefixes: its mesh address as a
  -- host prefix where it has one, then all of its own, in order.
  pub record FirstRelay (es : List KnownEndpoint) (e : KnownEndpoint) (allowed : List Prefix)
      : Type 0 where
    pub before : List KnownEndpoint
    pub after : List KnownEndpoint
    pub splits : es ≡ before ++ (e ∷ after)
    pub none_before : All (λ (x : KnownEndpoint). x.kind ≢ relay) before
    pub is_one : e.kind ≡ relay
    pub mesh : List Prefix
    pub own : List Prefix
    pub mesh_parsed : MeshPrefix e.mesh_addr mesh
    pub own_parsed : AllParsed e.allowed_ips own
    pub joined : allowed ≡ mesh ++ own

  -- The device's private key and address, the relay's key and address with these prefixes, and the
  -- platform's name of the interface; the rest is fixed.
  pub record Carries (b : EnrollmentBundle) (addr : Prefix) (e : KnownEndpoint)
      (allowed : List Prefix) (c : Config) : Type 0 where
    pub own_key : c.private_key ≡ b.cp_device_privkey
    pub own_address : c.local_address ≡ addr
    pub relay_key : c.peer.public_key ≡ e.pubkey
    pub relay_address : c.peer.endpoint ≡ e.addr
    pub routed : c.peer.allowed_ips ≡ allowed
    pub kept_alive : c.peer.persistent_keepalive ≡ 25
    pub any_port : c.listen_port ≡ 0
    pub no_dns : c.dns_servers ≡ []
    pub named : c.interface_name ≡ default_interface_name platform
    pub usual_mtu : c.mtu ≡ 1280

  pub Carries-relay_config :
      (b : EnrollmentBundle) (addr : Prefix) (e : KnownEndpoint) (allowed : List Prefix)
      (c : Config)
      → relay_config platform b addr e allowed ≡ c
      → Carries b addr e allowed c
  Carries-relay_config b addr e allowed c h = subst (Carries b addr e allowed) h (record {
    own_key = refl;
    own_address = refl;
    relay_key = refl;
    relay_address = refl;
    routed = refl;
    kept_alive = refl;
    any_port = refl;
    no_dns = refl;
    named = refl;
    usual_mtu = refl;
  })
