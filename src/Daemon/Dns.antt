-- ===== src/Daemon/Dns.antt =====
-- internal/daemon/daemon.go: the name servers of the mesh in `New`, and how the host's resolver is pointed at
-- them or at the forwarder of names, `applyDNS` and its kin. The platform's adapter is seen as what it has
-- registered: a call of `Apply` that fails registers nothing.
pub mod Restored
use goat_client.Prelude.{
  ℕ, Bool, true, false, not, Option, none, some, List, [], ◌∷◌, ◌++◌, Str, same, map, ◌==◌, ◌&&◌,
  ◌||◌, if◌then◌else◌,
}
use goat_client.Mode.{Mode, default_mode, mode_string, valid}
use goat_client.Mode.Persist.{PersistedConfig}
use goat_client.Tunnel.{Addr, Config}

-- `tunneldns.Config`.
pub record DnsConfig : Type 0 where
  pub nameservers : List Addr
  pub search_domains : List Str
  pub match_domains : List Str
  pub port : ℕ

pub data StartError : Type 0 where
  mixed_ports not_ip unknown_persisted_mode invalid_initial_mode : StartError

pub data Result (A : Type 0) : Type 0 where
  ok : A → Result A
  err : StartError → Result A

-- `netip.ParseAddrPort` and `netip.ParseAddr`, and `net.JoinHostPort` with a number.
pub record Net : Type 0 where
  pub parse_addr_port : Str → Option (Addr × ℕ)
  pub parse_addr : Str → Option Addr
  pub join_port : Str → ℕ → Str

module _ (net : Net) where
  abbrev pub with_port : Addr → ℕ → DnsConfig → Result DnsConfig
  with_port a p c =
      if not (c.port == 0) && not (c.port == p)
      then err mixed_ports
      else ok (record c { port = p; nameservers = c.nameservers ++ a ∷ [] })

  abbrev pub without_port : Option Addr → DnsConfig → Result DnsConfig
  without_port none c = err not_ip
  without_port (some a) c = ok (record c { nameservers = c.nameservers ++ a ∷ [] })

  abbrev pub add_server : Str → Option (Addr × ℕ) → DnsConfig → Result DnsConfig
  add_server s (some (a, p)) c = with_port a p c
  add_server s none c = without_port (net.parse_addr s) c

  abbrev pub then_servers : Result DnsConfig → (DnsConfig → Result DnsConfig) → Result DnsConfig
  then_servers (err e) k = err e
  then_servers (ok c) k = k c

  unfoldable pub add_servers : List Str → DnsConfig → Result DnsConfig
  add_servers [] c = ok c
  add_servers (s ∷ ss) c = then_servers (add_server s (net.parse_addr_port s) c) (add_servers ss)

  -- The name servers of the configuration file, in `New`.
  unfoldable pub mesh_dns_of : PersistedConfig → Result DnsConfig
  mesh_dns_of cfg = add_servers cfg.mesh_dns_servers (record {
    nameservers = [];
    search_domains = cfg.mesh_dns_search_domains;
    match_domains = cfg.mesh_dns_match_domains;
    port = 0;
  })

abbrev pub valid_or : StartError → Mode → Result Mode
valid_or e m = if valid m then ok m else err e

-- The mode in which `New` starts: the one asked for, that of the file, or the default.
unfoldable pub resolve_initial : Mode → Mode → Result Mode
resolve_initial asked persisted =
    if not (same (mode_string asked) [])
    then valid_or invalid_initial_mode asked
    else if not (same (mode_string persisted) [])
    then valid_or unknown_persisted_mode persisted
    else ok default_mode

-- The adapter's registration, the field `lastDNS`, and the live servers of the forwarder.
pub record Resolver : Type 0 where
  pub host : Option (Str × DnsConfig)
  pub last_dns : Option (Str × DnsConfig)
  pub upstreams : List Str

-- What a call meets: the address of a healthy forwarder, if there is one, and what fails.
pub record Seen : Type 0 where
  pub forwarder : Option Str
  pub fronted_fails : Bool
  pub direct_fails : Bool
  pub restore_fails : Bool

unfoldable pub upstream_strings : Net → DnsConfig → List Str
upstream_strings net c =
    map
      (λ a. if not (c.port == 0) && not (c.port == 53) then net.join_port a.text c.port else a.text)
      c.nameservers

abbrev pub fronted_by : DnsConfig → Option (Addr × ℕ) → Option DnsConfig
fronted_by direct none = none
fronted_by direct (some (a, p)) = some (record direct { nameservers = a ∷ []; port = p })

unfoldable pub fronted_dns_config : Net → DnsConfig → Str → Option DnsConfig
fronted_dns_config net direct addr = fronted_by direct (net.parse_addr_port addr)

abbrev pub register : Bool → Str → DnsConfig → Resolver → Resolver
register true iface c r = r
register false iface c r = record r { host = some (iface, c) }

abbrev pub front : Seen → Str → DnsConfig → Option DnsConfig → Resolver → Resolver
front e iface direct none r = register e.direct_fails iface direct r
front e iface direct (some c) r =
    if e.fronted_fails then register e.direct_fails iface direct r else register false iface c r

abbrev pub fronted_at : Net → DnsConfig → Option Str → Option DnsConfig
fronted_at net direct none = none
fronted_at net direct (some addr) = fronted_dns_config net direct addr

-- `fronting` is the setting `NamesFronting`.
module _ (net : Net) (fronting : Bool) where
  unfoldable pub apply_dns_current : Seen → Str → DnsConfig → Resolver → Resolver
  apply_dns_current e iface direct r =
      front e iface direct (if fronting then fronted_at net direct e.forwarder else none) r

  abbrev or_list : {A : Type 0} → List A → List A → List A
  or_list [] ys = ys
  or_list (x ∷ xs) ys = x ∷ xs

  -- The fields that the tunnel's configuration leaves empty are those of the file; so is the port where
  -- it has no name servers.
  abbrev direct_of : DnsConfig → Config → DnsConfig
  direct_of mesh c = record {
    nameservers = or_list c.dns_servers mesh.nameservers;
    search_domains = or_list c.search_domains mesh.search_domains;
    match_domains = or_list c.match_domains mesh.match_domains;
    port = elim c.dns_servers [ [] ↦ mesh.port | a ∷ more ↦ 0 ];
  }

  unfoldable pub apply_dns : Seen → DnsConfig → Str → Config → Resolver → Resolver
  apply_dns e mesh iface c r =
      let direct = direct_of mesh c in
      apply_dns_current e iface direct
        (record r { upstreams = upstream_strings net direct; last_dns = some (iface, direct) })

  abbrev pub reapply : Seen → Option (Str × DnsConfig) → Resolver → Resolver
  reapply e none r = r
  reapply e (some (iface, direct)) r = apply_dns_current e iface direct r

  -- `onForwarderState`: it reads `lastDNS` under the lock, and applies it after.
  unfoldable pub on_forwarder_state : Seen → Resolver → Resolver
  on_forwarder_state e r = reapply e r.last_dns r

unfoldable pub restore_dns : Bool → Resolver → Resolver
restore_dns true r = record r { last_dns = none }
restore_dns false r = record r { last_dns = none; host = none }
