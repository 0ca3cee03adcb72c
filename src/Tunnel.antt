-- ===== src/Tunnel.antt =====
-- internal/tunnel: the wg-cp0 tunnel. Manager is the life cycle over the platform's device
-- (tunnel.go), FromBundle the configuration that a bundle gives (tunnel.go, `FromBundle`),
-- Uapi the text that the device is configured by (uapi.go).
pub mod Manager
pub mod FromBundle
pub mod Uapi
use goat_client.Prelude.{ℕ, List, [], Str, codes}

-- An address, with its length in bits, and a prefix of one: `netip.Addr` and `netip.Prefix`.
pub record Addr : Type 0 where
  pub text : Str
  pub bit_len : ℕ

pub record Prefix : Type 0 where
  pub addr : Addr
  pub bits : ℕ

pub record PeerConfig : Type 0 where
  pub public_key : Str
  pub endpoint : Str
  pub allowed_ips : List Prefix
  pub persistent_keepalive : ℕ

-- The interval is in seconds.
pub record Config : Type 0 where
  pub interface_name : Str
  pub private_key : Str
  pub local_address : Prefix
  pub peer : PeerConfig
  pub mtu : ℕ
  pub listen_port : ℕ
  pub dns_servers : List Addr
  pub search_domains : List Str
  pub match_domains : List Str

-- `DefaultInterfaceName` is a constant of each build: of platform_linux.go, platform_darwin.go,
-- platform_windows.go and tunnel_mobile.go.
pub data Platform : Type 0 where
  linux darwin windows mobile : Platform

abbrev pub default_interface_name : Platform → Str
default_interface_name linux = codes "wg-cp0"
default_interface_name darwin = codes "utun"
default_interface_name windows = codes "wg-cp0"
default_interface_name mobile = codes "wg-cp0"

abbrev pub default_mtu : ℕ
default_mtu = 1280
