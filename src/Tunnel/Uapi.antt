-- ===== src/Tunnel/Uapi.antt =====
-- internal/tunnel/uapi.go: the text that configures the WireGuard device, and its counters. The
-- resolution of the endpoint's host is library code.
use goat_client.Prelude.{
  ℕ, ◌+◌, ◌-◌, ◌*◌, ◌/◌, ◌%◌, min, Bool, not, Option, none, some, List, [], ◌∷◌, ◌++◌, Str, codes,
  same, length, ltb, leb, ◌==◌, ◌&&◌, if◌then◌else◌,
}
use goat_client.Text.{digits}
use goat_client.Text.Split.{cut}
use goat_client.Tunnel.{Prefix, Config}

pub data UapiError : Type 0 where
  private_key_length public_key_length split_endpoint resolve_endpoint : UapiError

pub data Result : Type 0 where
  ok : Str → Result
  err : UapiError → Result

-- `net.SplitHostPort`, the text of the first address of `net.LookupIP`, `net.JoinHostPort` and
-- `netip.Prefix.String`.
pub record Net : Type 0 where
  pub split_host_port : Str → Option (Str × Str)
  pub lookup_ip : Str → Option Str
  pub join_host_port : Str → Str → Str
  pub prefix_text : Prefix → Str

abbrev pub hex_digit : ℕ → ℕ
hex_digit d = if ltb d 10 then d + 48 else d + 87

-- `hex.EncodeToString`.
unfoldable pub hex : Str → Str
hex [] = []
hex (b ∷ bs) = hex_digit (b / 16) ∷ hex_digit (b % 16) ∷ hex bs

abbrev pub setting : Str → Str → Str → Str
setting key val rest = key ++ (b'=' ∷ (val ++ b'\n' ∷ rest))

module _ (net : Net) where
  unfoldable pub allowed_lines : List Prefix → Str
  allowed_lines [] = []
  allowed_lines (p ∷ ps) = setting (codes "allowed_ip") (net.prefix_text p) (allowed_lines ps)

  abbrev pub joined : Str → Option Str → Option Str
  joined port none = none
  joined port (some ip) = some (net.join_host_port ip port)

  abbrev pub resolved : Option (Str × Str) → Option Str
  resolved none = none
  resolved (some (host, port)) = joined port (net.lookup_ip host)

  abbrev pub listen_line : Config → Str → Str
  listen_line c rest =
      if ltb 0 c.listen_port
      then setting (codes "listen_port") (digits 20 c.listen_port) rest
      else rest

  abbrev pub keepalive_line : Config → Str → Str
  keepalive_line c rest =
      if ltb 0 c.peer.persistent_keepalive
      then setting (codes "persistent_keepalive_interval") (digits 20 c.peer.persistent_keepalive)
          rest
      else rest

  abbrev pub endpoint_line : Option Str → Str → Str
  endpoint_line none rest = rest
  endpoint_line (some e) rest = setting (codes "endpoint") e rest

  abbrev pub render : Config → Option Str → Str
  render c endpoint = setting (codes "private_key") (hex c.private_key) (
      listen_line c (
        setting (codes "replace_peers") (codes "true") (
          setting (codes "public_key") (hex c.peer.public_key) (
            endpoint_line endpoint (
              keepalive_line c (
                setting (codes "replace_allowed_ips") (codes "true")
                  (allowed_lines c.peer.allowed_ips)))))))

  abbrev pub with_endpoint : Config → Option (Str × Str) → Result
  with_endpoint c none = err split_endpoint
  with_endpoint c (some hp) = elim (resolved (some hp)) [
    | none ↦ err resolve_endpoint
    | some e ↦ ok (render c (some e))
  ]

  unfoldable pub build_uapi : Config → Result
  build_uapi c =
      if not (length c.private_key == 32)
      then err private_key_length
      else if not (length c.peer.public_key == 32)
      then err public_key_length
      else if same c.peer.endpoint []
      then ok (render c none)
      else with_endpoint c (net.split_host_port c.peer.endpoint)

-- A line that starts with `=` is no setting.
abbrev pub named_setting : Option (Str × Str) → Option (Str × Str)
named_setting none = none
named_setting (some ([], v)) = none
named_setting (some (c ∷ k, v)) = some (c ∷ k, v)

unfoldable pub split_kv : Str → Option (Str × Str)
split_kv line = named_setting (cut b'=' line)

pub record Stats : Type 0 where
  pub bytes_in : ℕ
  pub bytes_out : ℕ
  pub last_handshake : ℕ

abbrev pub is_digit : ℕ → Bool
is_digit c = leb b'0' c && leb c b'9'

-- The value of digits behind those read so far.
unfoldable pub value_from : ℕ → Str → Option ℕ
value_from n [] = some n
value_from n (c ∷ s) =
    let rest = value_from (n * 10 + (c - 48)) s in if is_digit c then rest else none

abbrev pub at_most : ℕ → Option ℕ → ℕ
at_most most none = 0
at_most most (some n) = min n most

-- `strconv.ParseUint(v, 10, 64)`: 0 where it is no number, and the greatest value where it is too large.
unfoldable pub parse_uint : Str → ℕ
parse_uint [] = 0
parse_uint (c ∷ s) = at_most 0xffffffffffffffff (value_from 0 (c ∷ s))

-- `strconv.ParseInt(v, 10, 64)`, with 0 for what is not positive.
unfoldable pub parse_positive : Str → ℕ
parse_positive [] = 0
parse_positive (c ∷ []) = at_most 0x7fffffffffffffff (value_from 0 (c ∷ []))
parse_positive (c ∷ d ∷ s) =
    at_most 0x7fffffffffffffff (value_from 0 (if c == b'+' then d ∷ s else c ∷ d ∷ s))

-- The switch of `readUAPIStats`. A time of 0 is the zero time.
unfoldable pub read_setting : Option (Str × Str) → Stats → Stats
read_setting none st = st
read_setting (some (k, v)) st =
    if same k (codes "tx_bytes")
    then record st { bytes_out = parse_uint v }
    else if same k (codes "rx_bytes")
    then record st { bytes_in = parse_uint v }
    else if same k (codes "last_handshake_time_sec") && ltb 0 (parse_positive v)
    then record st { last_handshake = parse_positive v * 1000000000 }
    else st

unfoldable pub read_lines : List Str → Stats → Stats
read_lines [] st = st
read_lines (l ∷ ls) st = read_lines ls (read_setting (split_kv l) st)

-- `readUAPIStats`, on the lines that the device answers.
unfoldable pub read_uapi_stats : List Str → Stats
read_uapi_stats ls = read_lines ls (record { bytes_in = 0; bytes_out = 0; last_handshake = 0 })
