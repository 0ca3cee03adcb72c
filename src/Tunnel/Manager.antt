-- ===== src/Tunnel/Manager.antt =====
-- internal/tunnel/tunnel.go: `Manager`. The platform's device is seen through the calls that the
-- manager makes of it, newest first, each with whether it succeeded; `faults` says which of the
-- coming calls fail, and where it ends none does. Each method holds the lock, so it is one step.
pub mod Invariant
use goat_client.Prelude.{
  ℕ, zero, suc, Bool, true, false, not, Option, none, some, List, [], ◌∷◌, Str, codes, same, length,
  ◌==◌, if◌then◌else◌,
}
use goat_client.Tunnel.{Config, PeerConfig, Platform, default_interface_name, default_mtu}

pub data State : Type 0 where
  closed configuring up error : State

pub data Call : Type 0 where
  create : Bool → Call
  configure : Config → Bool → Call
  bring_up bring_down release read_stats : Bool → Call

pub data TunnelError : Type 0 where
  private_key_length peer_key_length not_configured create_failed configure_failed : TunnelError
  up_failed down_failed close_failed stats_failed : TunnelError

-- `tun` says whether the manager holds a device; the zero `Config` is `none`.
pub record Manager : Type 0 where
  pub platform : Platform
  pub tun : Bool
  pub state : State
  pub cfg : Option Config
  pub last_err : Option TunnelError
  pub calls : List Call
  pub faults : List Bool

abbrev pub new_manager : Platform → List Bool → Manager
new_manager platform fs = record {
  platform = platform;
  tun = false;
  state = closed;
  cfg = none;
  last_err = none;
  calls = [];
  faults = fs;
}

abbrev pub call_facing : List Bool → (Bool → Call) → Manager → Manager × Bool
call_facing [] c m = (record m { calls = c true ∷ m.calls; faults = [] }, true)
call_facing (f ∷ fs) c m = (record m { calls = c (not f) ∷ m.calls; faults = fs }, not f)

-- One call of the device, and whether it succeeded.
abbrev pub call : (Bool → Call) → Manager → Manager × Bool
call c m = call_facing m.faults c m

abbrev pub Outcome : Type 0
Outcome = Manager × Option TunnelError

abbrev pub or_default : Platform → Str → Str
or_default platform [] = default_interface_name platform
or_default platform (c ∷ s) = c ∷ s

abbrev pub mtu_or_default : ℕ → ℕ
mtu_or_default zero = default_mtu
mtu_or_default (suc n) = suc n

unfoldable pub with_defaults : Platform → Config → Config
with_defaults platform c = record c {
  interface_name = or_default platform c.interface_name;
  mtu = mtu_or_default c.mtu;
}

abbrev pub error_unless : Bool → TunnelError → Option TunnelError
error_unless true e = none
error_unless false e = some e

abbrev pub reconfigure : Bool → Config → Manager → Outcome
reconfigure false c m = (m, none)
reconfigure true c m =
    let (m', fine) = call (configure c) m in (m', error_unless fine configure_failed)

unfoldable pub configure_manager : Config → Manager → Outcome
unfolding with_defaults
configure_manager cfg m =
    let c = with_defaults m.platform cfg in
    if not (length c.private_key == 32)
    then (m, some private_key_length)
    else if not (length c.peer.public_key == 32)
    then (m, some peer_key_length)
    else reconfigure m.tun c (record m { cfg = some c })

abbrev pub failed : TunnelError → Manager → Outcome
failed e m = (record m { last_err = some e; state = error }, some e)

abbrev pub start : Manager × Bool → Outcome
start (m, false) = failed up_failed m
start (m, true) = (record m { state = up; last_err = none }, none)

abbrev pub apply : Manager × Bool → Outcome
apply (m, false) = failed configure_failed m
apply (m, true) = start (call bring_up m)

-- `Connect` once the manager holds a device.
abbrev pub connect_device : Config → Manager → Outcome
connect_device c m = apply (call (configure c) (record m { state = configuring }))

abbrev pub created : Config → Manager × Bool → Outcome
created c (m, false) = failed create_failed m
created c (m, true) = connect_device c (record m { tun = true })

abbrev pub connect_with : Bool → Config → Manager → Outcome
connect_with true c m = connect_device c m
connect_with false c m = created c (call create m)

abbrev pub connect_to : Option Config → Manager → Outcome
connect_to none m = (m, some not_configured)
connect_to (some c) m = connect_with m.tun c m

-- `Configure` gives every configuration a name, so one without is the zero `Config`.
unfoldable pub connect : Manager → Outcome
connect m = connect_to m.cfg m

abbrev pub downed : Manager × Bool → Outcome
downed (m, false) = failed down_failed m
downed (m, true) = (record m { state = closed }, none)

abbrev pub disconnect_with : Bool → Manager → Outcome
disconnect_with false m = (record m { state = closed }, none)
disconnect_with true m = downed (call bring_down m)

unfoldable pub disconnect : Manager → Outcome
disconnect m = disconnect_with m.tun m

abbrev pub released : Manager × Bool → Outcome
released (m, fine) = (record m { tun = false; state = closed }, error_unless fine close_failed)

abbrev pub close_with : Bool → Manager → Outcome
close_with false m = (m, none)
close_with true m = released (call release m)

unfoldable pub close : Manager → Outcome
close m = close_with m.tun m

abbrev pub stats_with : Bool → Manager → Outcome
stats_with false m = (m, none)
stats_with true m = let (m', fine) = call read_stats m in (m', error_unless fine stats_failed)

-- The counters themselves come from the device.
unfoldable pub stats : Manager → Outcome
stats m = stats_with m.tun m
