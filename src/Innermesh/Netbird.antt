-- ===== src/Innermesh/Netbird.antt =====
-- internal/innermesh/netbird.go: `Netbird`, the life cycle over the embedded client, which is third
-- party. Its clients are numbered as they are started; `running` are those that were started and
-- not yet told to stop. `faults` says which of the coming calls (directories, `New`, `Start`,
-- `Stop`) fail. `Connect` lets the lock go while the client starts, so it is two steps.
pub mod Clients
pub mod Connect
use goat_client.Prelude.{
  ℕ, zero, suc, Bool, true, false, not, Option, none, some, List, [], ◌∷◌, Str, ◌==◌, if◌then◌else◌,
}
use goat_client.Innermesh.{Config, compose_identity}

pub data State : Type 0 where
  closed configuring up error : State

pub data MeshError : Type 0 where
  management_url_required setup_key_required is_closed not_configured : MeshError
  create_dir build_client start_failed stop_failed : MeshError

-- The zero `Config` is `none`.
pub record Netbird : Type 0 where
  pub cfg : Option Config
  pub client : Option ℕ
  pub state : State
  pub shut : Bool
  pub device_id : Str
  pub running : List ℕ
  pub started : ℕ
  pub faults : List Bool

unfoldable pub new_netbird : Str → List Bool → Netbird
new_netbird device_id fs = record {
  cfg = none;
  client = none;
  state = closed;
  shut = false;
  device_id = device_id;
  running = [];
  started = 0;
  faults = fs;
}

abbrev pub Outcome : Type 0
Outcome = Netbird × Option MeshError

abbrev pub is_empty : Str → Bool
is_empty [] = true
is_empty (c ∷ s) = false

unfoldable pub configure : Config → Netbird → Outcome
configure c n =
    if is_empty c.management_url
    then (n, some management_url_required)
    else if is_empty c.setup_key
    then (n, some setup_key_required)
    else if n.shut
    then (n, some is_closed)
    else (record n { cfg = some c; state = configuring }, none)

-- The calls in order, up to the first that fails: which one that was, and the faults to come.
abbrev pub first_fault : List MeshError → List Bool → Option MeshError × List Bool
first_fault [] fs = (none, fs)
first_fault (e ∷ es) [] = (none, [])
first_fault (e ∷ es) (true ∷ fs) = (some e, fs)
first_fault (e ∷ es) (false ∷ fs) = first_fault es fs

abbrev pub require_config : Option Config → Netbird → Outcome
require_config none n = (n, some not_configured)
require_config (some c) n = (record n { state = configuring }, none)

-- The first half of `Connect`, under the lock.
unfoldable pub begin_connect : Netbird → Outcome
begin_connect n = if n.shut then (n, some is_closed) else require_config n.cfg n

abbrev pub dir_call : Str → List MeshError → List MeshError
dir_call [] es = es
dir_call (c ∷ s) es = create_dir ∷ es

-- What a connection under the configuration calls.
unfoldable pub connect_calls : Config → List MeshError
connect_calls c = dir_call c.config_path (dir_call c.state_path (build_client ∷ start_failed ∷ []))

abbrev pub finished : Option MeshError × List Bool → Netbird → Outcome
finished (some e, fs) n = (record n { state = error; faults = fs }, some e)
finished (none, fs) n = (
  record n {
    client = some n.started;
    state = up;
    running = n.started ∷ n.running;
    started = suc n.started;
    faults = fs;
  },
  none,
)

-- The second half of `Connect`: the client is built and started, and then stored.
unfoldable pub finish_connect : Config → Netbird → Outcome
finish_connect c n = finished (first_fault (connect_calls c) n.faults) n

abbrev pub and_finish : Option Config → Outcome → Outcome
and_finish c (n, some e) = (n, some e)
and_finish none (n, none) = (n, none)
and_finish (some c) (n, none) = finish_connect c n

-- `Connect` with nothing in between.
unfoldable pub connect : Netbird → Outcome
connect n = and_finish n.cfg (begin_connect n)

unfoldable pub stop : ℕ → List ℕ → List ℕ
stop c [] = []
stop c (d ∷ ds) = let rest = stop c ds in if c == d then rest else d ∷ rest

abbrev pub stop_error : Option MeshError × List Bool → Netbird → Outcome
stop_error (e, fs) n = (record n { faults = fs }, e)

abbrev pub stop_client : Option ℕ → Netbird → Outcome
stop_client none n = (n, none)
stop_client (some c) n =
    stop_error (first_fault (stop_failed ∷ []) n.faults) (record n { running = stop c n.running })

unfoldable pub disconnect : Netbird → Outcome
disconnect n = stop_client n.client (record n { client = none; state = closed })

-- The error of `Stop` is dropped.
unfoldable pub close : Netbird → Outcome
close n = ((stop_client n.client (record n { client = none; shut = true; state = closed })).0, none)
