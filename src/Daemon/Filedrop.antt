-- ===== src/Daemon/Filedrop.antt =====
-- internal/daemon/filedrop.go: the record of received files, the peers that may send, the life of the
-- receiver, and the sending of a file. The mesh's peers and the transfer itself are arguments.
pub mod Peers
use goat_client.Prelude.{
  ℕ, ◌+◌, ◌%◌, Bool, true, false, not, Option, none, some, List, [], ◌∷◌, Str, same, length,
  replicate, set, ltb, ◌==◌, ◌&&◌, ◌||◌, map, newest, if◌then◌else◌,
}
use goat_client.Mode.{Mode, includes_netbird}
use goat_client.Text.{to_lower}
use goat_client.Innermesh.Netbird.{State, up}
use goat_client.Innermesh.Peers.{PeerStatus}
use goat_client.Ipc.Wire.{IncomingFile, GetIncomingFilesReply, SendFileReply}
use goat_client.Daemon.Switch.{is_up}

abbrev pub received_ring_cap : ℕ
received_ring_cap = 64

abbrev no_file : IncomingFile
no_file = record { name = []; size = 0; from = []; from_ip = []; path = []; at = 0 }

pub record ReceivedRing : Type 0 where
  pub buf : List IncomingFile
  pub head : ℕ
  pub n : ℕ

-- A capacity that is not positive is 0 here.
unfoldable pub new_received_ring : ℕ → ReceivedRing
new_received_ring capacity = record {
  buf = replicate (if capacity == 0 then received_ring_cap else capacity) no_file;
  head = 0;
  n = 0;
}

unfoldable pub add : ReceivedRing → IncomingFile → ReceivedRing
add r f = record {
  buf = set r.buf r.head f;
  head = (r.head + 1) % length r.buf;
  n = if ltb r.n (length r.buf) then r.n + 1 else r.n;
}

-- Newest first. The index `(head - 1 - i + len) % len` is not negative, since `i` is below the length.
unfoldable pub list : ReceivedRing → List IncomingFile
list r = newest r.buf (length r.buf) no_file r.head 0 r.n

unfoldable pub get_incoming_files : ReceivedRing → GetIncomingFilesReply
get_incoming_files r = record { files = list r }

abbrev pub label_of : PeerStatus → Str
label_of p = if same p.fqdn [] then p.ip else p.fqdn

unfoldable pub label_from : Str → List PeerStatus → Option Str
label_from src [] = none
label_from src (p ∷ ps) = if same p.ip src then some (label_of p) else label_from src ps

-- What `mesh.Peers` returned, where there is a mesh.
pub data PeerList : Type 0 where
  no_mesh status_failed : PeerList
  peers : List PeerStatus → PeerList

-- `authorizer`: the label of an admitted source.
unfoldable pub authorize : PeerList → Str → Option Str
authorize no_mesh src = none
authorize status_failed src = none
authorize (peers ps) src = label_from src ps

-- `fold` lowers the characters beyond ASCII; `strings.EqualFold` is the equality of what it gives.
module _ (fold : ℕ → ℕ) where
  abbrev pub matches : Str → PeerStatus → Bool
  matches id p =
      same p.ip id || (not (same p.fqdn []) && same (to_lower fold p.fqdn) (to_lower fold id))

  unfoldable pub resolve_peer : List PeerStatus → Str → Option (Str × Str)
  resolve_peer [] id = none
  resolve_peer (p ∷ ps) id = if matches id p then some (p.ip, label_of p) else resolve_peer ps id

pub data SendError : Type 0 where
  no_inner_mesh peer_list no_such_peer transfer : SendError

pub data Sent : Type 0 where
  sent : SendFileReply → Sent
  not_sent : SendError → Sent

abbrev pub reply_sent : Str → Str → Option (Str × ℕ) → Sent
reply_sent ip label none = not_sent transfer
reply_sent ip label (some (name, size)) =
    sent (record { name = name; size = size; to_peer = label; to_ip = ip })

-- `filedrop.SendFile` is the argument `transfer`, from the peer's address and a path to the name and
-- the size that it sent.
module _ (fold : ℕ → ℕ) (transfer_file : Str → Str → Option (Str × ℕ)) where
  abbrev pub send_to : Str → Option (Str × Str) → Sent
  send_to path none = not_sent no_such_peer
  send_to path (some (ip, label)) = reply_sent ip label (transfer_file ip path)

  abbrev pub send_among : PeerList → Str → Str → Sent
  send_among no_mesh peer path = not_sent no_inner_mesh
  send_among status_failed peer path = not_sent peer_list
  send_among (peers ps) peer path = send_to path (resolve_peer fold ps peer)

  unfoldable pub send_file : Mode → PeerList → Str → Str → Sent
  send_file m ps peer path =
      if includes_netbird m then send_among ps peer path else not_sent no_inner_mesh

-- What a turn of `runFileServer` sees: the mode, the state of the mesh, if there is one, and its address,
-- empty where it is not known or where its status failed.
pub record Seen : Type 0 where
  pub current_mode : Mode
  pub mesh : Option State
  pub local_ip : Str

abbrev pub mesh_is_up : Option State → Bool
mesh_is_up none = false
mesh_is_up (some s) = is_up s

-- The address that the server is told to listen on, where one runs.
unfoldable pub reconcile_server : Option Str → Seen → Option Str
reconcile_server server e =
    if not (includes_netbird e.current_mode && mesh_is_up e.mesh) then none else elim server [
      | some addr ↦ some addr
      | none ↦ if same e.local_ip [] then none else some e.local_ip
    ]

unfoldable pub run_file_server : Option Str → List Seen → Option Str
run_file_server server [] = server
run_file_server server (e ∷ es) = run_file_server (reconcile_server server e) es
