-- ===== src/Daemon/Filedrop/Peers.antt =====
-- internal/daemon/filedrop.go: who can drop a file, and where the receiver listens.
use goat_client.Prelude.{
  ℕ, Bool, true, false, not, Option, none, some, List, [], ◌∷◌, ◌++◌, Str, same, same_iff, ◌&&◌,
  Any, inl, inr, All, ◌≡◌, refl, ap, ◌∙◌, if◌then◌else◌,
}
use goat_client.Mode.{includes_netbird}
use goat_client.Innermesh.Peers.{PeerStatus}
use goat_client.Filedrop.{
  Server, Request, Reply, stored, not_stored, bad_request, too_large, inbox_unavailable,
  transfer_failed, forbidden, method_not_allowed, Inbox, source_ip, handle_put,
}
use goat_client.Filedrop.Put.{Stored, PutSpec, handle_put-PutSpec}
use goat_client.Daemon.Filedrop.{
  PeerList, no_mesh, status_failed, peers, label_of, label_from, authorize, Seen, mesh_is_up,
  reconcile_server, run_file_server,
}

-- A current peer has this address and is known by this label.
abbrev pub IsPeer : PeerList → Str → Str → Type 0
IsPeer no_mesh src label = ⊥
IsPeer status_failed src label = ⊥
IsPeer (peers ps) src label = Any (λ p. (p.ip ≡ src) × (label_of p ≡ label)) ps

label_from-Any :
    (ps : List PeerStatus) (src label : Str)
    → label_from src ps ≡ some label
    → Any (λ p. (p.ip ≡ src) × (label_of p ≡ label)) ps
unfolding label_from
label_from-Any [] src label h = absurd (cc)
label_from-Any (p ∷ ps) src label h = go (same p.ip src) refl (label_from-Any ps src label) h
  where
    go :
        (b : Bool)
        → same p.ip src ≡ b
        → (label_from src ps ≡ some label → Any (λ q. (q.ip ≡ src) × (label_of q ≡ label)) ps)
        → (if b then some (label_of p) else label_from src ps) ≡ some label
        → Any (λ q. (q.ip ≡ src) × (label_of q ≡ label)) (p ∷ ps)
    go true e later k = inl ((same_iff p.ip src).0 e, cc)
    go false e later k = inr (later k)

authorize-IsPeer :
    (l : PeerList) (src label : Str) → authorize l src ≡ some label → IsPeer l src label
unfolding authorize
authorize-IsPeer no_mesh src label h = absurd (cc)
authorize-IsPeer status_failed src label h = absurd (cc)
authorize-IsPeer (peers ps) src label h = label_from-Any ps src label h

module _ (l : PeerList) (most : ℕ) (split_host : Str → Option Str) (r : Request)
    (inbox : Inbox) where
  -- The receiver with the daemon's authorizer.
  abbrev pub server : Server
  server = record { auth = some (authorize l); max_file_bytes = most; split_host = split_host }

  abbrev pub FromPeer : Inbox × Reply → Type 0
  FromPeer (inbox', stored rec) =
      IsPeer l (source_ip server r.remote_addr) rec.from × Stored server r inbox inbox' rec
  FromPeer (inbox', method_not_allowed) = inbox' ≡ inbox
  FromPeer (inbox', forbidden) = inbox' ≡ inbox
  FromPeer (inbox', bad_request) = inbox' ≡ inbox
  FromPeer (inbox', too_large) = inbox' ≡ inbox
  FromPeer (inbox', inbox_unavailable) = inbox' ≡ inbox
  FromPeer (inbox', transfer_failed) = inbox' ≡ inbox
  FromPeer (inbox', not_stored) = inbox' ≡ inbox

  identified : (a : Inbox × Reply) → PutSpec server r inbox a → FromPeer a
  identified (inbox', stored rec) h = (authorize-IsPeer l _ rec.from h.known, h)
  identified (inbox', method_not_allowed) h = h
  identified (inbox', forbidden) h = h
  identified (inbox', bad_request) h = h
  identified (inbox', too_large) h = h
  identified (inbox', inbox_unavailable) h = h
  identified (inbox', transfer_failed) h = h
  identified (inbox', not_stored) h = h

  -- Under the daemon's authorizer a request changes the inbox only when it comes from the address of
  -- a current peer of the mesh, by whose label the stored file is recorded. With no mesh, or where
  -- its status fails, nothing is stored.
  pub handle_put-FromPeer : FromPeer (handle_put server r inbox)
  handle_put-FromPeer = identified _ (handle_put-PutSpec server r inbox)

abbrev is_on : Seen → Bool
is_on e = includes_netbird e.current_mode && mesh_is_up e.mesh

abbrev pub On : Seen → Type 0
On e = is_on e ≡ true

abbrev pub Off : Seen → Type 0
Off e = is_on e ≡ false

-- The first address that was known.
unfoldable pub first_known : List Seen → Option Str
first_known [] = none
first_known (e ∷ es) = if same e.local_ip [] then first_known es else some e.local_ip

stays : (addr : Str) (es : List Seen) → All On es → run_file_server (some addr) es ≡ some addr
unfolding run_file_server reconcile_server
stays addr [] h = refl
stays addr (e ∷ es) (on, h) =
    ap (λ s. run_file_server s es) (ap (λ b. if not b then none else some addr) on)
    ∙ stays addr es h

starts : (es : List Seen) → All On es → run_file_server none es ≡ first_known es
unfolding run_file_server reconcile_server first_known
starts [] h = refl
starts (e ∷ es) (on, h) =
    ap
      (λ b.
        run_file_server
          (if not b then none else (if same e.local_ip [] then none else some e.local_ip)) es)
      on
    ∙ known (same e.local_ip []) (starts es h)
  where
    known :
        (b : Bool)
        → run_file_server none es ≡ first_known es
        → run_file_server (if b then none else some e.local_ip) es
          ≡ (if b then first_known es else some e.local_ip)
    known true later = later
    known false later = stays e.local_ip es h

run_file_server-append :
    (running : Option Str) (es es' : List Seen)
    → run_file_server running (es ++ es') ≡ run_file_server (run_file_server running es) es'
unfolding run_file_server
run_file_server-append running [] es' = refl
run_file_server-append running (e ∷ es) es' =
    run_file_server-append (reconcile_server running e) es es'

stopped : (running : Option Str) (e : Seen) → Off e → reconcile_server running e ≡ none
unfolding reconcile_server
stopped running e off =
    ap
      (λ b. if not b then none else elim running [
        | some addr ↦ some addr
        | none ↦ if same e.local_ip [] then none else some e.local_ip
      ])
      off

-- Whatever went before: from the last turn on at which the mesh was down or not of the mode, the
-- receiver runs exactly when an address of the mesh has been known, and listens on the first that
-- was, whatever address the mesh has since.
pub run_file_server-first_known :
    (running : Option Str) (before : List Seen) (e : Seen) (es : List Seen)
    → Off e
    → All On es
    → run_file_server running (before ++ e ∷ es) ≡ first_known es
unfolding run_file_server
run_file_server-first_known running before e es off on =
    run_file_server-append running before (e ∷ es)
    ∙ ap (λ s. run_file_server s es) (stopped (run_file_server running before) e off)
    ∙ starts es on
