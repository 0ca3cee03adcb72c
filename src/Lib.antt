-- ===== src/Lib.antt =====
-- goat-client: a model of the client's core and the theorems that make it correct.
--
-- goat-client takes a signed enrollment bundle, keeps it in a store of profiles, and brings up the
-- tunnels that it describes: the wg-cp0 outer tunnel, the netbird inner mesh, or both. A bundle can
-- come over a QR code; peers on the mesh are probed for their round trips.
--
--  * Text is Go's `strings` as far as the program uses it; Prelude has the lists, the text, the
--    association lists and the circular buffers that the parts share.
--  * Bundle models internal/bundle: the record and its checks (bundle.go), Bundle.Trust the pinned
--    roots (trust.go), Bundle.Preview the dialog's preview. CBOR, SHA-256, ECDSA, PEM and X.509 are
--    library code and are parameters (`Codec`, `Block`).
--  * Qrbundle models internal/qrbundle: Base45 the codec (base45.go), Payload the size budget
--    (qrbundle.go).
--  * Mode models internal/mode/mode.go. A mode is a string in the source, so a mode that is none of
--    the known ones is kept as `other`. Mode.Persist is the file config.toml (persist.go).
--  * Profile models internal/profile. Slug is `Slugify` and `validateName`. Disk is the files: a map
--    of meta files, a map of bundles and the marker, with a list that says which of the coming file
--    operations fail. Where the list ends none fails, so the list is both the fault-free run and any
--    run with faults. A write by `writeAtomic` changes the file at its last step or not at all. Store
--    is the methods of `Store`, each one step since each takes the lock, and Migrate is
--    `MigrateLegacyBundle`. Hoare has the rules by which the proofs run the methods.
--  * Tunnel models internal/tunnel/tunnel.go: Manager is `Manager` over the trace of its calls of
--    the platform's device, each of which may fail; FromBundle is `FromBundle`, with the parsing of
--    addresses as a parameter. Uapi is the text that the device is configured by and the counters
--    that are read from it (uapi.go). The platform is a parameter, since the name of the
--    interface is that of the platform (platform_*.go, tunnel_mobile.go).
--  * Innermesh models internal/innermesh: the configuration (innermesh.go, frombundle.go), Netbird
--    the life cycle of the embedded client (netbird.go), which is third party and is seen as the
--    clients that were started and stopped; `Connect` lets the lock go while the client starts, so
--    it is two steps and other methods may come between them. LogBuffer is its bounded log
--    (netbird.go, `ringWriter`), and Peers what is read of the client's status (netbird.go).
--  * Peerping models internal/peerping: Ring the history (ring.go), Wire the datagram, the responder
--    and one probe (peerping.go, responder.go, pinger.go), Sampler the probes of one peer (pinger.go),
--    Manager the set of samplers (manager.go), which are goroutines and are seen as those that were
--    started and those that were cancelled.
--  * Filedrop models internal/filedrop/server.go: `handlePut` on an inbox, one request at a time.
--  * Reachability models internal/reachability/prober.go: Order is about `sortResults`, Emit about
--    what `Run` hands to its channel.
--  * Names models internal/names: the check of a signed snapshot (names.go) and the snapshots of the
--    store with their cache (store.go), over the crypto and JSON functions as parameters (`Crypto`).
--    Answers has the grades of a snapshot and `PickFallback` (names.go), Observed the names learned
--    from live answers (store.go), Claims the names that peers claim for themselves (claims.go) and
--    Forwarder the handling of one query, which goes through all of them (forwarder.go). Supervise
--    is the listener, which is bound again when it crashes (forwarder.go), and Refresh the refresh
--    of the snapshot and the claims and the state that is reported (refresh.go, service.go).
--  * Ipc models internal/ipc: Wire and Profiles are the requests and replies (ipc.go), Dispatch the
--    loop of one connection with its guard and its routing (dispatch.go), over a daemon of any state,
--    and Client the other end, with what it makes of the replies (client.go, types.go).
--  * TrustAnchor models internal/trustanchor: the anchors and their windows (anchor.go) and the check
--    of a signature against them (verify.go).
--  * Daemon models internal/daemon/daemon.go: `Session` is the state of `Daemon`, Legs has `Connect`,
--    `Disconnect` and what takes legs down, Switch the changes of mode, Rosenpass intent and active
--    profile, and Supervisor the loop `runMeshSupervisor`, one round per firing of its timer.
--    Imports has `ImportBundle` and `AddProfile`, Profiles the other handlers of profiles,
--    `LoadPersistedBundle` and `Shutdown`, Status the handlers that report, Log the rolling log,
--    PeerConn the loop `runPeerConn`, and Dns the host's resolver and its fronting by the forwarder.
--    Filedrop models internal/daemon/filedrop.go.
--  * Tests has runs at concrete values.
--
-- The daemon loads a profile from the store and derives the configurations of both tunnels from
-- its bundle; a profile that is added to the store is checked by Bundle and Mode. An operation of
-- the daemon runs alone here, and the errors that it only logs are dropped. Durations and
-- counters of the ring keep their 64-bit wrap-around; times are naturals. There is no fuel but
-- the source's own bounds (9999 numbered names in `placeUniquely`): every other loop of the
-- source is a recursion on its input, and the loops of a probe and of the supervisor on the
-- rounds that the environment gives.
--
-- Not modelled: the IPC transport and the stub client, the HTTP client of a file drop, the user
-- interface, the commands, the mobile shells, the platform devices and host DNS adapters, the
-- timers, and the construction of the daemon beyond its mode and its name servers.
pub mod Prelude
pub mod Text
pub mod TrustAnchor
pub mod Mode
pub mod Profile
pub mod Qrbundle
pub mod Peerping
pub mod Bundle
pub mod Tunnel
pub mod Innermesh
pub mod Reachability
pub mod Filedrop
pub mod Names
pub mod Ipc
pub mod Daemon
pub mod Tests
