-- ===== src/Tests.antt =====
-- Concrete runs of the models: tests, and one instance of each property that has hypotheses or
-- binders. Codec runs the texts and datagrams, Store the bundle checks and the profile store,
-- Lifecycle the tunnel and the inner mesh, Filedrop the receiver of files,
-- Reachability the prober, Names the name store, Resolver what answers a query for a name, Wire the
-- dispatch, the file of the mode and the samplers, Daemon the daemon, Upkeep its imports and loops, and Client the
-- client of the daemon and the trust anchors.
mod Codec
mod Store
mod Lifecycle
mod Filedrop
mod Reachability
mod Names
mod Resolver
mod Wire
mod Daemon
mod Upkeep
mod Client
