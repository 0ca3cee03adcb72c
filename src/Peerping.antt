-- ===== src/Peerping.antt =====
-- internal/peerping: the rolling latency history (Ring, with its order in Ring/Order and its
-- summary in Ring/Summary), the probe datagram (Wire) the sampler of a peer (Sampler) and the
-- set of samplers (Manager).
pub mod Ring
pub mod Wire
pub mod Manager
pub mod Sampler
