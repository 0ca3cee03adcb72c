-- ===== src/Ipc.antt =====
-- internal/ipc: the requests and replies between the daemon and its clients, their dispatch, and the client.
pub mod Wire
pub mod Profiles
pub mod Dispatch
pub mod Client
