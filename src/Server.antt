-- ===== src/Server.antt =====
-- wstunnel/src/tunnel/server/server.rs: `handle_tunnel_request` and `exec_tunnel`. What reaches the
-- network is an action in a trace, newest first; its answer is that of an oracle. Every error
-- becomes the same response, `bad_request`, and is `none` here.
pub mod Monad
pub mod Exec
pub mod Handle
pub mod Effects
pub mod Serves
pub mod Safety
pub mod Replies
pub mod Upgrade
pub mod Connections
pub mod Imposed
pub mod Certified
