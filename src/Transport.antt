-- ===== src/Transport.antt =====
-- wstunnel/src/tunnel/transport: the WebSocket side of a tunnel, and the loops that copy bytes.
pub mod Http2
pub mod Body
pub mod Addr
pub mod Websocket
pub mod Copy
pub mod Propagate
pub mod Delivery
pub mod Complete
pub mod Turns
pub mod Sending
pub mod Keepalive
pub mod Silence
