-- ===== src/Startup/Secure.antt =====
-- When a client starts.
use wstunnel.Prelude.{text_keys}
use wstunnel.Transport.Addr
use wstunnel.Transport.Addr.{TransportScheme, ws, wss, http, https, TransportAddr, alpn_protocols}
