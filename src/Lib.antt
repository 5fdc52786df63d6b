-- ===== src/Lib.antt =====
-- wstunnel carries TCP, UDP, Unix and reverse tunnels over WebSocket or HTTP/2. A client sends an
-- upgrade request whose path carries a prefix and whose subprotocol header carries a token with the
-- destination; the server checks its restriction rules, connects or listens, and copies bytes.
--
-- Parts and files (paths of the repository):
--   Net           tunnel/mod.rs of wstunnel/src: protocols, hosts, socket addresses.
--   Deps          regular expressions (regex) and networks (ipnet), records of operations and laws.
--   Restrictions  restrictions/types.rs and restrictions/mod.rs: the rule data (Restrictions), its
--                 readers (Restrictions/Ports), the command line's rules (Restrictions/Build).
--   Access        tunnel/server/utils.rs: validate_tunnel and what it calls; Access/Prefix is the
--                 path prefix; Access/Destinations and Access/CommandLine join Build and Access.
--   Request       the headers and the token of a request (utils.rs, transport/jwt.rs).
--   Resolver      tunnel/server/tunnel_resolver.rs.
--   RateLimit     tunnel/rate_limiter.rs: quotas, pool, jitter; RateLimit/Reader the two adapters.
--   Server        tunnel/server/server.rs: a state monad with failure over the trace of actions and
--                 the pool of limiters (Server/Monad), exec_tunnel (Server/Exec) and
--                 handle_tunnel_request (Server/Handle). Server/Upgrade is handler_websocket.rs and
--                 handler_http2.rs beside it, Server/Connections what serve does with a connection,
--                 with protocols/tls/utils.rs; Server/Imposed is the path that its certificates name.
--   Transport     tunnel/transport: Transport/Addr is types.rs; Transport/Websocket and Transport/Copy
--                 the two halves of websocket.rs; Transport/Propagate and the end of Transport/Copy
--                 the two loops of io.rs, over the events and the frames that reach them.
--                 Transport/Http2 is http2.rs with the same loops over its halves.
--   TcpServer     protocols/tcp/server.rs: connections to a host (TcpServer/Attempts, TcpServer/Race) and
--                 through an HTTP proxy (TcpServer/Proxy).
--   Startup       lib.rs: the tunnels of a client's arguments (Startup, with create_client_tunnels in
--                 Startup/Create), the configuration and the rules of a server (Startup/Config) and
--                 create_client (Startup/ClientData and Startup/ClientConfig, with WsClient::new of
--                 tunnel/client/client.rs);
--                 Startup/Resolvers is new_from_urls of protocols/dns/resolver.rs.
--   Headers       tunnel/transport/mod.rs: headers_from_file.
--   Reload        restrictions/config_reloader.rs (Reload/Rules) and tunnel/tls_reloader.rs, its server
--                 (Reload/Certs, with TlsContext of server.rs) and its client (Reload/Connector).
--   ReverseServer tunnel/server/reverse_tunnel.rs, as a step relation.
--   UdpServer     protocols/udp/server.rs, as a step relation; UdpServer/Watchdog and UdpServer/Stream
--                 the reads of its streams with their deadline, over the ticks of an interval.
--   Socks5        protocols/socks5: its socket of datagrams as a step relation, Socks5/Stream its
--                 streams, Socks5/Connections the loop over connections, Socks5/Reply the replies.
--   Client        tunnel/client/client.rs: the loop of a reverse tunnel (Client/Delays), and the cookie
--                 between Server.Upgrade and it (Client/Cookie).
--   Dns           protocols/dns/resolver.rs: the order of the addresses.
--   HttpProxy     protocols/http_proxy/server.rs.
--   Cli           config.rs, module parsers: Cli, Cli/Args and Cli/Values.
--   Registry      tunnel-server/src: watcher.rs, state.rs and api.rs, the service that the resolver asks.
--   Scp           protocols/ssh/scp.rs of wstunnel/src: recv_data and download_file_data (Scp),
--                 the headers and the upload (Scp/Upload), the loop of a download (Scp/Session).
--   Tests         concrete rules, networks and requests, and the theorems at them.
--
-- A request flows through Access.Prefix, Request, Resolver (for a tunnel id), Access and Server.Exec,
-- and its streams through RateLimit. Server.Connections hands it the rules that Reload keeps, at the
-- moment of the request, and the path that the client's certificate imposes; a reverse tunnel of
-- Server.Exec is a call of ReverseServer. Names are those of the source in the spelling of the library.
-- A text is a list of code points. Ports, rates and lengths are natural numbers; what the source
-- truncates or wraps is written as a remainder. The width of usize in Scp, the platform in Startup and
-- whether the debug line of a connection is written in TcpServer are parameters.
--
-- Third-party code is a parameter: regex matching, IP networks, address parsing, the token codec, the
-- YAML reader, the HTTP client, the sockets, the timer and the governor limiter are fields of records
-- or answers given from outside. Laws about them are hypotheses where a theorem needs them, and Tests
-- holds an instance that meets them. The loop of next_jitter_roll runs over the list of the exchanges
-- that failed before the one that succeeds. propagate_remote_to_local runs on fuel, one unit for each
-- call of copy: one more than the number of frames is enough, since each call that goes on takes one.
--
-- In Reload and HttpProxy what comes from outside is a list of moments or events, each with the answers
-- of the file system; a thread or a task takes its turn when the list says so. In ReverseServer and
-- UdpServer each step is what runs between two points where another task can run, and every order of
-- steps is reachable.
--
-- The loops of download_file_data and scp_download have fuel for each message of the channel and one more. The loop of ticks
-- in UdpServer/Watchdog has one unit for each nanosecond before the poll and one more: a period is at
-- least one, so that many ticks are never due.
--
-- In Socks5/Connections and TcpServer the answers of select!, of the tasks that race and of the reads are
-- lists. The arguments that Cli reads are those that Startup runs, and its rules are those of Access.
--
-- Not modelled: logging, the handshakes of the transports and of TLS, the queries of DNS, the options and
-- the listeners of sockets, the connection pool of the client, the adapters between sockets and streams,
-- the rest of SSH and the attributes of the command line's options. Time is the argument of a poll, a
-- step of its own, or a delay that is returned.
pub mod Prelude
pub mod Net
pub mod Deps
pub mod Restrictions
pub mod Access
pub mod RateLimit
pub mod Request
pub mod Resolver
pub mod Server
pub mod Transport
pub mod Reload
pub mod ReverseServer
pub mod UdpServer
pub mod Socks5
pub mod TcpServer
pub mod HttpProxy
pub mod Client
pub mod Headers
pub mod Dns
pub mod Cli
pub mod Startup
pub mod Scp
pub mod Registry
pub mod Tests
