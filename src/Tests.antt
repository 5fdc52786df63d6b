-- ===== src/Tests.antt =====
-- Concrete crates to test with, tests of the definitions, and the theorems at concrete inputs.
mod Instances
mod Rules
mod Access
mod Restrictions
mod Server
mod Streams
mod TcpServer
mod Startup
mod Socks5
mod Transport
mod Scp
mod Registry
mod RateLimit
mod Reload
mod Proxy
mod Cli
mod Connections
mod ReverseServer
mod UdpServer
mod Client
mod Dns
mod Headers
mod Http2
