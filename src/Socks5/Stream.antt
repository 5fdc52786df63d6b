-- ===== src/Socks5/Stream.antt =====
-- wstunnel/src/protocols/socks5/udp_server.rs: the reads and writes of a `Socks5UdpStream`, and its
-- destination. The deadline is that of UdpServer/Watchdog, and the channel, the room of the buffer and
-- the socket give at a poll what the arguments say.
use wstunnel.Prelude.{
  ℕ, ◌-◌, Option, none, some, List, ◌++◌, if◌then◌else◌, ltb, length, take, Text,
}
use wstunnel.Net.{SocketAddr, Host, domain, to_host_port}
use wstunnel.UdpServer.Watchdog.{
  Intervals, Watched, Watch, stuck, timed_out, goes, watchdog, marked,
}
use wstunnel.UdpServer.Stream.{ReadResult, pending, timeout_error, eof, no_space, read_some}

-- `fast_socks5::util::target_addr::TargetAddr`.
pub data TargetAddr : Type 0 where
  ip : SocketAddr → TargetAddr
  domain_port : Text → ℕ → TargetAddr

unfoldable pub destination : TargetAddr → Host × ℕ
destination (ip sock_addr) = to_host_port sock_addr
destination (domain_port h p) = (domain h, p)

-- `poll_recv` of the channel.
pub data Polled : Type 0 where
  not_yet closed : Polled
  data_of : List ℕ → Polled

-- The data that the channel gives, if the buffer has room for it; it is gone if not.
unfoldable pub receive : {I : Type 0} → ℕ → Watched I → Polled → ReadResult (List ℕ) × Watched I
receive remaining w not_yet = (pending, w)
receive remaining w closed = (eof, w)
receive remaining w (data_of d) =
    if ltb remaining (length d) then (no_space, w) else (read_some d, marked w)

unfoldable pub read_on :
    {I : Type 0} → ℕ → Polled → Watch I → Option (ReadResult (List ℕ) × Watched I)
read_on remaining r stuck = none
read_on remaining r (timed_out w) = some (timeout_error, w)
read_on remaining r (goes w) = some (receive remaining w r)

-- `none` if the loop in the watchdog does not end.
unfoldable pub poll_read :
    {I : Type 0}
    → Intervals I
    → ℕ
    → ℕ
    → Polled
    → Watched I
    → Option (ReadResult (List ℕ) × Watched I)
poll_read ticks now remaining r w = read_on remaining r (watchdog ticks now w)

-- `poll_send_to`: what it sends, and where from the header stands before and after.
pub data Sent : Type 0 where
  full send_error : Sent
  wrote : ℕ → Sent

pub record Write : Type 0 where
  pub datagram : List ℕ
  pub result : Sent
  pub udp_header : List ℕ

unfoldable pub without_header : ℕ → Sent → Sent
without_header header_len (wrote n) = wrote (n - header_len)
without_header header_len full = full
without_header header_len send_error = send_error

-- The header buffer takes the data for the send, and is cut to the header again.
unfoldable pub poll_write : (List ℕ → Sent) → List ℕ → List ℕ → Write
poll_write poll_send_to udp_header buf = record {
  datagram = udp_header ++ buf;
  result = without_header (length udp_header) (poll_send_to (udp_header ++ buf));
  udp_header = take (length udp_header) (udp_header ++ buf);
}
