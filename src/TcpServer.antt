-- ===== src/TcpServer.antt =====
-- wstunnel/src/protocols/tcp/server.rs: the connection to a host, over all its addresses at once, and the
-- one through an HTTP proxy. Sockets, clocks and tasks answer through the arguments; `S` are sockets, and
-- times are milliseconds.
pub mod Attempts
pub mod Race
pub mod Proxy
use wstunnel.Prelude.{
  ℕ, suc, ◌+◌, ◌*◌, Bool, true, false, ◌||◌, Option, none, some, List, [], ◌∷◌, ◌++◌, Text, codes,
  starts_with, length, ltb, if◌then◌else◌, and_then,
}
use wstunnel.Prelude.Results.{Result, ok, err, ◌>>=◌, ok_or}
use wstunnel.Net.{Host, domain, ipv4, ipv6, SocketAddr, sock_v4, sock_v6}

pub data ConnectError : Type 0 where
  cannot_resolve cannot_configure cannot_connect task_failed no_peer_addr : ConnectError
  proxy_closed proxy_error proxy_too_long invalid_response bad_credentials no_proxy_host :
      ConnectError

-- `lookup` stands for `DnsResolver::lookup_host`.
unfoldable pub socket_addrs :
    (Text → ℕ → Option (List SocketAddr)) → Host → ℕ → Result ConnectError (List SocketAddr)
socket_addrs lookup (domain name) port = ok_or (lookup name port) cannot_resolve
socket_addrs lookup (ipv4 ip) port = ok (sock_v4 ip port ∷ [])
socket_addrs lookup (ipv6 ip) port = ok (sock_v6 ip port 0 0 ∷ [])

-- An attempt that is started: its address, and how long it waits first.
pub record Attempt : Type 0 where
  pub addr : SocketAddr
  pub delay : ℕ

-- One attempt for each address whose socket can be made, the `ix`-th address after 250 ms times `ix`.
unfoldable pub spawn_attempts :
    (SocketAddr → Bool)
    → (SocketAddr → Bool)
    → ℕ
    → List SocketAddr
    → Result ConnectError (List Attempt)
spawn_attempts makes_socket configures ix [] = ok []
spawn_attempts makes_socket configures ix (addr ∷ addrs) =
    let later = spawn_attempts makes_socket configures (suc ix) addrs in
    if makes_socket addr
    then (if configures addr
        then (do rest ← later; ok (record { addr = addr; delay = 250 * ix } ∷ rest))
        else err cannot_configure)
    else later

-- How an attempt ends.
pub data Ended (S : Type 0) : Type 0 where
  connected : S → Ended S
  refused timed_out join_error : Ended S

-- The attempts in the order in which they end; the first connection stops the others. `names_peer` is whether
-- the line that logs a connection is written: `debug!` is off, or `peer_addr` answers; its error is returned.
unfoldable pub join_next :
    {S : Type 0} → (S → Bool) → List (Attempt × Ended S) → Result ConnectError S
join_next names_peer [] = err cannot_connect
join_next names_peer ((a, connected s) ∷ ends) = if names_peer s then ok s else err no_peer_addr
join_next names_peer ((a, refused) ∷ ends) = join_next names_peer ends
join_next names_peer ((a, timed_out) ∷ ends) = join_next names_peer ends
join_next names_peer ((a, join_error) ∷ ends) = err task_failed

-- `race` gives the ends of the attempts.
unfoldable pub connect :
    {S : Type 0}
    → (Text → ℕ → Option (List SocketAddr))
    → (SocketAddr → Bool)
    → (SocketAddr → Bool)
    → (S → Bool)
    → (List Attempt → List (Attempt × Ended S))
    → Host
    → ℕ
    → Result ConnectError S
unfolding socket_addrs spawn_attempts join_next
connect lookup makes_socket configures names_peer race host port = do
  addrs ← socket_addrs lookup host port
  attempts ← spawn_attempts makes_socket configures 0 addrs
  join_next names_peer (race attempts)

-- `windows(pat.len()).any(|window| window == pat)`.
unfoldable pub has_window : List ℕ → List ℕ → Bool
has_window pat [] = starts_with [] pat
has_window pat (b ∷ buf) = starts_with (b ∷ buf) pat || has_window pat buf

abbrev pub end_http_response : Text
end_http_response = 13 ∷ 10 ∷ 13 ∷ 10 ∷ []

-- A response is complete, or too long to go on.
unfoldable pub is_complete : List ℕ → Bool
unfolding has_window
is_complete buf = ltb (50 * 1024) (length buf) || has_window end_http_response buf

-- What a read of the proxy gives.
pub data ProxyRead : Type 0 where
  bytes : List ℕ → ProxyRead
  read_error read_timeout : ProxyRead

-- No byte is the end of the connection.
unfoldable pub read_response : List ℕ → List ProxyRead → Result ConnectError (List ℕ)
unfolding is_complete
read_response buf [] = err proxy_too_long
read_response buf (read_timeout ∷ reads) = err proxy_too_long
read_response buf (read_error ∷ reads) = err proxy_error
read_response buf (bytes [] ∷ reads) = err proxy_closed
read_response buf (bytes (b ∷ d) ∷ reads) =
    let more = read_response (buf ++ (b ∷ d)) reads in
    if is_complete (buf ++ (b ∷ d)) then ok (buf ++ (b ∷ d)) else more

abbrev pub ok_response_10 : Text
ok_response_10 = codes "HTTP/1.0 200 "

abbrev pub ok_response_11 : Text
ok_response_11 = codes "HTTP/1.1 200 "

unfoldable pub is_accepted : List ℕ → Bool
unfolding has_window
is_accepted buf = has_window ok_response_10 buf || has_window ok_response_11 buf

-- `url::Url` of the proxy, with the decoding of its user and password (crate `urlencoding`), and base64.
pub record ProxyUrl : Type 0 where
  pub host : Option Host
  pub port_or_known_default : Option ℕ
  pub username : Text
  pub password : Option Text
  pub url_decode : Text → Option Text
  pub encode : Text → Text

abbrev pub crlf : Text
crlf = 13 ∷ 10 ∷ []

-- The header of the user and the password; a user alone is left out.
unfoldable pub authorization : ProxyUrl → Result ConnectError Text
authorization proxy = elim proxy.password [
  | none ↦ ok []
  | some password ↦ do
    user ← ok_or (proxy.url_decode proxy.username) bad_credentials
    secret ← ok_or (proxy.url_decode password) bad_credentials
    ok (codes "Proxy-Authorization: Basic " ++ (proxy.encode (user ++ (b':' ∷ secret)) ++ crlf))
]

-- `target` is the printed host and port.
unfoldable pub connect_request : Text → Text → Text
connect_request target auth =
    codes "CONNECT "
    ++ (target
        ++ (codes " HTTP/1.0"
            ++ (crlf ++ (codes "Host: " ++ (target ++ (crlf ++ (auth ++ crlf)))))))

-- The socket, and what is sent on it.
unfoldable pub connect_with_http_proxy :
    {S : Type 0}
    → ProxyUrl
    → (Host → ℕ → Result ConnectError S)
    → (S → Text → Bool)
    → (S → List ProxyRead)
    → Text
    → Result ConnectError S
unfolding authorization connect_request read_response is_accepted
connect_with_http_proxy proxy connect_to sends answers target = do
  proxy_host ← ok_or proxy.host no_proxy_host
  socket ← connect_to proxy_host (elim proxy.port_or_known_default [ none ↦ 80 | some p ↦ p ])
  auth ← authorization proxy
  buf ←
      if sends socket (connect_request target auth)
      then read_response [] (answers socket)
      else err proxy_error
  if is_accepted buf then ok socket else err invalid_response
