-- ===== src/Socks5/Connections.antt =====
-- wstunnel/src/protocols/socks5/tcp_server.rs: the stream of `run_server`, over what its `select!` gives.
-- `C` are the connections accepted, `S` the streams of the server of datagrams. The crate `fast_socks5`
-- greets a connection with a configuration, a parameter of the model.
use wstunnel.Prelude.{ℕ, Bool, true, false, Option, none, some, List, [], ◌∷◌, ◌++◌, if◌then◌else◌}
use wstunnel.Net.{SocketAddr, sock_v4, sock_v6, Host, domain, ipv4, ipv6, Credentials}
use wstunnel.Socks5.Stream.{TargetAddr, ip, domain_port, destination}
use wstunnel.Socks5.Reply.{new_reply}

-- `fast_socks5::server::Config`: the user's name and password that are asked for, if any.
pub record Config : Type 0 where
  pub allow_no_auth : Bool
  pub authentication : Credentials
  pub dns_resolve : Bool
  pub execute_command : Bool
  pub udp_support : Bool

unfoldable pub config_of : Credentials → Config
config_of credentials = record {
  allow_no_auth = elim credentials [ none ↦ true | some _ ↦ false ];
  authentication = credentials;
  dns_resolve = false;
  execute_command = false;
  udp_support = true;
}

pub data Command : Type 0 where
  tcp_connect tcp_bind udp_associate : Command

-- What a greeting reads.
pub record Upgraded : Type 0 where
  pub target_addr : Option TargetAddr
  pub cmd : Option Command

unfoldable pub is_udp_associate : Option Command → Bool
is_udp_associate (some udp_associate) = true
is_udp_associate _ = false

unfoldable pub target_host : TargetAddr → Host × ℕ
target_host (ip (sock_v4 a port)) = (ipv4 a, port)
target_host (ip (sock_v6 a port flow scope)) = (ipv6 a, port)
target_host (domain_port h p) = (domain h, p)

-- What `select!` gives: a connection, with whether the reply can be written to it, an error of the
-- acceptor, a new stream of datagrams with its destination, or the end of either.
pub data Selected (C S : Type 0) : Type 0 where
  no_more no_more_datagrams : Selected C S
  accept_error udp_error : Selected C S
  accepted : C → Bool → Selected C S
  new_udp : S → TargetAddr → Selected C S

pub data Item (C S : Type 0) : Type 0 where
  tcp_stream : C → Host × ℕ → Item C S
  udp_stream : S → Host × ℕ → Item C S
  item_error : Item C S

-- What the stream gave, the replies that were written, the connections that a task reads to their end.
pub record Socks5Server (C S : Type 0) : Type 0 where
  pub items : List (Item C S)
  pub replies : List (C × List ℕ)
  pub tasks : List C
  pub ended : Bool

abbrev pub started : {C S : Type 0} → Socks5Server C S
started = record { items = []; replies = []; tasks = []; ended = false }

unfoldable pub hand_on : {C S : Type 0} → Item C S → Socks5Server C S → Socks5Server C S
hand_on item server = record server { items = server.items ++ (item ∷ []) }

unfoldable pub replied : {C S : Type 0} → C → List ℕ → Socks5Server C S → Socks5Server C S
replied cnx reply server = record server { replies = server.replies ++ ((cnx, reply) ∷ []) }

-- `ReplyError::Succeeded` as a byte, and the address in the reply to a connection.
abbrev pub succeeded : ℕ
succeeded = 0

abbrev pub no_address : SocketAddr
no_address = sock_v4 0x7f000001 0

-- The reply goes to the peer, with the address of this server for an association.
unfoldable pub answer :
    {C S : Type 0} → SocketAddr → C → TargetAddr → Bool → Bool → Socks5Server C S → Socks5Server C S
answer bind cnx target associate false server = server
answer bind cnx target true true server =
    let server' = replied cnx (new_reply succeeded bind) server in
    record server' { tasks = server'.tasks ++ (cnx ∷ []) }
answer bind cnx target false true server =
    hand_on (tcp_stream cnx (target_host target))
      (replied cnx (new_reply succeeded no_address) server)

unfoldable pub on_target :
    {C S : Type 0}
    → SocketAddr
    → C
    → Bool
    → Option Command
    → Option TargetAddr
    → Socks5Server C S
    → Socks5Server C S
on_target bind cnx writable cmd none server = server
on_target bind cnx writable cmd (some target) server =
    answer bind cnx target (is_udp_associate cmd) writable server

unfoldable pub on_upgrade :
    {C S : Type 0} → SocketAddr → C → Bool → Option Upgraded → Socks5Server C S → Socks5Server C S
on_upgrade bind cnx writable none server = server
on_upgrade bind cnx writable (some up) server =
    on_target bind cnx writable up.cmd up.target_addr server

module _ {C S : Type 0} (upgrade_to_socks5 : Config → C → Option Upgraded) (bind : SocketAddr)
    (credentials : Credentials) where
  unfoldable pub on_selected : Selected C S → Socks5Server C S → Socks5Server C S
  on_selected no_more server = record server { ended = true }
  on_selected no_more_datagrams server = record server { ended = true }
  on_selected accept_error server = hand_on item_error server
  on_selected udp_error server = hand_on item_error server
  on_selected (accepted cnx writable) server =
      on_upgrade bind cnx writable (upgrade_to_socks5 (config_of credentials) cnx) server
  on_selected (new_udp stream target) server =
      hand_on (udp_stream stream (destination target)) server

  -- Each turn of the loop, and each item the stream is asked for, until it ends.
  unfoldable pub serve : List (Selected C S) → Socks5Server C S → Socks5Server C S
  serve [] server = server
  serve (event ∷ events) server =
      let server' = on_selected event server in
      let later = serve events server' in if server'.ended then server' else later
