-- ===== src/Server/Monad.antt =====
-- The environment of the server and its effects.
use wstunnel.Prelude.{ℕ, Option, none, some, List, ◌∷◌, Text}
use wstunnel.Net.{Host, SocketAddr, RemoteAddr, Credentials, FilePath}
use wstunnel.Request.{JwtTunnelConfig}
use wstunnel.RateLimit.{Pool}
use wstunnel.Resolver.{Backend}

-- The listeners of reverse tunnels: each kind has a table of servers of its own.
pub data Listener : Type 0 where
  tcp_listener : Listener
  udp_listener : Option ℕ → Listener
  socks5_listener http_listener : Option ℕ → Credentials → Listener
  unix_listener : FilePath → Listener

-- What the server does on the network. `U` is a URL.
pub data Action (U : Type 0) : Type 0 where
  -- Asks the resolver for a tunnel id.
  resolve : ℕ → Option Text → Action U
  -- Opens a UDP association, with its timeout in nanoseconds.
  dial_udp : Host → ℕ → ℕ → Action U
  -- Opens a TCP connection, through a proxy if there is one.
  dial_tcp : Host → ℕ → Option U → Action U
  -- Writes the proxy protocol header for the client and the local address.
  send_header : SocketAddr → SocketAddr → Action U
  -- Listens, or joins the server that listens, and waits for a connection.
  listen : Listener → SocketAddr → Action U

-- The answers of the network and of other crates. A stream is a number.
pub record Env (U : Type 0) : Type 0 where
  pub tunnel_resolver : Option U
  pub proxy : Option U
  pub backend : Backend U
  -- `jsonwebtoken::decode`, `Host::parse`, `Uuid::parse_str`.
  pub decode : Text → Option JwtTunnelConfig
  pub host_parse : Text → Option Host
  pub uuid_parse : Text → Option ℕ
  -- The hash of a path, 64 bits.
  pub hash_path : FilePath → ℕ
  pub connect : Action U → Option ℕ
  pub local_addr : ℕ → Option SocketAddr
  -- `ppp::v2::Builder::build`.
  pub header : SocketAddr → SocketAddr → Option Text
  -- The connection that a listener hands over, and the remote that it names.
  pub accept : Action U → Option (ℕ × RemoteAddr)

pub record World (U : Type 0) : Type 0 where
  pub trace : List (Action U)
  pub pool : Pool

abbrev pub M : Type 0 → Type 0 → Type 0
M U A = World U → Option A × World U

infixl 5 ◌>>=◌ ◌>>◌
abbrev pub bind_result : {U A B : Type 0} → Option A → World U → (A → M U B) → Option B × World U
bind_result none w f = (none, w)
bind_result (some a) w f = f a w

abbrev pub ◌>>=◌ : {U A B : Type 0} → M U A → (A → M U B) → M U B
◌>>=◌ m f w = let r = m w in bind_result r.0 r.1 f

abbrev pub ◌>>◌ : {U B : Type 0} → M U (Unit {0}) → M U B → M U B
m >> k = m >>= λ _. k

abbrev pub pure : {U A : Type 0} → A → M U A
pure a w = (some a, w)

abbrev pub fail : {U A : Type 0} → M U A
fail w = (none, w)

-- `?` on an optional value.
abbrev pub lift : {U A : Type 0} → Option A → M U A
lift o w = (o, w)

-- An action and its answer.
abbrev pub perform : {U A : Type 0} → Action U → Option A → M U A
perform a answer w = (answer, record w { trace = a ∷ w.trace })
