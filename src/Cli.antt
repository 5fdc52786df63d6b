-- ===== src/Cli.antt =====
-- wstunnel/src/config.rs, module `parsers`: the arguments of the command line. The URL parser (crate
-- `url`) and the address parsers are parameters; every error is `InvalidInput`.
pub mod Args
pub mod Values
pub mod Kinds
use wstunnel.Prelude.{
  ℕ, ◌*◌, ◌^◌, Bool, true, false, ◌||◌, not, Option, none, some, or_else, unwrap_or, and_then,
  is_some, List, [], ◌∷◌, ◌++◌, Text, codes, ends_with, starts_with, split_once, split_once_char,
  parse_u16, parse_uint, lookup, insert, text_keys, if◌then◌else◌, ◌==◌,
}
use wstunnel.Prelude.Results.{Result, ok, err, ◌>>=◌, ok_or}
use wstunnel.Net.{IpAddr, v4, v6, Host, SocketAddr, sock_v4, sock_v6, LocalProtocol, Credentials}

-- An error, or the panic of an `unwrap` or of an index.
pub data ArgError : Type 0 where
  invalid_input panicked : ArgError

-- `url::Url`: what the parsers read of it; `query_pairs` are in order.
pub record Urls (U : Type 0) : Type 0 where
  pub parse : Text → Option U
  pub scheme : U → Text
  pub host : U → Option Host
  pub port : U → Option ℕ
  pub query_pairs : U → List (Text × Text)

-- `Ipv4Addr::from_str` and `Ipv6Addr::from_str`.
pub record IpParsers : Type 0 where
  pub ipv4_from_str : Text → Option ℕ
  pub ipv6_from_str : Text → Option ℕ

abbrev pub Options : Type 0
Options = List (Text × Text)

-- Pairs collected into a `BTreeMap`: the last value of a key stays.
abbrev pub collect_options : Options → List (Text × Text) → Options
collect_options m [] = m
collect_options m ((k, v) ∷ ps) = collect_options (insert k v m) ps

pub record LocalToRemote : Type 0 where
  pub local_protocol : LocalProtocol
  pub local : SocketAddr
  pub remote : Host × ℕ

-- `str::split_once` by any character of a list.
unfoldable pub split_once_any : (ℕ → Bool) → Text → Option (Text × Text)
split_once_any p [] = none
split_once_any p (c ∷ s) =
    if p c
    then some ([], s)
    else elim (split_once_any p s) [ none ↦ none | some (l, r) ↦ some (c ∷ l, r) ]

-- `str::trim_start_matches` by one character.
unfoldable pub trim_start_char : ℕ → Text → Text
trim_start_char d [] = []
trim_start_char d (c ∷ s) = if c == d then trim_start_char d s else c ∷ s

-- `str::contains`.
unfoldable pub contains : Text → Text → Bool
contains s pat = is_some (split_once pat s)

-- 127.0.0.1
abbrev pub localhost : ℕ
localhost = 2130706433

-- `SocketAddr::new`.
abbrev pub socket_addr : IpAddr → ℕ → SocketAddr
socket_addr (v4 ip) port = sock_v4 ip port
socket_addr (v6 ip) port = sock_v6 ip port 0 0

abbrev pub colon_or_query : ℕ → Bool
colon_or_query c = c == b':' || c == b'?'

module _ (ips : IpParsers) where
  -- The address before the port: between brackets, or an IPv4 address up to a colon, or none.
  unfoldable pub bind_addr : Text → Result ArgError (IpAddr × Text)
  bind_addr [] = elim (ips.ipv4_from_str []) [
    | none ↦ ok (v4 localhost, [])
    | some ip ↦ ok (v4 ip, [])
  ]
  bind_addr (c ∷ s) =
      if c == b'['
      then (do
        parts ← ok_or (split_once_char b']' s) invalid_input
        ip ← ok_or (ips.ipv6_from_str parts.0) invalid_input
        ok (v6 ip, parts.1))
      else let parts = unwrap_or (split_once_char b':' (c ∷ s)) (c ∷ s, []) in
        elim (ips.ipv4_from_str parts.0) [
          | none ↦ ok (v4 localhost, c ∷ s)
          | some ip ↦ ok (v4 ip, parts.1)
        ]

  -- The port, and what follows its colon or question mark.
  unfoldable pub bind_port : Text → Result ArgError (ℕ × Text)
  bind_port s =
      let r = trim_start_char b':' s in
      let parts = unwrap_or (split_once_any colon_or_query r) (r, []) in
      do port ← ok_or (parse_u16 parts.0) invalid_input; ok (port, parts.1)

  unfoldable pub parse_local_bind : Text → Result ArgError (SocketAddr × Text)
  unfolding bind_addr bind_port
  parse_local_bind arg = do
    bind ← bind_addr arg
    port ← bind_port bind.1
    ok (socket_addr bind.0 port.0, port.1)

module _ {U : Type 0} (urls : Urls U) where
  -- The URL parser drops the default port of `https`, which is looked for in the text.
  unfoldable pub dest_port : Text → U → Result ArgError ℕ
  unfolding contains
  dest_port remaining remote = elim (urls.port remote) [
    | some port ↦ ok port
    | none ↦
        if ends_with remaining (codes ":443") || contains remaining (codes ":443?")
        then ok 443
        else err invalid_input
  ]

  unfoldable pub parse_tunnel_dest : Text → Result ArgError (Host × ℕ × Options)
  unfolding dest_port
  parse_tunnel_dest remaining = do
    remote ← ok_or (urls.parse (codes "https://" ++ remaining)) invalid_input
    host ← ok_or (urls.host remote) invalid_input
    port ← dest_port remaining remote
    ok (host, port, collect_options [] (urls.query_pairs remote))
