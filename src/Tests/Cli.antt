-- ===== src/Tests/Cli.antt =====
-- Arguments of the command line, with a URL parser that keeps its text and knows one host.
use wstunnel.Prelude.{◌≡◌, refl, true, false, none, some, [], Text, codes, split_once, parse_uint}
use wstunnel.Prelude.Results.{ok, err}
use wstunnel.Net.{domain, sock_v4, reverse_tcp, is_reverse_tunnel}
use wstunnel.Request.{sendable}
use wstunnel.Cli.{
  Urls, IpParsers, LocalToRemote, localhost, split_once_any, trim_start_char, parse_local_bind,
  parse_tunnel_dest, panicked,
}
use wstunnel.Cli.Args.{ArgParsers, parse_tunnel_arg, parse_reverse_tunnel_arg}
use wstunnel.Cli.Values.{parse_duration_sec}
use wstunnel.Cli.Kinds.{parse_reverse_tunnel_arg-parse_tunnel_arg}

abbrev pub urls : Urls Text
urls = record {
  parse = λ s. some s;
  scheme = λ u. codes "https";
  host = λ u. some (domain (codes "qa"));
  port = λ u. none;
  query_pairs = λ u. [];
}

abbrev pub ips : IpParsers
ips = record { ipv4_from_str = λ s. none; ipv6_from_str = λ s. none }

abbrev pub parsers : ArgParsers
parsers = record { form_pairs = λ s. []; is_uuid = λ s. true }

abbrev pub arg : Text
arg = codes "tcp://8080:qa:443"

abbrev pub reversed : LocalToRemote
reversed = record {
  local_protocol = reverse_tcp;
  local = sock_v4 localhost 8080;
  remote = (domain (codes "qa"), 443);
}

pub accepted : parse_reverse_tunnel_arg ips urls parsers arg ≡ ok reversed
unfolding parse_reverse_tunnel_arg parse_tunnel_arg split_once parse_local_bind parse_uint
    split_once_any trim_start_char parse_tunnel_dest
accepted = refl

parse_reverse_tunnel_arg-parse_tunnel_arg_example :
    (l : LocalToRemote) × (parse_tunnel_arg ips urls parsers arg ≡ ok l)
    × (is_reverse_tunnel l.local_protocol ≡ false)
    × (is_reverse_tunnel reverse_tcp ≡ true)
    × (sendable reverse_tcp ≡ some reverse_tcp)
    × (sock_v4 localhost 8080 ≡ l.local)
    × ((domain (codes "qa"), 443) ≡ l.remote)
parse_reverse_tunnel_arg-parse_tunnel_arg_example =
    parse_reverse_tunnel_arg-parse_tunnel_arg ips urls parsers arg reversed accepted

two_minutes : parse_duration_sec (codes "2m") ≡ ok 120_000_000_000
unfolding parse_duration_sec parse_uint
two_minutes = refl

empty_duration : parse_duration_sec [] ≡ err panicked
unfolding parse_duration_sec
empty_duration = refl
