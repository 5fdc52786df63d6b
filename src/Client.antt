-- ===== src/Client.antt =====
-- wstunnel/src/tunnel/client/client.rs: the loop of a reverse tunnel, with its delays and the remote that
-- the server names in its response.
pub mod Delays
pub mod Cookie
use wstunnel.Prelude.{
  ℕ, zero, suc, ◌*◌, ◌^◌, min, Bool, true, false, Option, none, some, List, [], ◌∷◌, ◌++◌, Text,
  codes, and_then, unwrap_or, lookup, text_keys, if◌then◌else◌,
}
use mathlib.Core.Option
use wstunnel.Net.{Host, domain, RemoteAddr}
use wstunnel.Request.{HeaderValue, header_text, JwtTunnelConfig}

-- One second, in nanoseconds.
abbrev pub first_delay : ℕ
first_delay = 1_000_000_000

-- The delay, and the state of the closure for the next one.
unfoldable pub reconnect_delay : ℕ → ℕ → ℕ × ℕ
reconnect_delay max_delay state = (state, min (state * 2) max_delay)

-- `decode` stands for `jwt_token_to_tunnel`, `host_parse` for `Host::parse`.
unfoldable pub remote_of :
    (Text → Option JwtTunnelConfig)
    → (Text → Option Host)
    → List (Text × HeaderValue)
    → Option RemoteAddr
remote_of decode host_parse headers =
    Option.map
      (λ (jwt : JwtTunnelConfig). record {
        protocol = jwt.p;
        host = unwrap_or (host_parse jwt.r) (domain []);
        port = jwt.rp;
      })
      (and_then (and_then (lookup (codes "cookie") headers) header_text) decode)

-- One turn of the loop: the server cannot be reached, or answers with headers and the endpoint is
-- reached or not.
pub data Attempt : Type 0 where
  unreachable : Attempt
  answered : List (Text × HeaderValue) → Bool → Attempt

-- What a turn does: it sleeps, or connects to the endpoint of a remote and starts the tunnel or not.
pub data Effect : Type 0 where
  sleeps : ℕ → Effect
  connects : Option RemoteAddr → Bool → Effect

-- The effects of the turns, from the state of the delay.
unfoldable pub run_reverse_tunnel :
    (Text → Option JwtTunnelConfig) → (Text → Option Host) → ℕ → ℕ → List Attempt → List Effect
unfolding reconnect_delay remote_of
run_reverse_tunnel decode host_parse max_delay state [] = []
run_reverse_tunnel decode host_parse max_delay state (unreachable ∷ attempts) =
    let delay = reconnect_delay max_delay state in
    sleeps delay.0 ∷ run_reverse_tunnel decode host_parse max_delay delay.1 attempts
run_reverse_tunnel decode host_parse max_delay state (answered headers reached ∷ attempts) =
    connects (remote_of decode host_parse headers) reached
    ∷ run_reverse_tunnel decode host_parse max_delay first_delay attempts
