-- ===== src/Transport/Addr.antt =====
-- wstunnel/src/tunnel/transport/types.rs: the schemes of the server's URL and its address.
use wstunnel.Prelude.{
  ℕ, ◌≡◌, ◌≢◌, refl, ◌↔◌, ◌⊎◌, inl, inr, Option, none, some, List, [], ◌∷◌, Text, codes, text_eq,
  text_eq_iff, if◌then◌else◌, Bool-cases, ◌∙◌, ap, some_cancel,
}
use mathlib.Core.Path.{subst}
use wstunnel.Net.{Host}

pub data TransportScheme : Type 0 where
  ws wss http https : TransportScheme

unfoldable pub to_str : TransportScheme → Text
to_str ws = codes "ws"
to_str wss = codes "wss"
to_str http = codes "http"
to_str https = codes "https"

unfoldable pub alpn_protocols : TransportScheme → List Text
alpn_protocols ws = []
alpn_protocols wss = codes "http/1.1" ∷ []
alpn_protocols http = []
alpn_protocols https = codes "h2" ∷ []

unfoldable pub from_str : Text → Option TransportScheme
from_str s =
    if text_eq s (codes "https")
    then some https
    else if text_eq s (codes "http")
    then some http
    else if text_eq s (codes "wss")
    then some wss
    else if text_eq s (codes "ws")
    then some ws
    else none

-- The address of a server, with the TLS configuration of the schemes that need one.
pub data TransportAddr (T : Type 0) : Type 0 where
  wss_addr : T → TransportScheme → Host → ℕ → TransportAddr T
  ws_addr : TransportScheme → Host → ℕ → TransportAddr T
  https_addr : TransportScheme → T → Host → ℕ → TransportAddr T
  http_addr : TransportScheme → Host → ℕ → TransportAddr T

module _ {T : Type 0} where
  unfoldable pub new : TransportScheme → Host → ℕ → Option T → Option (TransportAddr T)
  new https host port none = none
  new https host port (some tls) = some (https_addr https tls host port)
  new http host port tls = some (http_addr http host port)
  new wss host port none = none
  new wss host port (some tls) = some (wss_addr tls wss host port)
  new ws host port tls = some (ws_addr ws host port)

  unfoldable pub tls_of : TransportAddr T → Option T
  tls_of (wss_addr tls scheme host port) = some tls
  tls_of (https_addr scheme tls host port) = some tls
  tls_of (ws_addr scheme host port) = none
  tls_of (http_addr scheme host port) = none

  unfoldable pub host_of : TransportAddr T → Host
  host_of (wss_addr tls scheme host port) = host
  host_of (ws_addr scheme host port) = host
  host_of (https_addr scheme tls host port) = host
  host_of (http_addr scheme host port) = host

  unfoldable pub port_of : TransportAddr T → ℕ
  port_of (wss_addr tls scheme host port) = port
  port_of (ws_addr scheme host port) = port
  port_of (https_addr scheme tls host port) = port
  port_of (http_addr scheme host port) = port

  unfoldable pub scheme_of : TransportAddr T → TransportScheme
  scheme_of (wss_addr tls scheme host port) = scheme
  scheme_of (ws_addr scheme host port) = scheme
  scheme_of (https_addr scheme tls host port) = scheme
  scheme_of (http_addr scheme host port) = scheme

-- A scheme is read from a text exactly when the text is what that scheme prints.
pub from_str-to_str :
    (s : Text) (scheme : TransportScheme) → (from_str s ≡ some scheme) ↔ (s ≡ to_str scheme)
unfolding from_str to_str
from_str-to_str s scheme = (read s scheme, printed s scheme)
  where
    printed : (s : Text) (scheme : TransportScheme) → s ≡ to_str scheme → from_str s ≡ some scheme
    printed s ws e = rw e refl
    printed s wss e = rw e refl
    printed s http e = rw e refl
    printed s https e = rw e refl

    read : (s : Text) (scheme : TransportScheme) → from_str s ≡ some scheme → s ≡ to_str scheme
    read s scheme e = elim (Bool-cases (text_eq s (codes "https"))) [
      | inl a ↦
          (text_eq_iff s (codes "https")).0 a ∙ ap to_str (some_cancel (rw (from_str, a) at e))
      | inr a ↦ elim (Bool-cases (text_eq s (codes "http"))) [
        | inl b ↦
            (text_eq_iff s (codes "http")).0 b ∙ ap to_str (some_cancel (rw (from_str, a, b) at e))
        | inr b ↦ elim (Bool-cases (text_eq s (codes "wss"))) [
          | inl c ↦
              (text_eq_iff s (codes "wss")).0 c
              ∙ ap to_str (some_cancel (rw (from_str, a, b, c) at e))
          | inr c ↦ elim (Bool-cases (text_eq s (codes "ws"))) [
            | inl d ↦
                (text_eq_iff s (codes "ws")).0 d
                ∙ ap to_str (some_cancel (rw (from_str, a, b, c, d) at e))
            | inr d ↦ let e' = rw (from_str, a, b, c, d) at e in cc
          ]
        ]
      ]
    ]

-- An address keeps the scheme, host and port it is made of; it holds the TLS configuration given if
-- its scheme announces protocols in the TLS handshake, and none else.
pub new_keeps :
    {T : Type 0} (scheme : TransportScheme) (host : Host) (port : ℕ) (tls : Option T)
    (a : TransportAddr T)
    → new scheme host port tls ≡ some a
    → (scheme_of a ≡ scheme)
      × (host_of a ≡ host)
      × (port_of a ≡ port)
      × ((alpn_protocols scheme ≡ []) × (tls_of a ≡ none)
          ⊎ (alpn_protocols scheme ≢ []) × (tls_of a ≡ tls))
unfolding new scheme_of host_of port_of tls_of alpn_protocols
new_keeps {T = T} scheme host port tls a e = made scheme tls e
  where
    Keeps : TransportScheme → Option T → TransportAddr T → Type 0
    Keeps scheme tls a =
        (scheme_of a ≡ scheme)
        × (host_of a ≡ host)
        × (port_of a ≡ port)
        × ((alpn_protocols scheme ≡ []) × (tls_of a ≡ none)
            ⊎ (alpn_protocols scheme ≢ []) × (tls_of a ≡ tls))

    made :
        (scheme : TransportScheme) (tls : Option T)
        → new scheme host port tls ≡ some a
        → Keeps scheme tls a
    made https none e = cc
    made https (some tls) e =
        subst (Keeps https (some tls)) (some_cancel e) (refl, refl, refl, inr (λ x. cc, refl))
    made http tls e = subst (Keeps http tls) (some_cancel e) (refl, refl, refl, inl (refl, refl))
    made wss none e = cc
    made wss (some tls) e =
        subst (Keeps wss (some tls)) (some_cancel e) (refl, refl, refl, inr (λ x. cc, refl))
    made ws tls e = subst (Keeps ws tls) (some_cancel e) (refl, refl, refl, inl (refl, refl))
