-- ===== src/Resolver/Laws.antt =====
-- What an endpoint of the resolver satisfies.
use wstunnel.Prelude.{
  ℕ, suc, ◌≤◌, ◌≡◌, ap, Option, none, some, Text, codes, arith, or_else, text_eq_iff, and_then,
  and_then-eq-some, map-eq-some, if-none-eq-some, sym,
}
use mathlib.Core.Path.{subst}
use wstunnel.Net.{IpAddr}
use wstunnel.Resolver.{
  TunnelEndpoint, TunnelEndpointResponse, Backend, cap, endpoint, parse_host, accepted,
  resolve_tunnel_over_http, sent_authorization,
}

-- A rate, where there is one.
abbrev pub RateAtMost : ℕ → Option ℕ → Type 0
RateAtMost bound none = Unit
RateAtMost bound (some m) = m ≤ bound

cap_bound : (v : Option ℕ) → RateAtMost 10 (cap v)
cap_bound none = tt
cap_bound (some m) = omega arith

endpoint_rates :
    (parse_ip : Text → Option IpAddr) (parsed : TunnelEndpointResponse) (e : TunnelEndpoint)
    → endpoint parse_ip parsed ≡ some e
    → (e.port ≡ parsed.port)
      × (e.rate_limit_upload_m ≡ cap (or_else parsed.rate_limit_upload_m parsed.rate_limit_m))
      × (e.rate_limit_download_m ≡ cap (or_else parsed.rate_limit_download_m parsed.rate_limit_m))
unfolding endpoint
endpoint_rates parse_ip parsed e h =
    let (host, found, same) = map-eq-some _ (parse_host parse_ip parsed.host) h in
    (
      sym (ap (λ (x : TunnelEndpoint). x.port) same),
      sym (ap (λ (x : TunnelEndpoint). x.rate_limit_upload_m) same),
      sym (ap (λ (x : TunnelEndpoint). x.rate_limit_download_m) same),
    )

accepted_status :
    {U : Type 0} (backend : Backend U) (parse_ip : Text → Option IpAddr) (status : ℕ) (body : Text)
    (e : TunnelEndpoint)
    → accepted backend parse_ip (status, body) ≡ some e
    → (200 ≤ status)
      × (suc status ≤ 300)
      × (and_then (backend.from_yaml body) (endpoint parse_ip) ≡ some e)
accepted_status backend parse_ip status body e h = ground arith

-- A resolved endpoint came from an `http` service whose answer had a status of success and parsed;
-- its rates are at most 10 MiB/s whatever the service says, and the single rate of older services
-- stands for the direction that has none of its own.
pub resolve_tunnel_over_http_sound :
    {U : Type 0} (backend : Backend U) (parse_ip : Text → Option IpAddr) (base : U) (id : ℕ)
    (auth : Option Text) (e : TunnelEndpoint)
    → resolve_tunnel_over_http backend parse_ip base id auth ≡ some e
    → (backend.scheme base ≡ codes "http")
      × RateAtMost 10 e.rate_limit_upload_m
      × RateAtMost 10 e.rate_limit_download_m
      × ((status : ℕ) × (body : Text) × (parsed : TunnelEndpointResponse) × (backend.send base id
              (sent_authorization auth)
            ≡ some (status, body))
          × (200 ≤ status)
          × (suc status ≤ 300)
          × (backend.from_yaml body ≡ some parsed)
          × (e.port ≡ parsed.port)
          × (e.rate_limit_upload_m ≡ cap (or_else parsed.rate_limit_upload_m parsed.rate_limit_m))
          × (e.rate_limit_download_m
              ≡ cap (or_else parsed.rate_limit_download_m parsed.rate_limit_m)))
unfolding resolve_tunnel_over_http
resolve_tunnel_over_http_sound backend parse_ip base id auth e h =
    let (http, sent) = if-none-eq-some _ _ h in
    let ((status, body), answered, ok) = and_then-eq-some _ (accepted backend parse_ip) sent in
    let (low, high, chain) = accepted_status backend parse_ip status body e ok in
    let (parsed, yaml, made) =
      and_then-eq-some (backend.from_yaml body) (endpoint parse_ip) chain in
    let (port, up, down) = endpoint_rates parse_ip parsed e made in
    (
      (text_eq_iff (backend.scheme base) (codes "http")).0 (ground arith),
      subst (RateAtMost 10) (sym up) (cap_bound _),
      subst (RateAtMost 10) (sym down) (cap_bound _),
      (status, body, parsed, answered, low, high, yaml, port, up, down),
    )
