-- ===== src/Tests/Connections.antt =====
-- A client whose certificate names a path; certificate 0 is an authority's.
use wstunnel.Prelude.{
  split_once, ℕ, ◌≡◌, refl, true, false, Option, none, some, [], ◌∷◌, Text, codes, All, Exists,
  ◌==◌, split_once_char,
}
use wstunnel.Access.{validate_tunnel}
use wstunnel.Request.{ascii, extract_authorization, extract_tunnel_info, try_from}
use wstunnel.Request.Token.{protocol_header}
use wstunnel.Server.Monad.{dial_tcp}
use wstunnel.Server.Exec.{exec_tunnel}
use wstunnel.Server.Handle.{handle_tunnel_request}
use wstunnel.Net.{IpAddr, domain}
use wstunnel.Access.Prefix.{extract_path_prefix}
use wstunnel.Server.Upgrade.{http_server_upgrade, Cookies}
use wstunnel.Server.Connections.{
  X509, Connection, over_tls, Arrival, serve_connection, restrict_path_of,
}
use wstunnel.Server.Imposed.{Imposed, restricted_path}
use wstunnel.Server.Certified.{Allows, serve_connection-Permitted}
use wstunnel.Tests.Instances.{test_regexes, test_nets}
use wstunnel.Tests.Rules.{two_rules}
use wstunnel.Tests.Server.{env, request, start, client}

abbrev x509 : X509 ℕ ℕ
x509 = record {
  parse = λ d. some d;
  is_ca = λ x. x == 0;
  common_names = λ x. none ∷ some (codes "v1") ∷ [];
}

abbrev connection : Connection ℕ
connection =
    over_tls
      (some (record { peer_certificates = some (0 ∷ 1 ∷ []); alpn_protocol = some (codes "h2") }))

abbrev cookies : Cookies
cookies = record {
  show = λ h. codes "qa.com";
  encode = λ c. codes "token";
  from_str = λ s. some (ascii s);
  nil_id = [];
}

abbrev arrival : Arrival Text IpAddr
arrival = record {
  rules = two_rules;
  request = record {
    request = request (codes "80");
    is_upgrade = false;
    upgrade = none;
    http_2 = true;
    content_type = none;
  };
}

imposed : restricted_path x509 connection ≡ some (codes "v1")
unfolding restrict_path_of
imposed = refl

-- The certificate names the prefix of the request, which is served.
served_request :
    (serve_connection env cookies x509 connection client (arrival ∷ []) start).1.trace
    ≡ dial_tcp (domain (codes "qa.com")) 80 none ∷ []
unfolding serve_connection http_server_upgrade handle_tunnel_request exec_tunnel validate_tunnel
    extract_path_prefix extract_tunnel_info try_from extract_authorization split_once_char
    split_once protocol_header
served_request = refl

serve_connection-Permitted_example :
    (restrict : Option Text) × Imposed x509 connection restrict
    × All
        (λ action. Exists (Allows env cookies restrict client action) (arrival ∷ []))
        (serve_connection env cookies x509 connection client (arrival ∷ []) start).1.trace
serve_connection-Permitted_example =
    serve_connection-Permitted env cookies x509 connection client (arrival ∷ []) []
