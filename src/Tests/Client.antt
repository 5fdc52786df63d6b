-- ===== src/Tests/Client.antt =====
-- A client of a reverse tunnel.
use wstunnel.Prelude.{
  ◌≡◌, refl, sym, ap, ◌∙◌, some_cancel, insert, false, Option, none, some, [], ◌∷◌, Text, codes,
}
use wstunnel.Prelude.Results.{ok}
use wstunnel.Net.{Host, domain, RemoteAddr, tcp}
use wstunnel.Request.{ascii, JwtTunnelConfig, header_text, new_config}
use wstunnel.Server.Upgrade.{Cookies, Response, empty_body, inject_cookie}
use wstunnel.Client.{remote_of, sleeps}
use wstunnel.Client.Delays.{backoffs}
use wstunnel.Client.Cookie.{remote_of-inject_cookie}

abbrev no_token : Text → Option JwtTunnelConfig
no_token s = none

abbrev no_host : Text → Option Host
no_host s = none

three_failures :
    backoffs 3_000_000_000 0 3
    ≡ sleeps 1_000_000_000 ∷ sleeps 2_000_000_000 ∷ sleeps 3_000_000_000 ∷ []
three_failures = refl

abbrev inner : RemoteAddr
inner = record { protocol = tcp false; host = domain (codes "qa"); port = 80 }

abbrev claims : JwtTunnelConfig
claims = record { id = []; p = tcp false; r = codes "qa"; rp = 80 }

abbrev cookies : Cookies
cookies = record {
  show = λ h. codes "qa";
  encode = λ c. codes "token";
  from_str = λ s. some (ascii s);
  nil_id = [];
}

abbrev reply : Response
reply = record { status = 101; headers = []; body = empty_body }

abbrev with_cookie : Response
with_cookie = record reply { headers = (codes "cookie", ascii (codes "token")) ∷ [] }

injected : inject_cookie cookies reply inner ≡ ok with_cookie
unfolding inject_cookie new_config insert
injected = refl

made : new_config cookies.show cookies.nil_id inner ≡ some claims
unfolding new_config
made = refl

remote_of-inject_cookie_example :
    remote_of (λ t. some claims) (λ t. some (domain t)) with_cookie.headers ≡ some inner
remote_of-inject_cookie_example =
    remote_of-inject_cookie cookies (λ t. some claims) (λ t. some (domain t)) reply with_cookie
      inner (λ c e. sym made ∙ e) refl (λ t v e. ap header_text (sym (some_cancel e))) injected
