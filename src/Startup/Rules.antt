-- ===== src/Startup/Rules.antt =====
-- The rules of a server that is started with `--restrict-to`.
use wstunnel.Prelude.{
  ℕ, ◌≡◌, ◌↔◌, refl, sym, ap, ◌∙◌, true, Option, none, some, ◌≢◌, ◌⊎◌, inl, inr, All, arith, List,
  [], ◌∷◌, ◌++◌, map, Text, Lacks, split_once_char, split_once_char_lem, reverse_aux-Lacks,
  parse_u16, is_some, Exists, unwrap_or,
}
use mathlib.Core.Option
use mathlib.Core.List.{
  reverse, reverse_aux, append-nil, reverse_aux-append, reverse_aux-eq, reverse-reverse,
}
use wstunnel.Prelude.Results.{ok, bind-eq-ok, ok_cancel, ok_or}
use wstunnel.Reload.Certs.{Loaders}
use wstunnel.Net.{RemoteAddr, FilePath}
use wstunnel.Deps.{Regexes, IpNets, RegexLaws, IpNetLaws}
use wstunnel.Restrictions.{RestrictionsRules}
use wstunnel.Restrictions.Ports.{collect}
use wstunnel.Restrictions.Build.{from_path_prefix}
use wstunnel.Access.{validate_tunnel}
use wstunnel.Access.Destinations.{DestIs}
use wstunnel.Access.CommandLine.{PrefixIs, from_path_prefix-validate_tunnel}
use wstunnel.Startup.Config.{
  Server, rsplit_once, trim_brackets, trim_brackets_start, restrict_entry, expect, restrictions_of,
  StartUrls, WsServerConfig, run_server_impl, tls_config, mk_http_proxy, start_error, first_addr,
}

abbrev pub IsBracket : ℕ → Type 0
IsBracket c = (c ≡ b'[') ⊎ (c ≡ b']')

-- An entry as it is written: a host without brackets, between any brackets, and the digits of a port.
pub record Entry : Type 0 where
  pub opening : Text
  pub host : Text
  pub closing : Text
  pub digits : Text
  pub port : ℕ
  pub opens : All IsBracket opening
  pub no_opening : Lacks b'[' host
  pub no_closing : Lacks b']' host
  pub closes : All IsBracket closing
  pub no_colon : Lacks b':' digits
  pub reads : parse_u16 digits ≡ some port

abbrev pub written : Entry → Text
written e = (e.opening ++ (e.host ++ e.closing)) ++ (b':' ∷ e.digits)

abbrev pub meant : Entry → Text × ℕ
meant e = (e.host, e.port)

trim_one : (c : ℕ) (s : Text) → IsBracket c → trim_brackets_start (c ∷ s) ≡ trim_brackets_start s
unfolding trim_brackets_start
trim_one c s (inl e) = ground arith
trim_one c s (inr e) = ground arith

trim_opening : (o s : Text) → All IsBracket o → trim_brackets_start (o ++ s) ≡ trim_brackets_start s
trim_opening [] s h = refl
trim_opening (c ∷ o) s (b, h) = trim_one c (o ++ s) b ∙ trim_opening o s h

trim_reversed :
    (o s : Text) → All IsBracket o → trim_brackets_start (reverse_aux o s) ≡ trim_brackets_start s
trim_reversed [] s h = refl
trim_reversed (c ∷ o) s (b, h) = trim_reversed o (c ∷ s) h ∙ trim_one c s b

trim_host : (c : ℕ) (s : Text) → c ≢ b'[' → c ≢ b']' → trim_brackets_start (c ∷ s) ≡ c ∷ s
unfolding trim_brackets_start
trim_host c s n m = ground arith

trim_clean : (s : Text) → Lacks b'[' s → Lacks b']' s → trim_brackets_start s ≡ s
unfolding trim_brackets_start
trim_clean [] n m = refl
trim_clean (c ∷ s) (n, _) (m, _) = ground arith

trim_brackets_lem :
    (o host c : Text)
    → All IsBracket o
    → Lacks b'[' host
    → Lacks b']' host
    → All IsBracket c
    → trim_brackets (o ++ (host ++ c)) ≡ host
unfolding trim_brackets
trim_brackets_lem o [] c h n m k =
    ap (λ s. reverse (trim_brackets_start (reverse s)))
      (trim_opening o c h ∙ ap trim_brackets_start (sym (append-nil c)) ∙ trim_opening c [] k)
    ∙ nothing
  where
    nothing : reverse (trim_brackets_start (reverse (trim_brackets_start []))) ≡ []
    nothing = ground arith
trim_brackets_lem o (x ∷ host) c h (n, ns) (m, ms) k =
    let word = x ∷ host in
    ap (λ s. reverse (trim_brackets_start (reverse s)))
      (trim_opening o (word ++ c) h ∙ trim_host x (host ++ c) n m)
    ∙ ap (λ s. reverse (trim_brackets_start s)) (reverse_aux-append word c [])
    ∙ ap reverse (trim_reversed c (reverse word) k)
    ∙ ap reverse (
        trim_clean (reverse word) (reverse_aux-Lacks b'[' word [] (n, ns) tt)
          (reverse_aux-Lacks b']' word [] (m, ms) tt))
    ∙ reverse-reverse word

-- The split is at the last `d`.
rsplit_once_lem : (d : ℕ) (l r : Text) → Lacks d r → rsplit_once d (l ++ (d ∷ r)) ≡ some (l, r)
unfolding rsplit_once
rsplit_once_lem d l r h =
    let turn : Text × Text → Text × Text = λ t. (reverse t.1, reverse t.0) in
    ap (λ s. Option.map turn (split_once_char d s))
      (reverse_aux-append l (d ∷ r) [] ∙ reverse_aux-eq r (d ∷ reverse l))
    ∙ ap (Option.map turn)
        (split_once_char_lem d (reverse r) (reverse l) (reverse_aux-Lacks d r [] h tt))
    ∙ (λ i. some (reverse-reverse l i, reverse-reverse r i))

restrict_entry-written : (e : Entry) → restrict_entry (written e) ≡ some (meant e)
unfolding restrict_entry
restrict_entry-written e =
    rw (rsplit_once_lem b':' (e.opening ++ (e.host ++ e.closing)) e.digits e.no_colon, e.reads)
      (ap (λ s. some (s, e.port))
        (trim_brackets_lem e.opening e.host e.closing e.opens e.no_opening e.no_closing e.closes))

collect-written : (es : List Entry) → collect restrict_entry (map written es) ≡ some (map meant es)
collect-written [] = refl
collect-written (e ∷ es) = rw (restrict_entry-written e, collect-written es) refl

restrictions_of_lem :
    {U R N : Type 0} ⦃re : Regexes R⦄ ⦃nets : IpNets N⦄
    (from_config_file : FilePath → Option (RestrictionsRules R N)) (args : Server U)
    (es : List Entry) (rules : RestrictionsRules R N)
    → args.restrict_config ≡ none
    → args.restrict_to ≡ some (map written es)
    → from_path_prefix (unwrap_or args.restrict_http_upgrade_path_prefix []) (map meant es)
      ≡ some rules
    → restrictions_of from_config_file args ≡ ok rules
unfolding restrictions_of
restrictions_of_lem from_config_file args es rules no_file given made =
    rw (no_file, given, collect-written es, made) refl

module _ {U C K R N : Type 0} ⦃re : Regexes R⦄ ⦃nets : IpNets N⦄ (urls : StartUrls U)
    (loaders : Loaders FilePath C K) (embedded_certificate : C × K)
    (from_config_file : FilePath → Option (RestrictionsRules R N)) where
  -- The rules a server starts with are those of its arguments.
  run_server_impl-restrictions_of :
      (args : Server U) (config : WsServerConfig U C K) (rules : RestrictionsRules R N)
      → run_server_impl urls loaders embedded_certificate from_config_file args ≡ ok (config, rules)
      → restrictions_of from_config_file args ≡ ok rules
  unfolding run_server_impl
  run_server_impl-restrictions_of args config rules e =
      let (tls, e0, e1) = bind-eq-ok (tls_config urls loaders embedded_certificate args) _ e in
      let (r, made, e2) = bind-eq-ok (restrictions_of from_config_file args) _ e1 in
      let (proxy, e3, e4) =
        bind-eq-ok
          (mk_http_proxy urls args.http_proxy args.http_proxy_login args.http_proxy_password) _
          e2 in
      let (addrs, e5, e6) =
        bind-eq-ok (ok_or (urls.socket_addrs 8080 args.remote_addr) start_error) _ e4 in
      let (bind, e7, e8) = bind-eq-ok (expect (first_addr addrs)) _ e6 in
      made ∙ ap (λ (c : WsServerConfig U C K × RestrictionsRules R N). ok c.1) (ok_cancel e8)

  -- For a server without a file of rules and with at least one destination to restrict to, each written
  -- as a host without brackets, perhaps between brackets, a colon and a port, the rules are made. They
  -- accept exactly the forward tunnels to one of these hosts at its port, from a client whose path prefix
  -- is one of those given, or any where none is given; a host that is an address also takes the empty host
  -- name. If the server starts, it starts with these rules.
  pub run_server_impl-validate_tunnel :
      (rl : RegexLaws re) (nl : IpNetLaws nets) (args : Server U) (e : Entry) (es : List Entry)
      → args.restrict_config ≡ none
      → args.restrict_to ≡ some (map written (e ∷ es))
      → (rules : RestrictionsRules R N) × (restrictions_of from_config_file args ≡ ok rules)
        × ((remote : RemoteAddr) (prefix : Text) (auth : Option Text)
            → (is_some (validate_tunnel remote prefix auth rules) ≡ true) ↔ (
                PrefixIs (unwrap_or args.restrict_http_upgrade_path_prefix []) prefix
                × Exists (DestIs nets remote) (map meant (e ∷ es))))
        × ((config : WsServerConfig U C K) (rules' : RestrictionsRules R N)
            → run_server_impl urls loaders embedded_certificate from_config_file args
              ≡ ok (config, rules')
            → rules' ≡ rules)
  run_server_impl-validate_tunnel rl nl args e es no_file given =
      let (rules, made, means) =
        from_path_prefix-validate_tunnel rl nl (unwrap_or args.restrict_http_upgrade_path_prefix [])
          (meant e) (map meant es) in
      let starts = restrictions_of_lem from_config_file args (e ∷ es) rules no_file given made in
      (
        rules,
        starts,
        means,
        λ config rules' ran.
            ok_cancel (sym (run_server_impl-restrictions_of args config rules' ran) ∙ starts),
      )
