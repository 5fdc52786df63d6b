-- ===== src/Tests/Reload.antt =====
-- Files that change: a path is a number, a content too, and content 0 is not valid.
use wstunnel.Prelude.{
  ℕ, ◌≡◌, ◌==◌, refl, inr, true, false, none, some, [], ◌∷◌, List, Option, if◌then◌else◌, ◌+◌, ◌⊎◌,
}
use wstunnel.Reload.{create, remove, FsEvent, is_access, by_kind}
use wstunnel.Reload.Rules.{RulesReloader, new_reloader, event, wakes, Moment, happen, run}
use wstunnel.Reload.Current.{run-current}
use wstunnel.Reload.Certs.{
  TlsServerConfig, Watched, TlsReloader, TlsContext, Loaders, tls_event, connects, TlsMoment,
  tls_run, accepting, acceptor_of, new_tls_context,
}
use wstunnel.Reload.CertsLaws.{accepting-tls_run}
use wstunnel.Reload.Connector.{TlsClient}

abbrev content : ℕ → ℕ → Option ℕ
content n path = if n == 0 then none else some n

abbrev removed : FsEvent ℕ
removed = record { kind = remove; paths = 7 ∷ [] }

abbrev created_7 : FsEvent ℕ
created_7 = record { kind = create; paths = 3 ∷ 7 ∷ [] }

abbrev reloader : RulesReloader ℕ ℕ
reloader = record { config_path = some 7; restrictions = 1; waiting = [] }

-- The file is removed, and its thread finds it with content 5.
abbrev gone : Moment ℕ ℕ
gone = record { from_config_file = content 0; happening = event (some removed) }

abbrev later : Moment ℕ ℕ
later = record { from_config_file = content 5; happening = event none }

abbrev back : Moment ℕ ℕ
back = record {
  from_config_file = content 5;
  happening = wakes (record { index = 0; exists = true; watched = true });
}

started : new_reloader (λ p. true) 1 (some 7) ≡ some reloader
unfolding new_reloader
started = refl

waits_for_7 : (run ◌==◌ (gone ∷ []) reloader).waiting ≡ 7 ∷ []
unfolding run is_access by_kind
waits_for_7 = refl

run-current_example :
    (run ◌==◌
      (later ∷ [])
      (happen ◌==◌ (content 5) back.happening (run ◌==◌ (gone ∷ []) reloader))).restrictions
    ≡ 5
run-current_example =
    run-current ◌==◌ 7 (λ p. true) 1 5 (gone ∷ []) (later ∷ []) (content 5) back.happening started
      (inr (0, 7, refl, rw waits_for_7 refl)) refl (refl, tt)

abbrev config : TlsServerConfig ℕ ℕ ℕ
config = record {
  tls_certificate_path = some 7;
  tls_key_path = some 8;
  tls_client_ca_certs_path = none;
  tls_certificate = 1;
  tls_key = 2;
  tls_client_ca_certificates = none;
}

abbrev watched_7 : Watched ℕ
watched_7 = record { cert_path = 7; key_path = 8; client_ca_path = none }

abbrev tls_reloader_7 : TlsReloader ℕ ℕ ℕ
tls_reloader_7 = record {
  watched = some watched_7;
  config = config;
  tls_reload_certificate = true;
  waiting = [];
}

abbrev make_sum : ℕ → ℕ → Option ℕ → Option ℕ
make_sum c k ca = some (c + k)

abbrev context : TlsContext ℕ ℕ ℕ ℕ
context = record {
  tls_acceptor = 3;
  tls_reloader = record {
    watched = some watched_7;
    config = config;
    tls_reload_certificate = false;
    waiting = [];
  };
}

abbrev loaders : Loaders ℕ ℕ ℕ
loaders = record { load_certs = content 5; load_key = content 6 }

context_made : new_tls_context (λ p. true) make_sum config ≡ some context
unfolding new_tls_context
context_made = refl

abbrev history : List (TlsMoment ℕ ℕ ℕ)
history = tls_event loaders (some created_7) ∷ connects ∷ []

accepting-tls_run_example :
    let next = accepting make_sum (tls_run ◌==◌ make_sum history context) in
    (acceptor_of make_sum next.tls_reloader.config ≡ none)
    ⊎ (acceptor_of make_sum next.tls_reloader.config ≡ some next.tls_acceptor)
accepting-tls_run_example = accepting-tls_run ◌==◌ make_sum (λ p. true) config history context_made

new_acceptor : (tls_run ◌==◌ make_sum history context).tls_acceptor ≡ 7
unfolding tls_run is_access by_kind
new_acceptor = refl

abbrev tls_client : TlsClient ℕ ℕ
tls_client = record {
  cert_path = 7;
  key_path = 8;
  tls_connector = 3;
  tls_reload_certificate = false;
  waiting = [];
}
