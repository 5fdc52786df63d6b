-- ===== src/Reload/Certs.antt =====
-- wstunnel/src/tunnel/tls_reloader.rs, the server's half, and `TlsContext` of
-- wstunnel/src/tunnel/server/server.rs: the acceptor follows the certificate, the key and the client
-- authorities. An event is handled in one step.
use wstunnel.Prelude.{
  Bool, true, false, Option, none, some, List, [], ◌∷◌, ◌++◌, find, and_then, ◌&&◌, if◌then◌else◌,
}
use mathlib.Core.Option
use wstunnel.Reload.{FsEvent, is_access, by_kind, Wake, try_rewatch}

pub record TlsServerConfig (P C K : Type 0) : Type 0 where
  pub tls_certificate_path : Option P
  pub tls_key_path : Option P
  pub tls_client_ca_certs_path : Option P
  pub tls_certificate : C
  pub tls_key : K
  pub tls_client_ca_certificates : Option C

-- The paths that are watched.
pub record Watched (P : Type 0) : Type 0 where
  pub cert_path : P
  pub key_path : P
  pub client_ca_path : Option P

-- `Empty` watches nothing.
pub record TlsReloader (P C K : Type 0) : Type 0 where
  pub watched : Option (Watched P)
  pub config : TlsServerConfig P C K
  pub tls_reload_certificate : Bool
  pub waiting : List P

pub record TlsContext (P C K A : Type 0) : Type 0 where
  pub tls_acceptor : A
  pub tls_reloader : TlsReloader P C K

-- `load_certificates_from_pem`, `load_private_key_from_file`.
pub record Loaders (P C K : Type 0) : Type 0 where
  pub load_certs : P → Option C
  pub load_key : P → Option K

module _ {P : Type 0} where
  abbrev pub all_watchable : (P → Bool) → Watched P → Bool
  all_watchable watchable w =
      watchable w.cert_path
      && (watchable w.key_path && elim w.client_ca_path [ none ↦ true | some p ↦ watchable p ])

  -- Only a certificate and a key that are both files are watched.
  unfoldable pub watched_of : Option P → Option P → Option P → Option (Watched P)
  watched_of (some cert) (some key) ca =
      some (record { cert_path = cert; key_path = key; client_ca_path = ca })
  watched_of (some cert) none ca = none
  watched_of none key ca = none

module _ {P C K : Type 0} where
  unfoldable pub new_for_server :
      (P → Bool) → TlsServerConfig P C K → Option (Watched P) → Option (TlsReloader P C K)
  new_for_server watchable config none =
      some
        (record { watched = none; config = config; tls_reload_certificate = false; waiting = [] })
  new_for_server watchable config (some w) =
      if all_watchable watchable w
      then some (record {
        watched = some w;
        config = config;
        tls_reload_certificate = false;
        waiting = [];
      })
      else none

  unfoldable pub should_reload_certificate : TlsReloader P C K → Bool × TlsReloader P C K
  should_reload_certificate this = elim this.watched [
    | none ↦ (false, this)
    | some w ↦ (this.tls_reload_certificate, record this { tls_reload_certificate = false })
  ]

  abbrev pub waits : P → TlsReloader P C K → TlsReloader P C K
  waits path this = record this { waiting = this.waiting ++ (path ∷ []) }

  -- New material, with the flag set.
  abbrev pub store_config : TlsServerConfig P C K → TlsReloader P C K → TlsReloader P C K
  store_config config this = record this { config = config; tls_reload_certificate = true }

  abbrev pub store_certificate : C → TlsReloader P C K → TlsReloader P C K
  store_certificate certs this = store_config (record this.config { tls_certificate = certs }) this

  abbrev pub store_key : K → TlsReloader P C K → TlsReloader P C K
  store_key key this = store_config (record this.config { tls_key = key }) this

  unfoldable pub store_ca : C → TlsReloader P C K → TlsReloader P C K
  store_ca certs this = elim this.config.tls_client_ca_certificates [
    | none ↦ this
    | some old ↦ store_config (record this.config { tls_client_ca_certificates = some certs }) this
  ]

module _ {P C K : Type 0} (ends_with : P → P → Bool) (loaders : Loaders P C K) where
  -- What an event does to one file: its content is stored, or a thread waits for it.
  abbrev pub on_file :
      {X : Type 0}
      → P
      → Option X
      → (X → TlsReloader P C K → TlsReloader P C K)
      → FsEvent P
      → TlsReloader P C K
      → TlsReloader P C K
  on_file target content store e this = elim (find (λ p. ends_with p target) e.paths) [
    | none ↦ this
    | some path ↦
        by_kind e.kind (elim content [ none ↦ waits path this | some x ↦ store x this ])
          (waits path this) this
  ]

  unfoldable pub on_certificate : P → FsEvent P → TlsReloader P C K → TlsReloader P C K
  on_certificate path = on_file path (loaders.load_certs path) store_certificate

  unfoldable pub on_key : P → FsEvent P → TlsReloader P C K → TlsReloader P C K
  on_key path = on_file path (loaders.load_key path) store_key

  unfoldable pub on_client_ca : Option P → FsEvent P → TlsReloader P C K → TlsReloader P C K
  unfolding store_ca
  on_client_ca none e this = this
  on_client_ca (some path) e this = on_file path (loaders.load_certs path) store_ca e this

  unfoldable pub handle_server_fs_event : Option (FsEvent P) → TlsReloader P C K → TlsReloader P C K
  unfolding on_certificate on_key on_client_ca
  handle_server_fs_event none this = this
  handle_server_fs_event (some e) this = elim this.watched [
    | none ↦ this
    | some w ↦
        if is_access e.kind
        then this
        else on_client_ca w.client_ca_path e
            (on_key w.key_path e (on_certificate w.cert_path e this))
  ]

  unfoldable pub try_rewatch_certificate : Wake → TlsReloader P C K → TlsReloader P C K
  unfolding handle_server_fs_event
  try_rewatch_certificate =
      try_rewatch (λ (this : TlsReloader P C K). this.waiting)
        (λ (ps : List P) (this : TlsReloader P C K). record this { waiting = ps })
        (λ (e : FsEvent P). handle_server_fs_event (some e))

-- `tls::tls_acceptor`, from the certificate, the key and the client authorities.
abbrev pub acceptor_of :
    {P C K A : Type 0} → (C → K → Option C → Option A) → TlsServerConfig P C K → Option A
acceptor_of make config =
    make config.tls_certificate config.tls_key config.tls_client_ca_certificates

-- The acceptor of a connection: a new one if there is new material that makes one.
unfoldable pub accepting :
    {P C K A : Type 0} → (C → K → Option C → Option A) → TlsContext P C K A → TlsContext P C K A
unfolding should_reload_certificate
accepting make this =
    let asked = should_reload_certificate this.tls_reloader in
    let kept = record this { tls_reloader = asked.1 } in
    if asked.0
    then elim (acceptor_of make asked.1.config) [
      | none ↦ kept
      | some acceptor ↦ record kept { tls_acceptor = acceptor }
    ]
    else kept

-- An event, the turn of a thread, or a connection.
pub data TlsMoment (P C K : Type 0) : Type 0 where
  tls_event : Loaders P C K → Option (FsEvent P) → TlsMoment P C K
  tls_wakes : Loaders P C K → Wake → TlsMoment P C K
  connects : TlsMoment P C K

module _ {P C K A : Type 0} (ends_with : P → P → Bool) (make : C → K → Option C → Option A) where
  unfoldable pub tls_happen : TlsMoment P C K → TlsContext P C K A → TlsContext P C K A
  unfolding accepting handle_server_fs_event try_rewatch_certificate
  tls_happen (tls_event loaders e) this = record this {
    tls_reloader = handle_server_fs_event ends_with loaders e this.tls_reloader;
  }
  tls_happen (tls_wakes loaders w) this = record this {
    tls_reloader = try_rewatch_certificate ends_with loaders w this.tls_reloader;
  }
  tls_happen connects this = accepting make this

  unfoldable pub tls_run : List (TlsMoment P C K) → TlsContext P C K A → TlsContext P C K A
  unfolding tls_happen
  tls_run [] this = this
  tls_run (m ∷ ms) this = tls_run ms (tls_happen m this)

-- The context of `serve`, with the acceptor of the configuration.
unfoldable pub new_tls_context :
    {P C K A : Type 0}
    → (P → Bool)
    → (C → K → Option C → Option A)
    → TlsServerConfig P C K
    → Option (TlsContext P C K A)
unfolding new_for_server watched_of
new_tls_context {P} {C} {K} watchable make config = and_then (acceptor_of make config) λ acceptor.
    Option.map (λ (r : TlsReloader P C K). record { tls_acceptor = acceptor; tls_reloader = r })
      (new_for_server watchable config (
        watched_of config.tls_certificate_path config.tls_key_path config.tls_client_ca_certs_path))
