-- ===== src/Reload/Connector.antt =====
-- wstunnel/src/tunnel/tls_reloader.rs, the client's half: the connector follows its files.
use wstunnel.Prelude.{
  ◌≡◌, refl, ◌∙◌, inl, inr, Bool, true, false, ◌||◌, ◌&&◌, Option, none, some, List, [], ◌∷◌, ◌++◌,
  find, any, and_then, unwrap_or, Option-cases, Bool-cases, if◌then◌else◌,
}
use wstunnel.Reload.{
  is_change, find-any, find_missing, EventKind, any_event, access, create, modify, remove, other,
  FsEvent, is_access, by_kind, Wake, try_rewatch,
}
use wstunnel.Reload.Certs.{Loaders}

pub record TlsClient (P A : Type 0) : Type 0 where
  pub cert_path : P
  pub key_path : P
  pub tls_connector : A
  pub tls_reload_certificate : Bool
  pub waiting : List P

-- `watchable` tells whether the watcher is created and set on the certificate and the key; only a
-- certificate and a key that are both files are watched.
unfoldable pub new_for_client :
    {P A : Type 0} → (P → Bool) → Option P → Option P → A → Option (Option (TlsClient P A))
new_for_client watchable (some cert) (some key) connector =
    if watchable cert && watchable key
    then some (
        some (record {
          cert_path = cert;
          key_path = key;
          tls_connector = connector;
          tls_reload_certificate = false;
          waiting = [];
        }))
    else none
new_for_client watchable (some cert) none connector = some none
new_for_client watchable none key connector = some none

-- Two updates to the same value, of which the second is left out if there is no value.
two_updates :
    {A : Type 0} (x y : Bool) (b : Option A) (old : A)
    → ((b ≡ none → (if x then unwrap_or b old else old) ≡ (if x || y then unwrap_or b old else old))
        × ((if y
              then unwrap_or b (if x then unwrap_or b old else old)
              else if x
              then unwrap_or b old
              else old)
            ≡ (if x || y then unwrap_or b old else old)))
two_updates true true none old = (λ e. refl, refl)
two_updates true false none old = (λ e. refl, refl)
two_updates false true none old = (λ e. refl, refl)
two_updates false false none old = (λ e. refl, refl)
two_updates true true (some a) old = (λ e. refl, refl)
two_updates true false (some a) old = (λ e. refl, refl)
two_updates false true (some a) old = (λ e. cc, refl)
two_updates false false (some a) old = (λ e. refl, refl)

-- `make` stands for `tls::tls_connector`, with the parameters of the client.
module _ {P C K A : Type 0} (ends_with : P → P → Bool) (loaders : Loaders P C K)
    (make : C → K → Option A) where
  abbrev pub waits_client : P → TlsClient P A → TlsClient P A
  waits_client path this = record this { waiting = this.waiting ++ (path ∷ []) }

  -- The new connector; the handler returns at an error of it.
  abbrev pub store_connector : Option A → TlsClient P A → Bool × TlsClient P A
  store_connector none this = (true, this)
  store_connector (some connector) this =
      (false, record this { tls_connector = connector; tls_reload_certificate = true })

  unfoldable pub load_material : P → Option C → Option K → TlsClient P A → Bool × TlsClient P A
  load_material path (some certs) (some key) this = store_connector (make certs key) this
  load_material path (some certs) none this = (false, waits_client path this)
  load_material path none key this = (false, waits_client path this)

  -- What an event does to one of the files, and whether the handler returns.
  unfoldable pub on_client_file : P → FsEvent P → TlsClient P A → Bool × TlsClient P A
  unfolding load_material
  on_client_file target e this = elim (find (λ p. ends_with p target) e.paths) [
    | none ↦ (false, this)
    | some path ↦
        by_kind e.kind
          (load_material path (loaders.load_certs this.cert_path) (loaders.load_key this.key_path)
            this)
          (false, waits_client path this) (false, this)
  ]

  unfoldable pub handle_client_fs_event : Option (FsEvent P) → TlsClient P A → TlsClient P A
  unfolding on_client_file
  handle_client_fs_event none this = this
  handle_client_fs_event (some e) this =
      let first = on_client_file this.cert_path e this in
      if is_access e.kind
      then this
      else if first.0
      then first.1
      else (on_client_file this.key_path e first.1).1

  unfoldable pub try_rewatch_client : Wake → TlsClient P A → TlsClient P A
  unfolding handle_client_fs_event
  try_rewatch_client =
      try_rewatch (λ (this : TlsClient P A). this.waiting)
        (λ (ps : List P) (this : TlsClient P A). record this { waiting = ps })
        (λ (e : FsEvent P). handle_client_fs_event (some e))

  -- The connector of the files as they are.
  abbrev pub built : P → P → Option A
  built cert_path key_path =
      and_then (loaders.load_certs cert_path)
        λ certs. and_then (loaders.load_key key_path) (make certs)

  -- The event changes the file.
  abbrev pub reports : P → FsEvent P → Bool
  reports target e = is_change e.kind && any (λ p. ends_with p target) e.paths

  -- Keeps the paths, and has a connector.
  abbrev Has : TlsClient P A → A → TlsClient P A → Type 0
  Has this a next =
      (next.cert_path ≡ this.cert_path) × (next.key_path ≡ this.key_path) × (next.tls_connector ≡ a)

  -- The connector is the new one if there is one; the handler returns only if there is none.
  load_material-connector :
      (path : P) (o : Option C) (q : Option K) (this : TlsClient P A)
      → Has this
          (unwrap_or (and_then o λ certs. and_then q (make certs)) this.tls_connector)
          (load_material path o q this).1
        × ((load_material path o q this).0 ≡ true
            → and_then o (λ certs. and_then q (make certs)) ≡ none)
  unfolding load_material
  load_material-connector path none q this = ((refl, refl, refl), λ e. refl)
  load_material-connector path (some certs) none this = ((refl, refl, refl), λ e. refl)
  load_material-connector path (some certs) (some key) this = elim (Option-cases (make certs key)) [
    | inl e ↦ rw e ((refl, refl, refl), λ r. refl)
    | inr (a, e) ↦ rw e ((refl, refl, refl), λ r. cc)
  ]

  -- One file's part of an event that is not an access.
  Handles : P → FsEvent P → TlsClient P A → Bool × TlsClient P A → Type 0
  Handles target e this (returns, next) =
      Has this
        (if reports target e
          then unwrap_or (built this.cert_path this.key_path) this.tls_connector
          else this.tls_connector)
        next
      × (returns ≡ true → built this.cert_path this.key_path ≡ none)

  on_kind-Handles :
      (target : P) (k : EventKind) (ps : List P) (path : P) (this : TlsClient P A)
      → any (λ p. ends_with p target) ps ≡ true
      → Handles target
          (record { kind = k; paths = ps })
          this
          (by_kind k
            (load_material path
              (loaders.load_certs this.cert_path)
              (loaders.load_key this.key_path)
              this)
            (false, waits_client path this)
            (false, this))
  unfolding by_kind Handles
  on_kind-Handles target create ps path this named = rw named (
      load_material-connector path (loaders.load_certs this.cert_path)
        (loaders.load_key this.key_path) this)
  on_kind-Handles target modify ps path this named = rw named (
      load_material-connector path (loaders.load_certs this.cert_path)
        (loaders.load_key this.key_path) this)
  on_kind-Handles target remove ps path this named = ((refl, refl, refl), λ e. cc)
  on_kind-Handles target access ps path this named = ((refl, refl, refl), λ e. cc)
  on_kind-Handles target other ps path this named = ((refl, refl, refl), λ e. cc)
  on_kind-Handles target any_event ps path this named = ((refl, refl, refl), λ e. cc)

  unnamed-Handles :
      (target : P) (k : EventKind) (ps : List P) (this : TlsClient P A)
      → any (λ p. ends_with p target) ps ≡ false
      → Handles target (record { kind = k; paths = ps }) this (false, this)
  unfolding Handles
  unnamed-Handles target create ps this n = rw n ((refl, refl, refl), λ e. cc)
  unnamed-Handles target modify ps this n = rw n ((refl, refl, refl), λ e. cc)
  unnamed-Handles target remove ps this n = ((refl, refl, refl), λ e. cc)
  unnamed-Handles target access ps this n = ((refl, refl, refl), λ e. cc)
  unnamed-Handles target other ps this n = ((refl, refl, refl), λ e. cc)
  unnamed-Handles target any_event ps this n = ((refl, refl, refl), λ e. cc)

  on_client_file-Handles :
      (target : P) (e : FsEvent P) (this : TlsClient P A)
      → Handles target e this (on_client_file target e this)
  unfolding on_client_file
  on_client_file-Handles target e this = elim (Bool-cases (any (λ p. ends_with p target) e.paths)) [
    | inl y ↦
        let (path, f) = find-any (λ p. ends_with p target) e.paths y in
        rw (on_client_file, f) (on_kind-Handles target e.kind e.paths path this y)
    | inr n ↦
        rw (on_client_file, find_missing (λ p. ends_with p target) e.paths n)
          (unnamed-Handles target e.kind e.paths this n)
  ]

  access-reports : (target : P) (e : FsEvent P) → is_access e.kind ≡ true → reports target e ≡ false
  unfolding is_access
  access-reports target e a = kind e.kind a
    where
      kind :
          (k : EventKind)
          → is_access k ≡ true
          → (is_change k && any (λ p. ends_with p target) e.paths) ≡ false
      kind create h = cc
      kind modify h = cc
      kind remove h = cc
      kind access h = refl
      kind other h = cc
      kind any_event h = cc

  -- After an event the connector is the one of the files if the event reports a change of the
  -- certificate or of the key and the files make a connector, else the one before.
  pub handle_client_fs_event-tls_connector :
      (e : FsEvent P) (this : TlsClient P A)
      → (handle_client_fs_event (some e) this).tls_connector ≡ (
          if reports this.cert_path e || reports this.key_path e
          then unwrap_or (built this.cert_path this.key_path) this.tls_connector
          else this.tls_connector)
  unfolding handle_client_fs_event Handles
  handle_client_fs_event-tls_connector e this =
      let first = on_client_file this.cert_path e this in
      let ((c, k, a), returns) = on_client_file-Handles this.cert_path e this in
      let ((c', k', a'), returns') = on_client_file-Handles this.key_path e first.1 in
      let update =
        two_updates (reports this.cert_path e) (reports this.key_path e)
          (built this.cert_path this.key_path) this.tls_connector in
      elim (Bool-cases (is_access e.kind)) [
        | inl y ↦ rw (y, access-reports this.cert_path e y, access-reports this.key_path e y) refl
        | inr n ↦ elim (Bool-cases first.0) [
          | inl r ↦ rw (n, r) (a ∙ update.0 (returns r))
          | inr go ↦ rw (n, go) (rw (c, k, a) at a' ∙ update.1)
        ]
      ]
