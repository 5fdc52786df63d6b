-- ===== src/Reload/CertsLaws.antt =====
-- The acceptor of a connection and the material that it is made of.
use wstunnel.Prelude.{
  ◌≡◌, refl, sym, ◌∙◌, ap, ◌⊎◌, inl, inr, Bool, true, false, Option, none, some, some_cancel, List,
  [], ◌∷◌, find, Option-cases, and_then-eq-some, map-eq-some, Bool-cases, arith,
}
use mathlib.Core.Path.{subst}
use wstunnel.Reload.{FsEvent, is_access, try_rewatch_lem, created, by_kind_lem}
use wstunnel.Reload.Certs.{
  TlsServerConfig, Watched, TlsReloader, TlsContext, Loaders, new_for_server, watched_of,
  should_reload_certificate, waits, store_config, store_ca, store_key, store_certificate, on_file,
  on_certificate, on_key, on_client_ca, handle_server_fs_event, try_rewatch_certificate,
  acceptor_of, accepting, TlsMoment, tls_event, tls_wakes, connects, tls_happen, tls_run,
  new_tls_context, all_watchable,
}

module _ {P C K : Type 0} (ends_with : P → P → Bool) (loaders : Loaders P C K) where
  pub on_file_lem :
      {X : Type 0} (D : TlsReloader P C K → Type 0) (target : P) (content : Option X)
      (store : X → TlsReloader P C K → TlsReloader P C K) (e : FsEvent P) (this : TlsReloader P C K)
      → D this
      → ((path : P) → D (waits path this))
      → ((x : X) → D (store x this))
      → D (on_file ends_with loaders target content store e this)
  on_file_lem {X = X} D target content store e this same waiting stored =
      elim (Option-cases (find (λ p. ends_with p target) e.paths)) [
        | inl f ↦ rw (on_file, f) same
        | inr (path, f) ↦
            rw (on_file, f) (by_kind_lem D e.kind _ _ _ (loaded path content) (waiting path) same)
      ]
    where
      loaded :
          (path : P) (o : Option X) → D (elim o [ none ↦ waits path this | some x ↦ store x this ])
      loaded path none = waiting path
      loaded path (some x) = stored x

  -- What holds of a reloader however a thread starts and material is stored.
  abbrev Stored : (TlsReloader P C K → Type 0) → Type 0
  Stored D =
      ((this : TlsReloader P C K) (path : P) → D this → D (waits path this))
      × ((this : TlsReloader P C K) (config : TlsServerConfig P C K)
          → D this
          → D (store_config config this))

  store_ca_lem :
      (D : TlsReloader P C K → Type 0)
      → Stored D
      → (certs : C) (this : TlsReloader P C K) → D this
      → D (store_ca certs this)
  unfolding store_ca
  store_ca_lem D (w, s) certs this d = elim (Option-cases this.config.tls_client_ca_certificates) [
    | inl e ↦ rw (store_ca, e) d
    | inr (old, e) ↦
        rw (store_ca, e) (s this (record this.config { tls_client_ca_certificates = some certs }) d)
  ]

  on_client_ca_lem :
      (D : TlsReloader P C K → Type 0)
      → Stored D
      → (o : Option P) (e : FsEvent P) (this : TlsReloader P C K) → D this
      → D (on_client_ca ends_with loaders o e this)
  unfolding on_client_ca
  on_client_ca_lem D stored none e this d = d
  on_client_ca_lem D (wait, store) (some path) e this d =
      on_file_lem D path (loaders.load_certs path) store_ca e this d (λ p. wait this p d)
        (λ certs. store_ca_lem D (wait, store) certs this d)

  on_key_lem :
      (D : TlsReloader P C K → Type 0)
      → Stored D
      → (path : P) (e : FsEvent P) (this : TlsReloader P C K) → D this
      → D (on_key ends_with loaders path e this)
  unfolding on_key
  on_key_lem D (wait, store) path e this d =
      on_file_lem D path (loaders.load_key path) store_key e this d (λ p. wait this p d)
        (λ key. store this (record this.config { tls_key = key }) d)

  on_certificate_lem :
      (D : TlsReloader P C K → Type 0)
      → Stored D
      → (path : P) (e : FsEvent P) (this : TlsReloader P C K) → D this
      → D (on_certificate ends_with loaders path e this)
  unfolding on_certificate
  on_certificate_lem D (wait, store) path e this d =
      on_file_lem D path (loaders.load_certs path) store_certificate e this d (λ p. wait this p d)
        (λ certs. store this (record this.config { tls_certificate = certs }) d)

  -- A family that a reloader of watched files has stays, if it is closed, through an event.
  handle_server_fs_event_lem :
      (D : TlsReloader P C K → Type 0)
      → Stored D
      → (e : FsEvent P) (w : Watched P) (config : TlsServerConfig P C K) (flag : Bool) (ps : List P)
      → D (record {
        watched = some w;
        config = config;
        tls_reload_certificate = flag;
        waiting = ps;
      })
      → D (
          handle_server_fs_event ends_with loaders (some e) (record {
            watched = some w;
            config = config;
            tls_reload_certificate = flag;
            waiting = ps;
          }))
  unfolding handle_server_fs_event
  handle_server_fs_event_lem D stored e w config flag ps d = elim (Bool-cases (is_access e.kind)) [
    | inl y ↦ rw y d
    | inr n ↦ rw n (
        on_client_ca_lem D stored w.client_ca_path e _
          (on_key_lem D stored w.key_path e _ (on_certificate_lem D stored w.cert_path e _ d)))
  ]

new_for_server_lem :
    {P C K : Type 0} (watchable : P → Bool) (config : TlsServerConfig P C K)
    (o : Option (Watched P)) (r : TlsReloader P C K)
    → new_for_server watchable config o ≡ some r
    → (r.config ≡ config) × (r.tls_reload_certificate ≡ false)
unfolding new_for_server
new_for_server_lem watchable config none r e = (
  sym (ap (λ (s : TlsReloader _ _ _). s.config) (some_cancel e)),
  sym (ap (λ (s : TlsReloader _ _ _). s.tls_reload_certificate) (some_cancel e)),
)
new_for_server_lem watchable config (some w) r e = elim (Bool-cases (all_watchable watchable w)) [
  | inl y ↦
      let same = some_cancel (rw y at e) in
      (
        sym (ap (λ (s : TlsReloader _ _ _). s.config) same),
        sym (ap (λ (s : TlsReloader _ _ _). s.tls_reload_certificate) same),
      )
  | inr n ↦ let e' = rw n at e in cc
]

module _ {P C K A : Type 0} (ends_with : P → P → Bool) (make : C → K → Option C → Option A) where
  -- The acceptor is that of the material, or the flag is set, or the material makes none. A reloader
  -- that watches nothing has no flag.
  abbrev InStep : A → TlsReloader P C K → Type 0
  InStep a this =
      (this.watched ≡ none → this.tls_reload_certificate ≡ false)
      × ((this.tls_reload_certificate ≡ true)
          ⊎ ((acceptor_of make this.config ≡ none) ⊎ (acceptor_of make this.config ≡ some a)))

  handle-InStep :
      (loaders : Loaders P C K) (a : A) (e : FsEvent P) (o : Option (Watched P))
      (config : TlsServerConfig P C K) (flag : Bool) (ps : List P)
      → InStep a
          (record { watched = o; config = config; tls_reload_certificate = flag; waiting = ps })
      → InStep a (
          handle_server_fs_event ends_with loaders
            (some e)
            (record { watched = o; config = config; tls_reload_certificate = flag; waiting = ps }))
  unfolding handle_server_fs_event
  handle-InStep loaders a e none config flag ps h = h
  handle-InStep loaders a e (some w) config flag ps (empty, h) =
      let (same, kept) =
        handle_server_fs_event_lem ends_with loaders
          (λ this.
            (this.watched ≡ some w)
            × ((this.tls_reload_certificate ≡ true)
                ⊎ ((acceptor_of make this.config ≡ none)
                    ⊎ (acceptor_of make this.config ≡ some a))))
          (λ this p d. d, λ this c d. (d.0, inl refl)) e w config flag ps (refl, h) in
      (λ n. let clash = sym same ∙ n in cc, kept)

  accepting-InStep :
      (a : A) (o : Option (Watched P)) (config : TlsServerConfig P C K) (flag : Bool) (ps : List P)
      → InStep a
          (record { watched = o; config = config; tls_reload_certificate = flag; waiting = ps })
      → let next = accepting make (record {
        tls_acceptor = a;
        tls_reloader = record {
          watched = o;
          config = config;
          tls_reload_certificate = flag;
          waiting = ps;
        };
      }) in
        InStep next.tls_acceptor next.tls_reloader
        × ((acceptor_of make next.tls_reloader.config ≡ none)
            ⊎ (acceptor_of make next.tls_reloader.config ≡ some next.tls_acceptor))
  unfolding accepting should_reload_certificate
  accepting-InStep a none config flag ps (empty, h) = ((empty, h), ground (arith, empty refl))
  accepting-InStep a (some w) config false ps (empty, inl e) = cc
  accepting-InStep a (some w) config false ps (empty, inr h) = ((empty, inr h), h)
  accepting-InStep a (some w) config true ps (empty, h) =
      elim (Option-cases (acceptor_of make config)) [
        | inl e ↦ rw e ((λ n. refl, inr (inl e)), inl e)
        | inr (b, e) ↦ rw e ((λ n. refl, inr (inr e)), inr e)
      ]

  tls_happen-InStep :
      (m : TlsMoment P C K) (this : TlsContext P C K A)
      → InStep this.tls_acceptor this.tls_reloader
      → InStep
          (tls_happen ends_with make m this).tls_acceptor
          (tls_happen ends_with make m this).tls_reloader
  unfolding tls_happen handle_server_fs_event try_rewatch_certificate
  tls_happen-InStep (tls_event loaders none) this h = h
  tls_happen-InStep (tls_event loaders (some e)) this h =
      let r = this.tls_reloader in
      handle-InStep loaders this.tls_acceptor e r.watched r.config r.tls_reload_certificate
        r.waiting h
  tls_happen-InStep (tls_wakes loaders w) this h =
      let r = this.tls_reloader in
      try_rewatch_lem (InStep this.tls_acceptor) _ _ _ w.index w.exists w.watched r h h λ path e.
        handle-InStep loaders this.tls_acceptor (created path) r.watched r.config
          r.tls_reload_certificate _ h
  tls_happen-InStep connects this h =
      let r = this.tls_reloader in
      (accepting-InStep this.tls_acceptor r.watched r.config r.tls_reload_certificate r.waiting h).0

  tls_run-InStep :
      (ms : List (TlsMoment P C K)) (this : TlsContext P C K A)
      → InStep this.tls_acceptor this.tls_reloader
      → InStep
          (tls_run ends_with make ms this).tls_acceptor
          (tls_run ends_with make ms this).tls_reloader
  unfolding tls_run
  tls_run-InStep [] this h = h
  tls_run-InStep (m ∷ ms) this h =
      tls_run-InStep ms (tls_happen ends_with make m this) (tls_happen-InStep m this h)

  new_tls_context-InStep :
      (watchable : P → Bool) (config : TlsServerConfig P C K) (this : TlsContext P C K A)
      → new_tls_context watchable make config ≡ some this
      → InStep this.tls_acceptor this.tls_reloader
  unfolding new_tls_context
  new_tls_context-InStep watchable config this e =
      let (acceptor, made, e1) = and_then-eq-some (acceptor_of make config) _ e in
      let (reloader, new, same) =
        map-eq-some _
          (new_for_server watchable config (
            watched_of config.tls_certificate_path config.tls_key_path
              config.tls_client_ca_certs_path))
          e1 in
      let (own, unset) = new_for_server_lem watchable config _ reloader new in
      subst (λ (t : TlsContext P C K A). InStep t.tls_acceptor t.tls_reloader) same
        (λ n. unset, inr (inr (ap (acceptor_of make) own ∙ made)))

  -- Whatever the watcher reports, the threads find and connects before, a connection has the acceptor
  -- of the certificate, the key and the client authorities in memory, if they make one.
  pub accepting-tls_run :
      (watchable : P → Bool) (config : TlsServerConfig P C K) (ms : List (TlsMoment P C K))
      {this : TlsContext P C K A}
      → new_tls_context watchable make config ≡ some this
      → let next = accepting make (tls_run ends_with make ms this) in
        (acceptor_of make next.tls_reloader.config ≡ none)
        ⊎ (acceptor_of make next.tls_reloader.config ≡ some next.tls_acceptor)
  accepting-tls_run watchable config ms {this} e =
      let now = tls_run ends_with make ms this in
      let r = now.tls_reloader in
      (accepting-InStep now.tls_acceptor r.watched r.config r.tls_reload_certificate r.waiting
        (tls_run-InStep ms this (new_tls_context-InStep watchable config this e))).1
