-- ===== src/Reload/Material.antt =====
-- The material of the server after a reported change of its files.
use wstunnel.Prelude.{
  ◌≡◌, refl, sym, ◌∙◌, ap, Bool, true, false, Option, none, some, any, inl, inr, Option-cases,
  if◌then◌else◌,
}
use mathlib.Core.Path.{subst}
use wstunnel.Reload.{
  is_change, find-any, EventKind, any_event, access, create, modify, remove, other, FsEvent,
  is_access, by_kind,
}
use wstunnel.Reload.Certs.{
  Watched, TlsReloader, Loaders, store_ca, store_key, store_certificate, on_file, on_certificate,
  on_key, on_client_ca, handle_server_fs_event, waits,
}
use wstunnel.Reload.CertsLaws.{on_file_lem}

by_kind-is_change :
    {S : Type 0} (k : EventKind) (changed removed same : S)
    → is_change k ≡ true
    → by_kind k changed removed same ≡ changed
unfolding by_kind
by_kind-is_change create changed removed same e = refl
by_kind-is_change modify changed removed same e = refl
by_kind-is_change remove changed removed same e = cc
by_kind-is_change access changed removed same e = cc
by_kind-is_change other changed removed same e = cc
by_kind-is_change any_event changed removed same e = cc

is_access-is_change : (k : EventKind) → is_change k ≡ true → is_access k ≡ false
unfolding is_access
is_access-is_change create e = refl
is_access-is_change modify e = refl
is_access-is_change remove e = cc
is_access-is_change access e = cc
is_access-is_change other e = cc
is_access-is_change any_event e = cc

module _ {P C K : Type 0} (ends_with : P → P → Bool) (loaders : Loaders P C K) where
  abbrev Reports : P → FsEvent P → Type 0
  Reports target e = (is_change e.kind ≡ true) × (any (λ p. ends_with p target) e.paths ≡ true)

  on_file-Reports :
      {X : Type 0} (target : P) (x : X) (content : Option X)
      (store : X → TlsReloader P C K → TlsReloader P C K) (e : FsEvent P) (this : TlsReloader P C K)
      → Reports target e
      → content ≡ some x
      → on_file ends_with loaders target content store e this ≡ store x this
  on_file-Reports target x content store e this (k, named) loads =
      let (p, f) = find-any (λ q. ends_with q target) e.paths named in
      rw (on_file, f, loads) (by_kind-is_change e.kind _ _ _ k)

  -- The steps for the other files keep the certificate.
  on_key-tls_certificate :
      (path : P) (e : FsEvent P) (this : TlsReloader P C K)
      → (on_key ends_with loaders path e this).config.tls_certificate ≡ this.config.tls_certificate
  unfolding on_key
  on_key-tls_certificate path e this =
      on_file_lem ends_with loaders
        (λ (t : TlsReloader P C K). t.config.tls_certificate ≡ this.config.tls_certificate) path
        (loaders.load_key path) store_key e this refl (λ p. refl) (λ key. refl)

  module _ {X : Type 0} (read : TlsReloader P C K → X) where
    -- What a reloader has that neither a thread nor the authorities change.
    abbrev Apart : Type 0
    Apart =
        ((path : P) (t : TlsReloader P C K) → read (waits path t) ≡ read t)
        × ((certs : C) (t : TlsReloader P C K) → read (store_ca certs t) ≡ read t)

    on_client_ca-Apart :
        Apart
        → (o : Option P) (e : FsEvent P) (this : TlsReloader P C K)
        → read (on_client_ca ends_with loaders o e this) ≡ read this
    unfolding on_client_ca
    on_client_ca-Apart (w, s) none e this = refl
    on_client_ca-Apart (w, s) (some path) e this =
        on_file_lem ends_with loaders (λ t. read t ≡ read this) path (loaders.load_certs path)
          store_ca e this refl (λ p. w p this) (λ certs. s certs this)

store_ca_keeps :
    {P C K : Type 0} (certs : C) (t : TlsReloader P C K)
    → ((store_ca certs t).config.tls_certificate ≡ t.config.tls_certificate)
      × ((store_ca certs t).config.tls_key ≡ t.config.tls_key)
unfolding store_ca
store_ca_keeps certs t = elim (Option-cases t.config.tls_client_ca_certificates) [
  | inl e ↦ rw (store_ca, e) (refl, refl)
  | inr (old, e) ↦ rw (store_ca, e) (refl, refl)
]

module _ {P C K : Type 0} (ends_with : P → P → Bool) (loaders : Loaders P C K) where
  handled :
      (e : FsEvent P) (w : Watched P) (this : TlsReloader P C K)
      → this.watched ≡ some w
      → is_access e.kind ≡ false
      → handle_server_fs_event ends_with loaders (some e) this
        ≡ on_client_ca ends_with loaders w.client_ca_path e (
            on_key ends_with loaders w.key_path e
              (on_certificate ends_with loaders w.cert_path e this))
  unfolding handle_server_fs_event
  handled e w this own n =
      subst
        (λ o.
          (elim o [
            | none ↦ this
            | some v ↦
                if is_access e.kind
                then this
                else on_client_ca ends_with loaders v.client_ca_path e (
                    on_key ends_with loaders v.key_path e
                      (on_certificate ends_with loaders v.cert_path e this))
          ])
          ≡ on_client_ca ends_with loaders w.client_ca_path e (
              on_key ends_with loaders w.key_path e
                (on_certificate ends_with loaders w.cert_path e this)))
        (sym own) (rw n refl)

  -- After a reported change of a file that loads, the certificate or the key in memory is that of the
  -- file.
  pub handle_server_fs_event-config :
      (e : FsEvent P) (w : Watched P) (this : TlsReloader P C K)
      → this.watched ≡ some w
      → is_change e.kind ≡ true
      → let next = (handle_server_fs_event ends_with loaders (some e) this).config in
        ((c : C)
          → any (λ p. ends_with p w.cert_path) e.paths ≡ true
          → loaders.load_certs w.cert_path ≡ some c
          → next.tls_certificate ≡ c)
        × ((k : K)
            → any (λ p. ends_with p w.key_path) e.paths ≡ true
            → loaders.load_key w.key_path ≡ some k
            → next.tls_key ≡ k)
  unfolding on_certificate on_key
  handle_server_fs_event-config e w this own change =
      let seen = handled e w this own (is_access-is_change e.kind change) in
      let first = on_certificate ends_with loaders w.cert_path e this in
      let second = on_key ends_with loaders w.key_path e first in
      (
        λ c named loads.
            ap (λ (t : TlsReloader P C K). t.config.tls_certificate) seen
            ∙ on_client_ca-Apart ends_with loaders (λ t. t.config.tls_certificate)
                (λ p t. refl, λ certs t. (store_ca_keeps certs t).0) w.client_ca_path e second
            ∙ on_key-tls_certificate ends_with loaders w.key_path e first
            ∙ ap (λ (t : TlsReloader P C K). t.config.tls_certificate)
                (on_file-Reports ends_with loaders w.cert_path c (loaders.load_certs w.cert_path)
                  store_certificate e this (change, named) loads),
        λ k named loads.
            ap (λ (t : TlsReloader P C K). t.config.tls_key) seen
            ∙ on_client_ca-Apart ends_with loaders (λ t. t.config.tls_key)
                (λ p t. refl, λ certs t. (store_ca_keeps certs t).1) w.client_ca_path e second
            ∙ ap (λ (t : TlsReloader P C K). t.config.tls_key)
                (on_file-Reports ends_with loaders w.key_path k (loaders.load_key w.key_path)
                  store_key e first (change, named) loads),
      )
