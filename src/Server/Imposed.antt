-- ===== src/Server/Imposed.antt =====
-- The path that a client's certificates impose: `find_leaf_certificate` and `cn_from_certificate` of
-- wstunnel/src/protocols/tls/utils.rs.
use wstunnel.Prelude.{
  ◌≡◌, refl, sym, ◌∙◌, ap, ◌⊎◌, inl, inr, true, false, not, Option, none, some, List, [], ◌∷◌, ◌++◌,
  All, Bool-cases, find_map, and_then, if◌then◌else◌, Text,
}
use wstunnel.Server.Connections.{
  X509, Connection, over_tls, plain, restrict_path_of, find_leaf_certificate, cn_from_certificate,
}

-- The path that the certificate of a connection imposes.
abbrev pub restricted_path : {D X : Type 0} → X509 D X → Connection D → Option Text
restricted_path x509 (over_tls none) = none
restricted_path x509 (over_tls (some session)) = restrict_path_of x509 session
restricted_path x509 plain = none

module _ {D X : Type 0} (x509 : X509 D X) where
  -- A certificate that is no client's: it cannot be read, or is an authority's.
  abbrev pub NoLeaf : D → Type 0
  NoLeaf d = (x : X) → x509.parse d ≡ some x → x509.is_ca x ≡ true

  -- The first certificate that can be read and is no authority's.
  abbrev pub LeafIs : List D → X → Type 0
  LeafIs certs x =
      (before : List D) × (d : D) × (after : List D) × (certs ≡ before ++ (d ∷ after))
      × All NoLeaf before
      × (x509.parse d ≡ some x)
      × (x509.is_ca x ≡ false)

  -- The first of the common names that is a text.
  abbrev pub NameIs : X → Text → Type 0
  NameIs x name =
      (before : List (Option Text)) × (after : List (Option Text)) × (x509.common_names x
        ≡ before ++ (some name ∷ after))
      × All (λ o. o ≡ none) before

  -- The client's certificates name this path.
  abbrev pub Imposes : List D → Text → Type 0
  Imposes certs path = (x : X) × LeafIs certs x × NameIs x path

  -- They name none: there is no client's certificate, or it has no name that is a text.
  abbrev pub ImposesNone : List D → Type 0
  ImposesNone certs =
      All NoLeaf certs ⊎ ((x : X) × LeafIs certs x × All (λ o. o ≡ none) (x509.common_names x))

  abbrev pub ImposedBy : List D → Option Text → Type 0
  ImposedBy certs none = ImposesNone certs
  ImposedBy certs (some path) = Imposes certs path

  abbrev pub ImposedIn : Option (List D) → Option Text → Type 0
  ImposedIn none restrict = restrict ≡ none
  ImposedIn (some certs) restrict = ImposedBy certs restrict

  -- What the certificates of a connection impose; without any there is no path.
  abbrev pub Imposed : Connection D → Option Text → Type 0
  Imposed plain restrict = restrict ≡ none
  Imposed (over_tls none) restrict = restrict ≡ none
  Imposed (over_tls (some session)) restrict = ImposedIn session.peer_certificates restrict

  abbrev LeafFound : List D → Option X → Type 0
  LeafFound certs none = All NoLeaf certs
  LeafFound certs (some x) = LeafIs certs x

  leaf_later :
      (d : D) (ds : List D) (o : Option X) → NoLeaf d → LeafFound ds o → LeafFound (d ∷ ds) o
  leaf_later d ds none skipped h = (skipped, h)
  leaf_later d ds (some x) skipped (before, c, after, same, others, read, leaf) =
      (d ∷ before, c, after, ap (λ t. d ∷ t) same, (skipped, others), read, leaf)

  find_leaf_certificate-LeafFound :
      (certs : List D) → LeafFound certs (find_leaf_certificate x509 certs)
  unfolding find_leaf_certificate
  find_leaf_certificate-LeafFound [] = tt
  find_leaf_certificate-LeafFound (d ∷ ds) =
      read (x509.parse d) refl (find_leaf_certificate-LeafFound ds)
    where
      read :
          (o : Option X)
          → x509.parse d ≡ o
          → LeafFound ds (find_leaf_certificate x509 ds)
          → LeafFound (d ∷ ds) (elim o [
            | none ↦ find_leaf_certificate x509 ds
            | some x ↦ if not (x509.is_ca x) then some x else find_leaf_certificate x509 ds
          ])
      read none e h = leaf_later d ds _ (λ x e'. let clash = sym e ∙ e' in cc) h
      read (some x) e h = elim (Bool-cases (x509.is_ca x)) [
        | inl ca ↦ rw ca (leaf_later d ds _ (authority x e ca) h)
        | inr leaf ↦ rw leaf ([], d, ds, refl, tt, e, leaf)
      ]
        where
          authority : (x : X) → x509.parse d ≡ some x → x509.is_ca x ≡ true → NoLeaf d
          authority x e ca y e' = let same : y ≡ x = cc in ap x509.is_ca same ∙ ca

  abbrev NameFound : List (Option Text) → Option Text → Type 0
  NameFound names none = All (λ o. o ≡ none) names
  NameFound names (some name) =
      (before : List (Option Text)) × (after : List (Option Text)) × (names
        ≡ before ++ (some name ∷ after))
      × All (λ o. o ≡ none) before

  name_later :
      (names : List (Option Text)) (o : Option Text)
      → NameFound names o
      → NameFound (none ∷ names) o
  name_later names none h = (refl, h)
  name_later names (some name) (before, after, same, others) =
      (none ∷ before, after, ap (λ t. none ∷ t) same, (refl, others))

  find_map-NameFound :
      (names : List (Option Text)) → NameFound names (find_map (λ name. name) names)
  find_map-NameFound [] = tt
  find_map-NameFound (none ∷ names) = name_later names _ (find_map-NameFound names)
  find_map-NameFound (some name ∷ names) = ([], names, refl, tt)

  named-ImposedBy :
      (certs : List D) (leaf : Option X)
      → LeafFound certs leaf
      → ImposedBy certs (and_then leaf (cn_from_certificate x509))
  unfolding cn_from_certificate
  named-ImposedBy certs none h = inl h
  named-ImposedBy certs (some x) h =
      named (find_map (λ name. name) (x509.common_names x))
        (find_map-NameFound (x509.common_names x))
    where
      named : (o : Option Text) → NameFound (x509.common_names x) o → ImposedBy certs o
      named none all_none = inr (x, h, all_none)
      named (some name) first = (x, h, first)

  pub restricted_path-Imposed : (c : Connection D) → Imposed c (restricted_path x509 c)
  unfolding restrict_path_of
  restricted_path-Imposed plain = refl
  restricted_path-Imposed (over_tls none) = refl
  restricted_path-Imposed (over_tls (some session)) = of_certificates session.peer_certificates
    where
      of_certificates :
          (o : Option (List D))
          → ImposedIn o
              (and_then (and_then o (find_leaf_certificate x509)) (cn_from_certificate x509))
      of_certificates none = refl
      of_certificates (some certs) = named-ImposedBy certs _ (find_leaf_certificate-LeafFound certs)
