-- ===== src/Access/Prefix.antt =====
-- The path prefix of an upgrade request: `extract_path_prefix` of
-- wstunnel/src/tunnel/server/utils.rs, and the path that the client writes in
-- wstunnel/src/tunnel/transport/websocket.rs.
use wstunnel.Prelude.{
  ◌≡◌, refl, sym, ap, ◌↔◌, inl, inr, true, [], ◌∷◌, ◌++◌, Text, codes, text_eq, text_eq_iff,
  text_eq_self, ends_with, split_once_char, split_once_char_lem, split_once_char_sound, Lacks,
  arith, Bool-cases, Option-cases, if◌then◌else◌, ◌==◌,
}
use mathlib.Core.Path.{subst}
use mathlib.Core.List.{append_assoc}
use wstunnel.Prelude.Results.{Result, ok, err, ◌>>=◌, ok_or}

pub data PathPrefixErr : Type 0 where
  bad_path_prefix bad_upgrade_request : PathPrefixErr

abbrev pub events : Text
events = codes "events"

unfoldable pub extract_path_prefix : Text → Result PathPrefixErr Text
extract_path_prefix [] = err bad_path_prefix
extract_path_prefix (c ∷ rest) =
    if c == b'/'
    then (do
      parts ← ok_or (split_once_char b'/' rest) bad_upgrade_request
      if ends_with parts.1 events then ok parts.0 else err bad_upgrade_request)
    else err bad_path_prefix

-- `format!("/{}/events", http_upgrade_path_prefix)`.
unfoldable pub upgrade_path : Text → Text
upgrade_path prefix = b'/' ∷ (prefix ++ (b'/' ∷ events))

abbrev pub EndsWith : Text → Text → Type 0
EndsWith s pat = (before : Text) × (s ≡ before ++ pat)

ends_with_sound : (s pat : Text) → ends_with s pat ≡ true → EndsWith s pat
ends_with_sound [] pat e = ([], (text_eq_iff [] pat).0 e)
ends_with_sound (c ∷ s) pat e = elim (Bool-cases (text_eq (c ∷ s) pat)) [
  | inl y ↦ ([], (text_eq_iff (c ∷ s) pat).0 y)
  | inr n ↦
      let (before, same) = ends_with_sound s pat (ground arith) in (c ∷ before, ap (◌∷◌ c) same)
]

ends_with_complete : (before pat : Text) → ends_with (before ++ pat) pat ≡ true
ends_with_complete [] [] = refl
ends_with_complete [] (p ∷ pat) = ground (arith, text_eq_self (p ∷ pat))
ends_with_complete (c ∷ before) pat = ground (arith, ends_with_complete before pat)

-- The path is `/`, the prefix without a slash, `/`, and something that ends in `events`.
abbrev pub IsUpgradePath : Text → Text → Type 0
IsUpgradePath path prefix =
    (r : Text) × (path ≡ b'/' ∷ (prefix ++ b'/' ∷ r)) × Lacks b'/' prefix × EndsWith r events

extract_sound :
    (path prefix : Text) → extract_path_prefix path ≡ ok prefix → IsUpgradePath path prefix
unfolding extract_path_prefix
extract_sound [] prefix e = cc
extract_sound (c ∷ rest) prefix e = elim (Option-cases (split_once_char b'/' rest)) [
  | inl missed ↦ ground arith
  | inr ((l, r), found) ↦
      let (whole, lacks) = split_once_char_sound b'/' rest l r found in
      let same : l ≡ prefix = ground arith in
      (r, ground arith, subst (Lacks b'/') same lacks, ends_with_sound r events (ground arith))
]

extract_complete :
    (path prefix r : Text)
    → path ≡ b'/' ∷ (prefix ++ b'/' ∷ r)
    → Lacks b'/' prefix
    → EndsWith r events
    → extract_path_prefix path ≡ ok prefix
unfolding extract_path_prefix
extract_complete path prefix r whole lacks (before, ends) =
    rw (whole, split_once_char_lem b'/' prefix r lacks, ends, ends_with_complete before events)

-- The server takes the prefix `prefix` from a path exactly when the path is `/`, the prefix without
-- any slash, `/`, and a text that ends in `events`.
pub extract_path_prefix_iff :
    (path prefix : Text) → (extract_path_prefix path ≡ ok prefix) ↔ IsUpgradePath path prefix
extract_path_prefix_iff path prefix = (
  extract_sound path prefix,
  λ (r, whole, lacks, ends). extract_complete path prefix r whole lacks ends,
)

-- The server reads from a client's upgrade path what stands before the first slash of the client's
-- prefix, whatever follows it.
pub extract_path_prefix-upgrade_path_slash :
    (first more : Text)
    → Lacks b'/' first
    → extract_path_prefix (upgrade_path (first ++ b'/' ∷ more)) ≡ ok first
unfolding upgrade_path
extract_path_prefix-upgrade_path_slash first more h =
    extract_complete _ first (more ++ b'/' ∷ events)
      (ap (◌∷◌ b'/') (append_assoc first (b'/' ∷ more) (b'/' ∷ events))) h
      (more ++ b'/' ∷ [], sym (append_assoc more (b'/' ∷ []) events))

-- A prefix without a slash, as the client writes it, is what the server reads.
pub extract_path_prefix-upgrade_path :
    (prefix : Text) → Lacks b'/' prefix → extract_path_prefix (upgrade_path prefix) ≡ ok prefix
unfolding upgrade_path
extract_path_prefix-upgrade_path prefix h = extract_complete _ prefix events refl h ([], refl)
