-- ===== src/Registry/Latest.antt =====
-- The map of tunnels as the latest word on each id.
use wstunnel.Prelude.{
  ℕ, text_keys, ◌≡◌, refl, ◌∙◌, inl, inr, Option, none, some, List, [], ◌∷◌, Text, lookup,
  lookup-insert, lookup-remove, nat_eq, ◌==◌, Bool-cases, if◌then◌else◌,
}
use wstunnel.Registry.{
  TunnelEntry, Tunnels, Pod, is_down, entry_of, WatchEvent, applied, watch_error, tunnel_id, upsert,
  handle_pod_event, watch_pods,
}

-- What is said of an id: nothing, that it is down, or where it is.
pub data Word : Type 0 where
  silence : Word
  gone : Word
  here : TunnelEntry → Word

module _ (parse_id : Text → Option ℕ) where
  abbrev pub says_of : Pod → List (Text × Text) → Option ℕ → ℕ → Word
  says_of pod annotations none id = silence
  says_of pod annotations (some named) id =
      if named == id
      then (if is_down pod then gone else here (entry_of pod annotations))
      else silence

  abbrev pub says : Option (List (Text × Text)) → Pod → ℕ → Word
  says none pod id = silence
  says (some annotations) pod id = says_of pod annotations (tunnel_id parse_id annotations) id

-- What the map holds after a word.
abbrev pub heard : Word → Option TunnelEntry → Option TunnelEntry
heard silence before = before
heard gone before = none
heard (here entry) before = some entry

module _ (parse_id : Text → Option ℕ) where
  -- The last word of the events on an id, over what stood before.
  abbrev pub latest : ℕ → List WatchEvent → Option TunnelEntry → Option TunnelEntry
  latest id [] before = before
  latest id (applied pod ∷ events) before =
      latest id events (heard (says parse_id pod.annotations pod id) before)
  latest id (watch_error ∷ events) before = latest id events before

  lookup-upsert :
      (map : Tunnels) (pod : Pod) (annotations : List (Text × Text)) (named : Option ℕ) (id : ℕ)
      → lookup id (upsert parse_id map pod annotations named)
        ≡ heard (says_of parse_id pod annotations named id) (lookup id map)
  unfolding upsert
  lookup-upsert map pod annotations none id = refl
  lookup-upsert map pod annotations (some named) id = elim (Bool-cases (is_down pod)) [
    | inl down ↦ elim (Bool-cases (named == id)) [
      | inl same ↦ rw (down, same) (lookup-remove named id map ∙ rw same refl)
      | inr other ↦ rw (down, other) (lookup-remove named id map ∙ rw other refl)
    ]
    | inr up ↦ elim (Bool-cases (named == id)) [
      | inl same ↦
          rw (up, same) (lookup-insert named id (entry_of pod annotations) map ∙ rw same refl)
      | inr other ↦
          rw (up, other) (lookup-insert named id (entry_of pod annotations) map ∙ rw other refl)
    ]
  ]

  lookup-handle_pod_event :
      (map : Tunnels) (annotations : Option (List (Text × Text))) (pod : Pod) (id : ℕ)
      → lookup id (handle_pod_event parse_id map annotations pod)
        ≡ heard (says parse_id annotations pod id) (lookup id map)
  unfolding handle_pod_event
  lookup-handle_pod_event map none pod id = refl
  lookup-handle_pod_event map (some annotations) pod id =
      lookup-upsert map pod annotations (tunnel_id parse_id annotations) id

  -- After any events, the map has for a tunnel id what the last event that names this id says: the
  -- entry of that pod if it runs, has an address and is not being deleted, and nothing if not; an id
  -- that no event names keeps what it had. Errors, pods without an id and other ids change nothing.
  pub lookup-watch_pods :
      (events : List WatchEvent) (map : Tunnels) (id : ℕ)
      → lookup id (watch_pods parse_id events map) ≡ latest id events (lookup id map)
  unfolding watch_pods
  lookup-watch_pods [] map id = refl
  lookup-watch_pods (applied pod ∷ events) map id = rw (
    lookup-watch_pods events (handle_pod_event parse_id map pod.annotations pod) id,
    lookup-handle_pod_event map pod.annotations pod id,
  )
  lookup-watch_pods (watch_error ∷ events) map id = lookup-watch_pods events map id
