-- ===== src/Registry/Offers.antt =====
-- What the watcher offers: entries that a client can be sent to.
use wstunnel.Prelude.{
  ℕ, trim, text_keys, ◌≡◌, refl, sym, ◌∙◌, inl, inr, true, false, Option, none, some, List, [], ◌∷◌,
  Text, is_empty, lookup, nat_eq, ◌==◌, Bool-cases, or_else, and_then, arith, parse_u16, min, Bool,
  ◌||◌, not, codes,
}
use mathlib.Core.Path.{subst}
use mathlib.Core.Option
use wstunnel.Resolver.Laws.{RateAtMost}
use wstunnel.Registry.{
  is_running, TunnelEntry, Pod, is_down, pod_ip_of, entry_of, parse_rate_limit, max_rate_limit_m,
  WatchEvent, applied, watch_error, tunnel_id, watch_pods,
}
use wstunnel.Registry.Latest.{
  Word, silence, gone, here, says_of, says, heard, latest, lookup-watch_pods,
}

here_cancel : {a b : TunnelEntry} → here a ≡ here b → a ≡ b
here_cancel e = cc

-- An entry that a client can be sent to: an address, and rates of at most 10 MiB/s.
abbrev pub Usable : TunnelEntry → Type 0
Usable e =
    (is_empty e.host ≡ false)
    × RateAtMost 10 e.rate_limit_upload_m
    × RateAtMost 10 e.rate_limit_download_m

-- Every entry of the map is usable.
abbrev AllUsable : Option TunnelEntry → Type 0
AllUsable none = Unit
AllUsable (some e) = Usable e

parse_rate_limit_bound : (v : Option Text) → RateAtMost 10 (parse_rate_limit v)
unfolding parse_rate_limit
parse_rate_limit_bound v = capped (and_then v (λ s. parse_u16 (trim s)))
  where
    capped : (o : Option ℕ) → RateAtMost 10 (Option.map (λ n. min n max_rate_limit_m) o)
    capped none = tt
    capped (some n) = omega arith

or_else_bound : (a b : Option ℕ) → RateAtMost 10 a → RateAtMost 10 b → RateAtMost 10 (or_else a b)
or_else_bound none b ha hb = hb
or_else_bound (some n) b ha hb = ha

-- The rate of one direction, from its own annotation or from the older one for both.
direction_bound :
    (annotations : List (Text × Text)) (key legacy : Text)
    → RateAtMost 10 (
        or_else
          (parse_rate_limit (lookup key annotations))
          (parse_rate_limit (lookup legacy annotations)))
direction_bound annotations key legacy =
    or_else_bound (parse_rate_limit (lookup key annotations))
      (parse_rate_limit (lookup legacy annotations))
      (parse_rate_limit_bound (lookup key annotations))
      (parse_rate_limit_bound (lookup legacy annotations))

first_false : (a b c : Bool) → (a || b || c) ≡ false → a ≡ false
first_false false b c e = refl
first_false true b c e = cc

entry_of-Usable :
    (pod : Pod) (annotations : List (Text × Text))
    → is_down pod ≡ false
    → Usable (entry_of pod annotations)
unfolding entry_of
entry_of-Usable pod annotations up = (
  first_false (is_empty (pod_ip_of pod)) (not (is_running pod)) pod.deletion_timestamp up,
  direction_bound annotations (codes "wstunnel.io/tunnel-rate-limit-upload")
      (codes "wstunnel.io/tunnel-rate-limit"),
  direction_bound annotations (codes "wstunnel.io/tunnel-rate-limit-download")
      (codes "wstunnel.io/tunnel-rate-limit"),
)

heard-Usable :
    (w : Word) (before : Option TunnelEntry)
    → ((e : TunnelEntry) → w ≡ here e → Usable e)
    → AllUsable before
    → AllUsable (heard w before)
heard-Usable silence before h b = b
heard-Usable gone before h b = tt
heard-Usable (here e) before h b = h e refl

module _ (parse_id : Text → Option ℕ) where
  says_of-Usable :
      (pod : Pod) (annotations : List (Text × Text)) (named : Option ℕ) (id : ℕ) (e : TunnelEntry)
      → says_of parse_id pod annotations named id ≡ here e
      → Usable e
  says_of-Usable pod annotations none id e h = cc
  says_of-Usable pod annotations (some named) id e h = elim (Bool-cases (named == id)) [
    | inl same ↦ elim (Bool-cases (is_down pod)) [
      | inl down ↦ let h' = rw (same, down) at h in cc
      | inr up ↦
          subst Usable (here_cancel (rw (same, up) at h)) (entry_of-Usable pod annotations up)
    ]
    | inr other ↦ let h' = rw other at h in cc
  ]

  says-Usable :
      (annotations : Option (List (Text × Text))) (pod : Pod) (id : ℕ) (e : TunnelEntry)
      → says parse_id annotations pod id ≡ here e
      → Usable e
  says-Usable none pod id e h = cc
  says-Usable (some annotations) pod id e h =
      says_of-Usable pod annotations (tunnel_id parse_id annotations) id e h

  latest-Usable :
      (id : ℕ) (events : List WatchEvent) (before : Option TunnelEntry)
      → AllUsable before
      → AllUsable (latest parse_id id events before)
  latest-Usable id [] before b = b
  latest-Usable id (applied pod ∷ events) before b = latest-Usable id events _ (
      heard-Usable (says parse_id pod.annotations pod id) before
        (says-Usable pod.annotations pod id) b)
  latest-Usable id (watch_error ∷ events) before b = latest-Usable id events before b

  -- Whatever the pods and their annotations, every entry that the watcher ever offers has an
  -- address, and rates of at most 10 MiB/s.
  pub watch_pods-Usable :
      (events : List WatchEvent) (id : ℕ) (e : TunnelEntry)
      → lookup id (watch_pods parse_id events []) ≡ some e
      → Usable e
  unfolding lookup
  watch_pods-Usable events id e h =
      subst AllUsable (sym (lookup-watch_pods parse_id events [] id) ∙ h)
        (latest-Usable id events none tt)
