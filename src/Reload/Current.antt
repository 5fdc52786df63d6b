-- ===== src/Reload/Current.antt =====
-- The rules of a reloader are those of its file.
use wstunnel.Prelude.{
  ℕ, ◌≡◌, refl, sym, ◌∙◌, ◌⊎◌, inl, inr, Bool, true, Option, some, some_cancel, List, All, Exists,
  any, Bool-cases, get_elem?, remove_at, arith, All-get_elem,
}
use mathlib.Core.Path.{subst}
use wstunnel.Reload.{
  is_change, find-any, EventKind, any_event, access, create, modify, remove, other, FsEvent,
  is_access, by_kind, try_rewatch, created,
}
use wstunnel.Reload.Rules.{
  RulesReloader, new_reloader, Happening, event, wakes, Moment, reload_restrictions_config,
  on_config_event, handle_config_fs_event, try_rewatch_config, happen, run,
}
use wstunnel.Reload.RulesLaws.{
  WaitsFor, run-restrictions_from, run-keeps, happen-WaitsFor, run-WaitsFor,
}

-- A change of the watched file that the watcher reports, or a thread whose file is back and watched.
abbrev pub Noticed : {P R : Type 0} → (P → P → Bool) → P → RulesReloader P R → Happening P → Type 0
Noticed {P} ends_with config r h =
    ((e : FsEvent P) × (h ≡ event (some e))
      × (is_change e.kind ≡ true)
      × (any (λ p. ends_with p config) e.paths ≡ true))
    ⊎ ((i : ℕ) × (p : P) × (h ≡ wakes (record { index = i; exists = true; watched = true }))
        × (get_elem? r.waiting i ≡ some p))

module _ {P R : Type 0} (ends_with : P → P → Bool) (config : P) where
  created-WaitsFor :
      (watchable : P → Bool) (rules : R) (r : RulesReloader P R)
      → new_reloader watchable rules (some config) ≡ some r
      → WaitsFor ends_with config r × (r.restrictions ≡ rules)
  unfolding new_reloader
  created-WaitsFor watchable rules r e = elim (Bool-cases (watchable config)) [
    | inl y ↦
        subst (λ s. WaitsFor ends_with config s × (s.restrictions ≡ rules))
          (some_cancel (rw y at e)) ((refl, tt), refl)
    | inr n ↦ let e' = rw n at e in cc
  ]

  changed_file :
      (from : P → Option R) (rules old : R) (k : EventKind) (ps waiting : List P)
      → is_change k ≡ true
      → any (λ p. ends_with p config) ps ≡ true
      → from config ≡ some rules
      → (handle_config_fs_event ends_with from (some (record { kind = k; paths = ps })) (record {
        config_path = some config;
        restrictions = old;
        waiting = waiting;
      })).restrictions
        ≡ rules
  unfolding handle_config_fs_event on_config_event reload_restrictions_config by_kind is_access
  changed_file from rules old create ps waiting k named valid =
      let (p, f) = find-any (λ q. ends_with q config) ps named in
      rw (on_config_event, f, reload_restrictions_config, valid) refl
  changed_file from rules old modify ps waiting k named valid =
      let (p, f) = find-any (λ q. ends_with q config) ps named in
      rw (on_config_event, f, reload_restrictions_config, valid) refl
  changed_file from rules old remove ps waiting k named valid = cc
  changed_file from rules old access ps waiting k named valid = cc
  changed_file from rules old other ps waiting k named valid = cc
  changed_file from rules old any_event ps waiting k named valid = cc

  changed :
      (from : P → Option R) (rules : R) (e : FsEvent P) (r : RulesReloader P R)
      → r.config_path ≡ some config
      → is_change e.kind ≡ true
      → any (λ p. ends_with p config) e.paths ≡ true
      → from config ≡ some rules
      → (handle_config_fs_event ends_with from (some e) r).restrictions ≡ rules
  changed from rules e r c k named valid =
      subst
        (λ o.
          (handle_config_fs_event ends_with from (some e) (record {
            config_path = o;
            restrictions = r.restrictions;
            waiting = r.waiting;
          })).restrictions
          ≡ rules)
        (sym c) (changed_file from rules r.restrictions e.kind e.paths r.waiting k named valid)

  happen-Noticed :
      (from : P → Option R) (rules : R) (h : Happening P) (r : RulesReloader P R)
      → WaitsFor ends_with config r
      → Noticed ends_with config r h
      → from config ≡ some rules
      → (happen ends_with from h r).restrictions ≡ rules
  unfolding happen try_rewatch_config try_rewatch
  happen-Noticed from rules h r (c, w) (inl (e, same, k, named)) valid =
      rw same (changed from rules e r c k named valid)
  happen-Noticed from rules h r (c, w) (inr (i, p, same, there)) valid =
      rw (same, try_rewatch, there)
        (changed from rules (created p) (record r { waiting = remove_at i r.waiting }) c refl
          (ground (arith, All-get_elem (λ q. ends_with q config ≡ true) r.waiting i w there)) valid)

  -- Rules other than the initial ones were read from the file at some moment, and were valid.
  pub run-restrictions :
      (watchable : P → Bool) (rules : R) (ms : List (Moment P R)) {r : RulesReloader P R}
      → new_reloader watchable rules (some config) ≡ some r
      → ((run ends_with ms r).restrictions ≡ rules)
        ⊎ Exists (λ m. m.from_config_file config ≡ some (run ends_with ms r).restrictions) ms
  run-restrictions watchable rules ms {r} e =
      let ((c, w), initial) = created-WaitsFor watchable rules r e in
      elim (run-restrictions_from ends_with config ms r c) [
        | inl same ↦ inl (same ∙ initial)
        | inr read ↦ inr read
      ]

  -- Once a reloader notices a change of its file, or that it is back, the rules are those of the file
  -- for as long as the file keeps them, whatever happens to it before and after.
  pub run-current :
      (watchable : P → Bool) (rules current : R) (before after : List (Moment P R))
      (from : P → Option R) (h : Happening P) {r : RulesReloader P R}
      → new_reloader watchable rules (some config) ≡ some r
      → Noticed ends_with config (run ends_with before r) h
      → from config ≡ some current
      → All (λ m. m.from_config_file config ≡ some current) after
      → (run ends_with after (happen ends_with from h (run ends_with before r))).restrictions
        ≡ current
  run-current watchable rules current before after from h {r} e noticed valid kept =
      let (fresh, initial) = created-WaitsFor watchable rules r e in
      let now = run ends_with before r in
      let waits = run-WaitsFor ends_with config before r fresh in
      run-keeps ends_with config current after (happen ends_with from h now) kept
        (happen-WaitsFor ends_with config from h now waits).0
        (happen-Noticed from current h now waits noticed valid)
