-- ===== src/Reload/RulesLaws.antt =====
-- The rules in force and the contents of their file.
use wstunnel.Prelude.{
  ℕ, ◌≡◌, refl, sym, ◌∙◌, ap, ◌⊎◌, inl, inr, Bool, true, Option, none, some, some_cancel, List, [],
  ◌∷◌, ◌++◌, find, All, Exists, All-append, All-remove_at, Option-cases, Bool-cases, remove_at,
}
use wstunnel.Reload.{FsEvent, is_access, try_rewatch_lem, by_kind_lem, created}
use wstunnel.Reload.Rules.{
  RulesReloader, Happening, event, wakes, Moment, reload_restrictions_config, on_config_event,
  handle_config_fs_event, try_rewatch_config, happen, run,
}

-- What the search finds passes the test.
find_sound : {A : Type 0} (p : A → Bool) (xs : List A) {a : A} → find p xs ≡ some a → p a ≡ true
find_sound p [] e = cc
find_sound p (x ∷ xs) {a} e = elim (Bool-cases (p x)) [
  | inl y ↦ sym (ap p (some_cancel (rw y at e))) ∙ y
  | inr n ↦ find_sound p xs (rw n at e)
]

-- The threads wait for paths of the watched file.
abbrev pub WaitsFor : {P R : Type 0} → (P → P → Bool) → P → RulesReloader P R → Type 0
WaitsFor ends_with config r =
    (r.config_path ≡ some config) × All (λ p. ends_with p config ≡ true) r.waiting

module _ {P R : Type 0} (ends_with : P → P → Bool) where
  -- What an event leaves is the reloader as it was, with the rules of the file, or with one more
  -- thread that waits for a path of the file: a family that has these has what the handler leaves.
  module _ (from : P → Option R) (C : RulesReloader P R → Type 0) where
    abbrev Reloads : RulesReloader P R → Type 0
    Reloads r =
        (config : P) (x : R)
        → r.config_path ≡ some config
        → from config ≡ some x
        → C (record r { restrictions = x })

    abbrev Waits : RulesReloader P R → Type 0
    Waits r =
        (config p : P)
        → r.config_path ≡ some config
        → ends_with p config ≡ true
        → C (record r { waiting = r.waiting ++ (p ∷ []) })

    reload_restrictions_config_lem :
        (o : Option P) (rules : R) (ps : List P)
        → C (record { config_path = o; restrictions = rules; waiting = ps })
        → Reloads (record { config_path = o; restrictions = rules; waiting = ps })
        → C (
            reload_restrictions_config ends_with from
              (record { config_path = o; restrictions = rules; waiting = ps }))
    unfolding reload_restrictions_config
    reload_restrictions_config_lem none rules ps c reloads = c
    reload_restrictions_config_lem (some config) rules ps c reloads =
        elim (Option-cases (from config)) [
          | inl e ↦ rw (reload_restrictions_config, e) c
          | inr (x, e) ↦ rw (reload_restrictions_config, e) (reloads config x refl e)
        ]

    handle_config_fs_event_lem :
        (e : FsEvent P) (o : Option P) (rules : R) (ps : List P)
        → C (record { config_path = o; restrictions = rules; waiting = ps })
        → Reloads (record { config_path = o; restrictions = rules; waiting = ps })
        → Waits (record { config_path = o; restrictions = rules; waiting = ps })
        → C (
            handle_config_fs_event ends_with from
              (some e)
              (record { config_path = o; restrictions = rules; waiting = ps }))
    unfolding handle_config_fs_event on_config_event
    handle_config_fs_event_lem e none rules ps c reloads waits = c
    handle_config_fs_event_lem e (some config) rules ps c reloads waits =
        elim (Bool-cases (is_access e.kind)) [
          | inl y ↦ rw y c
          | inr n ↦ elim (Option-cases (find (λ p. ends_with p config) e.paths)) [
            | inl f ↦ rw (handle_config_fs_event, n, on_config_event, f) c
            | inr (p, f) ↦
                rw (handle_config_fs_event, n, on_config_event, f)
                  (by_kind_lem C e.kind _ _ _
                    (reload_restrictions_config_lem (some config) rules ps c reloads)
                    (waits config p refl (find_sound (λ q. ends_with q config) e.paths f)) c)
          ]
        ]

  -- What holds of a reloader however its rules are read, a thread starts and a thread ends.
  abbrev Closed : (P → Option R) → (RulesReloader P R → Type 0) → Type 0
  Closed from C =
      ((r : RulesReloader P R) → C r → Reloads from C r)
      × ((r : RulesReloader P R) → C r → Waits from C r)
      × ((r : RulesReloader P R) (i : ℕ) → C r → C (record r { waiting = remove_at i r.waiting }))

  happen_lem :
      (from : P → Option R) (C : RulesReloader P R → Type 0)
      → Closed from C
      → (h : Happening P) (r : RulesReloader P R) → C r
      → C (happen ends_with from h r)
  unfolding happen try_rewatch_config handle_config_fs_event
  happen_lem from C (reloads, waits, ends) (event none) r c = c
  happen_lem from C (reloads, waits, ends) (event (some e)) r c =
      handle_config_fs_event_lem from C e r.config_path r.restrictions r.waiting c (reloads r c)
        (waits r c)
  happen_lem from C (reloads, waits, ends) (wakes w) r c =
      try_rewatch_lem C _ _ _ w.index w.exists w.watched r c (ends r w.index c) λ path e.
        handle_config_fs_event_lem from C (created path) r.config_path r.restrictions _
          (ends r w.index c) (reloads _ (ends r w.index c)) (waits _ (ends r w.index c))

-- The rules after any moments.
module _ {P R : Type 0} (ends_with : P → P → Bool) (config : P) where
  -- One moment keeps the path, and the rules or takes valid ones.
  abbrev Next : (P → Option R) → RulesReloader P R → RulesReloader P R → Type 0
  Next from r s =
      (s.config_path ≡ r.config_path)
      × (s.restrictions ≡ r.restrictions ⊎ from config ≡ some s.restrictions)

  pub happen-Next :
      (from : P → Option R) (h : Happening P) (r : RulesReloader P R)
      → r.config_path ≡ some config
      → Next from r (happen ends_with from h r)
  happen-Next from h r c =
      happen_lem ends_with from (Next from r)
        (
          λ s (p, q) watched x own valid.
              (p, inr (ap from (some_cancel (sym c ∙ sym p ∙ own)) ∙ valid)),
          λ s n watched p own w. n,
          λ s i n. n,
        )
        h r (refl, inl refl)

  pub run-restrictions_from :
      (ms : List (Moment P R)) (r : RulesReloader P R)
      → r.config_path ≡ some config
      → ((run ends_with ms r).restrictions ≡ r.restrictions)
        ⊎ Exists (λ m. m.from_config_file config ≡ some (run ends_with ms r).restrictions) ms
  unfolding run
  run-restrictions_from [] r c = inl refl
  run-restrictions_from (m ∷ ms) r c =
      let (kept, now) = happen-Next m.from_config_file m.happening r c in
      elim (run-restrictions_from ms (happen ends_with m.from_config_file m.happening r)
        (kept ∙ c)) [
          | inl same ↦ elim now [
            | inl old ↦ inl (same ∙ old)
            | inr new ↦ inr (m, inl refl, new ∙ ap some (sym same))
          ]
          | inr (n, there, valid) ↦ inr (n, inr there, valid)
        ]

  -- Rules that the file keeps stay.
  pub run-keeps :
      (rules : R) (ms : List (Moment P R)) (r : RulesReloader P R)
      → All (λ m. m.from_config_file config ≡ some rules) ms
      → r.config_path ≡ some config
      → r.restrictions ≡ rules
      → (run ends_with ms r).restrictions ≡ rules
  unfolding run
  run-keeps rules [] r h c e = e
  run-keeps rules (m ∷ ms) r (valid, h) c e =
      let (kept, now) = happen-Next m.from_config_file m.happening r c in
      run-keeps rules ms (happen ends_with m.from_config_file m.happening r) h (kept ∙ c)
        (elim now [ inl old ↦ old ∙ e | inr new ↦ some_cancel (sym new ∙ valid) ])

  pub happen-WaitsFor :
      (from : P → Option R) (h : Happening P) (r : RulesReloader P R)
      → WaitsFor ends_with config r
      → WaitsFor ends_with config (happen ends_with from h r)
  happen-WaitsFor from = happen_lem ends_with from (WaitsFor ends_with config) (
    λ r w watched x own valid. w,
    λ r (c, w) watched p own e. (
      c,
      All-append (λ q. ends_with q config ≡ true) r.waiting _ w
          (ap (ends_with p) (some_cancel (sym c ∙ own)) ∙ e, tt),
    ),
    λ r i (c, w). (c, All-remove_at (λ q. ends_with q config ≡ true) i r.waiting w),
  )

  pub run-WaitsFor :
      (ms : List (Moment P R)) (r : RulesReloader P R)
      → WaitsFor ends_with config r
      → WaitsFor ends_with config (run ends_with ms r)
  unfolding run
  run-WaitsFor [] r w = w
  run-WaitsFor (m ∷ ms) r w =
      run-WaitsFor ms (happen ends_with m.from_config_file m.happening r)
        (happen-WaitsFor m.from_config_file m.happening r w)
