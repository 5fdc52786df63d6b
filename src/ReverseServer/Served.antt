-- ===== src/ReverseServer/Served.antt =====
-- A client gets connections of the address that it asked for.
use wstunnel.Prelude.{
  put, put_lem, ℕ, ◌≤◌, ◌≡◌, refl, sym, ap, ◌∙◌, Option, none, some, some_cancel, [], ◌∷◌, ◌++◌, Eq,
  nat_eq, All, All-append, arith,
}
use mathlib.Core.Path.{subst}
use wstunnel.ReverseServer.{
  Cnx, Client, asking, generating, waits_on, served, failed, gone, Servers, Step, asks, joins,
  generates, cannot_listen, listens, first_poll, accepts, sends, gives_up, listener_ends, ticks,
  ticks_idle, ends, receives, is_stopped, is_dropped, none_yet, Reachable, new, step,
}

module _ {B : Type 0} ⦃e : Eq B⦄ where
  -- What a client may have, by the addresses of the tasks.
  abbrev Fits : (ℕ → Option B) → Client B → Type 0
  Fits address (waits_on b t) = address t ≡ some b
  Fits address (served b x) = x.from_addr ≡ b
  Fits address _ = Unit

  abbrev Comes : Option B → Cnx B → Type 0
  Comes o x = o ≡ some x.from_addr

  abbrev Pending : Option B → Option (Cnx B) → Type 0
  Pending o none = Unit
  Pending o (some x) = Comes o x

  -- Servers stand under their address, clients wait on tasks of their address, and connections wait
  -- where they came from; tasks to come have no address.
  abbrev Owned : Servers B → Type 0
  Owned s = (b : B) (t : ℕ) → s.servers b ≡ some t → s.address t ≡ some b

  abbrev Fresh : Servers B → Type 0
  Fresh s = (t : ℕ) → s.next ≤ t → (s.address t ≡ none) × (s.queue t ≡ []) × (s.pending t ≡ none)

  abbrev Sound : Servers B → Type 0
  Sound s =
      Owned s
      × ((c : ℕ) → Fits s.address (s.clients c))
      × ((t : ℕ) → All (Comes (s.address t)) (s.queue t))
      × ((t : ℕ) → Pending (s.address t) (s.pending t))
      × Fresh s

  put_client :
      (s : Servers B) (c : ℕ) (v : Client B)
      → ((d : ℕ) → Fits s.address (s.clients d))
      → Fits s.address v
      → (d : ℕ) → Fits s.address (put c v s.clients d)
  put_client s c v h f d = put_lem c v s.clients d (Fits s.address) (λ q. f) (λ n. h d)

  -- A client of an address that is no task's yet is not there.
  Fits-put :
      (address : ℕ → Option B) (n : ℕ) (b : B) (v : Client B)
      → address n ≡ none
      → Fits address v
      → Fits (put n (some b) address) v
  Fits-put address n b (waits_on b' t) fresh f =
      put_lem n (some b) address t (λ o. o ≡ some b')
        (λ same. let clash = sym fresh ∙ ap address same ∙ f in cc) (λ other. f)
  Fits-put address n b (served b' x) fresh f = f
  Fits-put address n b (asking b') fresh f = tt
  Fits-put address n b (generating b') fresh f = tt
  Fits-put address n b failed fresh f = tt
  Fits-put address n b gone fresh f = tt

  -- A task to come is not one with an address.
  Fresh-put :
      {V : Type 0} (s : Servers B) (t : ℕ) (b : B) (v : V) (f : ℕ → V) (j : ℕ) (z : V)
      → s.address t ≡ some b
      → s.address j ≡ none
      → f j ≡ z
      → put t v f j ≡ z
  Fresh-put s t b v f j z own free g =
      put_lem t v f j (λ x. x ≡ z)
        (λ same. let clash = sym free ∙ ap s.address (sym same) ∙ own in cc) (λ other. g)

  step-Sound : (s s' : Servers B) → Step s s' → Sound s → Sound s'
  step-Sound _ _ (asks s c b q) (o, f, k, w, n) = (o, put_client s c (asking b) f tt, k, w, n)
  step-Sound _ _ (joins s c b t q there) (o, f, k, w, n) =
      (o, put_client s c (waits_on b t) f (o b t there), k, w, n)
  step-Sound _ _ (generates s c b q there) (o, f, k, w, n) =
      (o, put_client s c (generating b) f tt, k, w, n)
  step-Sound _ _ (cannot_listen s c b q) (o, f, k, w, n) = (o, put_client s c failed f tt, k, w, n)
  step-Sound _ _ (listens s c b q) (o, f, k, w, n) =
      let (free, empty, idle) = n s.next (omega arith) in
      (
        λ b' t.
            put_lem b (some s.next) s.servers b'
              (λ v. v ≡ some t → put s.next (some b) s.address t ≡ some b')
              (λ same new.
                put_lem s.next (some b) s.address t (λ v. v ≡ some b') (λ q'. ap some same)
                  (λ other. absurd (other (some_cancel new))))
              (λ other old.
                put_lem s.next (some b) s.address t (λ v. v ≡ some b')
                  (λ same. let clash = sym free ∙ ap s.address same ∙ o b' t old in cc)
                  (λ other'. o b' t old)),
        λ d.
            put_lem c (waits_on b s.next) s.clients d (Fits (put s.next (some b) s.address))
              (λ same.
                put_lem s.next (some b) s.address s.next (λ v. v ≡ some b) (λ q'. refl)
                  (λ other. absurd (other refl)))
              (λ other. Fits-put s.address s.next b (s.clients d) free (f d)),
        λ t.
            put_lem s.next (some b) s.address t (λ v. All (Comes v) (s.queue t))
              (λ same. subst (All (Comes (some b))) (sym (ap s.queue (sym same) ∙ empty)) tt)
              (λ other. k t),
        λ t.
            put_lem s.next (some b) s.address t (λ v. Pending v (s.pending t))
              (λ same. subst (Pending (some b)) (sym (ap s.pending (sym same) ∙ idle)) tt)
              (λ other. w t),
        λ t later. (
          put_lem s.next (some b) s.address t (λ v. v ≡ none)
              (λ same. absurd (omega (arith, same, later)))
              (λ other. (n t (omega (arith, later))).0),
          (n t (omega (arith, later))).1,
          (n t (omega (arith, later))).2,
        ),
      )
  step-Sound _ _ (first_poll s t q) h = h
  step-Sound _ _ (accepts s t b x (q, own) p from) (o, f, k, w, n) = (
    o,
    f,
    k,
    λ t'.
        put_lem t (some x) s.pending t' (Pending (s.address t'))
          (λ same. ap s.address (sym same) ∙ own ∙ ap some (sym from)) (λ other. w t'),
    λ t' later.
        let (free, empty, idle) = n t' later in
        (free, empty, Fresh-put s t b (some x) s.pending t' none own free idle),
  )
  step-Sound _ _ (sends s t b x (q, own) p room) (o, f, k, w, n) = (
    o,
    f,
    λ t'.
        put_lem t (s.queue t ++ (x ∷ [])) s.queue t' (All (Comes (s.address t')))
          (λ same.
            subst (λ j. All (Comes (s.address j)) (s.queue t ++ (x ∷ []))) same
              (All-append (Comes (s.address t)) (s.queue t) (x ∷ []) (k t)
                (subst (Pending (s.address t)) p (w t), tt)))
          (λ other. k t'),
    λ t'. put_lem t none s.pending t' (Pending (s.address t')) (λ same. tt) (λ other. w t'),
    λ t' later.
        let (free, empty, idle) = n t' later in
        (
          free,
          Fresh-put s t b (s.queue t ++ (x ∷ [])) s.queue t' [] own free empty,
          Fresh-put s t b none s.pending t' none own free idle,
        ),
  )
  step-Sound _ _ (gives_up s t b x (q, own) p full) (o, f, k, w, n) = (
    o,
    f,
    k,
    λ t'. put_lem t none s.pending t' (Pending (s.address t')) (λ same. tt) (λ other. w t'),
    λ t' later.
        let (free, empty, idle) = n t' later in
        (free, empty, Fresh-put s t b none s.pending t' none own free idle),
  )
  step-Sound _ _ (listener_ends s t b q p) h = h
  step-Sound _ _ (ticks s t b q p w) h = h
  step-Sound _ _ (ticks_idle s t b q p n w) h = h
  step-Sound _ _ (ends s t b q own) (o, f, k, w, n) = (
    λ b' t'.
        put_lem b none s.servers b' (λ v. v ≡ some t' → s.address t' ≡ some b')
          (λ same gone_now. cc) (λ other. o b' t'),
    f,
    k,
    w,
    n,
  )
  step-Sound _ _ (receives s c b t x rest q l) (o, f, k, w, n) =
      let first = subst (All (Comes (s.address t))) l (k t) in
      let own = subst (Fits s.address) q (f c) in
      (
        o,
        put_client s c (served b x) f (some_cancel (sym first.0 ∙ own)),
        λ t'.
            put_lem t rest s.queue t' (All (Comes (s.address t')))
              (λ same. subst (λ j. All (Comes (s.address j)) rest) same first.1) (λ other. k t'),
        w,
        λ t' later.
            let (free, empty, idle) = n t' later in
            (free, Fresh-put s t b rest s.queue t' [] own free empty, idle),
      )
  step-Sound _ _ (is_stopped s c b t q l p) (o, f, k, w, n) =
      (o, put_client s c failed f tt, k, w, n)
  step-Sound _ _ (is_dropped s c) (o, f, k, w, n) = (o, put_client s c gone f tt, k, w, n)

  none_yet-Sound : Sound none_yet
  none_yet-Sound = (λ b t e. cc, λ c. tt, λ t. tt, λ t. tt, λ t later. (refl, refl, refl))

  Reachable-Sound : (s : Servers B) → Reachable s → Sound s
  Reachable-Sound _ new = none_yet-Sound
  Reachable-Sound _ (step s s' r t) = step-Sound s s' t (Reachable-Sound s r)

  -- In whatever order clients ask and leave and tasks start, accept, time out, are aborted and end, a
  -- client that is served has a connection that came in on the address it asked for.
  pub Reachable-from_addr :
      (s : Servers B) (c : ℕ) (b : B) (x : Cnx B)
      → Reachable s
      → s.clients c ≡ served b x
      → x.from_addr ≡ b
  Reachable-from_addr s c b x r e = subst (Fits s.address) e ((Reachable-Sound s r).1 c)
