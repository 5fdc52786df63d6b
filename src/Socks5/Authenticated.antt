-- ===== src/Socks5/Authenticated.antt =====
-- What the SOCKS5 server hands on.
use wstunnel.Prelude.{
  ℕ, ◌≡◌, refl, inl, inr, Bool, true, false, Option, none, some, List, [], ◌∷◌, ◌++◌, All,
  All-append, In, if◌then◌else◌, Text,
}
use wstunnel.Net.{SocketAddr}
use wstunnel.Socks5.Stream.{TargetAddr, destination}
use wstunnel.Socks5.Reply.{new_reply}
use wstunnel.Socks5.Connections.{
  Config, config_of, Upgraded, is_udp_associate, target_host, Selected, no_more, no_more_datagrams,
  accept_error, udp_error, accepted, new_udp, Item, tcp_stream, udp_stream, item_error,
  Socks5Server, started, hand_on, replied, succeeded, no_address, answer, on_target, on_upgrade,
  on_selected, serve,
}

module _ {A : Type 0} where
  In-left : (xs ys : List A) (a : A) → In a xs → In a (xs ++ ys)
  In-left [] ys a m = absurd m
  In-left (x ∷ xs) ys a (inl e) = inl e
  In-left (x ∷ xs) ys a (inr m) = inr (In-left xs ys a m)

  In-last : (xs : List A) (a : A) → In a (xs ++ (a ∷ []))
  In-last [] a = inl refl
  In-last (x ∷ xs) a = inr (In-last xs a)

module _ {C : Type 0} (S : Type 0) (upgrade_to_socks5 : Config → C → Option Upgraded)
    (bind : SocketAddr) (credentials : Text × Text) (Presents : C → Text × Text → Type 0) where
  -- The documented check of the greeting: with no way around it, who is let through presented the
  -- user's name and password that are asked for.
  abbrev pub Checks : Type 0
  Checks =
      (config : Config) (cnx : C) (up : Upgraded) (asked : Text × Text)
      → config.allow_no_auth ≡ false
      → config.authentication ≡ some asked
      → upgrade_to_socks5 config cnx ≡ some up
      → Presents cnx asked

  -- A connection that was greeted, and sent this reply.
  abbrev pub Served : Bool → SocketAddr → List (C × List ℕ) → C → TargetAddr → Type 0
  Served associate addr replies cnx target =
      (up : Upgraded) × (upgrade_to_socks5 (config_of (some credentials)) cnx ≡ some up)
      × (up.target_addr ≡ some target)
      × (is_udp_associate up.cmd ≡ associate)
      × Presents cnx credentials
      × In (cnx, new_reply succeeded addr) replies

  -- A connection is handed on with the destination it asked for; a task is an association.
  abbrev pub Handed : List (C × List ℕ) → Item C S → Type 0
  Handed replies (tcp_stream cnx dest) =
      (target : TargetAddr) × (target_host target ≡ dest)
      × Served false no_address replies cnx target
  Handed replies (udp_stream stream dest) = (target : TargetAddr) × (destination target ≡ dest)
  Handed replies item_error = Unit

  abbrev pub Associated : List (C × List ℕ) → C → Type 0
  Associated replies cnx = (target : TargetAddr) × Served true bind replies cnx target

  abbrev pub Good : Socks5Server C S → Type 0
  Good server =
      All (Handed server.replies) server.items × All (Associated server.replies) server.tasks

  later-Served :
      (associate : Bool) (addr : SocketAddr) (rs more : List (C × List ℕ)) (cnx : C)
      (target : TargetAddr)
      → Served associate addr rs cnx target
      → Served associate addr (rs ++ more) cnx target
  later-Served associate addr rs more cnx target (up, e, t, c, p, m) =
      (up, e, t, c, p, In-left rs more (cnx, new_reply succeeded addr) m)

  later-Handed :
      (rs more : List (C × List ℕ)) (items : List (Item C S))
      → All (Handed rs) items
      → All (Handed (rs ++ more)) items
  later-Handed rs more [] h = tt
  later-Handed rs more (tcp_stream cnx dest ∷ items) ((target, e, s), h) = (
    (target, e, later-Served false no_address rs more cnx target s),
    later-Handed rs more items h,
  )
  later-Handed rs more (udp_stream stream dest ∷ items) (g, h) = (g, later-Handed rs more items h)
  later-Handed rs more (item_error ∷ items) (g, h) = (g, later-Handed rs more items h)

  later-Associated :
      (rs more : List (C × List ℕ)) (cnxs : List C)
      → All (Associated rs) cnxs
      → All (Associated (rs ++ more)) cnxs
  later-Associated rs more [] h = tt
  later-Associated rs more (cnx ∷ cnxs) ((target, s), h) =
      ((target, later-Served true bind rs more cnx target s), later-Associated rs more cnxs h)

  answer-Good :
      (cnx : C) (target : TargetAddr) (associate writable : Bool) (server : Socks5Server C S)
      → (up : Upgraded) → upgrade_to_socks5 (config_of (some credentials)) cnx ≡ some up
      → up.target_addr ≡ some target
      → is_udp_associate up.cmd ≡ associate
      → Presents cnx credentials
      → Good server
      → Good (answer bind cnx target associate writable server)
  unfolding answer hand_on replied
  answer-Good cnx target associate false server up e t c p good = good
  answer-Good cnx target true true server up e t c p (h, k) = (
    later-Handed server.replies ((cnx, new_reply succeeded bind) ∷ []) server.items h,
    All-append (Associated (server.replies ++ ((cnx, new_reply succeeded bind) ∷ []))) server.tasks
        (cnx ∷ [])
        (later-Associated server.replies ((cnx, new_reply succeeded bind) ∷ []) server.tasks k)
        ((target, (up, e, t, c, p, In-last server.replies (cnx, new_reply succeeded bind))), tt),
  )
  answer-Good cnx target false true server up e t c p (h, k) = (
    All-append (Handed (server.replies ++ ((cnx, new_reply succeeded no_address) ∷ [])))
        server.items (tcp_stream cnx (target_host target) ∷ [])
        (later-Handed server.replies ((cnx, new_reply succeeded no_address) ∷ []) server.items h)
        (
          (
            target,
            refl,
            (up, e, t, c, p, In-last server.replies (cnx, new_reply succeeded no_address)),
          ),
          tt,
        ),
    later-Associated server.replies ((cnx, new_reply succeeded no_address) ∷ []) server.tasks k,
  )

  on_upgrade-Good :
      (cnx : C) (writable : Bool) (o : Option Upgraded) (server : Socks5Server C S)
      → Checks
      → upgrade_to_socks5 (config_of (some credentials)) cnx ≡ o
      → Good server
      → Good (on_upgrade bind cnx writable o server)
  unfolding on_upgrade on_target config_of
  on_upgrade-Good cnx writable none server checks e good = good
  on_upgrade-Good cnx writable (some up) server checks e good = targeted up.target_addr refl
    where
      targeted :
          (o : Option TargetAddr)
          → up.target_addr ≡ o
          → Good (on_target bind cnx writable up.cmd o server)
      targeted none t = good
      targeted (some target) t =
          answer-Good cnx target (is_udp_associate up.cmd) writable server up e t refl
            (checks (config_of (some credentials)) cnx up credentials refl refl e) good

  hand-Good :
      (item : Item C S) (server : Socks5Server C S)
      → Handed server.replies item
      → Good server
      → Good (hand_on item server)
  unfolding hand_on
  hand-Good item server it (h, k) =
      (All-append (Handed server.replies) server.items (item ∷ []) h (it, tt), k)

  on_selected-Good :
      (event : Selected C S) (server : Socks5Server C S)
      → Checks
      → Good server
      → Good (on_selected upgrade_to_socks5 bind (some credentials) event server)
  unfolding on_selected
  on_selected-Good no_more server checks good = good
  on_selected-Good no_more_datagrams server checks good = good
  on_selected-Good accept_error server checks good = hand-Good item_error server tt good
  on_selected-Good udp_error server checks good = hand-Good item_error server tt good
  on_selected-Good (accepted cnx writable) server checks good =
      on_upgrade-Good cnx writable (upgrade_to_socks5 (config_of (some credentials)) cnx) server
        checks refl good
  on_selected-Good (new_udp stream target) server checks good =
      hand-Good (udp_stream stream (destination target)) server (target, refl) good

  if-Good : (b : Bool) (x y : Socks5Server C S) → Good x → Good y → Good (if b then x else y)
  if-Good true x y hx hy = hx
  if-Good false x y hx hy = hy

  serve-Good :
      (events : List (Selected C S)) (server : Socks5Server C S)
      → Checks
      → Good server
      → Good (serve upgrade_to_socks5 bind (some credentials) events server)
  unfolding serve
  serve-Good [] server checks good = good
  serve-Good (event ∷ events) server checks good =
      let server' = on_selected upgrade_to_socks5 bind (some credentials) event server in
      let after = on_selected-Good event server checks good in
      if-Good server'.ended server' (serve upgrade_to_socks5 bind (some credentials) events server')
        after (serve-Good events server' checks after)

  -- With credentials configured, and a greeting that checks those it is configured to ask for: every
  -- connection that the server hands on, and every association it keeps, presented them and asked for a
  -- target; it was sent the success reply, an association with the address of this server; and it is
  -- handed on with the host and port of its target.
  pub serve-Presents :
      (events : List (Selected C S))
      → Checks
      → Good (serve upgrade_to_socks5 bind (some credentials) events started)
  serve-Presents events checks = serve-Good events started checks (tt, tt)
