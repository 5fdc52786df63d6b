-- ===== src/TcpServer/Race.antt =====
-- The connection that wins.
use wstunnel.Prelude.{
  ℕ, ◌≡◌, ◌↔◌, ◌∙◌, refl, sym, ap, Bool, true, Option, some, List, [], ◌∷◌, ◌++◌, Text, All, false,
  if◌then◌else◌,
}
use mathlib.Core.Path.{subst}
use wstunnel.Prelude.Results.{ok, err, bind-eq-ok, ok_cancel, ok_or-eq-ok}
use wstunnel.Net.{Host, domain, ipv4, ipv6, SocketAddr, sock_v4, sock_v6}
use wstunnel.TcpServer.{
  no_peer_addr, cannot_resolve, socket_addrs, Attempt, spawn_attempts, Ended, connected, refused,
  timed_out, join_error, join_next, connect,
}
use wstunnel.TcpServer.Attempts.{
  Configured, Tried, Tried-unique, spawn_attempts-Tried, spawn_attempts-Configured,
}

module _ {S : Type 0} where
  -- Refused, or out of time.
  abbrev pub Fails : Attempt × Ended S → Type 0
  Fails (a, connected s) = ⊥
  Fails (a, refused) = Unit
  Fails (a, timed_out) = Unit
  Fails (a, join_error) = ⊥

  abbrev pub Wins : S → List (Attempt × Ended S) → Type 0
  Wins s ends =
      (before : List (Attempt × Ended S)) × (a : Attempt) × (after : List (Attempt × Ended S))
      × (ends ≡ before ++ ((a, connected s) ∷ after))
      × All Fails before

  later :
      (s : S) (e : Attempt × Ended S) (ends : List (Attempt × Ended S))
      → Fails e
      → Wins s ends
      → Wins s (e ∷ ends)
  later s e ends f (before, a, after, same, fails) =
      (e ∷ before, a, after, ap (λ t. e ∷ t) same, (f, fails))

  wins :
      (names_peer : S → Bool) (ends : List (Attempt × Ended S)) (s : S)
      → join_next names_peer ends ≡ ok s
      → Wins s ends × (names_peer s ≡ true)
  unfolding join_next
  wins names_peer [] s e = cc
  wins names_peer ((a, connected t) ∷ ends) s e = logged (names_peer t) refl e
    where
      logged :
          (b : Bool)
          → names_peer t ≡ b
          → (if b then ok t else err no_peer_addr) ≡ ok s
          → Wins s ((a, connected t) ∷ ends) × (names_peer s ≡ true)
      logged true named h =
          let same : t ≡ s = ok_cancel h in
          (
            ([], a, ends, ap (λ x. (a, connected x) ∷ ends) same, tt),
            ap names_peer (sym same) ∙ named,
          )
      logged false unnamed h = cc
  wins names_peer ((a, refused) ∷ ends) s e =
      let (w, named) = wins names_peer ends s e in (later s (a, refused) ends tt w, named)
  wins names_peer ((a, timed_out) ∷ ends) s e =
      let (w, named) = wins names_peer ends s e in (later s (a, timed_out) ends tt w, named)
  wins names_peer ((a, join_error) ∷ ends) s e = cc

  won :
      (names_peer : S → Bool) (before after : List (Attempt × Ended S)) (a : Attempt) (s : S)
      → names_peer s ≡ true
      → All Fails before
      → join_next names_peer (before ++ ((a, connected s) ∷ after)) ≡ ok s
  unfolding join_next
  won names_peer [] after a s named f = rw named refl
  won names_peer ((b, connected t) ∷ before) after a s named (f, fails) = absurd f
  won names_peer ((b, refused) ∷ before) after a s named (f, fails) =
      won names_peer before after a s named fails
  won names_peer ((b, timed_out) ∷ before) after a s named (f, fails) =
      won names_peer before after a s named fails
  won names_peer ((b, join_error) ∷ before) after a s named (f, fails) = absurd f

-- The addresses of a host at a port: those that the lookup finds for a name, or the address itself.
abbrev pub AddrsOf : (Text → ℕ → Option (List SocketAddr)) → Host → ℕ → List SocketAddr → Type 0
AddrsOf lookup (domain name) port addrs = lookup name port ≡ some addrs
AddrsOf lookup (ipv4 ip) port addrs = addrs ≡ sock_v4 ip port ∷ []
AddrsOf lookup (ipv6 ip) port addrs = addrs ≡ sock_v6 ip port 0 0 ∷ []

socket_addrs-AddrsOf :
    (lookup : Text → ℕ → Option (List SocketAddr)) (host : Host) (port : ℕ)
    (addrs : List SocketAddr)
    → (socket_addrs lookup host port ≡ ok addrs) ↔ AddrsOf lookup host port addrs
unfolding socket_addrs
socket_addrs-AddrsOf lookup (domain name) port addrs =
    (λ e. ok_or-eq-ok (lookup name port) cannot_resolve e, λ found. rw found refl)
socket_addrs-AddrsOf lookup (ipv4 ip) port addrs =
    (λ e. sym (ok_cancel e), λ same. ap ok (sym same))
socket_addrs-AddrsOf lookup (ipv6 ip) port addrs =
    (λ e. sym (ok_cancel e), λ same. ap ok (sym same))

-- A connection is made exactly when the addresses of the host are found, every socket that can be made is
-- configured, and of the attempts, in the order in which they end, those before the first that connects
-- were refused or ran out of time, and the line that logs it is written; it is that one's. There is one
-- attempt for each of the addresses whose socket can be made, in their order, and it waits 250 ms for each
-- address before it in the list.
pub connect_iff :
    {S : Type 0} (lookup : Text → ℕ → Option (List SocketAddr))
    (makes_socket configures : SocketAddr → Bool) (names_peer : S → Bool)
    (race : List Attempt → List (Attempt × Ended S)) (host : Host) (port : ℕ) (s : S)
    → (connect lookup makes_socket configures names_peer race host port ≡ ok s) ↔ (
        (addrs : List SocketAddr) × (attempts : List Attempt) × AddrsOf lookup host port addrs
        × All (Configured makes_socket configures) addrs
        × Tried makes_socket addrs 0 attempts
        × Wins s (race attempts)
        × (names_peer s ≡ true))
unfolding connect
connect_iff lookup makes_socket configures names_peer race host port s = (
  λ e.
      let (addrs, found, e1) = bind-eq-ok (socket_addrs lookup host port) _ e in
      let (attempts, spawned, e2) =
        bind-eq-ok (spawn_attempts makes_socket configures 0 addrs) _ e1 in
      let conf = spawn_attempts-Configured makes_socket configures addrs 0 attempts spawned in
      let (attempts', spawned', tried) =
        spawn_attempts-Tried makes_socket configures addrs 0 conf in
      let same = ok_cancel (sym spawned' ∙ spawned) in
      let (w, named) = wins names_peer (race attempts) s e2 in
      (
        addrs,
        attempts,
        (socket_addrs-AddrsOf lookup host port addrs).0 found,
        conf,
        subst (Tried makes_socket addrs 0) same tried,
        w,
        named,
      ),
  λ (addrs, attempts, found, conf, tried, (before, a, after, ends, fails), named).
      let (attempts', spawned, tried') =
        spawn_attempts-Tried makes_socket configures addrs 0 conf in
      let same = Tried-unique makes_socket addrs 0 attempts' attempts tried' tried in
      rw ((socket_addrs-AddrsOf lookup host port addrs).1 found, spawned, same, ends)
        (won names_peer before after a s named fails),
)
