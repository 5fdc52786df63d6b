-- ===== src/Tests/Socks5.antt =====
-- A SOCKS5 server with a user, one connection of each kind, and a stream of datagrams.
use wstunnel.Prelude.{
  ℕ, ◌≡◌, ◌↔◌, refl, Bool, true, false, ◌&&◌, Option, none, some, List, [], ◌∷◌, ◌++◌, map, All,
  arith, ◌==◌, if◌then◌else◌, Text, codes, text_eq, Eq, nat_eq, put, text_eq_sound, sym, ap, ◌∙◌,
  Bool-cases, inl, inr,
}
use wstunnel.Net.{sock_v4, Credentials, domain}
use wstunnel.UdpServer.{clean_dead_keys}
use wstunnel.Socks5.{
  request_of, cleaning, receiving, Socks5UdpServer, cleans, accepts, takes, no_stream, Reachable,
  new, step,
}
use wstunnel.Socks5.Datagrams.{Given, in_flight, InOrder, Bounded}
use wstunnel.Socks5.Safety.{Reachable-InOrder}
use wstunnel.Socks5.Stream.{TargetAddr, ip, domain_port, destination}
use wstunnel.Socks5.Reply.{new_reply, carried, read_reply, read_reply-new_reply}
use wstunnel.Socks5.Connections.{
  Config, Upgraded, tcp_connect, udp_associate, Selected, accepted, new_udp, no_more, started,
  serve, target_host, config_of, tcp_stream, udp_stream, on_selected, on_upgrade, on_target, answer,
  hand_on, replied, is_udp_associate,
}
use wstunnel.Socks5.Authenticated.{Good, serve-Presents}

pair_of : {A B : Type 0} {p q : A × B} → p.0 ≡ q.0 → p.1 ≡ q.1 → p ≡ q
pair_of e f = λ i. (e i, f i)

pair_iff : (p q : ℕ × ℕ) → (((p.0 == q.0) && (p.1 == q.1)) ≡ true) ↔ (p ≡ q)
pair_iff p q = (
  λ h. pair_of (ground arith) (ground arith),
  λ e. let a = ap (λ (t : ℕ × ℕ). t.0) e in let b = ap (λ (t : ℕ × ℕ). t.1) e in ground arith,
)

instance abbrev pair_eq : Eq (ℕ × ℕ)
pair_eq = record { eq = λ p q. (p.0 == q.0) && (p.1 == q.1); eq_iff = pair_iff }

-- A payload is its fragment, its destination and its data.
abbrev parse : ℕ × ℕ × ℕ → Option (ℕ × ℕ × ℕ)
parse p = some p

abbrev waiting : Socks5UdpServer (ℕ × ℕ) ℕ
waiting = record no_stream { loop_at = receiving }

abbrev handed : Socks5UdpServer (ℕ × ℕ) ℕ
handed = record waiting {
  requests = ((4, 80), 7) ∷ [];
  handled = (some 0, ((4, 80), 7)) ∷ [];
  taken = put 0 [] waiting.taken;
  peers = put (4, 80) (some 0) waiting.peers;
  key = put 0 (some (4, 80)) waiting.key;
  alive = put 0 true waiting.alive;
  closed = put 0 false waiting.closed;
  channel = put 0 (7 ∷ []) waiting.channel;
  loop_at = cleaning;
  next = 1;
}

abbrev has_read : Socks5UdpServer (ℕ × ℕ) ℕ
has_read = record handed {
  taken = put 0 (handed.taken 0 ++ (7 ∷ [])) handed.taken;
  channel = put 0 [] handed.channel;
}

reaches : Reachable parse has_read
unfolding put clean_dead_keys request_of
reaches =
    step handed has_read
      (step waiting handed (step no_stream waiting new (cleans no_stream refl))
        (accepts waiting (4, (0, 80, 7)) (4, 80) 7 refl refl refl))
      (takes handed 0 7 [] refl refl)

Reachable-InOrder_example :
    (map (λ (h : Option ℕ × ((ℕ × ℕ) × ℕ)). h.1) has_read.handled ++ in_flight has_read.loop_at
      ≡ has_read.requests)
    × All (Given has_read.key) has_read.handled
    × InOrder has_read
    × Bounded has_read
Reachable-InOrder_example = Reachable-InOrder parse has_read reaches

read_reply-new_reply_example :
    read_reply (new_reply 0 (sock_v4 0x7f000001 1080)) ≡ some (0, carried (sock_v4 0x7f000001 1080))
read_reply-new_reply_example =
    read_reply-new_reply 0 (sock_v4 0x7f000001 1080) (omega arith, omega arith)

-- A connection is the name and password it sends, and what it asks for.
abbrev Peer : Type 0
Peer = (Text × Text) × Upgraded

same_login : Text × Text → Text × Text → Bool
same_login (user, pass) (name, secret) = text_eq user name && text_eq pass secret

same_login_sound : (p q : Text × Text) → same_login p q ≡ true → p ≡ q
unfolding same_login
same_login_sound (user, pass) (name, secret) h =
    pair_of (text_eq_sound user name (ground arith)) (text_eq_sound pass secret (ground arith))

greet : Bool → Credentials → Peer → Option Upgraded
unfolding same_login
greet true asked (login, up) = some up
greet false none (login, up) = none
greet false (some asked) (login, up) = if same_login login asked then some up else none

abbrev upgrade : Config → Peer → Option Upgraded
upgrade config peer = greet config.allow_no_auth config.authentication peer

greets :
    (config : Config) (peer : Peer) (up : Upgraded) (asked : Text × Text)
    → config.allow_no_auth ≡ false
    → config.authentication ≡ some asked
    → upgrade config peer ≡ some up
    → peer.0 ≡ asked
unfolding greet
greets config (login, up') up asked closed asks e = checked (
    sym (
      ap (λ (a : Bool × Credentials). greet a.0 a.1 (login, up'))
        (pair_of {p = (config.allow_no_auth, config.authentication)} {q = (false, some asked)}
          closed asks))
    ∙ e)
  where
    checked : greet false (some asked) (login, up') ≡ some up → login ≡ asked
    checked h = elim (Bool-cases (same_login login asked)) [
      | inl same ↦ same_login_sound login asked same
      | inr differs ↦ let clash = sym h ∙ ap (λ b. if b then some up' else none) differs in cc
    ]

abbrev user : Text × Text
user = (codes "u", codes "p")

abbrev asks : TargetAddr → Bool → Upgraded
asks target associate = record {
  target_addr = some target;
  cmd = some (if associate then udp_associate else tcp_connect);
}

abbrev connects : Peer
connects = (user, asks (domain_port (codes "qa") 443) false)

abbrev associates : Peer
associates = (user, asks (ip (sock_v4 0 0)) true)

abbrev stranger : Peer
stranger = ((codes "u", codes "x"), asks (domain_port (codes "qa") 443) false)

abbrev day : List (Selected Peer ℕ)
day =
    accepted stranger true
    ∷ accepted associates true
    ∷ accepted connects true
    ∷ new_udp 3 (domain_port (codes "dns") 53)
    ∷ no_more
    ∷ []

-- The stream of datagrams is handed on with no user asked for.
items_of_day :
    (serve upgrade (sock_v4 0x7f000001 1080) (some user) day started).items
    ≡ tcp_stream connects (domain (codes "qa"), 443) ∷ udp_stream 3 (domain (codes "dns"), 53) ∷ []
unfolding serve on_selected on_upgrade on_target answer hand_on replied config_of is_udp_associate
    target_host destination greet same_login
items_of_day = refl

serve-Presents_example :
    Good ℕ upgrade
      (sock_v4 0x7f000001 1080)
      user
      (λ peer asked. peer.0 ≡ asked)
      (serve upgrade (sock_v4 0x7f000001 1080) (some user) day started)
serve-Presents_example =
    serve-Presents ℕ upgrade (sock_v4 0x7f000001 1080) user (λ peer asked. peer.0 ≡ asked) day
      greets
