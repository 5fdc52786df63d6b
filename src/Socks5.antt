-- ===== src/Socks5.antt =====
-- wstunnel/src/protocols/socks5: one UDP socket for all peers and destinations (udp_server.rs), here as
-- a step relation, and the server of connections (Socks5/Connections). The crate `fast_socks5`, which
-- parses datagrams, is a parameter. A stream is a number, and its variables are maps from it.
pub mod Datagrams
pub mod Delivery
pub mod Safety
pub mod Stream
pub mod Reads
pub mod Reply
pub mod Connections
pub mod Authenticated
use wstunnel.Prelude.{
  ℕ, suc, ◌<◌, ◌≡◌, Bool, true, false, Option, none, some, and_then, List, [], ◌∷◌, ◌++◌, length,
  Eq, nat_eq, put, if◌then◌else◌, ◌==◌,
}
use wstunnel.UdpServer.{clean_dead_keys}

-- The capacity of the channel of a stream.
abbrev pub channel_size : ℕ
channel_size = 1024

-- A datagram from a peer, parsed: the key of its stream and its data. An invalid one and a fragment
-- are dropped.
unfoldable pub request_of :
    {A T D P : Type 0} → (P → Option (ℕ × T × D)) → A × P → Option ((A × T) × D)
request_of parse_udp_request (peer, payload) =
    and_then (parse_udp_request payload) (λ (frag, destination, data_of).
      if frag == 0 then some ((peer, destination), data_of) else none)

-- Where the loop of the server is: before it cleans the keys, before it receives, or waiting for room
-- in the channel of a stream.
pub data Loop (K D : Type 0) : Type 0 where
  cleaning receiving : Loop K D
  sending : ℕ → K → D → Loop K D

-- `channel` is what waits in the channel of a stream, `taken` what its reads took, `requests` what was
-- parsed, and `handled` the stream that each was put in the channel of, if its receiver was there.
pub record Socks5UdpServer (K D : Type 0) : Type 0 where
  pub requests : List (K × D)
  pub handled : List (Option ℕ × (K × D))
  pub taken : ℕ → List D
  pub peers : K → Option ℕ
  pub keys_to_delete : List K
  pub loop_at : Loop K D
  pub key : ℕ → Option K
  pub alive : ℕ → Bool
  pub closed : ℕ → Bool
  pub channel : ℕ → List D
  pub next : ℕ

module _ {A T D P : Type 0} ⦃e : Eq (A × T)⦄ (parse_udp_request : P → Option (ℕ × T × D)) where
  pub data Step : Socks5UdpServer (A × T) D → Socks5UdpServer (A × T) D → Type 0 where
    cleans :
        (s : Socks5UdpServer (A × T) D)
        → s.loop_at ≡ cleaning
        → Step s (record s {
          peers = clean_dead_keys s.keys_to_delete s.peers;
          keys_to_delete = [];
          loop_at = receiving;
        })
    -- An invalid datagram or a fragment.
    skips :
        (s : Socks5UdpServer (A × T) D) (packet : A × P)
        → s.loop_at ≡ receiving
        → request_of parse_udp_request packet ≡ none
        → Step s (record s { loop_at = cleaning })
    -- The key has a stream: the server waits for room in its channel.
    receives :
        (s : Socks5UdpServer (A × T) D) (packet : A × P) (k : A × T) (d : D) (i : ℕ)
        → s.loop_at ≡ receiving
        → request_of parse_udp_request packet ≡ some (k, d)
        → s.peers k ≡ some i
        → Step s (record s { requests = s.requests ++ ((k, d) ∷ []); loop_at = sending i k d })
    sends :
        (s : Socks5UdpServer (A × T) D) (i : ℕ) (k : A × T) (d : D)
        → s.loop_at ≡ sending i k d
        → s.closed i ≡ false
        → length (s.channel i) < channel_size
        → Step s (record s {
          handled = s.handled ++ ((some i, (k, d)) ∷ []);
          channel = put i (s.channel i ++ (d ∷ [])) s.channel;
          loop_at = cleaning;
        })
    -- The receiver is gone.
    fails_to_send :
        (s : Socks5UdpServer (A × T) D) (i : ℕ) (k : A × T) (d : D)
        → s.loop_at ≡ sending i k d
        → s.closed i ≡ true
        → Step s (record s {
          handled = s.handled ++ ((none, (k, d)) ∷ []);
          peers = put k none s.peers;
          loop_at = cleaning;
        })
    -- A new key: its stream is handed on with the data in its channel.
    accepts :
        (s : Socks5UdpServer (A × T) D) (packet : A × P) (k : A × T) (d : D)
        → s.loop_at ≡ receiving
        → request_of parse_udp_request packet ≡ some (k, d)
        → s.peers k ≡ none
        → Step s (record s {
          requests = s.requests ++ ((k, d) ∷ []);
          handled = s.handled ++ ((some s.next, (k, d)) ∷ []);
          taken = put s.next [] s.taken;
          peers = put k (some s.next) s.peers;
          key = put s.next (some k) s.key;
          alive = put s.next true s.alive;
          closed = put s.next false s.closed;
          channel = put s.next (d ∷ []) s.channel;
          loop_at = cleaning;
          next = suc s.next;
        })
    -- `poll_recv` of a read.
    takes :
        (s : Socks5UdpServer (A × T) D) (i : ℕ) (d : D) (rest : List D)
        → s.alive i ≡ true
        → s.channel i ≡ d ∷ rest
        → Step s (record s {
          taken = put i (s.taken i ++ (d ∷ [])) s.taken;
          channel = put i rest s.channel;
        })
    -- The drop of a stream: first its key is marked, then its receiver goes.
    drops :
        (s : Socks5UdpServer (A × T) D) (i : ℕ) (k : A × T)
        → s.alive i ≡ true
        → s.key i ≡ some k
        → Step s (record s {
          keys_to_delete = s.keys_to_delete ++ (k ∷ []);
          alive = put i false s.alive;
        })
    closes :
        (s : Socks5UdpServer (A × T) D) (i : ℕ) (k : A × T)
        → s.alive i ≡ false
        → s.key i ≡ some k
        → Step s (record s { closed = put i true s.closed })

abbrev pub no_stream : {K D : Type 0} → Socks5UdpServer K D
no_stream = record {
  requests = [];
  handled = [];
  taken = λ i. [];
  peers = λ k. none;
  keys_to_delete = [];
  loop_at = cleaning;
  key = λ i. none;
  alive = λ i. false;
  closed = λ i. false;
  channel = λ i. [];
  next = 0;
}

module _ {A T D P : Type 0} ⦃e : Eq (A × T)⦄ (parse_udp_request : P → Option (ℕ × T × D)) where
  -- What the server reaches from `run_server`.
  pub data Reachable : Socks5UdpServer (A × T) D → Type 0 where
    new : Reachable no_stream
    step :
        (s s' : Socks5UdpServer (A × T) D)
        → Reachable s
        → Step parse_udp_request s s'
        → Reachable s'
