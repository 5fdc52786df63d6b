-- ===== src/UdpServer.antt =====
-- wstunnel/src/protocols/udp/server.rs: one socket for all peers, whose packets the stream of the
-- sender reads. Each step is what runs between two points where another task can run; a stream is a
-- number, and its variables are maps from it.
pub mod Delivery
pub mod Watchdog
pub mod Silence
pub mod Polls
pub mod Stream
pub mod Timeout
use wstunnel.Prelude.{
  ℕ, suc, ◌≡◌, Bool, true, false, Option, none, some, List, [], ◌∷◌, ◌++◌, Eq, nat_eq, put,
  if◌then◌else◌,
}

-- Where the loop of the server is: before it cleans the keys, looking at the sender of the next packet,
-- or waiting for a stream to read.
pub data Loop : Type 0 where
  cleaning peeking : Loop
  awaits : ℕ → Loop

-- `queue` are the packets of the socket with their senders, and `arrived` all that ever were there.
-- `has_data` is a notification that the stream has or gets, `has_read` the permit that the server
-- waits for. `delivered` is what each read gave, with the stream that read.
pub record UdpServer (B : Type 0) : Type 0 where
  pub queue : List (B × ℕ)
  pub arrived : List (B × ℕ)
  pub delivered : List (ℕ × (B × ℕ))
  pub peers : B → Option ℕ
  pub keys_to_delete : List B
  pub loop_at : Loop
  pub peer : ℕ → Option B
  pub alive : ℕ → Bool
  pub has_data : ℕ → Bool
  pub has_read : ℕ → Bool
  pub next : ℕ

-- `peers.remove` for each dead key.
unfoldable pub clean_dead_keys : {B : Type 0} ⦃e : Eq B⦄ → List B → (B → Option ℕ) → B → Option ℕ
clean_dead_keys [] peers = peers
clean_dead_keys (b ∷ bs) peers = clean_dead_keys bs (put b none peers)

pub data UdpStep {B : Type 0} ⦃e : Eq B⦄ : UdpServer B → UdpServer B → Type 0 where
  arrives :
      (s : UdpServer B) (p : B × ℕ)
      → UdpStep s (record s { queue = s.queue ++ (p ∷ []); arrived = s.arrived ++ (p ∷ []) })
  cleans :
      (s : UdpServer B)
      → s.loop_at ≡ cleaning
      → UdpStep s (record s {
        peers = clean_dead_keys s.keys_to_delete s.peers;
        keys_to_delete = [];
        loop_at = peeking;
      })
  -- The sender has a stream.
  notifies :
      (s : UdpServer B) (b : B) (data_of : ℕ) (rest : List (B × ℕ)) (i : ℕ)
      → s.loop_at ≡ peeking
      → s.queue ≡ (b, data_of) ∷ rest
      → s.peers b ≡ some i
      → UdpStep s (record s { has_data = put i true s.has_data; loop_at = awaits i })
  -- A new sender: its stream is handed on.
  accepts :
      (s : UdpServer B) (b : B) (data_of : ℕ) (rest : List (B × ℕ))
      → s.loop_at ≡ peeking
      → s.queue ≡ (b, data_of) ∷ rest
      → s.peers b ≡ none
      → UdpStep s (record s {
        peers = put b (some s.next) s.peers;
        peer = put s.next (some b) s.peer;
        alive = put s.next true s.alive;
        has_data = put s.next true s.has_data;
        has_read = put s.next false s.has_read;
        loop_at = awaits s.next;
        next = suc s.next;
      })
  reads :
      (s : UdpServer B) (i : ℕ) (p : B × ℕ) (rest : List (B × ℕ))
      → s.alive i ≡ true
      → s.has_data i ≡ true
      → s.queue ≡ p ∷ rest
      → UdpStep s (record s {
        queue = rest;
        delivered = s.delivered ++ ((i, p) ∷ []);
        has_data = put i false s.has_data;
        has_read = put i true s.has_read;
      })
  -- The server goes on when the stream has read, or is dropped.
  goes_on :
      (s : UdpServer B) (i : ℕ)
      → s.loop_at ≡ awaits i
      → s.has_read i ≡ true
      → UdpStep s (record s { loop_at = cleaning; has_read = put i false s.has_read })
  -- A stream is dropped, after its timeout or when its tunnel ends.
  drops :
      (s : UdpServer B) (i : ℕ) (b : B)
      → s.alive i ≡ true
      → s.peer i ≡ some b
      → UdpStep s (record s {
        keys_to_delete = s.keys_to_delete ++ (b ∷ []);
        alive = put i false s.alive;
        has_read = put i true s.has_read;
      })

abbrev pub no_peer : {B : Type 0} → UdpServer B
no_peer = record {
  queue = [];
  arrived = [];
  delivered = [];
  peers = λ b. none;
  keys_to_delete = [];
  loop_at = cleaning;
  peer = λ i. none;
  alive = λ i. false;
  has_data = λ i. false;
  has_read = λ i. false;
  next = 0;
}

-- What the server reaches from `run_server`.
pub data UdpReachable {B : Type 0} ⦃e : Eq B⦄ : UdpServer B → Type 0 where
  new : UdpReachable no_peer
  step : (s s' : UdpServer B) → UdpReachable s → UdpStep s s' → UdpReachable s'
