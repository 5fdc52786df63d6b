-- ===== src/ReverseServer.antt =====
-- wstunnel/src/tunnel/server/reverse_tunnel.rs: the servers that clients of reverse tunnels share, by
-- the address that they listen on. Each step is what runs between two points where another task can
-- run; a task is a number, and its variables are maps from it.
pub mod Served
use wstunnel.Prelude.{
  ℕ, suc, ◌<◌, ◌≡◌, ◌≢◌, ◌⊎◌, Bool, Option, none, some, List, [], ◌∷◌, ◌++◌, Eq, nat_eq, put,
  if◌then◌else◌, length,
}
use wstunnel.Net.{RemoteAddr}

-- A connection that a listener accepted, with the address it listens on.
pub record Cnx (B : Type 0) : Type 0 where
  pub from_addr : B
  pub stream : ℕ
  pub remote : RemoteAddr

-- A call of `run_listening_server`: before it looks for a server, while a new one starts to listen,
-- while it waits for a connection of a task, and its results; `gone` is a call that is dropped.
pub data Client (B : Type 0) : Type 0 where
  asking generating : B → Client B
  waits_on : B → ℕ → Client B
  served : B → Cnx B → Client B
  failed gone : Client B

-- The task of a server: not polled yet, in its loop, out of it or aborted, and gone.
pub data Phase : Type 0 where
  spawned running stopping ended : Phase

-- `servers` is the shared map; a task that is not spawned has no address. `seen` is
-- `nb_seen_clients`, `queue` the channel, and `pending` the connection that is being sent on it.
pub record Servers (B : Type 0) : Type 0 where
  pub servers : B → Option ℕ
  pub clients : ℕ → Client B
  pub address : ℕ → Option B
  pub phase : ℕ → Phase
  pub seen : ℕ → ℕ
  pub pending : ℕ → Option (Cnx B)
  pub queue : ℕ → List (Cnx B)
  pub next : ℕ

-- `AbortHandle::abort`: the guard of a task that was never polled does not exist.
unfoldable pub aborted : Phase → Phase
aborted spawned = ended
aborted running = stopping
aborted stopping = stopping
aborted ended = ended

-- The item of a server is dropped, if there is one.
unfoldable pub drop_item : Option ℕ → (ℕ → Phase) → ℕ → Phase
unfolding put aborted
drop_item none phase = phase
drop_item (some t) phase = put t (aborted (phase t)) phase

abbrev pub capacity : ℕ
capacity = 10

-- The task is in its loop, for the address.
abbrev pub Runs : {B : Type 0} → Servers B → ℕ → B → Type 0
Runs s t b = (s.phase t ≡ running) × (s.address t ≡ some b)

abbrev pub Waits : {B : Type 0} → Servers B → ℕ → Type 0
Waits {B} s t = (c : ℕ) × (b : B) × (s.clients c ≡ waits_on b t)

pub data Step {B : Type 0} ⦃e : Eq B⦄ : Servers B → Servers B → Type 0 where
  asks :
      (s : Servers B) (c : ℕ) (b : B)
      → s.clients c ≡ gone
      → Step s (record s { clients = put c (asking b) s.clients })
  joins :
      (s : Servers B) (c : ℕ) (b : B) (t : ℕ)
      → s.clients c ≡ asking b
      → s.servers b ≡ some t
      → Step s (record s {
        clients = put c (waits_on b t) s.clients;
        seen = put t (suc (s.seen t)) s.seen;
      })
  generates :
      (s : Servers B) (c : ℕ) (b : B)
      → s.clients c ≡ asking b
      → s.servers b ≡ none
      → Step s (record s { clients = put c (generating b) s.clients })
  cannot_listen :
      (s : Servers B) (c : ℕ) (b : B)
      → s.clients c ≡ generating b
      → Step s (record s { clients = put c failed s.clients })
  listens :
      (s : Servers B) (c : ℕ) (b : B)
      → s.clients c ≡ generating b
      → Step s (record s {
        servers = put b (some s.next) s.servers;
        clients = put c (waits_on b s.next) s.clients;
        address = put s.next (some b) s.address;
        phase = drop_item (s.servers b) (put s.next spawned s.phase);
        seen = put s.next 1 s.seen;
        next = suc s.next;
      })
  first_poll :
      (s : Servers B) (t : ℕ)
      → s.phase t ≡ spawned
      → Step s (record s { phase = put t running s.phase })
  accepts :
      (s : Servers B) (t : ℕ) (b : B) (x : Cnx B)
      → Runs s t b
      → s.pending t ≡ none
      → x.from_addr ≡ b
      → Step s (record s { pending = put t (some x) s.pending })
  sends :
      (s : Servers B) (t : ℕ) (b : B) (x : Cnx B)
      → Runs s t b
      → s.pending t ≡ some x
      → length (s.queue t) < capacity
      → Step s (record s {
        pending = put t none s.pending;
        queue = put t (s.queue t ++ (x ∷ [])) s.queue;
      })
  gives_up :
      (s : Servers B) (t : ℕ) (b : B) (x : Cnx B)
      → Runs s t b
      → s.pending t ≡ some x
      → length (s.queue t) ≡ capacity
      → Step s (record s { pending = put t none s.pending; phase = put t stopping s.phase })
  listener_ends :
      (s : Servers B) (t : ℕ) (b : B)
      → Runs s t b
      → s.pending t ≡ none
      → Step s (record s { phase = put t stopping s.phase })
  ticks :
      (s : Servers B) (t : ℕ) (b : B)
      → Runs s t b
      → s.pending t ≡ none
      → (s.seen t ≢ 0) ⊎ Waits s t
      → Step s (record s { seen = put t 0 s.seen })
  ticks_idle :
      (s : Servers B) (t : ℕ) (b : B)
      → Runs s t b
      → s.pending t ≡ none
      → s.seen t ≡ 0
      → (Waits s t → ⊥)
      → Step s (record s { phase = put t stopping s.phase })
  ends :
      (s : Servers B) (t : ℕ) (b : B)
      → s.phase t ≡ stopping
      → s.address t ≡ some b
      → Step s (record s {
        servers = put b none s.servers;
        phase = put t ended (drop_item (s.servers b) s.phase);
      })
  receives :
      (s : Servers B) (c : ℕ) (b : B) (t : ℕ) (x : Cnx B) (rest : List (Cnx B))
      → s.clients c ≡ waits_on b t
      → s.queue t ≡ x ∷ rest
      → Step s (record s { clients = put c (served b x) s.clients; queue = put t rest s.queue })
  is_stopped :
      (s : Servers B) (c : ℕ) (b : B) (t : ℕ)
      → s.clients c ≡ waits_on b t
      → s.queue t ≡ []
      → s.phase t ≡ ended
      → Step s (record s { clients = put c failed s.clients })
  is_dropped : (s : Servers B) (c : ℕ) → Step s (record s { clients = put c gone s.clients })

abbrev pub none_yet : {B : Type 0} → Servers B
none_yet = record {
  servers = λ b. none;
  clients = λ c. gone;
  address = λ t. none;
  phase = λ t. ended;
  seen = λ t. 0;
  pending = λ t. none;
  queue = λ t. [];
  next = 0;
}

-- What the server reaches from `ReverseTunnelServer::new`.
pub data Reachable {B : Type 0} ⦃e : Eq B⦄ : Servers B → Type 0 where
  new : Reachable none_yet
  step : (s s' : Servers B) → Reachable s → Step s s' → Reachable s'
