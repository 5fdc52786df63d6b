-- ===== src/Transport/Sending.antt =====
-- What `propagate_local_to_remote` sends: the bytes of the local stream, in order.
use wstunnel.Prelude.{ℕ, ◌≡◌, refl, sym, ◌∙◌, Bool, List, [], ◌∷◌, ◌++◌}
use mathlib.Core.Path.{subst}
use mathlib.Core.List.{append_assoc, append-nil}
use wstunnel.Transport.Websocket.{Link, Writer}
use wstunnel.Transport.Propagate.{
  Event, arrives, notified, read_buf, read_error, should_close, tick, Stop, waiting, closed,
  ping_failed, dead, leave, turn, propagate_local_to_remote,
}
use wstunnel.Transport.Turns.{data_bytes, read_bytes, Sends, event_bytes, turn-Sends}

module _ (link : Link) where
  -- What the events after `e` may still add: nothing, if `e` ends the loop.
  abbrev after : Event → List Event → List ℕ
  after (read_buf []) es = []
  after (read_buf (b ∷ bs)) es = read_bytes es
  after read_error es = []
  after should_close es = []
  after (arrives f) es = read_bytes es
  after notified es = read_bytes es
  after tick es = read_bytes es

  read_bytes-after :
      (e : Event) (es : List Event) → read_bytes (e ∷ es) ≡ event_bytes e ++ after e es
  read_bytes-after (read_buf []) es = refl
  read_bytes-after (read_buf (b ∷ bs)) es = refl
  read_bytes-after read_error es = refl
  read_bytes-after should_close es = refl
  read_bytes-after (arrives f) es = refl
  read_bytes-after notified es = refl
  read_bytes-after tick es = refl

  after-waiting :
      (pings : Bool) (e : Event) (es : List Event) (w : Writer)
      → (turn link pings e w).0 ≡ waiting
      → after e es ≡ read_bytes es
  unfolding turn leave
  after-waiting pings (read_buf []) es w h = cc
  after-waiting pings (read_buf (b ∷ bs)) es w h = refl
  after-waiting pings read_error es w h = cc
  after-waiting pings should_close es w h = cc
  after-waiting pings (arrives f) es w h = refl
  after-waiting pings notified es w h = refl
  after-waiting pings tick es w h = refl

  abbrev pub on_waiting : Bool → List Event → Stop × Writer → Stop × Writer
  on_waiting pings es r = elim r.0 [
    | waiting ↦ propagate_local_to_remote link pings es r.1
    | stopped ↦ (stopped, r.1)
  ]

  pub loop_cons :
      (pings : Bool) (e : Event) (es : List Event) (w : Writer)
      → propagate_local_to_remote link pings (e ∷ es) w ≡ on_waiting pings es (turn link pings e w)
  unfolding propagate_local_to_remote
  loop_cons pings e es w = refl

  abbrev SendsAll : Writer → List ℕ → Stop × Writer → Type 0
  SendsAll w new r =
      (rest : List ℕ) × (data_bytes w.sent ++ new ≡ data_bytes r.1.sent ++ rest)
      × (r.0 ≡ waiting → rest ≡ [])

  split_later :
      (w : Writer) (new later : List ℕ) (w' : Writer) (rest : List ℕ)
      → data_bytes w.sent ++ new ≡ data_bytes w'.sent ++ rest
      → data_bytes w.sent ++ (new ++ later) ≡ data_bytes w'.sent ++ (rest ++ later)
  split_later w new later w' rest e =
      sym (append_assoc (data_bytes w.sent) new later)
      ∙ rw e (append_assoc (data_bytes w'.sent) rest later)

  -- A turn, then the rest of the events.
  joined :
      (pings : Bool) (es : List Event) (w : Writer) (new later : List ℕ) (r : Stop × Writer)
      → Sends link w new r
      → (r.0 ≡ waiting → later ≡ read_bytes es)
      → ((w : Writer)
          → w.buf ≡ []
          → SendsAll w (read_bytes es) (propagate_local_to_remote link pings es w))
      → SendsAll w (new ++ later) (on_waiting pings es r)
  joined pings es w new later (waiting, w') (rest, e, h) same more =
      let (none_left, empty) = h refl in
      let (rest', e', h') = more w' empty in
      let begun : data_bytes w.sent ++ new ≡ data_bytes w'.sent =
        e ∙ rw none_left (append-nil (data_bytes w'.sent)) in
      (rest', sym (append_assoc (data_bytes w.sent) new later) ∙ rw (begun, same refl) e', h')
  joined pings es w new later (closed, w') (rest, e, h) same more =
      (rest ++ later, split_later w new later w' rest e, λ x. cc)
  joined pings es w new later (ping_failed, w') (rest, e, h) same more =
      (rest ++ later, split_later w new later w' rest e, λ x. cc)
  joined pings es w new later (dead, w') (rest, e, h) same more =
      (rest ++ later, split_later w new later w' rest e, λ x. cc)

  -- From an empty buffer, whatever the socket does and in whatever order the events come, the data
  -- frames sent carry, in order, a first part of the bytes of the local stream and nothing else;
  -- while the loop still waits, they carry all of them.
  pub propagate_local_to_remote_prefix :
      (pings : Bool) (es : List Event) (w : Writer)
      → w.buf ≡ []
      → (rest : List ℕ) × (data_bytes w.sent ++ read_bytes es
          ≡ data_bytes (propagate_local_to_remote link pings es w).1.sent ++ rest)
        × ((propagate_local_to_remote link pings es w).0 ≡ waiting → rest ≡ [])
  unfolding propagate_local_to_remote
  propagate_local_to_remote_prefix pings [] w empty = ([], refl, λ h. refl)
  propagate_local_to_remote_prefix pings (e ∷ es) w empty =
      subst (SendsAll w (read_bytes (e ∷ es))) (sym (loop_cons pings e es w)) (
        subst (λ x. SendsAll w x (on_waiting pings es (turn link pings e w)))
          (sym (read_bytes-after e es))
          (joined pings es w (event_bytes e) (after e es) (turn link pings e w)
            (turn-Sends link pings e w empty) (after-waiting pings e es w)
            (propagate_local_to_remote_prefix pings es)))
