-- ===== src/Transport/Silence.antt =====
-- A peer that never answers: `propagate_local_to_remote` gives up.
use wstunnel.Prelude.{
  ℕ, suc, ◌+◌, ◌≤◌, ◌≡◌, ◌≢◌, refl, sym, inl, inr, true, List, [], ◌∷◌, ◌++◌, All, arith,
  Bool-cases, leb,
}
use mathlib.Core.Path.{subst}
use wstunnel.Transport.Websocket.{
  binary, ping, frame, Link, Writer, write_frame, flush_and_grow, write, send_ping, handle_all,
  handle_pending_operations,
}
use wstunnel.Transport.Propagate.{
  Event, arrives, notified, read_buf, read_error, should_close, tick, Stop, waiting, closed,
  ping_failed, dead, leave, resume, resume_ping, turn, propagate_local_to_remote,
}
use wstunnel.Transport.Sending.{on_waiting, loop_cons}

-- A peer that sends nothing.
abbrev pub Silent : Event → Type 0
Silent (arrives f) = ⊥
Silent _ = Unit

abbrev pub ticks : List Event → ℕ
ticks [] = 0
ticks (tick ∷ es) = suc (ticks es)
ticks (_ ∷ es) = ticks es

-- The counter of pings and the empty channel, after a turn that goes on.
abbrev Unmoved : Writer → ℕ → Stop × Writer → Type 0
Unmoved w pings r =
    r.0 ≡ waiting → (r.1.pending_operations ≡ []) × (r.1.in_flight_ping ≡ w.in_flight_ping + pings)

abbrev pings_of : Event → ℕ
pings_of tick = 1
pings_of _ = 0

module _ (link : Link) where
  write_keeps :
      (w : Writer) (new : List ℕ)
      → w.pending_operations ≡ []
      → Unmoved w 0 (resume link (write link (record w { buf = w.buf ++ new })))
  unfolding resume leave write write_frame flush_and_grow
  write_keeps w new idle = elim (Bool-cases (link.accepts w.sent (frame binary (w.buf ++ new)))) [
    | inl y ↦ elim (Bool-cases (link.flushes (w.sent ++ (frame binary (w.buf ++ new) ∷ [])))) [
      | inl y' ↦ rw (y, y') (λ e. (idle, omega arith))
      | inr n' ↦ rw (y, n') (λ e. cc)
    ]
    | inr n ↦ rw n (λ e. cc)
  ]

  ping_counts :
      (w : Writer)
      → w.pending_operations ≡ []
      → w.in_flight_ping ≤ 3
      → Unmoved w 1 (resume_ping link (send_ping link w))
        × (w.in_flight_ping ≡ 3 → (resume_ping link (send_ping link w)).0 ≢ waiting)
  unfolding resume_ping send_ping write_frame
  ping_counts w idle low = elim (Bool-cases (leb 3 w.in_flight_ping)) [
    | inl y ↦ rw y ((λ e. cc), λ three e. cc)
    | inr n ↦ elim (Bool-cases (link.accepts w.sent (frame ping []))) [
      | inl a ↦ rw (n, a) ((λ e. (idle, omega arith)), λ three. absurd (ground arith))
      | inr b ↦ rw (n, b) ((λ e. cc), λ three e. cc)
    ]
  ]

  turn_counts :
      (e : Event) (w : Writer)
      → Silent e
      → w.pending_operations ≡ []
      → w.in_flight_ping ≤ 3
      → Unmoved w (pings_of e) (turn link true e w)
        × (pings_of e ≡ 1 → w.in_flight_ping ≡ 3 → (turn link true e w).0 ≢ waiting)
  unfolding turn leave resume handle_pending_operations handle_all
  turn_counts (arrives f) w quiet idle low = absurd quiet
  turn_counts notified w quiet idle low =
      rw idle ((λ e. (refl, omega arith)), λ one. absurd (omega arith))
  turn_counts (read_buf []) w quiet idle low = ((λ e. cc), λ one. absurd (omega arith))
  turn_counts (read_buf (b ∷ bs)) w quiet idle low =
      (write_keeps w (b ∷ bs) idle, λ one. absurd (omega arith))
  turn_counts read_error w quiet idle low = ((λ e. cc), λ one. absurd (omega arith))
  turn_counts should_close w quiet idle low = ((λ e. cc), λ one. absurd (omega arith))
  turn_counts tick w quiet idle low =
      let (counts, stops) = ping_counts w idle low in (counts, λ one. stops)

  ticks_cons : (e : Event) (es : List Event) → ticks (e ∷ es) ≡ pings_of e + ticks es
  ticks_cons (arrives f) es = omega arith
  ticks_cons notified es = omega arith
  ticks_cons (read_buf bs) es = omega arith
  ticks_cons read_error es = omega arith
  ticks_cons should_close es = omega arith
  ticks_cons tick es = omega arith

  pings_of_bound : (e : Event) → pings_of e ≤ 1
  pings_of_bound (arrives f) = omega arith
  pings_of_bound notified = omega arith
  pings_of_bound (read_buf bs) = omega arith
  pings_of_bound read_error = omega arith
  pings_of_bound should_close = omega arith
  pings_of_bound tick = omega arith

  gives_up :
      (es : List Event) (w : Writer) (pings : ℕ) (r : Stop × Writer)
      → pings ≤ 1
      → w.in_flight_ping ≤ 3
      → 4 ≤ w.in_flight_ping + (pings + ticks es)
      → Unmoved w pings r
      → (pings ≡ 1 → w.in_flight_ping ≡ 3 → r.0 ≢ waiting)
      → ((w : Writer)
          → w.pending_operations ≡ []
          → w.in_flight_ping ≤ 3
          → 4 ≤ w.in_flight_ping + ticks es
          → (propagate_local_to_remote link true es w).0 ≢ waiting)
      → (on_waiting link true es r).0 ≢ waiting
  gives_up es w pings (waiting, w') few low enough kept full more =
      let (idle, counted) = kept refl in
      let room : (pings ≡ 1 → w.in_flight_ping ≡ 3 → ⊥) = λ one three. full one three refl in
      more w' idle (ground arith) (omega arith)
  gives_up es w pings (closed, w') few low enough kept full more = λ e. cc
  gives_up es w pings (ping_failed, w') few low enough kept full more = λ e. cc
  gives_up es w pings (dead, w') few low enough kept full more = λ e. cc

  -- A peer that sends nothing is given up: with an empty channel and at most three pings in flight
  -- at the start, whatever the local stream and the socket do, the loop no longer waits once the
  -- ticks of the timer and the pings in flight at the start are four together.
  pub propagate_local_to_remote-Silent :
      (es : List Event) (w : Writer)
      → All Silent es
      → w.pending_operations ≡ []
      → w.in_flight_ping ≤ 3
      → 4 ≤ w.in_flight_ping + ticks es
      → (propagate_local_to_remote link true es w).0 ≢ waiting
  propagate_local_to_remote-Silent [] w quiet idle low enough = absurd (omega arith)
  propagate_local_to_remote-Silent (e ∷ es) w (quiet, more) idle low enough =
      let (kept, full) = turn_counts e w quiet idle low in
      subst (λ r. r.0 ≢ waiting) (sym (loop_cons link true e es w))
        (gives_up es w (pings_of e) (turn link true e w) (pings_of_bound e) low
          (omega (arith, ticks_cons e es)) kept full
          (λ w'. propagate_local_to_remote-Silent es w' more))
