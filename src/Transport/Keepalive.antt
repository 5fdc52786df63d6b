-- ===== src/Transport/Keepalive.antt =====
-- The pings of `propagate_local_to_remote`, and what the answers of the peer do to them.
use wstunnel.Prelude.{ℕ, zero, suc, ◌≡◌, refl, ap, ◌∙◌, true, List, [], ◌∷◌, ◌++◌}
use mathlib.Core.List.{append_assoc, append-nil}
use wstunnel.Transport.Websocket.{
  ping, pong, Frame, frame, Link, Writer, write_frame, send_ping, handle_frame, handle_all,
  handle_pending_operations,
}
use wstunnel.Transport.Propagate.{
  Event, arrives, notified, tick, waiting, ping_failed, turn, resume, resume_ping,
  propagate_local_to_remote,
}
use wstunnel.Transport.Sending.{on_waiting}

-- A timer's tick, the pong of the peer, and its handling, `n` times.
abbrev pub answered : ℕ → List Event
answered zero = []
answered (suc n) = tick ∷ arrives (frame pong []) ∷ notified ∷ answered n

abbrev pub pings_sent : ℕ → List Frame
pings_sent zero = []
pings_sent (suc n) = frame ping [] ∷ pings_sent n

module _ (link : Link) where
  abbrev rested : Writer → List Frame → Writer
  rested w sent = record w { pending_operations = []; in_flight_ping = 0; sent = sent }

  ping_turn :
      (w : Writer) (sent : List Frame)
      → link.accepts sent (frame ping []) ≡ true
      → turn link true tick (rested w sent) ≡ (
        waiting,
        record (rested w sent) { in_flight_ping = 1; sent = sent ++ (frame ping [] ∷ []) },
      )
  unfolding turn resume_ping send_ping write_frame
  ping_turn w sent e = rw e refl

  rounds :
      (n : ℕ) (w : Writer) (sent : List Frame)
      → ((sent : List Frame) → link.accepts sent (frame ping []) ≡ true)
      → propagate_local_to_remote link true (answered n) (rested w sent)
        ≡ (waiting, rested w (sent ++ pings_sent n))
  unfolding propagate_local_to_remote turn resume handle_pending_operations handle_all handle_frame
  rounds zero w sent accepts = rw (append-nil sent) refl
  rounds (suc n) w sent accepts =
      ap (on_waiting link true (arrives (frame pong []) ∷ notified ∷ answered n))
        (ping_turn w sent (accepts sent))
      ∙ rounds n w (sent ++ (frame ping [] ∷ [])) accepts
      ∙ rw (append_assoc sent (frame ping [] ∷ []) (pings_sent n)) refl

  -- A peer that answers each ping keeps the connection however long it lasts, where the socket
  -- takes every ping, and at the start no ping is in flight and the channel is empty: after `n`
  -- rounds of a tick, a pong and its handling, the loop waits and `n` pings were sent, with none in
  -- flight.
  pub propagate_local_to_remote-answered :
      (n : ℕ) (w : Writer)
      → ((sent : List Frame) → link.accepts sent (frame ping []) ≡ true)
      → w.in_flight_ping ≡ 0
      → w.pending_operations ≡ []
      → propagate_local_to_remote link true (answered n) w
        ≡ (waiting, record w { sent = w.sent ++ pings_sent n })
  unfolding propagate_local_to_remote turn resume resume_ping send_ping write_frame
      handle_pending_operations handle_all handle_frame
  propagate_local_to_remote-answered n w accepts none_left idle =
      rw (none_left, idle) (rounds n w w.sent accepts)

  -- While no ping is in flight and the channel is empty, a pong that comes unasked makes the next
  -- ping fail: the counter wraps below zero, and the loop ends at the next tick with the error of
  -- the ping, having sent nothing, not even a close frame.
  pub propagate_local_to_remote-unsolicited :
      (w : Writer) (payload : List ℕ)
      → w.in_flight_ping ≡ 0
      → w.pending_operations ≡ []
      → propagate_local_to_remote link true (arrives (frame pong payload) ∷ notified ∷ tick ∷ []) w
        ≡ (ping_failed, w)
  unfolding propagate_local_to_remote turn resume resume_ping send_ping write_frame
      handle_pending_operations handle_all handle_frame
  propagate_local_to_remote-unsolicited w payload none_left idle = rw (none_left, idle) refl
