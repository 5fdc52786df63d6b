-- ===== src/Transport/Propagate.antt =====
-- `propagate_local_to_remote` of wstunnel/src/tunnel/transport/io.rs, over a WebSocket tunnel.
use wstunnel.Prelude.{ℕ, Bool, true, false, List, [], ◌∷◌, ◌++◌}
use wstunnel.Transport.Websocket.{
  Frame, Ended, done, failed, panicked, Link, Writer, write, send_ping, send_close,
  handle_pending_operations,
}

-- What happens while the loop waits: the reading half sends a frame on the channel, the
-- notification wakes the loop, the local stream gives bytes, none of them at its end, or fails, the
-- other direction closes, or the timer ticks.
pub data Event : Type 0 where
  arrives : Frame → Event
  notified : Event
  read_buf : List ℕ → Event
  read_error : Event
  should_close : Event
  tick : Event

-- Where the loop is: waiting, left by `break` with its close frame, left by the error of a ping, or
-- dead.
pub data Stop : Type 0 where
  waiting closed ping_failed dead : Stop

module _ (link : Link) where
  -- `break`: the close frame, whatever becomes of it.
  unfoldable pub leave : Writer → Stop × Writer
  unfolding send_close
  leave w = (closed, (send_close link w).1)

  -- After `Ok` the loop waits again, an error breaks it.
  unfoldable pub resume : Ended × Writer → Stop × Writer
  unfolding leave
  resume (done, w) = (waiting, w)
  resume (failed e, w) = leave w
  resume (panicked, w) = (dead, w)

  -- The error of a ping is returned at once.
  unfoldable pub resume_ping : Ended × Writer → Stop × Writer
  resume_ping (done, w) = (waiting, w)
  resume_ping (failed e, w) = (ping_failed, w)
  resume_ping (panicked, w) = (dead, w)

  -- One turn of the loop. Without a ping frequency a tick is not looked at.
  unfoldable pub turn : Bool → Event → Writer → Stop × Writer
  unfolding leave resume resume_ping write send_ping handle_pending_operations
  turn pings (arrives f) w =
      (waiting, record w { pending_operations = w.pending_operations ++ (f ∷ []) })
  turn pings notified w = resume (handle_pending_operations link w)
  turn pings (read_buf []) w = leave w
  turn pings (read_buf (b ∷ bs)) w = resume (write link (record w { buf = w.buf ++ (b ∷ bs) }))
  turn pings read_error w = leave w
  turn pings should_close w = leave w
  turn false tick w = (waiting, w)
  turn true tick w = resume_ping (send_ping link w)

  unfoldable pub propagate_local_to_remote : Bool → List Event → Writer → Stop × Writer
  unfolding turn
  propagate_local_to_remote pings [] w = (waiting, w)
  propagate_local_to_remote pings (e ∷ es) w =
      let r = turn pings e w in
      elim r.0 [ waiting ↦ propagate_local_to_remote pings es r.1 | stopped ↦ (stopped, r.1) ]
