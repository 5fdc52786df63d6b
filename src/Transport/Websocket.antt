-- ===== src/Transport/Websocket.antt =====
-- The writing half of a WebSocket tunnel: `WebsocketTunnelWrite` of
-- wstunnel/src/tunnel/transport/websocket.rs. The socket and the allocator are a parameter.
use wstunnel.Prelude.{
  ℕ, ◌+◌, ◌-◌, ◌/◌, ◌%◌, Bool, ◌&&◌, List, [], ◌∷◌, ◌++◌, length, leb, ltb, ◌==◌, if◌then◌else◌,
}

pub data OpCode : Type 0 where
  continuation text binary close ping pong : OpCode

pub record Frame : Type 0 where
  pub opcode : OpCode
  pub payload : List ℕ

pub data ErrorKind : Type 0 where
  connection_aborted broken_pipe not_connected : ErrorKind

-- How an operation ends: `Ok`, an error, or the panic of `unreachable!`.
pub data Ended : Type 0 where
  done : Ended
  failed : ErrorKind → Ended
  panicked : Ended

-- Whether the socket takes a frame after those sent, whether it flushes them, and the capacity that
-- an empty buffer of a capacity has after `reserve`.
pub record Link : Type 0 where
  pub accepts : List Frame → Frame → Bool
  pub flushes : List Frame → Bool
  pub reserve : ℕ → ℕ → ℕ

-- `sent` holds the frames written, the first one first; `pending_operations` is the channel.
pub record Writer : Type 0 where
  pub buf : List ℕ
  pub capacity : ℕ
  pub pending_operations : List Frame
  pub in_flight_ping : ℕ
  pub sent : List Frame

abbrev pub max_packet_length : ℕ
max_packet_length = 65536

abbrev pub max_capacity : ℕ
max_capacity = 33554432

abbrev pub usize_mod : ℕ
usize_mod = 18446744073709551616

-- `WebsocketTunnelWrite::new`.
abbrev pub new_writer : Writer
new_writer = record {
  buf = [];
  capacity = max_packet_length;
  pending_operations = [];
  in_flight_ping = 0;
  sent = [];
}

abbrev pub frame : OpCode → List ℕ → Frame
frame opcode payload = record { opcode = opcode; payload = payload }

-- `Frame::close(1000, &[])`: the code in two bytes.
abbrev pub close_frame : Frame
close_frame = frame close (3 ∷ 232 ∷ [])

module _ (link : Link) where
  -- Writes a frame, or ends with the error given.
  unfoldable pub write_frame : Writer → Frame → ErrorKind → Ended × Writer
  write_frame w f error =
      if link.accepts w.sent f
      then (done, record w { sent = w.sent ++ (f ∷ []) })
      else (failed error, w)

  -- The capacity of the buffer after a write of `read_len` bytes.
  unfoldable pub grown : ℕ → ℕ → ℕ
  grown capacity read_len =
      if (capacity == read_len) && ltb capacity max_capacity
      then link.reserve capacity (capacity + capacity / 4)
      else capacity

  -- After a frame: flush, clear the buffer, and grow it if the read filled it.
  unfoldable pub flush_and_grow : Writer → Ended → Ended × Writer
  unfolding grown
  flush_and_grow w (failed e) = (failed e, w)
  flush_and_grow w panicked = (panicked, w)
  flush_and_grow w done =
      if link.flushes w.sent
      then (done, record w { buf = []; capacity = grown w.capacity (length w.buf) })
      else (failed connection_aborted, w)

  unfoldable pub write : Writer → Ended × Writer
  unfolding write_frame flush_and_grow
  write w = let r = write_frame w (frame binary w.buf) connection_aborted in flush_and_grow r.1 r.0

  -- The counter goes up, with its wrap-around, whether or not the ping is sent.
  unfoldable pub send_ping : Writer → Ended × Writer
  unfolding write_frame
  send_ping w =
      let counted = record w { in_flight_ping = (w.in_flight_ping + 1) % usize_mod } in
      if leb 3 w.in_flight_ping
      then (failed connection_aborted, counted)
      else write_frame counted (frame ping []) broken_pipe

  unfoldable pub send_close : Writer → Ended × Writer
  unfolding write_frame
  send_close w = write_frame w close_frame broken_pipe

  -- One frame of the channel, by its opcode; `fetch_sub` wraps around.
  unfoldable pub handle_frame : Writer → OpCode → List ℕ → Ended × Writer
  unfolding write_frame
  handle_frame w close payload = write_frame w (frame close payload) connection_aborted
  handle_frame w ping payload = write_frame w (frame pong payload) connection_aborted
  handle_frame w pong payload =
      (done, record w { in_flight_ping = (w.in_flight_ping + (usize_mod - 1)) % usize_mod })
  handle_frame w continuation payload = (panicked, w)
  handle_frame w text payload = (panicked, w)
  handle_frame w binary payload = (panicked, w)

  -- The frames of the channel in turn, up to the first that fails; those handled are gone from it.
  unfoldable pub handle_all : List Frame → Writer → Ended × Writer
  unfolding handle_frame
  handle_all [] w = (done, record w { pending_operations = [] })
  handle_all (f ∷ fs) w =
      let r = handle_frame (record w { pending_operations = fs }) f.opcode f.payload in
      elim r.0 [ done ↦ handle_all fs r.1 | stopped ↦ (stopped, r.1) ]

  unfoldable pub handle_pending_operations : Writer → Ended × Writer
  unfolding handle_all
  handle_pending_operations w = handle_all w.pending_operations w
