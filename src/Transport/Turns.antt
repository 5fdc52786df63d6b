-- ===== src/Transport/Turns.antt =====
-- What one turn of `propagate_local_to_remote` sends.
use wstunnel.Prelude.{
  ℕ, ◌+◌, ◌%◌, leb, ◌≡◌, refl, sym, ap, ◌∙◌, inl, inr, Bool, true, false, List, [], ◌∷◌, ◌++◌,
  Bool-cases,
}
use mathlib.Core.Path.{subst}
use mathlib.Core.List.{append_assoc, append-nil}
use wstunnel.Transport.Websocket.{
  OpCode, continuation, text, binary, close, ping, pong, Frame, frame, Ended, done, failed,
  panicked, ErrorKind, connection_aborted, broken_pipe, Link, Writer, write_frame, handle_frame,
  handle_all, handle_pending_operations, write, flush_and_grow, send_ping, send_close, usize_mod,
}
use wstunnel.Transport.Propagate.{
  Event, arrives, notified, read_buf, read_error, should_close, tick, Stop, waiting, leave, resume,
  resume_ping, turn,
}

abbrev pub bytes_of : OpCode → List ℕ → List ℕ
bytes_of continuation payload = payload
bytes_of text payload = payload
bytes_of binary payload = payload
bytes_of close payload = []
bytes_of ping payload = []
bytes_of pong payload = []

-- The payloads of the data frames.
abbrev pub data_bytes : List Frame → List ℕ
data_bytes [] = []
data_bytes (f ∷ fs) = bytes_of f.opcode f.payload ++ data_bytes fs

-- The bytes that the local stream gives, up to its end, its error or the closing signal.
abbrev pub read_bytes : List Event → List ℕ
read_bytes [] = []
read_bytes (read_buf [] ∷ es) = []
read_bytes (read_buf (b ∷ bs) ∷ es) = (b ∷ bs) ++ read_bytes es
read_bytes (read_error ∷ es) = []
read_bytes (should_close ∷ es) = []
read_bytes (arrives f ∷ es) = read_bytes es
read_bytes (notified ∷ es) = read_bytes es
read_bytes (tick ∷ es) = read_bytes es

-- The bytes of one event.
abbrev pub event_bytes : Event → List ℕ
event_bytes (read_buf bs) = bs
event_bytes _ = []

data_bytes-append : (s t : List Frame) → data_bytes (s ++ t) ≡ data_bytes s ++ data_bytes t
data_bytes-append [] t = refl
data_bytes-append (f ∷ s) t =
    ap (λ x. bytes_of f.opcode f.payload ++ x) (data_bytes-append s t)
    ∙ sym (append_assoc (bytes_of f.opcode f.payload) (data_bytes s) (data_bytes t))

-- A control frame more carries no data.
data_bytes-control :
    (s : List Frame) (op : OpCode) (payload : List ℕ)
    → bytes_of op payload ≡ []
    → data_bytes (s ++ (frame op payload ∷ [])) ≡ data_bytes s
data_bytes-control s op payload e =
    data_bytes-append s (frame op payload ∷ []) ∙ rw e (append-nil (data_bytes s))

-- Neither the data sent nor the buffer changed.
abbrev pub Still : Writer → Writer → Type 0
Still w w' = (data_bytes w'.sent ≡ data_bytes w.sent) × (w'.buf ≡ w.buf)

module _ (link : Link) where
  write_frame-Still :
      (w : Writer) (op : OpCode) (payload : List ℕ) (error : ErrorKind)
      → bytes_of op payload ≡ []
      → Still w (write_frame link w (frame op payload) error).1
  unfolding write_frame
  write_frame-Still w op payload error e =
      elim (Bool-cases (link.accepts w.sent (frame op payload))) [
        | inl y ↦ rw y (data_bytes-control w.sent op payload e, refl)
        | inr n ↦ rw n (refl, refl)
      ]

  handle_frame-Still :
      (w : Writer) (op : OpCode) (payload : List ℕ) → Still w (handle_frame link w op payload).1
  unfolding handle_frame
  handle_frame-Still w close payload = write_frame-Still w close payload connection_aborted refl
  handle_frame-Still w ping payload = write_frame-Still w pong payload connection_aborted refl
  handle_frame-Still w pong payload = (refl, refl)
  handle_frame-Still w continuation payload = (refl, refl)
  handle_frame-Still w text payload = (refl, refl)
  handle_frame-Still w binary payload = (refl, refl)

  abbrev pub on_done : List Frame → Ended × Writer → Ended × Writer
  on_done fs r = elim r.0 [ done ↦ handle_all link fs r.1 | stopped ↦ (stopped, r.1) ]

  pub handle_all_cons :
      (f : Frame) (fs : List Frame) (w : Writer)
      → handle_all link (f ∷ fs) w
        ≡ on_done fs (handle_frame link (record w { pending_operations = fs }) f.opcode f.payload)
  unfolding handle_all
  handle_all_cons f fs w = refl

  stopped_or_on :
      (fs : List Frame) (w : Writer) (r : Ended × Writer)
      → Still w r.1
      → ((w : Writer) → Still w (handle_all link fs w).1)
      → Still w (on_done fs r).1
  stopped_or_on fs w (done, w') (s, b) more = let (s', b') = more w' in (s' ∙ s, b' ∙ b)
  stopped_or_on fs w (failed e, w') h more = h
  stopped_or_on fs w (panicked, w') h more = h

  handle_all-Still : (fs : List Frame) (w : Writer) → Still w (handle_all link fs w).1
  unfolding handle_all
  handle_all-Still [] w = (refl, refl)
  handle_all-Still (f ∷ fs) w =
      let w0 = record w { pending_operations = fs } in
      subst (λ r. Still w r.1) (sym (handle_all_cons f fs w))
        (stopped_or_on fs w (handle_frame link w0 f.opcode f.payload)
          (handle_frame-Still w0 f.opcode f.payload) (handle_all-Still fs))

  leave_lem : (w : Writer) → Still w (leave link w).1
  unfolding leave send_close
  leave_lem w = write_frame-Still w close (3 ∷ 232 ∷ []) broken_pipe refl

  -- After `new` bytes read: what was sent is a first part, and all of it while the loop goes on.
  abbrev pub Sends : Writer → List ℕ → Stop × Writer → Type 0
  Sends w new r =
      (rest : List ℕ) × (data_bytes w.sent ++ new ≡ data_bytes r.1.sent ++ rest)
      × (r.0 ≡ waiting → (rest ≡ []) × (r.1.buf ≡ []))

  resume-Still :
      (w : Writer) (r : Ended × Writer) → w.buf ≡ [] → Still w r.1 → Sends w [] (resume link r)
  unfolding resume leave
  resume-Still w (done, w') empty (s, b) = ([], rw s refl, λ e. (refl, b ∙ empty))
  resume-Still w (failed e, w') empty (s, b) =
      let (s', b') = leave_lem w' in ([], rw (s', s) refl, λ e. cc)
  resume-Still w (panicked, w') empty (s, b) = ([], rw s refl, λ e. cc)

  stopped_by_ping :
      (w : Writer) (r : Ended × Writer) → w.buf ≡ [] → Still w r.1 → Sends w [] (resume_ping link r)
  unfolding resume_ping
  stopped_by_ping w (done, w') empty (s, b) = ([], rw s refl, λ e. (refl, b ∙ empty))
  stopped_by_ping w (failed e, w') empty (s, b) = ([], rw s refl, λ e. cc)
  stopped_by_ping w (panicked, w') empty (s, b) = ([], rw s refl, λ e. cc)

  send_ping-Still : (w : Writer) → Still w (send_ping link w).1
  unfolding send_ping
  send_ping-Still w = elim (Bool-cases (leb 3 w.in_flight_ping)) [
    | inl y ↦ rw y (refl, refl)
    | inr n ↦ rw n (
        write_frame-Still (record w { in_flight_ping = (w.in_flight_ping + 1) % usize_mod }) ping []
          broken_pipe refl)
  ]

  left : (w : Writer) (new : List ℕ) → Sends w new (leave link w)
  unfolding leave
  left w new = (new, rw (leave_lem w).0 refl, λ e. cc)

  -- A read of bytes: the frame is not taken, is taken but not flushed, or both.
  read-Sends :
      (w : Writer) (new : List ℕ)
      → w.buf ≡ []
      → Sends w new (resume link (write link (record w { buf = w.buf ++ new })))
  unfolding write write_frame flush_and_grow resume
  read-Sends w new empty =
      let w1 = record w { buf = w.buf ++ new } in
      let f = frame binary (w.buf ++ new) in
      let w2 = record w1 { sent = w.sent ++ (f ∷ []) } in
      let bytes : data_bytes (w.sent ++ (f ∷ [])) ≡ data_bytes w.sent ++ new =
        data_bytes-append w.sent (f ∷ []) ∙ rw (empty, append-nil new) refl in
      elim (Bool-cases (link.accepts w.sent f)) [
        | inl y ↦ elim (Bool-cases (link.flushes (w.sent ++ (f ∷ [])))) [
          | inl y' ↦
              rw (y, y')
                (
                  [],
                  sym bytes ∙ sym (append-nil (data_bytes (w.sent ++ (f ∷ [])))),
                  λ e. (refl, refl),
                )
          | inr n' ↦
              rw (y, n')
                (
                  [],
                  rw ((leave_lem w2).0, bytes, append-nil (data_bytes w.sent ++ new)) refl,
                  λ e. cc,
                )
        ]
        | inr n ↦ rw n (new, rw (leave_lem w1).0 refl, λ e. cc)
      ]

  pub turn-Sends :
      (pings : Bool) (e : Event) (w : Writer)
      → w.buf ≡ []
      → Sends w (event_bytes e) (turn link pings e w)
  unfolding turn handle_pending_operations
  turn-Sends pings (arrives f) w empty = ([], refl, λ e. (refl, empty))
  turn-Sends pings notified w empty =
      resume-Still w _ empty (handle_all-Still w.pending_operations w)
  turn-Sends pings (read_buf []) w empty = left w []
  turn-Sends pings (read_buf (b ∷ bs)) w empty = read-Sends w (b ∷ bs) empty
  turn-Sends pings read_error w empty = left w []
  turn-Sends pings should_close w empty = left w []
  turn-Sends false tick w empty = ([], refl, λ e. (refl, empty))
  turn-Sends true tick w empty = stopped_by_ping w _ empty (send_ping-Still w)
