-- ===== src/Transport/Http2.antt =====
-- The halves of an HTTP/2 tunnel, wstunnel/src/tunnel/transport/http2.rs, and the two loops of io.rs over
-- them. The pings, the close and the notifications of this transport do nothing.
use wstunnel.Prelude.{
  ℕ, zero, suc, Bool, true, false, Option, none, some, List, [], ◌∷◌, ◌++◌, if◌then◌else◌,
}

-- What the stream of a body gives; after the last item it ends.
pub data BodyItem : Type 0 where
  data_frame : List ℕ → BodyItem
  trailers stream_error : BodyItem

-- `Ok`, `ConnectionAborted` and `BrokenPipe`.
pub data CopyEnd : Type 0 where
  copied aborted closed : CopyEnd

-- The bytes delivered so far, and whether the local stream takes some more.
module _ (accepts : List ℕ → List ℕ → Bool) where
  abbrev pub deliver : List ℕ → List BodyItem → List ℕ → CopyEnd × List BodyItem × List ℕ
  deliver bytes items delivered =
      if accepts delivered bytes
      then (copied, items, delivered ++ bytes)
      else (aborted, items, delivered)

  unfoldable pub http2_copy : List BodyItem → List ℕ → CopyEnd × List BodyItem × List ℕ
  http2_copy [] delivered = (closed, [], delivered)
  http2_copy (data_frame bytes ∷ items) delivered = deliver bytes items delivered
  http2_copy (trailers ∷ items) delivered = http2_copy items delivered
  http2_copy (stream_error ∷ items) delivered = (aborted, items, delivered)

  -- `propagate_remote_to_local`: the bytes delivered, or out of fuel.
  unfoldable pub http2_receive : ℕ → List BodyItem → List ℕ → Option (List ℕ)
  unfolding http2_copy
  http2_receive zero items delivered = none
  http2_receive (suc fuel) items delivered =
      let (ended, rest, now) = http2_copy items delivered in
      elim ended [ copied ↦ http2_receive fuel rest now | stopped ↦ some now ]

-- The buffer, and what was sent on the channel of the body.
pub record Http2Writer : Type 0 where
  pub buf : List ℕ
  pub sent : List (List ℕ)

-- What wakes `propagate_local_to_remote`.
pub data LocalEvent : Type 0 where
  read_buf : List ℕ → LocalEvent
  read_error should_close tick : LocalEvent

-- Whether the channel has a receiver after what was sent.
module _ (is_open : List (List ℕ) → Bool) where
  unfoldable pub http2_write : Http2Writer → Bool × Http2Writer
  http2_write w =
      if is_open w.sent
      then (true, record { buf = []; sent = w.sent ++ (w.buf ∷ []) })
      else (false, record w { buf = [] })

  -- One turn of the loop, and whether it goes on.
  unfoldable pub http2_turn : LocalEvent → Http2Writer → Bool × Http2Writer
  unfolding http2_write
  http2_turn (read_buf []) w = (false, w)
  http2_turn (read_buf (b ∷ bs)) w = http2_write (record w { buf = w.buf ++ (b ∷ bs) })
  http2_turn read_error w = (false, w)
  http2_turn should_close w = (false, w)
  http2_turn tick w = (true, w)

  unfoldable pub http2_send : List LocalEvent → Http2Writer → Http2Writer
  unfolding http2_turn
  http2_send [] w = w
  http2_send (e ∷ es) w = let r = http2_turn e w in if r.0 then http2_send es r.1 else r.1
