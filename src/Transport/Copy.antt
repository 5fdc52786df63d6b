-- ===== src/Transport/Copy.antt =====
-- The reading half: `WebsocketTunnelRead::copy` of wstunnel/src/tunnel/transport/websocket.rs, and
-- `propagate_remote_to_local` of wstunnel/src/tunnel/transport/io.rs that repeats it.
use wstunnel.Prelude.{ℕ, zero, suc, Bool, List, [], ◌∷◌, ◌++◌, Option, none, some, if◌then◌else◌}
use wstunnel.Transport.Websocket.{
  OpCode, continuation, text, binary, close, ping, pong, Frame, frame, close_frame, Ended, done,
  failed, connection_aborted, not_connected,
}

-- What the reader has done: the frames sent on the channel to the writer, and the bytes written to
-- the local stream, both in order.
pub record Reader : Type 0 where
  pub pending_operations : List Frame
  pub delivered : List ℕ

-- Whether the channel still has its receiver, and whether the local stream takes the bytes.
pub record Peers : Type 0 where
  pub receives : List Frame → Bool
  pub takes : List ℕ → List ℕ → Bool

-- One turn of the loop of `copy`: it returns, or reads another frame.
pub data Turned : Type 0 where
  returns : Ended → Reader → Turned
  again : Reader → Turned

module _ (peers : Peers) where
  unfoldable pub deliver : Reader → List ℕ → Turned
  deliver r payload =
      if peers.takes r.delivered payload
      then returns done (record r { delivered = r.delivered ++ payload })
      else returns (failed connection_aborted) r

  -- Sends a frame on the channel; a full channel delays it and drops nothing.
  unfoldable pub forward : Reader → Frame → Turned
  forward r f =
      if peers.receives r.pending_operations
      then again (record r { pending_operations = r.pending_operations ++ (f ∷ []) })
      else returns (failed connection_aborted) r

  -- The close frame is sent on the channel if it has a receiver.
  unfoldable pub closing : Reader → Turned
  closing r =
      if peers.receives r.pending_operations
      then returns (failed not_connected)
          (record r { pending_operations = r.pending_operations ++ (close_frame ∷ []) })
      else returns (failed not_connected) r

  unfoldable pub receive : Reader → OpCode → List ℕ → Turned
  unfolding deliver forward closing
  receive r continuation payload = deliver r payload
  receive r text payload = deliver r payload
  receive r binary payload = deliver r payload
  receive r close payload = closing r
  receive r ping payload = forward r (frame ping payload)
  receive r pong payload = forward r (frame pong [])

  -- One call of `copy` on the frames that the peer sends; at their end the read fails.
  unfoldable pub copy : List Frame → Reader → Ended × List Frame × Reader
  unfolding receive
  copy [] r = (failed connection_aborted, [], r)
  copy (f ∷ fs) r = elim (receive r f.opcode f.payload) [
    | returns e r' ↦ (e, fs, r')
    | again r' ↦ copy fs r'
  ]

  -- The loop: it ends at the first error, `some` the reader, or runs out of fuel. The signal of the
  -- other direction ends it as the end of the frames does.
  unfoldable pub propagate_remote_to_local : ℕ → List Frame → Reader → Option Reader
  unfolding copy
  propagate_remote_to_local zero fs r = none
  propagate_remote_to_local (suc fuel) fs r =
      let (ended, rest, r') = copy fs r in
      elim ended [ done ↦ propagate_remote_to_local fuel rest r' | stopped ↦ some r' ]
