-- ===== src/Transport/Complete.antt =====
-- The reading half with a local stream and a writing half that take everything.
use wstunnel.Prelude.{
  ℕ, zero, suc, ◌<◌, ◌≡◌, refl, ◌∙◌, true, some, List, [], ◌∷◌, ◌++◌, length, arith,
}
use mathlib.Core.List.{append_assoc, append-nil}
use wstunnel.Transport.Websocket.{
  OpCode, continuation, text, binary, close, ping, pong, Frame, frame, close_frame, done, failed,
  not_connected,
}
use wstunnel.Transport.Copy.{
  Reader, Peers, returns, again, deliver, forward, closing, receive, copy,
  propagate_remote_to_local,
}
use wstunnel.Transport.Delivery.{carried, carried_all, asked, asked_all, loop_turn}

module _ (peers : Peers) (takes : (old new : List ℕ) → peers.takes old new ≡ true)
    (receives : (fs : List Frame) → peers.receives fs ≡ true) where
  abbrev Whole : ℕ → List Frame → Reader → Type 0
  Whole fuel fs r =
      propagate_remote_to_local peers fuel fs r
      ≡ some (record {
        pending_operations = r.pending_operations ++ asked_all fs;
        delivered = r.delivered ++ carried_all fs;
      })

  data_complete :
      (opcode : OpCode) (payload : List ℕ) (fs : List Frame) (fuel : ℕ) (r : Reader)
      → ((r : Reader) → Whole fuel fs r)
      → receive peers r opcode payload ≡ deliver peers r payload
      → carried opcode payload (carried_all fs) ≡ payload ++ carried_all fs
      → asked opcode payload (asked_all fs) ≡ asked_all fs
      → Whole (suc fuel) (frame opcode payload ∷ fs) r
  unfolding deliver
  data_complete opcode payload fs fuel r more same bytes requests =
      loop_turn peers opcode payload fs fuel r
        (returns done (record r { delivered = r.delivered ++ payload }))
        (same ∙ rw (takes r.delivered payload) refl)
      ∙ more (record r { delivered = r.delivered ++ payload })
      ∙ rw (bytes, requests, append_assoc r.delivered payload (carried_all fs)) refl

  forward_complete :
      (opcode : OpCode) (payload : List ℕ) (f : Frame) (fs : List Frame) (fuel : ℕ) (r : Reader)
      → ((r : Reader) → Whole (suc fuel) fs r)
      → receive peers r opcode payload ≡ forward peers r f
      → carried opcode payload (carried_all fs) ≡ carried_all fs
      → asked opcode payload (asked_all fs) ≡ f ∷ asked_all fs
      → Whole (suc fuel) (frame opcode payload ∷ fs) r
  unfolding forward propagate_remote_to_local
  forward_complete opcode payload f fs fuel r more same bytes requests =
      let r1 = record r { pending_operations = r.pending_operations ++ (f ∷ []) } in
      loop_turn peers opcode payload fs fuel r (again r1)
        (same ∙ rw (receives r.pending_operations) refl)
      ∙ more r1
      ∙ rw (bytes, requests, append_assoc r.pending_operations (f ∷ []) (asked_all fs)) refl

  frame_complete :
      (opcode : OpCode) (payload : List ℕ) (fs : List Frame) (fuel : ℕ) (r : Reader)
      → ((r : Reader) → Whole fuel fs r)
      → ((r : Reader) → Whole (suc fuel) fs r)
      → Whole (suc fuel) (frame opcode payload ∷ fs) r
  unfolding receive closing
  frame_complete continuation payload fs fuel r more same =
      data_complete continuation payload fs fuel r more refl refl refl
  frame_complete text payload fs fuel r more same =
      data_complete text payload fs fuel r more refl refl refl
  frame_complete binary payload fs fuel r more same =
      data_complete binary payload fs fuel r more refl refl refl
  frame_complete close payload fs fuel r more same =
      loop_turn peers close payload fs fuel r
        (returns (failed not_connected)
          (record r { pending_operations = r.pending_operations ++ (close_frame ∷ []) }))
        (rw (receives r.pending_operations) refl)
      ∙ rw (append-nil r.delivered) refl
  frame_complete ping payload fs fuel r more same =
      forward_complete ping payload (frame ping payload) fs fuel r same refl refl refl
  frame_complete pong payload fs fuel r more same =
      forward_complete pong payload (frame pong []) fs fuel r same refl refl refl

  -- While the local stream takes every write and the writing half lives, with fuel for more turns
  -- than there are frames, the local stream gets exactly the payloads of the data frames before the
  -- first close frame, in order, and the writing half gets, in order, each ping with its payload, a
  -- pong for each pong, and a close for the close frame.
  pub propagate_remote_to_local_complete :
      (fs : List Frame) (fuel : ℕ) (r : Reader)
      → length fs < fuel
      → propagate_remote_to_local peers fuel fs r
        ≡ some (record {
          pending_operations = r.pending_operations ++ asked_all fs;
          delivered = r.delivered ++ carried_all fs;
        })
  unfolding propagate_remote_to_local copy
  propagate_remote_to_local_complete fs zero r h = absurd (omega arith)
  propagate_remote_to_local_complete [] (suc fuel) r h =
      rw (append-nil r.delivered, append-nil r.pending_operations) refl
  propagate_remote_to_local_complete (f ∷ fs) (suc fuel) r h =
      frame_complete f.opcode f.payload fs fuel r
        (λ r. propagate_remote_to_local_complete fs fuel r (omega arith))
        (λ r. propagate_remote_to_local_complete fs (suc fuel) r (omega arith))
