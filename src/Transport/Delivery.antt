-- ===== src/Transport/Delivery.antt =====
-- What a tunnel carries, in both directions: the bytes, all of them, in order.
use wstunnel.Prelude.{
  ℕ, zero, suc, ◌<◌, ◌≡◌, refl, sym, ap, ◌∙◌, inl, inr, Option, some, List, [], ◌∷◌, ◌++◌, length,
  arith, Bool-cases,
}
use mathlib.Core.List.{append_assoc}
use wstunnel.Transport.Websocket.{
  OpCode, continuation, text, binary, close, ping, pong, Frame, frame, close_frame, Ended, done,
  failed, not_connected, connection_aborted,
}
use wstunnel.Transport.Copy.{
  Reader, Peers, Turned, returns, again, deliver, forward, closing, receive, copy,
  propagate_remote_to_local,
}

-- The payloads of the data frames before the first close frame.
abbrev pub carried : OpCode → List ℕ → List ℕ → List ℕ
carried continuation payload rest = payload ++ rest
carried text payload rest = payload ++ rest
carried binary payload rest = payload ++ rest
carried close payload rest = []
carried ping payload rest = rest
carried pong payload rest = rest

abbrev pub carried_all : List Frame → List ℕ
carried_all [] = []
carried_all (f ∷ fs) = carried f.opcode f.payload (carried_all fs)

-- What the writer is asked to do, up to the first close frame.
abbrev pub asked : OpCode → List ℕ → List Frame → List Frame
asked continuation payload rest = rest
asked text payload rest = rest
asked binary payload rest = rest
asked close payload rest = close_frame ∷ []
asked ping payload rest = frame ping payload ∷ rest
asked pong payload rest = frame pong [] ∷ rest

abbrev pub asked_all : List Frame → List Frame
asked_all [] = []
asked_all (f ∷ fs) = asked f.opcode f.payload (asked_all fs)

module _ (peers : Peers) where
  -- The loop ends, having delivered a first part of what the frames carry.
  abbrev pub Prefix : ℕ → List Frame → Reader → Type 0
  Prefix fuel fs r =
      (r' : Reader) × (rest : List ℕ) × (propagate_remote_to_local peers fuel fs r ≡ some r')
      × (r.delivered ++ carried_all fs ≡ r'.delivered ++ rest)

  abbrev pub copied : List Frame → Turned → Ended × List Frame × Reader
  copied fs (returns e r') = (e, fs, r')
  copied fs (again r') = copy peers fs r'

  abbrev pub looped : ℕ → Ended × List Frame × Reader → Option Reader
  looped fuel (ended, rest, r') = elim ended [
    | done ↦ propagate_remote_to_local peers fuel rest r'
    | stopped ↦ some r'
  ]

  -- A turn of the loop, by what becomes of its first frame.
  pub loop_turn :
      (opcode : OpCode) (payload : List ℕ) (fs : List Frame) (fuel : ℕ) (r : Reader) (t : Turned)
      → receive peers r opcode payload ≡ t
      → propagate_remote_to_local peers (suc fuel) (frame opcode payload ∷ fs) r
        ≡ looped fuel (copied fs t)
  unfolding propagate_remote_to_local copy
  loop_turn opcode payload fs fuel r t e = ap (λ t. looped fuel (copied fs t)) e

  data_prefix :
      (payload : List ℕ) (fs : List Frame) (fuel : ℕ) (r : Reader) (opcode : OpCode)
      → ((r : Reader) → Prefix fuel fs r)
      → receive peers r opcode payload ≡ deliver peers r payload
      → carried opcode payload (carried_all fs) ≡ payload ++ carried_all fs
      → Prefix (suc fuel) (frame opcode payload ∷ fs) r
  unfolding propagate_remote_to_local deliver
  data_prefix payload fs fuel r opcode more same bytes =
      elim (Bool-cases (peers.takes r.delivered payload)) [
        | inl y ↦
            let (r', rest, runs, e) = more (record r { delivered = r.delivered ++ payload }) in
            (
              r',
              rest,
              loop_turn opcode payload fs fuel r
                    (returns done (record r { delivered = r.delivered ++ payload }))
                    (same ∙ rw y refl)
                  ∙ runs,
              rw bytes (sym (append_assoc r.delivered payload (carried_all fs)) ∙ e),
            )
        | inr n ↦ (
          r,
          _,
          loop_turn opcode payload fs fuel r (returns (failed connection_aborted) r)
              (same ∙ rw n refl),
          refl,
        )
      ]

  forward_prefix :
      (payload : List ℕ) (f : Frame) (fs : List Frame) (fuel : ℕ) (r : Reader) (opcode : OpCode)
      → ((r : Reader) → Prefix (suc fuel) fs r)
      → receive peers r opcode payload ≡ forward peers r f
      → carried opcode payload (carried_all fs) ≡ carried_all fs
      → Prefix (suc fuel) (frame opcode payload ∷ fs) r
  unfolding propagate_remote_to_local copy forward
  forward_prefix payload f fs fuel r opcode more same bytes =
      elim (Bool-cases (peers.receives r.pending_operations)) [
        | inl y ↦
            let (r', rest, runs, e) =
              more (record r { pending_operations = r.pending_operations ++ (f ∷ []) }) in
            (
              r',
              rest,
              loop_turn opcode payload fs fuel r
                    (again (record r { pending_operations = r.pending_operations ++ (f ∷ []) }))
                    (same ∙ rw y refl)
                  ∙ runs,
              rw bytes e,
            )
        | inr n ↦ (
          r,
          _,
          loop_turn opcode payload fs fuel r (returns (failed connection_aborted) r)
              (same ∙ rw n refl),
          refl,
        )
      ]

  frame_prefix :
      (opcode : OpCode) (payload : List ℕ) (fs : List Frame) (fuel : ℕ) (r : Reader)
      → ((r : Reader) → Prefix fuel fs r)
      → ((r : Reader) → Prefix (suc fuel) fs r)
      → Prefix (suc fuel) (frame opcode payload ∷ fs) r
  unfolding receive closing
  frame_prefix continuation payload fs fuel r more same =
      data_prefix payload fs fuel r continuation more refl refl
  frame_prefix text payload fs fuel r more same = data_prefix payload fs fuel r text more refl refl
  frame_prefix binary payload fs fuel r more same =
      data_prefix payload fs fuel r binary more refl refl
  frame_prefix close payload fs fuel r more same =
      elim (Bool-cases (peers.receives r.pending_operations)) [
        | inl y ↦ (
          record r { pending_operations = r.pending_operations ++ (close_frame ∷ []) },
          [],
          loop_turn close payload fs fuel r
              (returns (failed not_connected)
                (record r { pending_operations = r.pending_operations ++ (close_frame ∷ []) }))
              (rw y refl),
          refl,
        )
        | inr n ↦ (
          r,
          [],
          loop_turn close payload fs fuel r (returns (failed not_connected) r) (rw n refl),
          refl,
        )
      ]
  frame_prefix ping payload fs fuel r more same =
      forward_prefix payload (frame ping payload) fs fuel r ping same refl refl
  frame_prefix pong payload fs fuel r more same =
      forward_prefix payload (frame pong []) fs fuel r pong same refl refl

  -- Whatever the local stream and the channel answer, the loop ends, given more turns than there
  -- are frames, and the local stream was given, in order, a first part of the payloads of the data
  -- frames before the first close frame, and nothing else.
  pub propagate_remote_to_local_prefix :
      (fs : List Frame) (fuel : ℕ) (r : Reader)
      → length fs < fuel
      → (r' : Reader) × (rest : List ℕ) × (propagate_remote_to_local peers fuel fs r ≡ some r')
        × (r.delivered ++ carried_all fs ≡ r'.delivered ++ rest)
  unfolding propagate_remote_to_local copy
  propagate_remote_to_local_prefix fs zero r h = absurd (omega arith)
  propagate_remote_to_local_prefix [] (suc fuel) r h = (r, [], refl, refl)
  propagate_remote_to_local_prefix (f ∷ fs) (suc fuel) r h =
      frame_prefix f.opcode f.payload fs fuel r
        (λ r. propagate_remote_to_local_prefix fs fuel r (omega arith))
        (λ r. propagate_remote_to_local_prefix fs (suc fuel) r (omega arith))
