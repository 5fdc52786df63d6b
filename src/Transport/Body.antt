-- ===== src/Transport/Body.antt =====
-- Bytes through an HTTP/2 tunnel, from the local stream of one side to that of the other.
use wstunnel.Prelude.{
  ℕ, suc, ◌≡◌, refl, sym, ap, ◌∙◌, Bool, true, Option, some, List, [], ◌∷◌, ◌++◌, map, length,
}
use mathlib.Core.List.{append_assoc, append-nil}
use wstunnel.Transport.Http2.{
  BodyItem, CopyEnd, copied, deliver, data_frame, http2_receive, LocalEvent, read_buf, read_error,
  should_close, tick, http2_send,
}

-- The chunks that a local stream gives before its end, its error or the close of the other direction.
abbrev pub chunks : List LocalEvent → List (List ℕ)
chunks [] = []
chunks (read_buf [] ∷ es) = []
chunks (read_buf (b ∷ bs) ∷ es) = (b ∷ bs) ∷ chunks es
chunks (read_error ∷ es) = []
chunks (should_close ∷ es) = []
chunks (tick ∷ es) = chunks es

abbrev pub concat : List (List ℕ) → List ℕ
concat [] = []
concat (x ∷ xs) = x ++ concat xs

-- The channel stays open, and the local stream of the other end takes its bytes.
module _ (is_open : List (List ℕ) → Bool) (accepts : List ℕ → List ℕ → Bool)
    (stays_open : (s : List (List ℕ)) → is_open s ≡ true)
    (takes : (d b : List ℕ) → accepts d b ≡ true) where
  http2_send-chunks :
      (es : List LocalEvent) (sent : List (List ℕ))
      → (http2_send is_open es (record { buf = []; sent = sent })).sent ≡ sent ++ chunks es
  unfolding http2_send
  http2_send-chunks [] sent = sym (append-nil sent)
  http2_send-chunks (read_buf [] ∷ es) sent = sym (append-nil sent)
  http2_send-chunks (read_buf (b ∷ bs) ∷ es) sent = rw (stays_open sent) (
      http2_send-chunks es (sent ++ ((b ∷ bs) ∷ []))
      ∙ append_assoc sent ((b ∷ bs) ∷ []) (chunks es))
  http2_send-chunks (read_error ∷ es) sent = sym (append-nil sent)
  http2_send-chunks (should_close ∷ es) sent = sym (append-nil sent)
  http2_send-chunks (tick ∷ es) sent = http2_send-chunks es sent

  -- What the loop does after a call of `copy`.
  abbrev looped : ℕ → CopyEnd × List BodyItem × List ℕ → Option (List ℕ)
  looped fuel (ended, rest, now) = elim ended [
    | copied ↦ http2_receive accepts fuel rest now
    | stopped ↦ some now
  ]

  delivers :
      (d b : List ℕ) (items : List BodyItem) → deliver accepts b items d ≡ (copied, items, d ++ b)
  delivers d b items = rw (takes d b) refl

  http2_receive-concat :
      (xs : List (List ℕ)) (delivered : List ℕ)
      → http2_receive accepts (suc (length xs)) (map data_frame xs) delivered
        ≡ some (delivered ++ concat xs)
  unfolding http2_receive
  http2_receive-concat [] delivered = ap some (sym (append-nil delivered))
  http2_receive-concat (x ∷ xs) delivered =
      ap (looped (suc (length xs))) (delivers delivered x (map data_frame xs))
      ∙ http2_receive-concat xs (delivered ++ x)
      ∙ ap some (append_assoc delivered x (concat xs))

  -- Over a channel that stays open and to a local stream that takes its bytes, the other end delivers
  -- all bytes that the local stream gives before it ends, fails or is closed, in order; ticks change
  -- nothing. One unit of fuel for each chunk and one more are enough.
  pub http2_receive-http2_send :
      (es : List LocalEvent)
      → let sent = (http2_send is_open es (record { buf = []; sent = [] })).sent in
        http2_receive accepts (suc (length sent)) (map data_frame sent) []
        ≡ some (concat (chunks es))
  http2_receive-http2_send es =
      http2_receive-concat (http2_send is_open es (record { buf = []; sent = [] })).sent []
      ∙ ap (λ t. some (concat t)) (http2_send-chunks es [])
