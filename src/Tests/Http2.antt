-- ===== src/Tests/Http2.antt =====
-- Two chunks through an HTTP/2 tunnel, and the end of the local stream.
use wstunnel.Prelude.{suc, ◌≡◌, refl, true, some, List, [], ◌∷◌, map, length}
use wstunnel.Transport.Http2.{data_frame, http2_receive, LocalEvent, read_buf, tick, http2_send}
use wstunnel.Transport.Body.{chunks, concat, http2_receive-http2_send}

abbrev events : List LocalEvent
events = read_buf (1 ∷ 2 ∷ []) ∷ tick ∷ read_buf (3 ∷ []) ∷ read_buf [] ∷ read_buf (4 ∷ []) ∷ []

http2_receive-http2_send_example :
    let sent = (http2_send (λ s. true) events (record { buf = []; sent = [] })).sent in
    http2_receive (λ d b. true) (suc (length sent)) (map data_frame sent) []
    ≡ some (concat (chunks events))
http2_receive-http2_send_example =
    http2_receive-http2_send (λ s. true) (λ d b. true) (λ s. refl) (λ d b. refl) events

three_bytes : concat (chunks events) ≡ 1 ∷ 2 ∷ 3 ∷ []
three_bytes = refl
