-- ===== src/Tests/Transport.antt =====
-- Frames and events of a tunnel with a socket that takes everything, and schemes.
use wstunnel.Prelude.{ℕ, ◌≡◌, refl, true, some, List, [], ◌∷◌, ◌++◌, codes, arith}
use wstunnel.Net.{domain}
use wstunnel.Transport.Websocket.{
  binary, ping, pong, close, Frame, frame, Link, new_writer, close_frame,
}
use wstunnel.Transport.Copy.{Reader, Peers, propagate_remote_to_local}
use wstunnel.Transport.Propagate.{
  Event, arrives, notified, read_buf, tick, waiting, ping_failed, propagate_local_to_remote,
}
use wstunnel.Transport.Delivery.{propagate_remote_to_local_prefix, carried_all}
use wstunnel.Transport.Complete.{propagate_remote_to_local_complete}
use wstunnel.Transport.Turns.{data_bytes, read_bytes}
use wstunnel.Transport.Sending.{propagate_local_to_remote_prefix}
use wstunnel.Transport.Keepalive.{propagate_local_to_remote-unsolicited}
use wstunnel.Transport.Addr.{TransportAddr, wss, wss_addr, new}

abbrev link : Link
link = record { accepts = λ sent f. true; flushes = λ sent. true; reserve = λ old new. new }

abbrev peers : Peers
peers = record { receives = λ fs. true; takes = λ old new. true }

abbrev frames : List Frame
frames =
    frame binary (1 ∷ 2 ∷ [])
    ∷ frame ping (7 ∷ [])
    ∷ frame binary (3 ∷ [])
    ∷ frame close []
    ∷ frame binary (4 ∷ [])
    ∷ []

abbrev idle : Reader
idle = record { pending_operations = []; delivered = [] }

propagate_remote_to_local_complete_example :
    propagate_remote_to_local peers 6 frames idle
    ≡ some (record {
      pending_operations = frame ping (7 ∷ []) ∷ close_frame ∷ [];
      delivered = 1 ∷ 2 ∷ 3 ∷ [];
    })
propagate_remote_to_local_complete_example =
    propagate_remote_to_local_complete peers (λ old new. refl) (λ fs. refl) frames 6 idle
      (omega arith)

propagate_remote_to_local_prefix_example :
    (r' : Reader) × (rest : List ℕ) × (propagate_remote_to_local peers 6 frames idle ≡ some r')
    × ([] ++ carried_all frames ≡ r'.delivered ++ rest)
propagate_remote_to_local_prefix_example =
    propagate_remote_to_local_prefix peers frames 6 idle (omega arith)

abbrev events : List Event
events = read_buf (1 ∷ 2 ∷ []) ∷ tick ∷ arrives (frame ping []) ∷ notified ∷ read_buf (3 ∷ []) ∷ []

propagate_local_to_remote_prefix_example :
    (rest : List ℕ) × (data_bytes new_writer.sent ++ read_bytes events
      ≡ data_bytes (propagate_local_to_remote link true events new_writer).1.sent ++ rest)
    × ((propagate_local_to_remote link true events new_writer).0 ≡ waiting → rest ≡ [])
propagate_local_to_remote_prefix_example =
    propagate_local_to_remote_prefix link true events new_writer refl

propagate_local_to_remote-unsolicited_example :
    propagate_local_to_remote link true (arrives (frame pong []) ∷ notified ∷ tick ∷ []) new_writer
    ≡ (ping_failed, new_writer)
propagate_local_to_remote-unsolicited_example =
    propagate_local_to_remote-unsolicited link new_writer [] refl refl

abbrev secure_addr : TransportAddr ℕ
secure_addr = wss_addr 5 wss (domain (codes "qa.com")) 443

secured : new {T = ℕ} wss (domain (codes "qa.com")) 443 (some 5) ≡ some secure_addr
unfolding new
secured = refl

abbrev quiet : List Event
quiet = tick ∷ read_buf (1 ∷ []) ∷ tick ∷ notified ∷ tick ∷ tick ∷ []
