-- ===== src/Tests/UdpServer.antt =====
-- Two packets of one peer: the first is read by a new stream.
use wstunnel.Prelude.{ℕ, ◌≡◌, refl, true, false, some, [], ◌∷◌, ◌++◌, nat_eq, put, map, All}
use wstunnel.UdpServer.{
  UdpServer, awaits, peeking, arrives, cleans, accepts, reads, no_peer, UdpReachable, new, step,
  clean_dead_keys,
}
use wstunnel.UdpServer.Delivery.{Given, UdpReachable-delivered}

abbrev one : UdpServer ℕ
one = record no_peer { queue = (5, 1) ∷ []; arrived = (5, 1) ∷ [] }

abbrev two : UdpServer ℕ
two = record one { queue = (5, 1) ∷ (5, 2) ∷ []; arrived = (5, 1) ∷ (5, 2) ∷ [] }

abbrev looking : UdpServer ℕ
looking = record two { loop_at = peeking }

abbrev handed : UdpServer ℕ
handed = record looking {
  peers = put 5 (some 0) looking.peers;
  peer = put 0 (some 5) looking.peer;
  alive = put 0 true looking.alive;
  has_data = put 0 true looking.has_data;
  has_read = put 0 false looking.has_read;
  loop_at = awaits 0;
  next = 1;
}

abbrev have_read : UdpServer ℕ
have_read = record handed {
  queue = (5, 2) ∷ [];
  delivered = (0, (5, 1)) ∷ [];
  has_data = put 0 false handed.has_data;
  has_read = put 0 true handed.has_read;
}

reaches : UdpReachable have_read
unfolding put clean_dead_keys
reaches =
    step handed have_read
      (step looking handed
        (step two looking
          (step one two (step no_peer one new (arrives no_peer (5, 1))) (arrives one (5, 2)))
          (cleans two refl))
        (accepts looking 5 1 ((5, 2) ∷ []) refl refl refl))
      (reads handed 0 (5, 1) ((5, 2) ∷ []) refl refl refl)

UdpReachable-delivered_example :
    All (Given have_read.peer) have_read.delivered
    × (map (λ (g : ℕ × (ℕ × ℕ)). g.1) have_read.delivered ++ have_read.queue ≡ have_read.arrived)
UdpReachable-delivered_example = UdpReachable-delivered have_read reaches
