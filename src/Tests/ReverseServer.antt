-- ===== src/Tests/ReverseServer.antt =====
-- One client of a reverse tunnel, from its request to its connection.
use wstunnel.Prelude.{put, ℕ, ◌≡◌, refl, none, some, [], ◌∷◌, nat_eq, arith}
use wstunnel.Net.{domain, reverse_tcp}
use wstunnel.ReverseServer.{
  Cnx, asking, generating, waits_on, served, spawned, running, Servers, drop_item, asks, generates,
  listens, first_poll, accepts, sends, receives, none_yet, Reachable, new, step,
}
use wstunnel.ReverseServer.Served.{Reachable-from_addr}

abbrev cnx : Cnx ℕ
cnx = record {
  from_addr = 5;
  stream = 1;
  remote = record { protocol = reverse_tcp; host = domain []; port = 1 };
}

abbrev asked : Servers ℕ
asked = record none_yet { clients = put 0 (asking 5) none_yet.clients }

abbrev generated : Servers ℕ
generated = record asked { clients = put 0 (generating 5) asked.clients }

abbrev listening : Servers ℕ
listening = record generated {
  servers = put 5 (some 0) generated.servers;
  clients = put 0 (waits_on 5 0) generated.clients;
  address = put 0 (some 5) generated.address;
  phase = drop_item (generated.servers 5) (put 0 spawned generated.phase);
  seen = put 0 1 generated.seen;
  next = 1;
}

abbrev polled : Servers ℕ
polled = record listening { phase = put 0 running listening.phase }

abbrev accepted : Servers ℕ
accepted = record polled { pending = put 0 (some cnx) polled.pending }

abbrev sent : Servers ℕ
sent = record accepted {
  pending = put 0 none accepted.pending;
  queue = put 0 (cnx ∷ []) accepted.queue;
}

abbrev received : Servers ℕ
received = record sent { clients = put 0 (served 5 cnx) sent.clients; queue = put 0 [] sent.queue }

reaches : Reachable received
unfolding put drop_item
reaches =
    step sent received
      (step accepted sent
        (step polled accepted
          (step listening polled
            (step generated listening
              (step asked generated (step none_yet asked new (asks none_yet 0 5 refl))
                (generates asked 0 5 refl refl))
              (listens generated 0 5 refl))
            (first_poll listening 0 refl))
          (accepts polled 0 5 cnx (refl, refl) refl refl))
        (sends accepted 0 5 cnx (refl, refl) refl (omega arith)))
      (receives sent 0 5 0 cnx [] refl refl)

is_served : received.clients 0 ≡ served 5 cnx
unfolding put
is_served = refl

Reachable-from_addr_example : cnx.from_addr ≡ 5
Reachable-from_addr_example = Reachable-from_addr received 0 5 cnx reaches is_served
