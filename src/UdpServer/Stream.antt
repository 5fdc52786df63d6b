-- ===== src/UdpServer/Stream.antt =====
-- wstunnel/src/protocols/udp/server.rs: the reads of a `UdpStream`, and the step of drop. What the
-- socket and the notification give at a poll are arguments of it.
use wstunnel.Prelude.{ℕ, Bool, true, false, Option, none, some}
use wstunnel.UdpServer.Watchdog.{
  Intervals, Watched, Watch, stuck, timed_out, goes, watched_from, watchdog, marked,
}

-- `pending_notification` is `true` while the stream waits to be told of data, and `read_data` counts
-- the permits given with `has_read_data.notify_one`.
pub record UdpStream (I : Type 0) : Type 0 where
  pub watched : Watched I
  pub pending_notification : Bool

-- `poll_recv_from`.
pub data Received (D : Type 0) : Type 0 where
  nothing_yet failed : Received D
  datagram : D → Received D

-- What a poll gives; `read_some` also notifies the server.
pub data ReadResult (D : Type 0) : Type 0 where
  pending read_error timeout_error eof no_space : ReadResult D
  read_some : D → ReadResult D

abbrev pub gave_data : {D : Type 0} → ReadResult D → Bool
gave_data (read_some _) = true
gave_data _ = false

unfoldable pub new_stream : {I : Type 0} → Intervals I → ℕ → Option ℕ → UdpStream I
new_stream ticks now timeout = record {
  watched = watched_from ticks now timeout;
  pending_notification = true;
}

module _ {I D : Type 0} where
  -- With no notification to wait for: the socket. Data arms the notification again.
  unfoldable pub receive : Watched I → Received D → ReadResult D × UdpStream I
  receive w nothing_yet = (pending, record { watched = w; pending_notification = false })
  receive w failed = (read_error, record { watched = w; pending_notification = false })
  receive w (datagram d) = (read_some d, record { watched = marked w; pending_notification = true })

  -- After the watchdog: `notified` says if the notification is ready.
  unfoldable pub when_notified : Bool → Bool → Watched I → Received D → ReadResult D × UdpStream I
  when_notified true false w r = (pending, record { watched = w; pending_notification = true })
  when_notified true true w r = receive w r
  when_notified false notified w r = receive w r

  unfoldable pub read_on : Bool → Bool → Received D → Watch I → Option (ReadResult D × UdpStream I)
  read_on waits notified r stuck = none
  read_on waits notified r (timed_out w) =
      some (timeout_error, record { watched = w; pending_notification = waits })
  read_on waits notified r (goes w) = some (when_notified waits notified w r)

  -- `none` if the loop in the watchdog does not end.
  unfoldable pub poll_read :
      Intervals I → ℕ → Bool → Received D → UdpStream I → Option (ReadResult D × UdpStream I)
  poll_read ticks now notified r s =
      read_on s.pending_notification notified r (watchdog ticks now s.watched)
