-- ===== src/Tests/Streams.antt =====
-- A stream of datagrams with a timeout of 10: data at 2, then silence.
use wstunnel.Prelude.{
  ℕ, ◌+◌, ◌≤◌, ◌≡◌, refl, Bool, true, false, some, [], ◌∷◌, All, arith, leb, if◌then◌else◌,
}
use wstunnel.UdpServer.Watchdog.{
  Intervals, IntervalLaws, watched_from, catch_up, goes_from, on_tick, watchdog,
}
use wstunnel.UdpServer.Silence.{History, SilentFor}
use wstunnel.UdpServer.Stream.{
  UdpStream, nothing_yet, datagram, ReadResult, pending, timeout_error, read_some, new_stream,
  receive, when_notified, read_on, poll_read,
}
use wstunnel.UdpServer.Timeout.{
  StreamPolled, fresh, then_polled, Ends, StreamPolled-timeout_error, StreamPolled-Ends,
}

-- An interval is its next tick and its period.
abbrev ticks : Intervals (ℕ × ℕ)
ticks = record {
  interval_at = λ start timeout. (start, timeout);
  poll_tick = λ now i. if leb i.0 now then (true, (i.0 + i.1, i.1)) else (false, i);
  period = λ i. i.1;
}

laws : IntervalLaws ticks
laws = record {
  deadline = λ i. i.0;
  deadline_at = λ start timeout. refl;
  period_at = λ start timeout. refl;
  period_stays = λ now i. ground arith;
  ready_iff = λ now i. ground arith;
  next_tick = λ now i h. ground arith;
  same_tick = λ now i h. ground arith;
}

abbrev stream_of : ℕ → Bool → Bool → UdpStream (ℕ × ℕ)
stream_of deadline read waits = record {
  watched = record { watchdog_deadline = some (deadline, 10); data_read_before_deadline = read };
  pending_notification = waits;
}

abbrev history : History
history = (12, false) ∷ (2, true) ∷ []

reaches : StreamPolled ℕ ticks 10 0 history (stream_of 20 false true) 12
unfolding new_stream watched_from poll_read watchdog on_tick goes_from catch_up read_on
    when_notified receive
reaches =
    then_polled ((2, true) ∷ []) (stream_of 10 true true) (stream_of 20 false true) 2 12 false
      nothing_yet pending
      (then_polled [] (stream_of 10 false true) (stream_of 10 true true) 0 2 true (datagram 7)
        (read_some 7) fresh (omega arith) refl (λ e. cc))
      (omega arith) refl (λ e. cc)

ends_at_20 :
    poll_read {D = ℕ} ticks 20 false nothing_yet (stream_of 20 false true)
    ≡ some (timeout_error, stream_of 30 false true)
unfolding poll_read watchdog on_tick read_on
ends_at_20 = refl

StreamPolled-timeout_error_example : (0 + 10 ≤ 20) × All (SilentFor 10 20) history
StreamPolled-timeout_error_example =
    StreamPolled-timeout_error ℕ ticks laws 10 0 history (stream_of 20 false true)
      (stream_of 30 false true) 12 20 false nothing_yet (omega arith) reaches (omega arith)
      ends_at_20

StreamPolled-Ends_example :
    (res : ReadResult ℕ) × (s1 : UdpStream (ℕ × ℕ)) × (poll_read ticks 22 false nothing_yet
        (stream_of 20 false true)
      ≡ some (res, s1))
    × Ends ℕ ticks laws 10 0 22 res s1
StreamPolled-Ends_example =
    StreamPolled-Ends ℕ ticks laws 10 0 history (stream_of 20 false true) 12 22 false nothing_yet
      (omega arith) reaches (omega arith)
