-- ===== src/UdpServer/Watchdog.antt =====
-- wstunnel/src/protocols/udp/server.rs: the deadline of a stream of datagrams, which
-- protocols/socks5/udp_server.rs has in the same words. `tokio::time::Interval` is a parameter; a poll
-- is made at a time, and times are numbers of nanoseconds.
use wstunnel.Prelude.{
  ℕ, zero, suc, ◌+◌, ◌≤◌, ◌≡◌, ◌↔◌, Bool, true, false, Option, none, some, if◌then◌else◌,
}

pub record Intervals (I : Type 0) : Type 0 where
  -- The first tick, and the time between two.
  pub interval_at : ℕ → ℕ → I
  -- `poll_tick`: `true` if it is ready.
  pub poll_tick : ℕ → I → Bool × I
  pub period : I → ℕ

-- The documented ticks: one is ready from its deadline on, and the next is a period later.
pub record IntervalLaws {I : Type 0} (ticks : Intervals I) : Type 0 where
  pub deadline : I → ℕ
  pub deadline_at : (start timeout : ℕ) → deadline (ticks.interval_at start timeout) ≡ start
  pub period_at : (start timeout : ℕ) → ticks.period (ticks.interval_at start timeout) ≡ timeout
  pub period_stays : (now : ℕ) (i : I) → ticks.period (ticks.poll_tick now i).1 ≡ ticks.period i
  pub ready_iff : (now : ℕ) (i : I) → ((ticks.poll_tick now i).0 ≡ true) ↔ (deadline i ≤ now)
  pub next_tick :
      (now : ℕ) (i : I)
      → (ticks.poll_tick now i).0 ≡ true
      → deadline (ticks.poll_tick now i).1 ≡ deadline i + ticks.period i
  pub same_tick :
      (now : ℕ) (i : I)
      → (ticks.poll_tick now i).0 ≡ false
      → deadline (ticks.poll_tick now i).1 ≡ deadline i

pub record Watched (I : Type 0) : Type 0 where
  pub watchdog_deadline : Option I
  pub data_read_before_deadline : Bool

-- What the watchdog says: the loop of ticks does not end, the stream is over, or it goes on.
pub data Watch (I : Type 0) : Type 0 where
  stuck : Watch I
  timed_out goes : Watched I → Watch I

unfoldable pub goes_from : {I : Type 0} → Option I → Watch I
goes_from none = stuck
goes_from (some i) = goes (record { watchdog_deadline = some i; data_read_before_deadline = false })

module _ {I : Type 0} (ticks : Intervals I) where
  unfoldable pub watched_from : ℕ → Option ℕ → Watched I
  watched_from now none = record { watchdog_deadline = none; data_read_before_deadline = false }
  watched_from now (some timeout) = record {
    watchdog_deadline = some (ticks.interval_at (now + timeout) timeout);
    data_read_before_deadline = false;
  }

  -- `while deadline.poll_tick(cx).is_ready() {}`, on fuel.
  unfoldable pub catch_up : ℕ → ℕ → I → Option I
  catch_up zero now i = none
  catch_up (suc fuel) now i =
      let tick = ticks.poll_tick now i in
      let rest = catch_up fuel now tick.1 in if tick.0 then rest else some tick.1

  unfoldable pub on_tick : ℕ → Bool → Bool → I → Watch I
  on_tick now read false i =
      goes (record { watchdog_deadline = some i; data_read_before_deadline = read })
  on_tick now false true i =
      timed_out (record { watchdog_deadline = some i; data_read_before_deadline = false })
  on_tick now true true i = goes_from (catch_up (suc now) now i)

  -- The look at the deadline with which a read begins. The fuel is more than the ticks that can be due.
  unfoldable pub watchdog : ℕ → Watched I → Watch I
  watchdog now w = elim w.watchdog_deadline [
    | none ↦ goes w
    | some i ↦
        on_tick now w.data_read_before_deadline (ticks.poll_tick now i).0 (ticks.poll_tick now i).1
  ]

-- The mark of a read that gave data.
abbrev pub marked : {I : Type 0} → Watched I → Watched I
marked w = record w { data_read_before_deadline = true }
