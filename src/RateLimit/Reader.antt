-- ===== src/RateLimit/Reader.antt =====
-- One poll of a rate-limited reader or writer. The answers of the timer, of the limiter (crate
-- `governor`) and of the stream inside are arguments.
use wstunnel.Prelude.{
  ℕ, zero, suc, ◌%◌, min, max, Bool, true, false, Option, none, some, if◌then◌else◌,
}
use wstunnel.RateLimit.{chunk, u32_mod, Quota, jittered_chunk}

-- `RateLimitedRead` and `RateLimitedWrite` without the stream inside; `sleep` holds milliseconds.
pub record Limited : Type 0 where
  pub limiter : Option Quota
  pub sleep : Option ℕ

-- What `check_n` answers: more cells than the burst, not before a wait, or granted.
pub data Check : Type 0 where
  insufficient : Check
  not_until : ℕ → Check
  granted : Check

-- What the stream inside answers: a count of bytes that it has, or takes.
pub data Inner : Type 0 where
  inner_pending inner_error : Inner
  inner_ready : ℕ → Inner

-- The answers of one poll.
pub record Turn : Type 0 where
  pub elapsed : Bool
  pub roll : ℕ
  pub check : Check
  pub inner : Inner

pub data Outcome : Type 0 where
  pending panicked failed : Outcome
  ready : ℕ → Outcome

-- The state after a poll, the cells that the limiter granted, and the answer.
pub record Polled : Type 0 where
  pub state : Limited
  pub cells : ℕ
  pub outcome : Outcome

-- The bytes to ask for, of a buffer with `remaining` bytes; `as u32` wraps.
unfoldable pub request : ℕ → ℕ → ℕ
request remaining roll =
    min (jittered_chunk (max (min (remaining % u32_mod) chunk) 1) roll) (remaining % u32_mod)

-- The sleep set before still runs.
abbrev pub asleep : Option ℕ → Bool → Bool
asleep none elapsed = false
asleep (some wait) true = false
asleep (some wait) false = true

-- The bytes moved of at most `n`.
abbrev pub moved : ℕ → Inner → Outcome
moved n inner_pending = pending
moved n inner_error = failed
moved n (inner_ready k) = ready (min k n)

-- The limiter's part of a poll: it waits, or goes on with `n` bytes. `NonZeroU32::new(0).unwrap()`
-- panics.
abbrev pub limited : Limited → ℕ → Check → Inner → Option Quota → Polled
limited s n check inner none = record { state = s; cells = 0; outcome = moved n inner }
limited s zero check inner (some q) = record { state = s; cells = 0; outcome = panicked }
limited s (suc n) insufficient inner (some q) = record {
  state = record s { sleep = some 10 };
  cells = 0;
  outcome = pending;
}
limited s (suc n) (not_until wait) inner (some q) = record {
  state = record s { sleep = some wait };
  cells = 0;
  outcome = pending;
}
limited s (suc n) granted inner (some q) = record {
  state = s;
  cells = suc n;
  outcome = moved (suc n) inner;
}

unfoldable pub poll_read : Limited → ℕ → Turn → Polled
unfolding request
poll_read s remaining t =
    if asleep s.sleep t.elapsed
    then record { state = s; cells = 0; outcome = pending }
    else limited (record s { sleep = none }) (request remaining t.roll) t.check t.inner s.limiter

-- The writer asks for a part of the buffer that it is given.
unfoldable pub poll_write : Limited → ℕ → Turn → Polled
unfolding request
poll_write s len t =
    if asleep s.sleep t.elapsed
    then record { state = s; cells = 0; outcome = pending }
    else limited (record s { sleep = none }) (request len t.roll) t.check t.inner s.limiter
