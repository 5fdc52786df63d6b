-- ===== src/RateLimit/Throughput.antt =====
-- What the limiter bounds: the bytes that pass through a reader or a writer, poll after poll.
use wstunnel.Prelude.{
  ℕ, zero, suc, ◌+◌, ◌%◌, ◌≤◌, ◌≡◌, ◌≢◌, ◌↔◌, ◌∙◌, List, [], ◌∷◌, refl, arith, min, max, Option,
  none, some, Bool, true, false, if◌then◌else◌,
}
use wstunnel.RateLimit.{chunk, u32_mod, Quota}
use wstunnel.RateLimit.Jitter.{jittered_chunk_bounds}
use wstunnel.RateLimit.Reader.{
  Limited, Check, insufficient, not_until, granted, Inner, inner_pending, inner_error, inner_ready,
  Turn, Outcome, pending, panicked, ready, Polled, request, asleep, moved, limited, poll_read,
  poll_write,
}

abbrev pub bytes_of : Outcome → ℕ
bytes_of (ready k) = k
bytes_of _ = 0

-- A request is at most a chunk, fits the buffer, and is empty only if the buffer is, its size taken
-- as 32 bits.
request_bounds :
    (remaining roll : ℕ)
    → (request remaining roll ≤ chunk)
      × (request remaining roll ≤ remaining)
      × ((request remaining roll ≡ 0) ↔ (remaining % u32_mod ≡ 0))
unfolding request
request_bounds remaining roll =
    let (least, most, _, _) =
      jittered_chunk_bounds (max (min (remaining % u32_mod) chunk) 1) roll (omega arith)
        (omega arith) in
    (omega arith, omega arith, (λ e. omega arith, λ e. omega arith))

moved_bound : (n : ℕ) (i : Inner) → bytes_of (moved n i) ≤ n
moved_bound n inner_pending = omega arith
moved_bound n inner_error = omega arith
moved_bound n (inner_ready k) = omega arith

limited_cells :
    (s : Limited) (n : ℕ) (c : Check) (i : Inner) (q : Quota)
    → bytes_of (limited s n c i (some q)).outcome ≤ (limited s n c i (some q)).cells
limited_cells s zero c i q = omega arith
limited_cells s (suc n) insufficient i q = omega arith
limited_cells s (suc n) (not_until w) i q = omega arith
limited_cells s (suc n) granted i q = moved_bound (suc n) i

limited_limiter :
    (s : Limited) (n : ℕ) (c : Check) (i : Inner) (l : Option Quota)
    → (limited s n c i l).state.limiter ≡ s.limiter
limited_limiter s n c i none = refl
limited_limiter s zero c i (some q) = refl
limited_limiter s (suc n) insufficient i (some q) = refl
limited_limiter s (suc n) (not_until w) i (some q) = refl
limited_limiter s (suc n) granted i (some q) = refl

-- A poll that sleeps or goes on, over the request.
abbrev polled : Bool → Limited → ℕ → Check → Inner → Option Quota → Polled
polled b s n c i l =
    if b
    then record { state = s; cells = 0; outcome = pending }
    else limited (record s { sleep = none }) n c i l

polled_bound :
    (b : Bool) (s : Limited) (n : ℕ) (c : Check) (i : Inner) (l : Option Quota) (q : Quota)
    → l ≡ some q
    → (bytes_of (polled b s n c i l).outcome ≤ (polled b s n c i l).cells)
      × ((polled b s n c i l).state.limiter ≡ s.limiter)
polled_bound true s n c i l q e = (omega arith, refl)
polled_bound false s n c i none q e = cc
polled_bound false s n c i (some q') q e = (
  limited_cells (record s { sleep = none }) n c i q',
  limited_limiter (record s { sleep = none }) n c i (some q'),
)

-- One poll of a limited reader reads no more bytes than the limiter grants cells.
poll_read-le-cells :
    (s : Limited) (remaining : ℕ) (t : Turn) (q : Quota)
    → s.limiter ≡ some q
    → (bytes_of (poll_read s remaining t).outcome ≤ (poll_read s remaining t).cells)
      × ((poll_read s remaining t).state.limiter ≡ s.limiter)
unfolding poll_read
poll_read-le-cells s remaining t q e =
    polled_bound (asleep s.sleep t.elapsed) s (request remaining t.roll) t.check t.inner s.limiter q
      e

-- The polls of one reader: the bytes read and the cells granted in all.
abbrev pub totals : Limited → List (ℕ × Turn) → ℕ × ℕ
totals s [] = (0, 0)
totals s ((remaining, t) ∷ ts) =
    let p = poll_read s remaining t in
    let rest = totals p.state ts in (bytes_of p.outcome + rest.0, p.cells + rest.1)

-- Over any sequence of polls, with any answers of the timer, of the limiter and of the stream, a
-- limited reader reads no more bytes than the limiter granted cells.
pub totals_le_cells :
    (s : Limited) (polls : List (ℕ × Turn)) (q : Quota)
    → s.limiter ≡ some q
    → (totals s polls).0 ≤ (totals s polls).1
totals_le_cells s [] q e = omega arith
totals_le_cells s ((remaining, t) ∷ ts) q e =
    let (here, keeps) = poll_read-le-cells s remaining t q e in
    omega (arith, totals_le_cells (poll_read s remaining t).state ts q (keeps ∙ e))

panicked_iff :
    (s : Limited) (n : ℕ) (c : Check) (i : Inner) (l : Option Quota)
    → ((limited s n c i l).outcome ≡ panicked) ↔ ((l ≢ none) × (n ≡ 0))
panicked_iff s n c inner_pending none = (λ e. cc, λ (h, _). absurd (h refl))
panicked_iff s n c inner_error none = (λ e. cc, λ (h, _). absurd (h refl))
panicked_iff s n c (inner_ready k) none = (λ e. cc, λ (h, _). absurd (h refl))
panicked_iff s zero c i (some q) = (λ e. (λ h. cc, refl), λ _. refl)
panicked_iff s (suc n) insufficient i (some q) = (λ e. cc, λ (_, h). absurd (omega arith))
panicked_iff s (suc n) (not_until w) i (some q) = (λ e. cc, λ (_, h). absurd (omega arith))
panicked_iff s (suc n) granted inner_pending (some q) = (λ e. cc, λ (_, h). absurd (omega arith))
panicked_iff s (suc n) granted inner_error (some q) = (λ e. cc, λ (_, h). absurd (omega arith))
panicked_iff s (suc n) granted (inner_ready k) (some q) = (λ e. cc, λ (_, h). absurd (omega arith))

-- A poll of a limited writer that is not asleep panics exactly when the buffer given is empty, or
-- its length a multiple of 2^32.
pub poll_write-panicked_iff :
    (s : Limited) (len : ℕ) (t : Turn) (q : Quota)
    → s.limiter ≡ some q
    → asleep s.sleep t.elapsed ≡ false
    → ((poll_write s len t).outcome ≡ panicked) ↔ (len % u32_mod ≡ 0)
unfolding poll_write
poll_write-panicked_iff s len t q e awake =
    let (_, _, empty) = request_bounds len t.roll in
    let crash =
      panicked_iff (record s { sleep = none }) (request len t.roll) t.check t.inner s.limiter in
    rw (awake, poll_write) (λ h. empty.0 (crash.0 h).1, λ h. crash.1 (λ none_left. cc, empty.1 h))
