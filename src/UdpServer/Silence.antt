-- ===== src/UdpServer/Silence.antt =====
-- A stream times out after silence only, and after silence it does.
use wstunnel.Prelude.{
  ℕ, zero, suc, ◌+◌, ◌≤◌, ◌<◌, ◌≡◌, ◌⊎◌, refl, sym, ap, ◌∙◌, Bool, true, false, Option, none, some,
  List, [], ◌∷◌, All, arith, Bool-cases, inl, inr,
}
use mathlib.Core.Path.{subst}
use wstunnel.UdpServer.Watchdog.{
  Intervals, IntervalLaws, Watched, timed_out, goes, catch_up, goes_from, on_tick, watchdog,
}

-- The polls of a stream, the latest first: their times, and whether they gave data.
abbrev pub History : Type 0
History = List (ℕ × Bool)

-- What gave data did so more than a timeout before.
abbrev pub SilentFor : ℕ → ℕ → ℕ × Bool → Type 0
SilentFor timeout now (t, read) = read ≡ true → t + timeout < now

-- Data came before this time.
abbrev pub ReadBefore : ℕ → ℕ × Bool → Type 0
ReadBefore time (t, read) = read ≡ true → t < time

SilentFor-mono : (T a b : ℕ) (h : History) → a ≤ b → All (SilentFor T a) h → All (SilentFor T b) h
SilentFor-mono T a b [] le k = tt
SilentFor-mono T a b ((t, read) ∷ h) le (k, ks) =
    (λ e. let early = k e in omega (arith, early, le), SilentFor-mono T a b h le ks)

ReadBefore-SilentFor :
    (T a b : ℕ) (h : History) → a + T ≤ b → All (ReadBefore a) h → All (SilentFor T b) h
ReadBefore-SilentFor T a b [] le k = tt
ReadBefore-SilentFor T a b ((t, read) ∷ h) le (k, ks) =
    (λ e. let early = k e in omega (arith, early, le), ReadBefore-SilentFor T a b h le ks)

pub SilentFor-ReadBefore : (T a : ℕ) (h : History) → All (SilentFor T a) h → All (ReadBefore a) h
SilentFor-ReadBefore T a [] k = tt
SilentFor-ReadBefore T a ((t, read) ∷ h) (k, ks) =
    (λ e. let early = k e in omega (arith, early), SilentFor-ReadBefore T a h ks)

module _ {I : Type 0} (ticks : Intervals I) (laws : IntervalLaws ticks) (T start : ℕ) where
  -- How the flag stands to the next tick.
  abbrev pub Spaced : History → Bool → ℕ → Type 0
  Spaced h true d = (start + T ≤ d) × All (ReadBefore d) h
  Spaced h false d = (start + T ≤ d) × All (SilentFor T d) h

  abbrev pub Timed : History → Bool → Option I → Type 0
  Timed h read none = ⊥
  Timed h read (some i) = Spaced h read (laws.deadline i) × (ticks.period i ≡ T)

  abbrev pub Timely : History → Watched I → Type 0
  Timely h w = Timed h w.data_read_before_deadline w.watchdog_deadline

  -- Where the ticks end that are due.
  abbrev CaughtUp : ℕ → ℕ → I → Type 0
  CaughtUp now d k =
      (now < laws.deadline k)
      × (d ≤ laws.deadline k)
      × (laws.deadline k ≤ now + T)
      × (ticks.period k ≡ T)

  next_of :
      (now : ℕ) (i : I)
      → ticks.period i ≡ T
      → (ticks.poll_tick now i).0 ≡ true
      → (laws.deadline i ≤ now)
        × (laws.deadline (ticks.poll_tick now i).1 ≡ laws.deadline i + T)
        × (ticks.period (ticks.poll_tick now i).1 ≡ T)
  next_of now i same due = (
    (laws.ready_iff now i).0 due,
    laws.next_tick now i due ∙ ap (λ p. laws.deadline i + p) same,
    laws.period_stays now i ∙ same,
  )

  wait_of :
      (now : ℕ) (i : I)
      → ticks.period i ≡ T
      → (ticks.poll_tick now i).0 ≡ false
      → (now < laws.deadline i)
        × (laws.deadline (ticks.poll_tick now i).1 ≡ laws.deadline i)
        × (ticks.period (ticks.poll_tick now i).1 ≡ T)
  wait_of now i same not_due = (
    omega (
      arith,
      λ (le : laws.deadline i ≤ now).
          let clash = sym not_due ∙ (laws.ready_iff now i).1 le in absurd {A = ⊥} cc,
    ),
    laws.same_tick now i not_due,
    laws.period_stays now i ∙ same,
  )

  -- A tick that is not due ends the loop.
  stops :
      (fuel now : ℕ) (i : I)
      → ticks.period i ≡ T
      → laws.deadline i ≤ now + T
      → (ticks.poll_tick now i).0 ≡ false
      → (k : I) × (catch_up ticks (suc fuel) now i ≡ some k) × CaughtUp now (laws.deadline i) k
  unfolding catch_up
  stops fuel now i same near not_due =
      let (later, stays, p) = wait_of now i same not_due in
      (
        (ticks.poll_tick now i).1,
        rw not_due refl,
        (omega (arith, later, stays), omega (arith, stays), omega (arith, stays, near), p),
      )

  -- With a timeout above 0 the loop of ticks ends.
  catch_up_lem :
      (fuel now : ℕ) (i : I)
      → 0 < T
      → ticks.period i ≡ T
      → now < laws.deadline i + fuel
      → laws.deadline i ≤ now + T
      → (k : I) × (catch_up ticks (suc fuel) now i ≡ some k) × CaughtUp now (laws.deadline i) k
  unfolding catch_up
  catch_up_lem zero now i pos same enough near = elim (Bool-cases (ticks.poll_tick now i).0) [
    | inl due ↦
        let (early, after, p) = next_of now i same due in absurd (omega (arith, early, enough))
    | inr not_due ↦ stops zero now i same near not_due
  ]
  catch_up_lem (suc fuel) now i pos same enough near = elim (Bool-cases (ticks.poll_tick now i).0) [
    | inl due ↦
        let (early, after, p) = next_of now i same due in
        let (k, e, (later, beyond, bound, q)) =
          catch_up_lem fuel now (ticks.poll_tick now i).1 pos p (omega (arith, after, enough, pos))
            (omega (arith, after, early)) in
        (k, rw due e, (later, omega (arith, beyond, after), bound, q))
    | inr not_due ↦ stops (suc fuel) now i same near not_due
  ]

  -- The next tick, once the stream goes on.
  abbrev pub Ahead : ℕ → Option I → Type 0
  Ahead now none = ⊥
  Ahead now (some i) = (now < laws.deadline i) × (laws.deadline i ≤ now + T)

  abbrev pub Near : ℕ → Option I → Type 0
  Near now none = ⊥
  Near now (some i) = laws.deadline i ≤ now + T

  abbrev pub TimesOut : ℕ → History → Watched I → Type 0
  TimesOut now h w =
      (w' : Watched I) × (watchdog ticks now w ≡ timed_out w')
      × (start + T ≤ now)
      × All (SilentFor T now) h

  abbrev pub GoesOn : ℕ → History → Watched I → Type 0
  GoesOn now h w =
      (w' : Watched I) × (watchdog ticks now w ≡ goes w')
      × Timely h w'
      × Ahead now w'.watchdog_deadline

  silent_later :
      (h : History) (d now : ℕ)
      → d ≤ now
      → (start + T ≤ d) × All (SilentFor T d) h
      → (start + T ≤ now) × All (SilentFor T now) h
  silent_later h d now le (early, silent) =
      (omega (arith, le, early), SilentFor-mono T d now h le silent)

  -- The tick is not due.
  undisturbed :
      (now : ℕ) (h : History) (read : Bool) (i : I)
      → Timed h read (some i)
      → laws.deadline i ≤ now + T
      → (ticks.poll_tick now i).0 ≡ false
      → GoesOn now h (record { watchdog_deadline = some i; data_read_before_deadline = read })
  unfolding watchdog on_tick
  undisturbed now h read i (spaced, same) near not_due =
      let (later, stays, p) = wait_of now i same not_due in
      (
        record {
          watchdog_deadline = some (ticks.poll_tick now i).1;
          data_read_before_deadline = read;
        },
        rw not_due refl,
        (subst (Spaced h read) (sym stays) spaced, p),
        (omega (arith, later, stays), omega (arith, stays, near)),
      )

  pub watchdog-parts :
      (now : ℕ) (h : History) (read : Bool) (o : Option I)
      → 0 < T
      → Timed h read o
      → Near now o
      → TimesOut now h (record { watchdog_deadline = o; data_read_before_deadline = read })
        ⊎ GoesOn now h (record { watchdog_deadline = o; data_read_before_deadline = read })
  unfolding watchdog on_tick goes_from
  watchdog-parts now h read none pos timed near = absurd timed
  watchdog-parts now h false (some i) pos (spaced, same) near =
      elim (Bool-cases (ticks.poll_tick now i).0) [
        | inl due ↦ inl (
          record {
            watchdog_deadline = some (ticks.poll_tick now i).1;
            data_read_before_deadline = false;
          },
          rw due refl,
          (silent_later h (laws.deadline i) now (next_of now i same due).0 spaced).0,
          (silent_later h (laws.deadline i) now (next_of now i same due).0 spaced).1,
        )
        | inr not_due ↦ inr (undisturbed now h false i (spaced, same) near not_due)
      ]
  watchdog-parts now h true (some i) pos ((since, before), same) near =
      elim (Bool-cases (ticks.poll_tick now i).0) [
        | inl due ↦
            let (early, after, p) = next_of now i same due in
            let (k, e, (later, beyond, bound, q)) =
              catch_up_lem now now (ticks.poll_tick now i).1 pos p (omega (arith, after, pos))
                (omega (arith, after, early)) in
            inr (
              record { watchdog_deadline = some k; data_read_before_deadline = false },
              rw (due, e) refl,
              (
                (
                  omega (arith, since, beyond, after),
                  ReadBefore-SilentFor T (laws.deadline i) (laws.deadline k) h
                      (omega (arith, beyond, after)) before,
                ),
                q,
              ),
              (later, bound),
            )
        | inr not_due ↦ inr (undisturbed now h true i ((since, before), same) near not_due)
      ]
