-- ===== src/UdpServer/Polls.antt =====
-- The polls of a stream, made one after another.
use wstunnel.Prelude.{
  ℕ, ◌+◌, ◌≤◌, ◌<◌, ◌≡◌, ◌⊎◌, inl, inr, Bool, true, false, Option, none, some, [], ◌∷◌, arith,
  if◌then◌else◌, sym, ◌∙◌, ap, refl, suc,
}
use mathlib.Core.Path.{subst}
use wstunnel.UdpServer.Watchdog.{
  Intervals, IntervalLaws, Watched, timed_out, goes, watched_from, watchdog, marked, on_tick,
  goes_from, catch_up,
}
use wstunnel.UdpServer.Silence.{
  History, Timely, Timed, SilentFor-ReadBefore, Near, Ahead, TimesOut, GoesOn, watchdog-parts,
}

module _ {I : Type 0} (ticks : Intervals I) (T start : ℕ) where
  -- What a stream with a timeout comes to by polls, each not before the last.
  pub data Polled : History → Watched I → ℕ → Type 0 where
    made : Polled [] (watched_from ticks start (some T)) start
    polled :
        (h : History) (w w' : Watched I) (t now : ℕ) (read : Bool)
        → Polled h w t
        → t ≤ now
        → watchdog ticks now w ≡ goes w'
        → Polled ((now, read) ∷ h) (if read then marked w' else w') now

goes_cancel : {I : Type 0} {a b : Watched I} → goes a ≡ goes b → a ≡ b
goes_cancel e = cc

module _ {I : Type 0} (ticks : Intervals I) (laws : IntervalLaws ticks) (T start : ℕ) where
  unread :
      (h : History) (now : ℕ) (read : Bool) (o : Option I)
      → Timed ticks laws T start h read o
      → Timed ticks laws T start ((now, false) ∷ h) read o
  unread h now read none timed = absurd timed
  unread h now false (some i) ((since, silent), p) = ((since, (λ e. cc, silent)), p)
  unread h now true (some i) ((since, before), p) = ((since, (λ e. cc, before)), p)

  mark :
      (h : History) (now : ℕ) (read : Bool) (o : Option I)
      → Timed ticks laws T start h read o
      → Ahead ticks laws T start now o
      → Timed ticks laws T start ((now, true) ∷ h) true o
  mark h now read none timed ahead = absurd timed
  mark h now false (some i) ((since, silent), p) (later, near) =
      ((since, (λ e. later, SilentFor-ReadBefore T (laws.deadline i) h silent)), p)
  mark h now true (some i) ((since, before), p) (later, near) = ((since, (λ e. later, before)), p)

  pub Ahead-Near :
      (now : ℕ) (o : Option I) → Ahead ticks laws T start now o → Near ticks laws T start now o
  Ahead-Near now none a = a
  Ahead-Near now (some i) (later, near) = near

  Near-later :
      (t now : ℕ) (o : Option I)
      → t ≤ now
      → Near ticks laws T start t o
      → Near ticks laws T start now o
  Near-later t now none le n = n
  Near-later t now (some i) le n = omega (arith, le, n)

  after_poll :
      (h : History) (now : ℕ) (read : Bool) (w : Watched I)
      → Timely ticks laws T start h w
      → Ahead ticks laws T start now w.watchdog_deadline
      → Timely ticks laws T start ((now, read) ∷ h) (if read then marked w else w)
        × Near ticks laws T start now (if read then marked w else w).watchdog_deadline
  after_poll h now false w timely ahead = (
    unread h now w.data_read_before_deadline w.watchdog_deadline timely,
    Ahead-Near now w.watchdog_deadline ahead,
  )
  after_poll h now true w timely ahead = (
    mark h now w.data_read_before_deadline w.watchdog_deadline timely ahead,
    Ahead-Near now w.watchdog_deadline ahead,
  )

  pub watchdog-cases :
      (h : History) (now : ℕ) (w : Watched I)
      → 0 < T
      → Timely ticks laws T start h w
      → Near ticks laws T start now w.watchdog_deadline
      → TimesOut ticks laws T start now h w ⊎ GoesOn ticks laws T start now h w
  watchdog-cases h now w pos timely near =
      watchdog-parts ticks laws T start now h w.data_read_before_deadline w.watchdog_deadline pos
        timely near

  pub Polled-Timely :
      (h : History) (w : Watched I) (t : ℕ)
      → 0 < T
      → Polled ticks T start h w t
      → Timely ticks laws T start h w × Near ticks laws T start t w.watchdog_deadline
  unfolding watched_from
  Polled-Timely _ _ _ pos made =
      let d = laws.deadline_at (start + T) T in
      ((((omega (arith, d)), tt), laws.period_at (start + T) T), omega (arith, d))
  Polled-Timely _ _ _ pos (polled h w w' t now read before le going) =
      let (timely, near) = Polled-Timely h w t pos before in
      elim (watchdog-cases h now w pos timely (Near-later t now w.watchdog_deadline le near)) [
        | inl (w'', e, since, silent) ↦ let clash = sym e ∙ going in cc
        | inr (w'', e, timely', ahead) ↦
            let same = goes_cancel (sym e ∙ going) in
            after_poll h now read w' (subst (Timely ticks laws T start h) same timely')
              (subst (λ v. Ahead ticks laws T start now v.watchdog_deadline) same ahead)
      ]

  -- Each next look at the deadline.
  pub look :
      (h : History) (w : Watched I) (t now : ℕ)
      → 0 < T
      → Polled ticks T start h w t
      → t ≤ now
      → TimesOut ticks laws T start now h w ⊎ GoesOn ticks laws T start now h w
  look h w t now pos before le =
      let (timely, near) = Polled-Timely h w t pos before in
      watchdog-cases h now w pos timely (Near-later t now w.watchdog_deadline le near)

  -- With a tick due, a stream that goes on has lost its mark,
  pub due_unmarks :
      (t now : ℕ) (read : Bool) (o : Option I) {w : Watched I}
      → Near ticks laws T start t o
      → t + T ≤ now
      → watchdog ticks now (record { watchdog_deadline = o; data_read_before_deadline = read })
        ≡ goes w
      → w.data_read_before_deadline ≡ false
  unfolding watchdog on_tick goes_from
  due_unmarks t now read none near le e = absurd near
  due_unmarks t now false (some i) near le e =
      let due = (laws.ready_iff now i).1 (omega (arith, near, le)) in
      let clash = sym (ap (λ b. on_tick ticks now false b (ticks.poll_tick now i).1) due) ∙ e in cc
  due_unmarks t now true (some i) near le e =
      let due = (laws.ready_iff now i).1 (omega (arith, near, le)) in
      reset (catch_up ticks (suc now) now (ticks.poll_tick now i).1)
        (sym (ap (λ b. on_tick ticks now true b (ticks.poll_tick now i).1) due) ∙ e)
    where
      reset :
          (o : Option I) {w : Watched I}
          → goes_from o ≡ goes w
          → w.data_read_before_deadline ≡ false
      reset none e = cc
      reset (some k) e = sym (ap (λ v. v.data_read_before_deadline) (goes_cancel e))

  -- and one without a mark ends.
  pub due_ends :
      (t now : ℕ) (o : Option I)
      → Near ticks laws T start t o
      → t + T ≤ now
      → (w : Watched I) × (watchdog ticks now
            (record { watchdog_deadline = o; data_read_before_deadline = false })
          ≡ timed_out w)
  unfolding watchdog on_tick
  due_ends t now none near le = absurd near
  due_ends t now (some i) near le =
      let due = (laws.ready_iff now i).1 (omega (arith, near, le)) in
      (
        record {
          watchdog_deadline = some (ticks.poll_tick now i).1;
          data_read_before_deadline = false;
        },
        rw due refl,
      )
