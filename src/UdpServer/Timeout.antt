-- ===== src/UdpServer/Timeout.antt =====
-- The timeout of a stream: after silence, and after silence only.
use wstunnel.Prelude.{
  ℕ, ◌+◌, ◌≤◌, ◌<◌, ◌≡◌, ◌≢◌, ◌⊎◌, inl, inr, refl, sym, ◌∙◌, ap, Bool, true, false, some,
  some_cancel, [], ◌∷◌, All, arith, Bool-cases, if◌then◌else◌,
}
use mathlib.Core.Path.{subst}
use wstunnel.UdpServer.Watchdog.{
  Intervals, IntervalLaws, Watched, Watch, stuck, timed_out, goes, watchdog, marked,
}
use wstunnel.UdpServer.Silence.{History, SilentFor, Ahead}
use wstunnel.UdpServer.Polls.{
  Polled, made, polled, look, Polled-Timely, due_unmarks, due_ends, Ahead-Near,
}
use wstunnel.UdpServer.Stream.{
  UdpStream, Received, nothing_yet, failed, datagram, ReadResult, timeout_error, gave_data,
  new_stream, receive, when_notified, read_on, poll_read,
}

module _ {I D : Type 0} where
  receive_marks :
      (w : Watched I) (r : Received D)
      → (receive w r).1.watched ≡ (if gave_data (receive w r).0 then marked w else w)
  unfolding receive
  receive_marks w nothing_yet = refl
  receive_marks w failed = refl
  receive_marks w (datagram d) = refl

  when_notified_marks :
      (waits notified : Bool) (w : Watched I) (r : Received D)
      → (when_notified waits notified w r).1.watched
        ≡ (if gave_data (when_notified waits notified w r).0 then marked w else w)
  unfolding when_notified
  when_notified_marks true false w r = refl
  when_notified_marks true true w r = receive_marks w r
  when_notified_marks false notified w r = receive_marks w r

  -- A read that did not time out went on.
  went :
      (waits notified : Bool) (r : Received D) (x : Watch I) {res : ReadResult D} {s' : UdpStream I}
      → read_on waits notified r x ≡ some (res, s')
      → res ≢ timeout_error
      → (w : Watched I) × (x ≡ goes w) × (s'.watched ≡ (if gave_data res then marked w else w))
  unfolding read_on
  went waits notified r stuck e other = cc
  went waits notified r (timed_out w) e other =
      absurd (other (sym (ap (λ (g : ReadResult D × UdpStream I). g.0) (some_cancel e))))
  went waits notified r (goes w) e other = (
    w,
    refl,
    subst
        (λ (g : ReadResult D × UdpStream I). g.1.watched ≡ (if gave_data g.0 then marked w else w))
        (some_cancel e) (when_notified_marks waits notified w r),
  )

module _ {I : Type 0} (D : Type 0) (ticks : Intervals I) (T start : ℕ) where
  -- What a stream comes to by reads, none of which timed out: the times of the reads, the latest first,
  -- and whether they gave data.
  pub data StreamPolled : History → UdpStream I → ℕ → Type 0 where
    fresh : StreamPolled [] (new_stream ticks start (some T)) start
    then_polled :
        (h : History) (s s' : UdpStream I) (t now : ℕ) (notified : Bool) (r : Received D)
        (res : ReadResult D)
        → StreamPolled h s t
        → t ≤ now
        → poll_read ticks now notified r s ≡ some (res, s')
        → res ≢ timeout_error
        → StreamPolled ((now, gave_data res) ∷ h) s' now

  pub StreamPolled-Polled :
      (h : History) (s : UdpStream I) (t : ℕ)
      → StreamPolled h s t
      → Polled ticks T start h s.watched t
  unfolding new_stream poll_read
  StreamPolled-Polled _ _ _ fresh = made
  StreamPolled-Polled _ _ _ (then_polled h s s' t now notified r res before le e other) =
      let (w, going, after) =
        went s.pending_notification notified r (watchdog ticks now s.watched) e other in
      subst (λ v. Polled ticks T start ((now, gave_data res) ∷ h) v now) (sym after)
        (polled h s.watched w t now (gave_data res) (StreamPolled-Polled h s t before) le going)

module _ {I : Type 0} (D : Type 0) (ticks : Intervals I) (laws : IntervalLaws ticks)
    (T start : ℕ) where
  errs :
      (waits notified : Bool) (r : Received D) (x : Watch I) (w : Watched I)
      → x ≡ timed_out w
      → (s' : UdpStream I) × (read_on waits notified r x ≡ some (timeout_error, s'))
  unfolding read_on
  errs waits notified r x w e =
      (record { watched = w; pending_notification = waits }, rw (e, read_on) refl)

  only_timed_out :
      (waits notified : Bool) (r : Received D) (w : Watched I) {s' : UdpStream I}
      → when_notified waits notified w r ≢ (timeout_error, s')
  unfolding when_notified receive
  only_timed_out true false r w e = cc
  only_timed_out true true nothing_yet w e = cc
  only_timed_out true true failed w e = cc
  only_timed_out true true (datagram d) w e = cc
  only_timed_out false notified nothing_yet w e = cc
  only_timed_out false notified failed w e = cc
  only_timed_out false notified (datagram d) w e = cc

  -- If a read fails with a timeout error, the stream is older than its timeout, which is above 0, and
  -- no read gave data within that time: each read that gave data came more than the timeout before.
  pub StreamPolled-timeout_error :
      (h : History) (s s' : UdpStream I) (t now : ℕ) (notified : Bool) (r : Received D)
      → 0 < T
      → StreamPolled D ticks T start h s t
      → t ≤ now
      → poll_read ticks now notified r s ≡ some (timeout_error, s')
      → (start + T ≤ now) × All (SilentFor T now) h
  unfolding poll_read read_on
  StreamPolled-timeout_error h s s' t now notified r pos before le e =
      elim (look ticks laws T start h s.watched t now pos
        (StreamPolled-Polled D ticks T start h s t before) le) [
          | inl (w, ended, since, silent) ↦ (since, silent)
          | inr (w, going, timely, ahead) ↦ absurd (
              only_timed_out s.pending_notification notified r w
                (some_cancel (sym (ap (read_on s.pending_notification notified r) going) ∙ e)))
        ]

  -- What a read gives after a timeout without a poll: an end, data, or a stream that ends at any read
  -- after one more timeout.
  abbrev pub Ends : ℕ → ReadResult D → UdpStream I → Type 0
  Ends t1 res s1 =
      (res ≡ timeout_error)
      ⊎ (gave_data res ≡ true)
      ⊎ ((t2 : ℕ) (notified : Bool) (r : Received D)
          → t1 + T ≤ t2
          → (s2 : UdpStream I) × (poll_read ticks t2 notified r s1 ≡ some (timeout_error, s2)))

  ends_later :
      (t1 : ℕ) (w : Watched I) (s1 : UdpStream I)
      → s1.watched ≡ w
      → w.data_read_before_deadline ≡ false
      → Ahead ticks laws T start t1 w.watchdog_deadline
      → (t2 : ℕ) (notified : Bool) (r : Received D) → t1 + T ≤ t2
      → (s2 : UdpStream I) × (poll_read ticks t2 notified r s1 ≡ some (timeout_error, s2))
  unfolding poll_read
  ends_later t1 w s1 same unmarked ahead t2 notified r later =
      let (w', ended) =
        due_ends ticks laws T start t1 t2 w.watchdog_deadline
          (Ahead-Near ticks laws T start t1 w.watchdog_deadline ahead) later in
      errs s1.pending_notification notified r (watchdog ticks t2 s1.watched) w' (
        ap (watchdog ticks t2) (
          same
          ∙ ap
              (λ b. record {
                watchdog_deadline = w.watchdog_deadline;
                data_read_before_deadline = b;
              })
              unmarked)
        ∙ ended)

  -- With a timeout above 0, a read made at least a timeout after the one before returns, and it fails with
  -- a timeout error, gives data, or leaves a stream that fails with a timeout error at every read made
  -- at least another timeout later.
  pub StreamPolled-Ends :
      (h : History) (s : UdpStream I) (t t1 : ℕ) (notified : Bool) (r : Received D)
      → 0 < T
      → StreamPolled D ticks T start h s t
      → t + T ≤ t1
      → (res : ReadResult D) × (s1 : UdpStream I) × (poll_read ticks t1 notified r s
          ≡ some (res, s1))
        × Ends t1 res s1
  unfolding poll_read read_on
  StreamPolled-Ends h s t t1 notified r pos before le =
      let prior = StreamPolled-Polled D ticks T start h s t before in
      elim (look ticks laws T start h s.watched t t1 pos prior (omega (arith, le))) [
        | inl (w, ended, since, silent) ↦
            let (s1, e) =
              errs s.pending_notification notified r (watchdog ticks t1 s.watched) w ended in
            (timeout_error, s1, e, inl refl)
        | inr (w, going, timely, ahead) ↦
            let g = when_notified s.pending_notification notified w r in
            (
              g.0,
              g.1,
              rw going refl,
              elim (Bool-cases (gave_data g.0)) [
                | inl data_came ↦ inr (inl data_came)
                | inr silent ↦ inr (
                    inr (
                      ends_later t1 w g.1
                        (when_notified_marks s.pending_notification notified w r
                          ∙ ap (λ b. if b then marked w else w) silent)
                        (due_unmarks ticks laws T start t t1 s.watched.data_read_before_deadline
                          s.watched.watchdog_deadline
                          (Polled-Timely ticks laws T start h s.watched t pos prior).1 le going)
                        ahead))
              ],
            )
      ]
