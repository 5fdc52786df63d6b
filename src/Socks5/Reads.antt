-- ===== src/Socks5/Reads.antt =====
-- The timeout of a SOCKS5 stream of datagrams, and the headers of what it sends.
use wstunnel.Prelude.{
  ℕ, ◌+◌, ◌≤◌, ◌<◌, ◌≡◌, ◌≢◌, inl, inr, refl, sym, ◌∙◌, ap, some, some_cancel, List, [], ◌∷◌, ◌++◌,
  All, arith, Bool-cases, if◌then◌else◌, length, length-append, take, ltb,
}
use mathlib.Core.Path.{subst}
use wstunnel.UdpServer.Watchdog.{
  Intervals, IntervalLaws, Watched, Watch, stuck, timed_out, goes, watched_from, watchdog, marked,
}
use wstunnel.UdpServer.Silence.{History, SilentFor}
use wstunnel.UdpServer.Polls
use wstunnel.UdpServer.Polls.{look}
use wstunnel.UdpServer.Stream.{ReadResult, timeout_error, gave_data}
use wstunnel.Socks5.Stream.{
  Polled, not_yet, closed, data_of, receive, read_on, poll_read, Sent, wrote, Write, without_header,
  poll_write,
}

module _ {I : Type 0} (ticks : Intervals I) (T start : ℕ) where
  -- What a stream comes to by reads, none of which timed out.
  pub data SocksPolled : History → Watched I → ℕ → Type 0 where
    fresh : SocksPolled [] (watched_from ticks start (some T)) start
    then_polled :
        (h : History) (w w' : Watched I) (t now remaining : ℕ) (r : Polled)
        (res : ReadResult (List ℕ))
        → SocksPolled h w t
        → t ≤ now
        → poll_read ticks now remaining r w ≡ some (res, w')
        → res ≢ timeout_error
        → SocksPolled ((now, gave_data res) ∷ h) w' now

Marks : {I : Type 0} → Watched I → ReadResult (List ℕ) × Watched I → Type 0
Marks w (res, w') = w' ≡ (if gave_data res then marked w else w)

receive-Marks :
    {I : Type 0} (remaining : ℕ) (w : Watched I) (r : Polled) → Marks w (receive remaining w r)
unfolding receive Marks
receive-Marks remaining w not_yet = refl
receive-Marks remaining w closed = refl
receive-Marks remaining w (data_of d) = elim (Bool-cases (ltb remaining (length d))) [
  | inl small ↦ rw small refl
  | inr fits ↦ rw fits refl
]

-- A read that did not time out went on.
went :
    {I : Type 0} (remaining : ℕ) (r : Polled) (x : Watch I) {res : ReadResult (List ℕ)}
    {w' : Watched I}
    → read_on remaining r x ≡ some (res, w')
    → res ≢ timeout_error
    → (w : Watched I) × (x ≡ goes w) × Marks w (res, w')
unfolding read_on
went remaining r stuck e other = cc
went {I} remaining r (timed_out w) e other =
    absurd (other (sym (ap (λ (g : ReadResult (List ℕ) × Watched I). g.0) (some_cancel e))))
went remaining r (goes w) e other =
    (w, refl, subst (Marks w) (some_cancel e) (receive-Marks remaining w r))

receive-no_timeout :
    {I : Type 0} (remaining : ℕ) (w : Watched I) (r : Polled)
    → (receive remaining w r).0 ≢ timeout_error
unfolding receive
receive-no_timeout remaining w not_yet e = cc
receive-no_timeout remaining w closed e = cc
receive-no_timeout remaining w (data_of d) e = elim (Bool-cases (ltb remaining (length d))) [
  | inl small ↦ ground arith
  | inr fits ↦ ground arith
]

module _ {I : Type 0} (ticks : Intervals I) (laws : IntervalLaws ticks) (T start : ℕ) where
  SocksPolled-Polled :
      (h : History) (w : Watched I) (t : ℕ)
      → SocksPolled ticks T start h w t
      → Polls.Polled ticks T start h w t
  unfolding poll_read Marks
  SocksPolled-Polled _ _ _ fresh = Polls.made
  SocksPolled-Polled _ _ _ (then_polled h w w' t now remaining r res before le e other) =
      let (w1, going, after) = went remaining r (watchdog ticks now w) e other in
      subst (λ v. Polls.Polled ticks T start ((now, gave_data res) ∷ h) v now) (sym after)
        (Polls.polled h w w1 t now (gave_data res) (SocksPolled-Polled h w t before) le going)

  -- With a timeout above 0 a read of a SOCKS5 stream of datagrams returns, and if it fails with a timeout
  -- error the stream is older than the timeout and each read that gave data came more than the timeout
  -- before.
  pub SocksPolled-timeout_error :
      (h : History) (w : Watched I) (t now remaining : ℕ) (r : Polled)
      → 0 < T
      → SocksPolled ticks T start h w t
      → t ≤ now
      → (res : ReadResult (List ℕ)) × (w' : Watched I) × (poll_read ticks now remaining r w
          ≡ some (res, w'))
        × (res ≡ timeout_error → (start + T ≤ now) × All (SilentFor T now) h)
  unfolding poll_read read_on
  SocksPolled-timeout_error h w t now remaining r pos before le =
      elim (look ticks laws T start h w t now pos (SocksPolled-Polled h w t before) le) [
        | inl (w', ended, since, silent) ↦
            (timeout_error, w', rw (ended, read_on) refl, λ e. (since, silent))
        | inr (w', going, timely, ahead) ↦ (
          (receive remaining w' r).0,
          (receive remaining w' r).1,
          rw (going, read_on) refl,
          λ e. absurd (receive-no_timeout remaining w' r e),
        )
      ]

take-length : (xs ys : List ℕ) → take (length xs) (xs ++ ys) ≡ xs
take-length [] ys = refl
take-length (x ∷ xs) ys = ap (λ t. x ∷ t) (take-length xs ys)

-- The writes of a stream, one after another, over what the socket says to each.
unfoldable pub write_all : List ℕ → List (List ℕ × (List ℕ → Sent)) → List Write
write_all udp_header [] = []
write_all udp_header ((buf, poll_send_to) ∷ writes) =
    let write = poll_write poll_send_to udp_header buf in write ∷ write_all write.udp_header writes

-- What each write sends and reports.
abbrev pub Framed : List ℕ → List (List ℕ × (List ℕ → Sent)) → List Write → Type 0
Framed udp_header [] [] = Unit
Framed udp_header [] (w ∷ ws) = ⊥
Framed udp_header (b ∷ bs) [] = ⊥
Framed udp_header ((buf, poll_send_to) ∷ bs) (w ∷ ws) =
    (w.datagram ≡ udp_header ++ buf)
    × (poll_send_to (udp_header ++ buf) ≡ wrote (length (udp_header ++ buf))
        → w.result ≡ wrote (length buf))
    × Framed udp_header bs ws

-- Every datagram of a stream is its header and the data of the write, whatever the writes before did,
-- and a socket that sends the whole datagram is reported as having sent the data.
pub write_all-Framed :
    (udp_header : List ℕ) (writes : List (List ℕ × (List ℕ → Sent)))
    → Framed udp_header writes (write_all udp_header writes)
unfolding write_all poll_write without_header
write_all-Framed udp_header [] = tt
write_all-Framed udp_header ((buf, poll_send_to) ∷ writes) = (
  refl,
  λ e.
      ap (without_header (length udp_header)) e
      ∙ ap wrote (omega (arith, length-append udp_header buf)),
  subst (λ kept. Framed udp_header writes (write_all kept writes))
      (sym (take-length udp_header buf)) (write_all-Framed udp_header writes),
)
