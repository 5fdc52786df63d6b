-- ===== src/TcpServer/Proxy.antt =====
-- The response of an HTTP proxy.
use wstunnel.Prelude.{
  ℕ, ◌≡◌, ◌≢◌, ◌↔◌, ◌⊎◌, refl, sym, ap, ◌∙◌, Bool, true, false, ◌||◌, none, some, List, [], ◌∷◌,
  ◌++◌, Text, codes, All, Bool-cases, inl, inr, arith, if◌then◌else◌, map, starts_with, length, ltb,
  lt→ltb, ltb→lt, ◌<◌, ◌*◌,
}
use mathlib.Core.Path.{subst}
use mathlib.Core.List.{append_assoc, append-nil, flatten}
use wstunnel.Prelude.Results.{Result, ok, err}
use wstunnel.Net.{Host}
use wstunnel.TcpServer.{
  ConnectError, invalid_response, has_window, is_complete, end_http_response, ProxyRead, bytes,
  read_response, ok_response_10, ok_response_11, is_accepted, ProxyUrl, authorization,
  connect_request, connect_with_http_proxy,
}

-- The text stands somewhere in the buffer.
abbrev pub Within : List ℕ → List ℕ → Type 0
Within pat buf = (pre : List ℕ) × (post : List ℕ) × (buf ≡ pre ++ (pat ++ post))

starts_with_sound :
    (s pat : List ℕ) → starts_with s pat ≡ true → (post : List ℕ) × (s ≡ pat ++ post)
starts_with_sound s [] h = (s, refl)
starts_with_sound [] (p ∷ pat) h = cc
starts_with_sound (c ∷ s) (p ∷ pat) h =
    let (post, e) = starts_with_sound s pat (ground arith) in
    let same : c ≡ p = ground arith in (post, λ i. same i ∷ e i)

starts_with_append : (pat post : List ℕ) → starts_with (pat ++ post) pat ≡ true
starts_with_append [] post = ground arith
starts_with_append (p ∷ pat) post = ground (arith, starts_with_append pat post)

has_window_intro :
    (p : ℕ) (pat pre post : List ℕ) → has_window (p ∷ pat) (pre ++ ((p ∷ pat) ++ post)) ≡ true
unfolding has_window
has_window_intro p pat [] post = ground (arith, starts_with_append (p ∷ pat) post)
has_window_intro p pat (b ∷ pre) post = ground (arith, has_window_intro p pat pre post)

has_window-Within :
    (p : ℕ) (pat buf : List ℕ) → (has_window (p ∷ pat) buf ≡ true) ↔ Within (p ∷ pat) buf
unfolding has_window
has_window-Within p pat [] = (λ e. cc, λ (pre, post, e). empty pre post e)
  where
    empty : (pre post : List ℕ) → [] ≡ pre ++ ((p ∷ pat) ++ post) → has_window (p ∷ pat) [] ≡ true
    empty [] post e = cc
    empty (x ∷ pre) post e = cc
has_window-Within p pat (b ∷ buf) = (
  λ e. elim (Bool-cases (starts_with (b ∷ buf) (p ∷ pat))) [
    | inl here ↦ let (post, same) = starts_with_sound (b ∷ buf) (p ∷ pat) here in ([], post, same)
    | inr other ↦
        let (pre, post, same) = (has_window-Within p pat buf).0 (ground arith) in
        (b ∷ pre, post, ap (λ t. b ∷ t) same)
  ],
  λ (pre, post, e).
      subst (λ t. has_window (p ∷ pat) t ≡ true) (sym e) (has_window_intro p pat pre post),
)

or_iff : {P Q : Type 0} (a b : Bool) → (a ≡ true) ↔ P → (b ≡ true) ↔ Q → ((a || b) ≡ true) ↔ (P ⊎ Q)
or_iff true b (f, g) (h, k) = (λ e. inl (f refl), λ x. refl)
or_iff {P = P} {Q = Q} false b (f, g) (h, k) = (λ e. inr (h e), taken)
  where
    taken : P ⊎ Q → b ≡ true
    taken (inl p) = let clash = g p in cc
    taken (inr q) = k q

-- A blank line stands in the bytes, or they are more than 50 KiB.
abbrev pub Complete : List ℕ → Type 0
Complete buf = (50 * 1024 < length buf) ⊎ Within end_http_response buf

pub is_complete-Complete : (buf : List ℕ) → (is_complete buf ≡ true) ↔ Complete buf
unfolding is_complete
is_complete-Complete buf =
    or_iff (ltb (50 * 1024) (length buf)) (has_window end_http_response buf)
      (ltb→lt (50 * 1024) (length buf), lt→ltb (50 * 1024) (length buf))
      (has_window-Within 13 (10 ∷ 13 ∷ 10 ∷ []) buf)

-- The reads are complete with the last one, and not before it.
abbrev pub Whole : List (List ℕ) → Type 0
Whole reads =
    Complete (flatten reads)
    × ((p q : List (List ℕ)) → reads ≡ p ++ q → q ≢ [] → Complete (flatten p) → ⊥)

abbrev pub NonEmpty : List (List ℕ) → Type 0
NonEmpty = All (λ d. d ≢ [])

-- After what was read before, the reads are taken up to the one that completes them.
read_response_whole :
    (buf d : List ℕ) (chunks : List (List ℕ)) (more : List ProxyRead)
    → NonEmpty (d ∷ chunks)
    → is_complete (buf ++ (d ++ flatten chunks)) ≡ true
    → ((p q : List (List ℕ))
        → d ∷ chunks ≡ p ++ q
        → q ≢ []
        → is_complete (buf ++ flatten p) ≡ false)
    → read_response buf (bytes d ∷ (map bytes chunks ++ more)) ≡ ok (buf ++ (d ++ flatten chunks))
unfolding read_response flatten
read_response_whole buf [] chunks more (n, h) full early = absurd (n refl)
read_response_whole buf (b ∷ d) [] more (n, h) full early =
    let same : buf ++ ((b ∷ d) ++ []) ≡ buf ++ (b ∷ d) = ap (λ t. buf ++ t) (append-nil (b ∷ d)) in
    let ends : is_complete (buf ++ (b ∷ d)) ≡ true = sym (ap is_complete same) ∙ full in
    rw ends (ap ok (sym same))
read_response_whole buf (b ∷ d) (c ∷ chunks) more (n, h) full early =
    let first : buf ++ ((b ∷ d) ++ []) ≡ buf ++ (b ∷ d) = ap (λ t. buf ++ t) (append-nil (b ∷ d)) in
    let goes_on : is_complete (buf ++ (b ∷ d)) ≡ false =
      sym (ap is_complete first) ∙ early ((b ∷ d) ∷ []) (c ∷ chunks) refl (λ e. cc) in
    let split = append_assoc buf (b ∷ d) (c ++ flatten chunks) in
    rw goes_on (
      read_response_whole (buf ++ (b ∷ d)) c chunks more h (ap is_complete split ∙ full) (λ p q e m.
        ap is_complete (append_assoc buf (b ∷ d) (flatten p))
        ∙ early ((b ∷ d) ∷ p) q (ap (λ t. (b ∷ d) ∷ t) e) m)
      ∙ ap ok split)

abbrev pub Accepts : List ℕ → Type 0
Accepts buf = Within ok_response_10 buf ⊎ Within ok_response_11 buf

is_accepted-Accepts : (buf : List ℕ) → (is_accepted buf ≡ true) ↔ Accepts buf
unfolding is_accepted
is_accepted-Accepts buf =
    or_iff (has_window ok_response_10 buf) (has_window ok_response_11 buf)
      (has_window-Within b'H' (codes "TTP/1.0 200 ") buf)
      (has_window-Within b'H' (codes "TTP/1.1 200 ") buf)

incomplete : (buf : List ℕ) → (Complete buf → ⊥) → is_complete buf ≡ false
incomplete buf h = elim (Bool-cases (is_complete buf)) [
  | inl full ↦ absurd (h ((is_complete-Complete buf).0 full))
  | inr e ↦ e
]

module _ {S : Type 0} (proxy : ProxyUrl) (connect_to : Host → ℕ → Result ConnectError S)
    (sends : S → Text → Bool) (answers : S → List ProxyRead) (target : Text) where
  abbrev pub proxy_port : ℕ
  proxy_port = elim proxy.port_or_known_default [ none ↦ 80 | some p ↦ p ]

  -- The answer by whether the response accepts.
  abbrev Judged : List ℕ → S → Result ConnectError S → Type 0
  Judged buf socket result =
      (Accepts buf × (result ≡ ok socket)) ⊎ ((Accepts buf → ⊥) × (result ≡ err invalid_response))

  judged :
      (buf : List ℕ) (socket : S)
      → Judged buf socket (if is_accepted buf then ok socket else err invalid_response)
  judged buf socket = elim (Bool-cases (is_accepted buf)) [
    | inl taken ↦ inl ((is_accepted-Accepts buf).0 taken, rw taken refl)
    | inr declined ↦
        inr (λ a. let clash = sym declined ∙ (is_accepted-Accepts buf).1 a in cc, rw declined refl)
  ]

  -- Once the proxy is reached and the request is sent with the authorization of its URL: of the reads,
  -- none empty, up to the first with which a blank line stands in what was read or this is more than 50
  -- KiB, the connection is the socket if the text of a 200 status stands anywhere in them and an error if
  -- not. The reads after that one do not count; bytes that follow the blank line in it do.
  pub connect_with_http_proxy_lem :
      (proxy_host : Host) (socket : S) (auth : Text) (d : List ℕ) (chunks : List (List ℕ))
      (more : List ProxyRead)
      → proxy.host ≡ some proxy_host
      → connect_to proxy_host proxy_port ≡ ok socket
      → authorization proxy ≡ ok auth
      → sends socket (connect_request target auth) ≡ true
      → answers socket ≡ bytes d ∷ (map bytes chunks ++ more)
      → NonEmpty (d ∷ chunks)
      → Whole (d ∷ chunks)
      → Judged
          (d ++ flatten chunks)
          socket
          (connect_with_http_proxy proxy connect_to sends answers target)
  unfolding connect_with_http_proxy flatten
  connect_with_http_proxy_lem proxy_host socket auth d chunks more has_host reached given sent
        answered nonempty (full, early) =
      let got =
        read_response_whole [] d chunks more nonempty
          ((is_complete-Complete (d ++ flatten chunks)).1 full)
          (λ p q e m. incomplete (flatten p) (early p q e m)) in
      rw (has_host, reached, given, sent, answered, got) (judged (d ++ flatten chunks) socket)
