-- ===== src/Client/Delays.antt =====
-- The delays of a reverse tunnel.
use wstunnel.Prelude.{
  ℕ, zero, suc, ◌*◌, ◌^◌, min, ◌≡◌, refl, ap, ◌∙◌, Bool, Option, List, [], ◌∷◌, ◌++◌, Text, arith,
}
use wstunnel.Net.{Host}
use wstunnel.Request.{JwtTunnelConfig, HeaderValue}
use wstunnel.Client.{
  first_delay, Attempt, unreachable, answered, Effect, sleeps, connects, run_reverse_tunnel,
  remote_of,
}

abbrev pub failures : ℕ → List Attempt
failures zero = []
failures (suc n) = unreachable ∷ failures n

-- The delay after `n` failures in a row: a second, then two, four and so on up to the largest one.
abbrev pub backoff : ℕ → ℕ → ℕ
backoff max_delay zero = first_delay
backoff max_delay (suc n) = min (first_delay * 2 ^ suc n) max_delay

abbrev pub backoffs : ℕ → ℕ → ℕ → List Effect
backoffs max_delay n zero = []
backoffs max_delay n (suc k) = sleeps (backoff max_delay n) ∷ backoffs max_delay (suc n) k

backoff-suc :
    (max_delay n : ℕ) → min (backoff max_delay n * 2) max_delay ≡ backoff max_delay (suc n)
backoff-suc max_delay zero = refl
backoff-suc max_delay (suc n) =
    let double : 2 ^ suc (suc n) ≡ 2 ^ suc n * 2 = omega arith in omega (arith, double)

module _ (decode : Text → Option JwtTunnelConfig) (host_parse : Text → Option Host)
    (max_delay : ℕ) where
  run-failures :
      (n k : ℕ)
      → run_reverse_tunnel decode host_parse max_delay (backoff max_delay n) (failures k)
        ≡ backoffs max_delay n k
  unfolding run_reverse_tunnel
  run-failures n zero = refl
  run-failures n (suc k) =
      ap (λ t. sleeps (backoff max_delay n) ∷ t)
        (ap (λ d. run_reverse_tunnel decode host_parse max_delay d (failures k))
            (backoff-suc max_delay n)
          ∙ run-failures (suc n) k)

  -- Whatever happened before, failures in a row after an answer of the server are followed by sleeps of
  -- one second, then two, four and so on, each at most the largest delay from the second on.
  pub run_reverse_tunnel-failures :
      (state : ℕ) (before : List Attempt) (headers : List (Text × HeaderValue)) (reached : Bool)
      (k : ℕ)
      → run_reverse_tunnel decode host_parse max_delay state
          (before ++ (answered headers reached ∷ failures k))
        ≡ run_reverse_tunnel decode host_parse max_delay state
            (before ++ (answered headers reached ∷ []))
          ++ backoffs max_delay 0 k
  unfolding run_reverse_tunnel
  run_reverse_tunnel-failures state [] headers reached k =
      ap (λ t. connects (remote_of decode host_parse headers) reached ∷ t) (run-failures 0 k)
  run_reverse_tunnel-failures state (unreachable ∷ before) headers reached k =
      ap (λ t. sleeps state ∷ t)
        (run_reverse_tunnel-failures (min (state * 2) max_delay) before headers reached k)
  run_reverse_tunnel-failures state (answered h r ∷ before) headers reached k =
      ap (λ t. connects (remote_of decode host_parse h) r ∷ t)
        (run_reverse_tunnel-failures first_delay before headers reached k)
