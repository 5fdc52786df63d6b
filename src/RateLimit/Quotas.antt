-- ===== src/RateLimit/Quotas.antt =====
-- The quotas and the pool of limiters.
use wstunnel.Prelude.{
  ℕ, ◌+◌, ◌*◌, ◌≤◌, ◌<◌, ◌≡◌, ◌≢◌, inl, inr, refl, arith, Option, none, some, Option-cases, lookup,
  insert, lookup-insert, nat_eq, ==_self,
}
use mathlib.Core.Option
use wstunnel.RateLimit.{chunk, build_quota, DirectionalLimiters, Pool, wrap, jittered_chunk}
use wstunnel.RateLimit.Jitter.{jittered_chunk_bounds}

-- From 1 to 4095 MiB/s the quota is the rate asked, in bytes, with a burst that holds every chunk.
pub build_quota_exact :
    (m base roll : ℕ)
    → 1 ≤ m
    → m < 4096
    → 1 ≤ base
    → base ≤ chunk
    → ((build_quota m).bps ≡ m * 1048576)
      × ((build_quota m).bps ≤ (build_quota m).burst)
      × (jittered_chunk base roll ≤ (build_quota m).burst)
unfolding build_quota
build_quota_exact m base roll low high bl bh =
    let (_, fits, _, _) = jittered_chunk_bounds base roll bl bh in
    (omega arith, omega arith, omega arith)

-- From 4096 MiB/s on the rate wraps around: the quota is below what was asked, and a multiple of
-- 4096 MiB/s leaves one byte per second.
pub build_quota_wraps :
    (k r : ℕ)
    → r < 4096
    → ((build_quota ((k + 1) * 4096 + r)).bps < ((k + 1) * 4096 + r) * 1048576)
      × ((build_quota ((k + 1) * 4096)).bps ≡ 1)
unfolding build_quota
build_quota_wraps k r h = (omega arith, omega arith)

-- A rate of 0 leaves a burst of one byte, which a request of three bytes or more exceeds.
pub build_quota_zero :
    (base roll : ℕ) → 3 ≤ base → base ≤ chunk → (build_quota 0).burst < jittered_chunk base roll
unfolding build_quota
build_quota_zero base roll low high =
    let (_, _, _, least) = jittered_chunk_bounds base roll (omega arith) high in omega arith

abbrev fresh : Option ℕ → Option ℕ → DirectionalLimiters
fresh up down = record { read = Option.map build_quota down; write = Option.map build_quota up }

wrap_old :
    (pool : Pool) (id : ℕ) (up down : Option ℕ) (l : DirectionalLimiters)
    → lookup id pool ≡ some l
    → wrap pool id up down ≡ (l, pool)
unfolding wrap
wrap_old pool id up down l e = rw (e, wrap)

wrap_new :
    (pool : Pool) (id : ℕ) (up down : Option ℕ)
    → lookup id pool ≡ none
    → wrap pool id up down ≡ (fresh up down, insert id (fresh up down) pool)
unfolding wrap
wrap_new pool id up down e = rw (e, wrap)

lookup-insert_same :
    (id : ℕ) (l : DirectionalLimiters) (pool : Pool) → lookup id (insert id l pool) ≡ some l
lookup-insert_same id l pool = rw (lookup-insert id id l pool, ==_self id)

-- The limiters of a tunnel are chosen by its first connection: after it, any connection of that
-- tunnel gets the same limiters and leaves the pool as it is, whatever rates it asks for, and the
-- limiters of other tunnels stay.
pub wrap_shared :
    (pool : Pool) (id other : ℕ) (up down up' down' : Option ℕ)
    → (wrap (wrap pool id up down).1 id up' down' ≡ wrap pool id up down)
      × (id ≢ other → lookup other (wrap pool id up down).1 ≡ lookup other pool)
wrap_shared pool id other up down up' down' = elim (Option-cases (lookup id pool)) [
  | inl e ↦ rw (wrap_new pool id up down e) (
    wrap_old _ id up' down' (fresh up down) (lookup-insert_same id (fresh up down) pool),
    λ different. ground (arith, lookup-insert id other (fresh up down) pool),
  )
  | inr (l, e) ↦ rw (wrap_old pool id up down l e) (wrap_old pool id up' down' l e, λ _. refl)
]
