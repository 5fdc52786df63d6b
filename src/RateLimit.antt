-- ===== src/RateLimit.antt =====
-- wstunnel/src/tunnel/rate_limiter.rs: one pair of limiters per tunnel, shared by its connections,
-- and the size of the chunk that each read or write asks of its limiter.
pub mod Jitter
pub mod Quotas
pub mod Reader
pub mod Throughput
use Prim.Native.Nat.{bit_xor}
use wstunnel.Prelude.{
  ℕ, ◌+◌, ◌-◌, ◌*◌, ◌/◌, ◌%◌, ◌^◌, min, max, Option, none, some, List, [], ◌∷◌, lookup, insert,
  nat_eq,
}
use mathlib.Core.Option

abbrev pub chunk : ℕ
chunk = 16384

abbrev pub request_jitter_percent : ℕ
request_jitter_percent = 10

abbrev pub u32_mod : ℕ
u32_mod = 2 ^ 32

abbrev pub u64_mod : ℕ
u64_mod = 2 ^ 64

-- What `Quota::per_second(bps).allow_burst(burst)` is made of.
pub record Quota : Type 0 where
  pub bps : ℕ
  pub burst : ℕ

-- `build_limiter` for a rate in MiB/s. `as u32` wraps an integer and saturates a float. The float
-- product by 1.2 is exact to less than 1/5 here, so its integer part is that of 6/5.
unfoldable pub build_quota : ℕ → Quota
build_quota v =
    let bytes_per_sec = v * 1024 * 1024 in
    record {
      bps = max (bytes_per_sec % u32_mod) 1;
      burst = max (min (bytes_per_sec * 6 / 5) (u32_mod - 1)) 1;
    }

pub record DirectionalLimiters : Type 0 where
  pub read : Option Quota
  pub write : Option Quota

-- The limiters by tunnel id. Two connections of a tunnel share the limiters of its entry.
abbrev pub Pool : Type 0
Pool = List (ℕ × DirectionalLimiters)

-- `entry(tunnel_id).or_insert_with(..)`: an entry that is there stays, whatever the rates asked.
-- The reader carries the download, the writer the upload.
unfoldable pub wrap : Pool → ℕ → Option ℕ → Option ℕ → DirectionalLimiters × Pool
unfolding build_quota
wrap pool tunnel_id upload_m download_m = elim (lookup tunnel_id pool) [
  | some limiters ↦ (limiters, pool)
  | none ↦
      let limiters : DirectionalLimiters = record {
        read = Option.map build_quota download_m;
        write = Option.map build_quota upload_m;
      } in
      (limiters, insert tunnel_id limiters pool)
]

-- The three shifts of xorshift64 on a 64-bit word.
unfoldable pub xorshift : ℕ → ℕ
xorshift cur =
    let a = bit_xor cur (cur * 2 ^ 13 % u64_mod) in
    let b = bit_xor a (a / 2 ^ 7) in bit_xor b (b * 2 ^ 17 % u64_mod)

-- `next_jitter_roll` from the value first loaded: each element of the list is the value that a
-- failed exchange found. The roll and the value stored.
unfoldable pub next_jitter_roll : ℕ → List ℕ → ℕ × ℕ
unfolding xorshift
next_jitter_roll cur [] = (xorshift cur % u32_mod, xorshift cur)
next_jitter_roll cur (actual ∷ failures) = next_jitter_roll actual failures

abbrev pub clamp : ℕ → ℕ → ℕ → ℕ
clamp x low high = min (max x low) high

unfoldable pub jittered_chunk : ℕ → ℕ → ℕ
jittered_chunk base roll =
    let b = clamp base 1 chunk in
    let span = request_jitter_percent * 2 + 1 in
    let pct = 100 - request_jitter_percent + roll % span in clamp (b * pct / 100 % u32_mod) 1 chunk
