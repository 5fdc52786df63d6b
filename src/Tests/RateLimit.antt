-- ===== src/Tests/RateLimit.antt =====
-- The rate limiter and the resolver at concrete values.
use wstunnel.Prelude.{
  ◌+◌, ◌*◌, ◌%◌, ◌≤◌, ◌<◌, ◌≡◌, ◌≢◌, ◌↔◌, refl, true, none, some, [], ◌∷◌, arith, nat_eq,
}
use wstunnel.RateLimit.{u32_mod, build_quota, xorshift, jittered_chunk}
use wstunnel.RateLimit.Quotas.{build_quota_wraps}
use wstunnel.RateLimit.Reader.{Limited, granted, inner_ready, Turn, panicked, poll_read, poll_write}
use wstunnel.RateLimit.Throughput.{totals, totals_le_cells, poll_write-panicked_iff}

first_roll : xorshift 0x9E37_79B9_7F4A_7C15 ≢ 0
unfolding xorshift
first_roll = omega arith

build_quota_wraps_example :
    ((build_quota ((0 + 1) * 4096 + 7)).bps < ((0 + 1) * 4096 + 7) * 1048576)
    × ((build_quota ((0 + 1) * 4096)).bps ≡ 1)
build_quota_wraps_example = build_quota_wraps 0 7 (omega arith)

abbrev slow : Limited
slow = record { limiter = some (record { bps = 1048576; burst = 1258291 }); sleep = none }

abbrev turn : Turn
turn = record { elapsed = true; roll = 10; check = granted; inner = inner_ready 5000 }

totals_run : totals slow ((1000, turn) ∷ (64, turn) ∷ []) ≡ (1064, 1064)
unfolding poll_read jittered_chunk
totals_run = refl

totals_le_cells_example :
    (totals slow ((1000, turn) ∷ (64, turn) ∷ [])).0
    ≤ (totals slow ((1000, turn) ∷ (64, turn) ∷ [])).1
totals_le_cells_example =
    totals_le_cells slow ((1000, turn) ∷ (64, turn) ∷ [])
      (record { bps = 1048576; burst = 1258291 }) refl

poll_write-panicked_iff_example : ((poll_write slow 0 turn).outcome ≡ panicked) ↔ (0 % u32_mod ≡ 0)
poll_write-panicked_iff_example =
    poll_write-panicked_iff slow 0 turn (record { bps = 1048576; burst = 1258291 }) refl refl
