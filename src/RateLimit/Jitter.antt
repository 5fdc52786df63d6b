-- ===== src/RateLimit/Jitter.antt =====
-- Bounds on the chunk that one poll asks for, and on the roll that it uses.
use wstunnel.Prelude.{
  ℕ, ◌+◌, ◌*◌, ◌/◌, ◌%◌, ◌≤◌, ◌<◌, ◌≡◌, List, [], ◌∷◌, ◌++◌, refl, arith, min, max,
}
use wstunnel.RateLimit.{chunk, u32_mod, xorshift, next_jitter_roll, jittered_chunk}

-- The arithmetic of a chunk, over the percentage drawn.
scaled : ℕ → ℕ → ℕ
scaled b pct = min (max (b * pct / 100 % u32_mod) 1) chunk

scaled_bounds :
    (b r : ℕ)
    → 1 ≤ b
    → b ≤ chunk
    → r ≤ 20
    → (1 ≤ scaled b (90 + r))
      × (scaled b (90 + r) ≤ chunk)
      × (scaled b (90 + r) * 100 ≤ b * 110 + 100)
      × (b * 90 ≤ scaled b (90 + r) * 100 + 99)
unfolding scaled
scaled_bounds b r low high small = let upper : b * r ≤ b * 20 = grind arith in omega arith

-- Of a request of 1 to 16384 bytes a chunk is at least one byte, at most 16384, at most a tenth more
-- than asked, and at least nine tenths of it.
pub jittered_chunk_bounds :
    (base roll : ℕ)
    → 1 ≤ base
    → base ≤ chunk
    → (1 ≤ jittered_chunk base roll)
      × (jittered_chunk base roll ≤ chunk)
      × (jittered_chunk base roll * 100 ≤ base * 110 + 100)
      × (base * 90 ≤ jittered_chunk base roll * 100 + 99)
unfolding jittered_chunk scaled
jittered_chunk_bounds base roll low high =
    let same : min (max base 1) chunk ≡ base = omega arith in
    rw same (scaled_bounds base (roll % 21) low high (omega arith))

-- A roll is stored as one xorshift step of the last value that the loop found, however many
-- exchanges failed before, and fits 32 bits.
pub next_jitter_roll_lem :
    (cur : ℕ) (failures : List ℕ) (last : ℕ)
    → (next_jitter_roll cur (failures ++ last ∷ []) ≡ (xorshift last % u32_mod, xorshift last))
      × ((next_jitter_roll cur (failures ++ last ∷ [])).0 < u32_mod)
unfolding next_jitter_roll
next_jitter_roll_lem cur [] last = (refl, omega arith)
next_jitter_roll_lem cur (actual ∷ failures) last = next_jitter_roll_lem actual failures last
