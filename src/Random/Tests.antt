-- ===== src/Random/Tests.antt =====
-- Runs of rutil/random.h.
use rocksutil.Base.{◌*◌, ◌%◌, ◌≡◌, refl, arith}
use rocksutil.Random.{
  IsSeed, next, good_seed, modulus, multiplier, next_lem, good_seed-IsSeed, next-good_seed_stuck,
}

next_lem_example : (next 301 ≡ 301 * multiplier % modulus) × IsSeed (next 301)
unfolding IsSeed
next_lem_example = next_lem 301 (omega arith, omega arith)

good_seed-IsSeed_example : IsSeed (good_seed 4294967290)
good_seed-IsSeed_example = good_seed-IsSeed 4294967290 (omega arith)

next-good_seed_stuck_example :
    (good_seed 4294967295 ≡ modulus) × (next (good_seed 4294967295) ≡ good_seed 4294967295)
next-good_seed_stuck_example = next-good_seed_stuck 4294967295 refl
