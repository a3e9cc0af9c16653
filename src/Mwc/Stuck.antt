-- ===== src/Mwc/Stuck.antt =====
-- core-mwc.cpp: a pair of seeds from which `mwc32modn` never returns.
use r_bench_an_interference.Base.{ℕ, zero, suc, ◌≤◌, ◌<◌}
use r_bench_an_interference.Base.{◌≡◌, refl, arith, none}
use r_bench_an_interference.Mwc.{Mwc, mwc32, set_seed}
use r_bench_an_interference.Mwc.Step.{modulus_z}
use r_bench_an_interference.Mwc.Bounds.{threshold}
use r_bench_an_interference.Mwc.Modn.{draw_below, mwc32modn}

-- The state does not move, and every draw is 0xffff0000.
stuck_step : (m : Mwc) → mwc32 (set_seed 0 modulus_z m) ≡ (0xffff0000, set_seed 0 modulus_z m)
unfolding mwc32 set_seed
stuck_step m = refl

draw_below_stuck :
    (fuel t : ℕ) (m : Mwc)
    → t ≤ 0xffff0000
    → draw_below mwc32 t fuel (set_seed 0 modulus_z m) ≡ none
unfolding draw_below
draw_below_stuck zero t m h = refl
draw_below_stuck (suc fuel) t m h = ground (arith, stuck_step m, draw_below_stuck fuel t m h)

-- From the seeds 0 and 36969 * 2 ^ 16 - 1, `mwc32modn` of a positive `mmod` draws for ever unless
-- its threshold is above 0xffff0000: no fuel is enough.
pub mwc32modn_stuck :
    (fuel mmod : ℕ) (m : Mwc)
    → 0 < mmod
    → threshold 31 mmod ≤ 0xffff0000
    → mwc32modn fuel mmod (set_seed 0 modulus_z m) ≡ none
unfolding mwc32modn
mwc32modn_stuck fuel mmod m positive low =
    ground (arith, draw_below_stuck fuel (threshold 31 mmod) m low)
