-- ===== src/Tests/Mwc.antt =====
-- core-mwc.cpp and core-lfsr.cpp: the theorems at the default seeds.
use r_bench_an_interference.Base.{ℕ, zero, suc, ◌-◌, ◌*◌, ◌%◌, ◌^◌, ◌≤◌, ◌<◌, ◌≡◌, refl, arith}
use r_bench_an_interference.Base.{none, some, [], ◌∷◌}
use r_bench_an_interference.Base.Int.{pos}
use r_bench_an_interference.Mwc.{
  Mwc, mwc, mwc_seed_w, mwc_seed_z, mwc32, mwc64, mwc16, mwc8, mwc1, skip, set_seed, high_first,
}
use r_bench_an_interference.Mwc.Modn.{raise_threshold, mwc32modn}
use r_bench_an_interference.Mwc.Fill.{Memory, fill_array}
use r_bench_an_interference.Mwc.Step.{
  modulus_z, modulus_w, mwc32-lehmer, IsLive, mwc-IsLive, draws-IsLive,
}
use r_bench_an_interference.Mwc.Chunks.{draws, SameSeed, mwc1-mwc32}
use r_bench_an_interference.Mwc.Bounds.{after, IsFirst, threshold, mwc32modn-first}
use r_bench_an_interference.Mwc.Stuck.{mwc32modn_stuck}
use r_bench_an_interference.Mwc.FillLaws.{Ends, fill_array-Ends}
use r_bench_an_interference.Lfsr.{lfsr32}
use r_bench_an_interference.Lfsr.Laws.{lfsr32_back, lfsr32_back-lfsr32}

abbrev default_state : Mwc
default_state = mwc mwc_seed_w mwc_seed_z

-- The state after one draw: the next four draws are 2^31 or more, the fifth is below.
abbrev pub second_state : Mwc
second_state = (mwc32 default_state).1

redraws : (i : ℕ) → i < 4 → threshold 31 8 ≤ (mwc32 (after mwc32 i second_state)).0
unfolding mwc32 after raise_threshold
redraws zero h = omega arith
redraws (suc zero) h = omega arith
redraws (suc (suc zero)) h = omega arith
redraws (suc (suc (suc zero))) h = omega arith
redraws (suc (suc (suc (suc i)))) h = absurd (omega arith)

pub fifth : IsFirst mwc32 (threshold 31 8) 4 second_state
unfolding mwc32 after raise_threshold
fifth = record { refused = redraws; kept = omega arith }

mwc32modn-first_example :
    let r = mwc32 (after mwc32 4 second_state) in
    (mwc32modn 9 8 second_state ≡ some (r.0 % 8, r.1)) × (r.0 % 8 < 8)
mwc32modn-first_example = mwc32modn-first 9 4 8 second_state (omega arith) fifth (omega arith)

at_once16 : IsFirst mwc16 (threshold 15 1000) 0 default_state
unfolding mwc16 mwc32 after raise_threshold
at_once16 = record { refused = λ i h. absurd (omega arith); kept = omega arith }

at_once8 : IsFirst mwc8 (threshold 7 100) 0 default_state
unfolding mwc8 mwc32 after raise_threshold
at_once8 = record { refused = λ i h. absurd (omega arith); kept = omega arith }

mwc32-lehmer_example :
    ((mwc32 default_state).1.z * 2 ^ 16 % modulus_z ≡ default_state.z % modulus_z)
    × ((mwc32 default_state).1.w * 2 ^ 16 % modulus_w ≡ default_state.w % modulus_w)
mwc32-lehmer_example = mwc32-lehmer default_state (omega arith) (omega arith)

draws-IsLive_example :
    IsLive (mwc32 default_state).1
    × IsLive (mwc64 high_first default_state).1
    × IsLive (mwc16 default_state).1
    × IsLive (mwc8 default_state).1
    × IsLive (mwc1 default_state).1
    × IsLive (skip 100 default_state)
draws-IsLive_example = draws-IsLive high_first 100 default_state mwc-IsLive

mwc1-mwc32_example :
    let r = draws mwc1 2 32 default_state in
    (r.0 ≡ (mwc32 default_state).0) × SameSeed (mwc32 default_state).1 r.1 × (r.1.n1 ≡ 0)
mwc1-mwc32_example = mwc1-mwc32 default_state refl

mwc32modn_stuck_example : mwc32modn 1000 3 (set_seed 0 modulus_z default_state) ≡ none
unfolding raise_threshold
mwc32modn_stuck_example = mwc32modn_stuck 1000 3 default_state (omega arith) (omega arith)

abbrev six_bytes : Memory
six_bytes = 1 ∷ 2 ∷ 3 ∷ 4 ∷ 5 ∷ 6 ∷ []

fill_array-Ends_example :
    Ends six_bytes (fill_array (pos 6) default_state six_bytes) 4 (6 - 6 % 4) 6
fill_array-Ends_example = fill_array-Ends 6 default_state six_bytes (omega arith) (omega arith)

lfsr32_back-lfsr32_example : lfsr32_back (lfsr32 0xf63acb01) ≡ 0xf63acb01
lfsr32_back-lfsr32_example = lfsr32_back-lfsr32 0xf63acb01 (omega arith)
