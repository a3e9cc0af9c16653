-- ===== src/Mwc/Step.antt =====
-- One step of `mwc_t::mwc32` (core-mwc.cpp) on each of its two words.
use r_bench_an_interference.Base.{ℕ, zero, suc, ◌+◌, ◌-◌, ◌*◌, ◌/◌, ◌%◌, ◌^◌, ◌≤◌, ◌<◌}
use r_bench_an_interference.Base.{◌≡◌, arith}
use r_bench_an_interference.Base.Bits.{bit_and_mask}
use r_bench_an_interference.Mwc.{Mwc, FirstDraw, high_first, low_first, mwc, mwc_seed_w, mwc_seed_z}
use r_bench_an_interference.Mwc.{mwc32, mwc64, mwc16, mwc8, mwc1, skip}

-- The moduli 36969 * 2 ^ 16 - 1 and 18000 * 2 ^ 16 - 1 of the two sequences.
abbrev pub modulus_z : ℕ
modulus_z = 36969 * 2 ^ 16 - 1

abbrev pub modulus_w : ℕ
modulus_w = 18000 * 2 ^ 16 - 1

-- The step without the wrap, which does nothing.
pub mwc32_parts :
    (m : Mwc)
    → m.z < 2 ^ 32
    → m.w < 2 ^ 32
    → let m' = (mwc32 m).1 in
      (m'.z ≡ 36969 * (m.z % 65536) + m.z / 65536) × (m'.w ≡ 18000 * (m.w % 65536) + m.w / 65536)
unfolding mwc32
mwc32_parts m hz hw = (omega (arith, bit_and_mask 16 m.z), omega (arith, bit_and_mask 16 m.w))

-- From 32-bit words, each word of `mwc32` is a Lehmer generator run backwards: the new word times 2
-- ^ 16 is the old word, by its modulus.
pub mwc32-lehmer :
    (m : Mwc)
    → m.z < 2 ^ 32
    → m.w < 2 ^ 32
    → let m' = (mwc32 m).1 in
      (m'.z * 2 ^ 16 % modulus_z ≡ m.z % modulus_z) × (m'.w * 2 ^ 16 % modulus_w ≡ m.w % modulus_w)
mwc32-lehmer m hz hw = let e = mwc32_parts m hz hw in (omega (arith, e.0), omega (arith, e.1))

-- The words from which the generator never leaves its two long cycles.
pub record IsLive (m : Mwc) : Type 0 where
  pub z_pos : 0 < m.z
  pub z_below : m.z < modulus_z
  pub w_pos : 0 < m.w
  pub w_below : m.w < modulus_w

-- The state before a step.
mwc32_back : Mwc → ℕ × ℕ
mwc32_back m = (m.w / 18000 + m.w % 18000 * 65536, m.z / 36969 + m.z % 36969 * 65536)

-- On its range, up to its modulus, each word of `mwc32` can be stepped back, so the step is a
-- permutation of the states.
mwc32_back-mwc32 :
    (m : Mwc) → m.z ≤ modulus_z → m.w ≤ modulus_w → mwc32_back (mwc32 m).1 ≡ (m.w, m.z)
unfolding mwc32_back
mwc32_back-mwc32 m hz hw =
    let e = mwc32_parts m (omega arith) (omega arith) in
    let m' = (mwc32 m).1 in
    let w_back : m'.w / 18000 + m'.w % 18000 * 65536 ≡ m.w = omega (arith, e.1) in
    let z_back : m'.z / 36969 + m'.z % 36969 * 65536 ≡ m.z = omega (arith, e.0) in
    λ i. (w_back i, z_back i)

pub mwc32-IsLive : (m : Mwc) → IsLive m → IsLive (mwc32 m).1
mwc32-IsLive m v = let e = mwc32_parts m (omega arith) (omega arith) in omega (arith, e.0, e.1)

skip-IsLive : (n : ℕ) (m : Mwc) → IsLive m → IsLive (skip n m)
unfolding skip
skip-IsLive zero m v = v
skip-IsLive (suc n) m v = skip-IsLive n (mwc32 m).1 (mwc32-IsLive m v)

mwc64-IsLive : (order : FirstDraw) (m : Mwc) → IsLive m → IsLive (mwc64 order m).1
unfolding mwc64
mwc64-IsLive high_first m v = mwc32-IsLive (mwc32 m).1 (mwc32-IsLive m v)
mwc64-IsLive low_first m v = mwc32-IsLive (mwc32 m).1 (mwc32-IsLive m v)

mwc16-IsLive : (m : Mwc) → IsLive m → IsLive (mwc16 m).1
unfolding mwc16
mwc16-IsLive m v = ground (arith, mwc32-IsLive m v)

mwc8-IsLive : (m : Mwc) → IsLive m → IsLive (mwc8 m).1
unfolding mwc8
mwc8-IsLive m v = ground (arith, mwc32-IsLive m v)

mwc1-IsLive : (m : Mwc) → IsLive m → IsLive (mwc1 m).1
unfolding mwc1
mwc1-IsLive m v = ground (arith, mwc32-IsLive m v)

pub mwc-IsLive : IsLive (mwc mwc_seed_w mwc_seed_z)
mwc-IsLive = omega arith

-- From a live state draws of every width, and any number of skipped draws, lead to live states:
-- neither word becomes 0 or gets stuck at its modulus.
pub draws-IsLive :
    (order : FirstDraw) (n : ℕ) (m : Mwc)
    → IsLive m
    → IsLive (mwc32 m).1
      × IsLive (mwc64 order m).1
      × IsLive (mwc16 m).1
      × IsLive (mwc8 m).1
      × IsLive (mwc1 m).1
      × IsLive (skip n m)
draws-IsLive order n m v = (
  mwc32-IsLive m v,
  mwc64-IsLive order m v,
  mwc16-IsLive m v,
  mwc8-IsLive m v,
  mwc1-IsLive m v,
  skip-IsLive n m v,
)
