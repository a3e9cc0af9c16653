-- ===== src/Lfsr.antt =====
-- core-lfsr.cpp: `Galois_LFSR`, the 32-bit shift register. Its one field is the state.
pub mod Laws
use r_bench_an_interference.Base.{ℕ, ◌+◌, ◌-◌, ◌*◌, ◌/◌, ◌^◌, bit_and, bit_or, bit_xor}
use r_bench_an_interference.Base.{u32, ◌<<<◌, ◌>>>◌}

-- `Galois_LFSR_MASK`
abbrev pub galois_lfsr_mask : ℕ
galois_lfsr_mask = 0xd0000001

-- The constructor.
abbrev pub galois_lfsr : ℕ
galois_lfsr = 1

unfoldable pub set_lfsr_number : ℕ → ℕ → ℕ
set_lfsr_number lfsr lfsr_ = lfsr_

-- `Galois_LFSR_rand`, the next state, which is also the number drawn. The `0 - ( lfsr & 1u )` of the source wraps.
unfoldable pub lfsr32 : ℕ → ℕ
lfsr32 lfsr = bit_xor (lfsr >>> 1) (bit_and (u32 (2 ^ 32 - bit_and lfsr 1)) galois_lfsr_mask)

-- The number drawn, and the state after it.
unfoldable pub lfsr64 : ℕ → ℕ × ℕ
lfsr64 lfsr = let hi = lfsr32 lfsr in let lo = lfsr32 hi in (bit_or (hi <<< 32) lo, lo)
