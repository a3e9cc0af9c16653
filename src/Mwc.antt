-- ===== src/Mwc.antt =====
-- core-mwc.cpp: `mwc_t`, the multiply-with-carry generator and its draws of 64, 32, 16, 8 and 1 bits.
-- A method returns what it returns in C++ with the state after it.
pub mod Modn
pub mod Fill
pub mod Step
pub mod Chunks
pub mod Bounds
pub mod PowerOfTwo
pub mod Stuck
pub mod FillLaws
use r_bench_an_interference.Base.{
  ℕ, zero, suc, ◌+◌, ◌-◌, ◌*◌, ◌/◌, ◌%◌, ◌^◌, bit_and, bit_or, bit_xor,
}
use r_bench_an_interference.Base.{◌==◌, ltb, if◌then◌else◌, u32, u64, ◌<<<◌, ◌>>>◌}

pub record Mwc : Type 0 where
  pub w : ℕ
  pub z : ℕ
  pub n16 : ℕ
  pub saved16 : ℕ
  pub n8 : ℕ
  pub saved8 : ℕ
  pub n1 : ℕ
  pub saved1 : ℕ

abbrev pub mwc_seed_w : ℕ
mwc_seed_w = 521288629

abbrev pub mwc_seed_z : ℕ
mwc_seed_z = 362436069

-- The constructor `mwc_t( seed_w_ , seed_z_ )`.
abbrev pub mwc : ℕ → ℕ → Mwc
mwc seed_w_ seed_z_ = record {
  w = seed_w_;
  z = seed_z_;
  n16 = 0;
  saved16 = 0;
  n8 = 0;
  saved8 = 0;
  n1 = 0;
  saved1 = 0;
}

unfoldable pub flush : Mwc → Mwc
flush m = record m { n16 = 0; saved16 = 0; n8 = 0; saved8 = 0; n1 = 0; saved1 = 0 }

unfoldable pub set_seed : ℕ → ℕ → Mwc → Mwc
set_seed w_ z_ m = record m { w = w_; z = z_ }

unfoldable pub get_seed : Mwc → ℕ × ℕ
get_seed m = (m.w, m.z)

unfoldable pub set_default_seed : Mwc → Mwc
unfolding set_seed
set_default_seed m = set_seed mwc_seed_w mwc_seed_z m

unfoldable pub mwc32 : Mwc → ℕ × Mwc
mwc32 m =
    let z = u32 (36969 * bit_and m.z 65535 + (m.z >>> 16)) in
    let w = u32 (18000 * bit_and m.w 65535 + (m.w >>> 16)) in
    (u32 (u32 (z <<< 16) + w), record m { w = w; z = z })

-- C++ leaves open which operand of `|` is drawn first.
pub data FirstDraw : Type 0 where
  high_first low_first : FirstDraw

unfoldable pub mwc64 : FirstDraw → Mwc → ℕ × Mwc
mwc64 high_first m = let a = mwc32 m in let b = mwc32 a.1 in (bit_or (u64 (a.0 <<< 32)) b.0, b.1)
mwc64 low_first m = let a = mwc32 m in let b = mwc32 a.1 in (bit_or (u64 (b.0 <<< 32)) a.0, b.1)

unfoldable pub mwc16 : Mwc → ℕ × Mwc
mwc16 m =
    let r = mwc32 m in
    let m' =
      if m.n16 == 0
      then record (r.1) { n16 = 1; saved16 = r.0 }
      else record m { n16 = m.n16 - 1; saved16 = m.saved16 >>> 16 } in
    (bit_and m'.saved16 0xffff, m')

unfoldable pub mwc8 : Mwc → ℕ × Mwc
mwc8 m =
    let r = mwc32 m in
    let m' =
      if m.n8 == 0
      then record (r.1) { n8 = 3; saved8 = r.0 }
      else record m { n8 = m.n8 - 1; saved8 = m.saved8 >>> 8 } in
    (bit_and m'.saved8 0xff, m')

unfoldable pub mwc1 : Mwc → ℕ × Mwc
mwc1 m =
    let r = mwc32 m in
    let m' =
      if m.n1 == 0
      then record (r.1) { n1 = 31; saved1 = r.0 }
      else record m { n1 = m.n1 - 1; saved1 = m.saved1 >>> 1 } in
    (bit_and m'.saved1 0x1, m')

-- `for( i = 0 ; i < n ; i ++ ) mwc32()`
unfoldable pub skip : ℕ → Mwc → Mwc
skip zero m = m
skip (suc n) m = skip n (mwc32 m).1

-- The bound `(int)z % 1733` of that loop. The remainder of a negative `(int)z` is not positive,
-- and then no round is run.
unfoldable pub reseed_rounds : ℕ → ℕ
reseed_rounds z = if ltb z (2 ^ 31) then z % 1733 else 0

-- `time_rnd` is the bit pattern of the clock, `distance` that of `p1 - p2`, in 64 bits.
unfoldable pub reseed : ℕ → ℕ → ℕ → ℕ → Mwc → Mwc
unfolding reseed_rounds
reseed time_rnd distance pid ppid m =
    let z = u32 (u32 (time_rnd >>> 32) + u32 (2 ^ 64 - 1 - distance)) in
    let w = u32 (u32 (bit_and time_rnd 0xffffffff) + u32 (bit_xor pid (u64 (ppid <<< 12)))) in
    flush (skip (reseed_rounds z) (record m { w = w; z = z }))
