-- ===== src/Kernels/Integer.antt =====
-- rbench-cpu-int.cpp: the integer kernel. A `T` of `w` bits is a number below 2^w.
pub mod Words
use r_bench_an_interference.Base.{
  ℕ, zero, suc, ◌+◌, ◌-◌, ◌*◌, ◌/◌, ◌%◌, ◌^◌, ◌≤◌, ◌<◌, ◌≡◌, refl, arith, ap, sym, ◌∙◌, ◌==◌, ◌&&◌,
  Bool, true, false, bit_and, bit_or, bit_xor, ◌<<<◌, ◌>>>◌,
}
use r_bench_an_interference.Mwc.{Mwc, mwc, mwc_seed_w, mwc_seed_z, mwc32}

-- The registers, and the generator.
pub record Registers : Type 0 where
  pub a : ℕ
  pub b : ℕ
  pub mwc_eng : Mwc

module _ (w : ℕ) where
  -- A difference of two `T`.
  abbrev minus : ℕ → ℕ → ℕ
  minus x y = (x + (2 ^ w - y % 2 ^ w)) % 2 ^ w

  -- The lines of an iteration down to the first draw.
  abbrev mix_a : ℕ → ℕ → ℕ
  mix_a a b =
      let halved = ((a + b) % 2 ^ w) >>> 1 in
      let tripled = bit_xor halved (2 ^ w - 1) * 3 % 2 ^ w in
      bit_or (((tripled + 2) % 2 ^ w / 77) <<< 1 % 2 ^ w) 1

  abbrev mix_b : ℕ → ℕ → ℕ → ℕ
  mix_b c1 a b =
      let sum = (a + b) % 2 ^ w in
      let shifted = (bit_xor b sum <<< 2) % 2 ^ w in
      let inverted = bit_xor (minus shifted (sum >>> 1)) (2 ^ w - 1 - c1) in
      bit_or ((minus (inverted * 7 % 2 ^ w) 3 / 3) <<< 2 % 2 ^ w) 3

  -- The body of the loop.
  unfoldable pub iteration : ℕ → ℕ → ℕ → Registers → Registers
  unfolding mwc32
  iteration c1 c2 c3 r =
      let (d1, m1) = mwc32 r.mwc_eng in
      let (d2, m2) = mwc32 m1 in
      let (d3, m3) = mwc32 m2 in
      let (d4, m4) = mwc32 m3 in
      let a = (mix_a r.a r.b * d1 % 2 ^ w + d3) % 2 ^ w / 7 in
      let b = minus (bit_xor (mix_b c1 r.a r.b) d2 % 2 ^ w) d4 / 9 in
      record { a = bit_or a c2; b = bit_and b c3; mwc_eng = m4 }

  unfoldable pub iterations : ℕ → ℕ → ℕ → ℕ → Registers → Registers
  unfolding iteration
  iterations c1 c2 c3 zero r = r
  iterations c1 c2 c3 (suc left) r = iterations c1 c2 c3 left (iteration c1 c2 c3 r)

  -- The registers before the loop.
  unfoldable pub seeded : Registers
  unfolding mwc32
  seeded =
      let (d1, m1) = mwc32 (mwc mwc_seed_w mwc_seed_z) in
      let (d2, m2) = mwc32 m1 in record { a = d1 % 2 ^ w; b = d2 % 2 ^ w; mwc_eng = m2 }

  -- Whether the results are those that were calculated before; otherwise the process ends.
  unfoldable pub int_ops_ikernel : ℕ → ℕ → ℕ → ℕ → ℕ → Bool
  unfolding iterations seeded
  int_ops_ikernel a b c1 c2 c3 =
      let r = iterations (c1 % 2 ^ w) (c2 % 2 ^ w) (c3 % 2 ^ w) 1000 seeded in r.a == a && r.b == b

-- `CAST_TO_UINT128`
abbrev cast_to_uint128 : ℕ → ℕ → ℕ
cast_to_uint128 hi lo = bit_or (hi <<< 64) lo

abbrev pub c1 : ℕ
c1 = 0xf0f0f0f0f0f0f0f0

abbrev pub c2 : ℕ
c2 = 0x1000100010001000

abbrev pub c3 : ℕ
c3 = 0xffeffffefebefffe

-- The five widths in their order; the first that fails ends the process.
unfoldable pub int_ops_kernel : Bool
unfolding int_ops_ikernel
int_ops_kernel =
    int_ops_ikernel 128 (cast_to_uint128 0x132AF604D8B9183A 0x5E3AF8FA7A663D74)
      (cast_to_uint128 0x62F086E6160E4E 0xD84C9F800365858) (cast_to_uint128 c1 c1)
      (cast_to_uint128 c2 c2) (cast_to_uint128 c3 c3)
    && int_ops_ikernel 64 0x13F7F6DC1D79197C 0x1863D2C6969A51CE c1 c2 c3
    && int_ops_ikernel 32 0x1CE9B547 0xA24B33A c1 c2 c3
    && int_ops_ikernel 16 0x1871 0x07F0 c1 c2 c3
    && int_ops_ikernel 8 0x12 0x1A c1 c2 c3
