-- ===== src/Flags/Laws.antt =====
-- The flag word of rbench-core.cpp as a set of flags.
use native.Mathlib.Nat.{mul-div_cancel, one-le-pow}
use r_bench_an_interference.Base.{ℕ, ◌+◌, ◌-◌, ◌*◌, ◌/◌, ◌^◌, ◌%◌, ◌<◌}
use r_bench_an_interference.Base.{bit_and, bit_or, bit_xor, true, not, ◌&&◌, ◌||◌, ap}
use r_bench_an_interference.Base.{◌==◌, if◌then◌else◌, ◌≡◌, arith, Bool-cases, ==_iff}
use r_bench_an_interference.Base.{inl, inr}
use r_bench_an_interference.Base.Bits.{
  bit_at, bit_and-pow, bit_or-lt, bit_at-bit_or, bit_at-pow_self,
}
use r_bench_an_interference.Base.Bits.{bit_at-pow_ne, bit_xor-pow, bit_at-bit_xor}
use r_bench_an_interference.Flags.{ArgFlag, print_debug_info, is_limited, is_check, is_run_parallel}
use r_bench_an_interference.Flags.{count, no_warn, index, set_arg_flag, clr_arg_flag, get_arg_flag}

index_mask-lt : (id : ArgFlag) → 2 ^ index id < 2 ^ 32
index_mask-lt print_debug_info = omega arith
index_mask-lt is_limited = omega arith
index_mask-lt is_check = omega arith
index_mask-lt is_run_parallel = omega arith
index_mask-lt count = omega arith
index_mask-lt no_warn = omega arith

mask_shift : (k a : ℕ) → bit_and a (2 ^ k) / 2 ^ k ≡ bit_at a k
mask_shift k a = rw (bit_and-pow k a) (mul-div_cancel (bit_at a k) (one-le-pow k 2 (omega arith)))

-- A flag reads as its bit.
pub get_arg_flag-bit_at :
    (flags : ℕ) (id : ArgFlag) → get_arg_flag flags id ≡ (bit_at flags (index id) == 1)
unfolding get_arg_flag
get_arg_flag-bit_at flags id = ground (arith, mask_shift (index id) flags)

bit_at-mask : (k j : ℕ) → bit_at (2 ^ k) j ≡ (if k == j then 1 else 0)
bit_at-mask k j = elim (Bool-cases (k == j)) [
  | inl e ↦ rw (e, (==_iff k j).0 e) (bit_at-pow_self j)
  | inr e ↦ rw e (bit_at-pow_ne k j (ground arith))
]

-- Setting a flag of a 32-bit word turns that flag on and leaves every other flag as it was.
pub get_arg_flag-set_arg_flag :
    (flags : ℕ) (id other : ArgFlag)
    → flags < 2 ^ 32
    → get_arg_flag (set_arg_flag flags id) other
      ≡ (index id == index other || get_arg_flag flags other)
unfolding set_arg_flag
get_arg_flag-set_arg_flag flags id other small = ground (
  arith,
  get_arg_flag-bit_at (bit_or flags (2 ^ index id) % 2 ^ 32) other,
  get_arg_flag-bit_at flags other,
  bit_at-bit_or (index other) flags (2 ^ index id),
  bit_at-mask (index id) (index other),
  bit_or-lt 32 flags (2 ^ index id) small (index_mask-lt id),
)

clr-eq-xor :
    (k a : ℕ) → a < 2 ^ 32 → bit_at a k ≡ 1 → (a + 2 ^ 32 - 2 ^ k) % 2 ^ 32 ≡ bit_xor a (2 ^ k)
clr-eq-xor k a small h = omega (arith, bit_xor-pow k a h)

-- The test `flags & ( 1 << id )`.
mask_test : (k a : ℕ) → (bit_and a (2 ^ k) == 0) ≡ not (bit_at a k == 1)
mask_test k a = elim (Bool-cases (bit_at a k == 1)) [
  | inl e ↦ ground (
    arith,
    bit_and-pow k a,
    ap (λ (t : ℕ). t * 2 ^ k) ((==_iff (bit_at a k) 1).0 e),
    one-le-pow k 2,
  )
  | inr e ↦
      let off : bit_at a k ≡ 0 = ground arith in
      ground (arith, bit_and-pow k a, ap (λ (t : ℕ). t * 2 ^ k) off)
]

-- Clearing a flag of a 32-bit word turns that flag off and leaves every other flag as it was.
get_arg_flag-clr_arg_flag :
    (flags : ℕ) (id other : ArgFlag)
    → flags < 2 ^ 32
    → get_arg_flag (clr_arg_flag flags id) other
      ≡ (not (index id == index other) && get_arg_flag flags other)
unfolding clr_arg_flag
get_arg_flag-clr_arg_flag flags id other small = elim (Bool-cases (bit_at flags (index id) == 1)) [
  | inl e ↦
      let eq : bit_at flags (index id) ≡ 1 = (==_iff _ 1).0 e in
      rw (mask_test (index id) flags, e, clr-eq-xor (index id) flags small eq)
        (ground (
          arith,
          get_arg_flag-bit_at (bit_xor flags (2 ^ index id)) other,
          get_arg_flag-bit_at flags other,
          bit_at-bit_xor (index other) flags (2 ^ index id),
          bit_at-mask (index id) (index other),
          same_bit (index id) (index other) flags,
        ))
  | inr e ↦
      rw (mask_test (index id) flags, e)
        (ground (arith, get_arg_flag-bit_at flags other, same_bit (index id) (index other) flags))
]
  where
    same_bit : (k j a : ℕ) → (k == j) ≡ true → bit_at a k ≡ bit_at a j
    same_bit k j a h = ap (bit_at a) ((==_iff k j).0 h)

-- Both operations keep the flags inside their 32-bit word.
pub flags-lt :
    (flags : ℕ) (id : ArgFlag)
    → flags < 2 ^ 32
    → (set_arg_flag flags id < 2 ^ 32) × (clr_arg_flag flags id < 2 ^ 32)
unfolding set_arg_flag clr_arg_flag
flags-lt flags id small = (omega arith, ground arith)
