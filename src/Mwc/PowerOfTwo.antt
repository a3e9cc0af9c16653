-- ===== src/Mwc/PowerOfTwo.antt =====
-- core-mwc.cpp: the short way of `mwc32modn_maybe_pwr2` and `mwc64modn` at a power of two.
use native.Mathlib.Nat.{pow-suc, one-le-pow, pow-le-pow_right}
use r_bench_an_interference.Base.{ℕ, suc, ◌+◌, ◌-◌, ◌/◌, ◌%◌, ◌^◌, ◌≤◌, ◌<◌, bit_and}
use r_bench_an_interference.Base.{◌≡◌, arith, ◌==◌, ◌∙◌, ap}
use r_bench_an_interference.Base.{Bool-cases, inl, inr, ==_iff, some}
use r_bench_an_interference.Base.Bits.{bit_and_mask, bit_and_step, bit_and_self, half_induction}
use r_bench_an_interference.Mwc.{Mwc, FirstDraw, mwc32, mwc64}
use r_bench_an_interference.Mwc.Modn.{mwc32modn, mwc32modn_maybe_pwr2, mwc64modn}

abbrev pub IsPow : ℕ → Type 0
IsPow m = (k : ℕ) × (m ≡ 2 ^ k)

pow_mask : (k : ℕ) → bit_and (2 ^ k) (2 ^ k - 1) ≡ 0
pow_mask k = bit_and_mask k (2 ^ k) ∙ grind (arith, one-le-pow k 2)

-- `m & ( m - 1 )` is 0 only at a power of two.
mask-IsPow : (m : ℕ) → 0 < m → bit_and m (m - 1) ≡ 0 → IsPow m
mask-IsPow =
    half_induction (λ n. 0 < n → bit_and n (n - 1) ≡ 0 → IsPow n) (λ h e. absurd (omega arith)) step
  where
    odd : (n : ℕ) → n % 2 ≡ 1 → bit_and n (n - 1) ≡ 0 → IsPow n
    odd n o e =
        let same : (n - 1) / 2 ≡ n / 2 = omega arith in
        (0, omega (arith, bit_and_step n (n - 1), ap (bit_and (n / 2)) same, bit_and_self (n / 2)))

    even :
        (n : ℕ)
        → 0 < n
        → n % 2 ≡ 0
        → (0 < n / 2 → bit_and (n / 2) (n / 2 - 1) ≡ 0 → IsPow (n / 2))
        → bit_and n (n - 1) ≡ 0
        → IsPow n
    even n h o ih e =
        let same : (n - 1) / 2 ≡ n / 2 - 1 = omega arith in
        let half : bit_and (n / 2) (n / 2 - 1) ≡ 0 =
          omega (arith, bit_and_step n (n - 1), ap (bit_and (n / 2)) same) in
        let (k, p) = ih (omega arith) half in (suc k, omega (arith, p, pow-suc 2 k))

    step :
        (n : ℕ)
        → 0 < n
        → (0 < n / 2 → bit_and (n / 2) (n / 2 - 1) ≡ 0 → IsPow (n / 2))
        → 0 < n
        → bit_and n (n - 1) ≡ 0
        → IsPow n
    step n h ih _ e = elim (Bool-cases (n % 2 == 1)) [
      | inl o ↦ odd n ((==_iff (n % 2) 1).0 o) e
      | inr o ↦ even n h (ground arith) ih e
    ]

wrap_mask : (m : ℕ) → 0 < m → m < 2 ^ 32 → (m + 2 ^ 32 - 1) % 2 ^ 32 ≡ m - 1
wrap_mask m h lt = omega arith

-- At a power of two below 2 ^ 32, `mwc32modn_maybe_pwr2` makes one draw, whatever the fuel, and
-- returns its remainder; `mwc64modn` likewise, of a 64-bit draw.
pub modn_at_power :
    (order : FirstDraw) (fuel k : ℕ) (m : Mwc)
    → k < 32
    → (mwc32modn_maybe_pwr2 fuel (2 ^ k) m ≡ some ((mwc32 m).0 % 2 ^ k, (mwc32 m).1))
      × (mwc64modn order fuel (2 ^ k) m ≡ some ((mwc64 order m).0 % 2 ^ k, (mwc64 order m).1))
unfolding mwc32modn_maybe_pwr2 mwc64modn
modn_at_power order fuel k m h = (
  ground (arith, wrap_mask (2 ^ k), small, positive, pow_mask k, bit_and_mask k (mwc32 m).0),
  ground (arith, positive, pow_mask k, bit_and_mask k (mwc64 order m).0),
)
  where
    positive : 1 ≤ 2 ^ k
    positive = one-le-pow k 2 (omega arith)

    small : 2 ^ k < 2 ^ 32
    small = omega (arith, pow-le-pow_right {n = 2} (omega arith) {i = k} {j = 31} (omega arith))

-- At a positive number below 2 ^ 32 that is no power of two, `mwc32modn_maybe_pwr2` is `mwc32modn`.
pub maybe_pwr2-eq-mwc32modn :
    (fuel mmod : ℕ) (m : Mwc)
    → 0 < mmod
    → mmod < 2 ^ 32
    → ¬ IsPow mmod
    → mwc32modn_maybe_pwr2 fuel mmod m ≡ mwc32modn fuel mmod m
unfolding mwc32modn_maybe_pwr2
maybe_pwr2-eq-mwc32modn fuel mmod m h lt no_pow =
    ground (
      arith,
      wrap_mask mmod h lt,
      λ (e : bit_and mmod (mmod - 1) ≡ 0). no_pow (mask-IsPow mmod h e),
    )
