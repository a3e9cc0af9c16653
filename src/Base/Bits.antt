-- ===== src/Base/Bits.antt =====
-- Laws of `bit_and`, `bit_or` and `bit_xor` at variables, from the recursion on binary digits.
use Prim.Native.Nat.{ℕ, zero, suc, ◌+◌, ◌-◌, ◌*◌, ◌/◌, ◌%◌, ◌^◌, ◌≤◌, ◌<◌, min, max, differ}
use Prim.Native.Nat.{bit_and, bit_or, bit_xor, digits, bitwise}
use Prim.Native.Nat.{bit_and-bitwise, bit_or-bitwise, bit_xor-bitwise}
use native.Mathlib.Nat.{pow-suc, one-le-pow, div-one, zero-div, div-div-eq-div-mul}
use native.Mathlib.Omega.{arith}
use mathlib.Core.Path.{◌≡◌, refl, sym, ap, ◌∙◌}
use mathlib.Core.Logic.{◌≢◌}
use mathlib.Core.WellFounded
use r_bench_an_interference.Base.Order.{lt_wf}

-- `digits` takes its digits from a number with that number for fuel; what is left over does nothing.
module _ (rest : ℕ → ℕ) (digit : ℕ → ℕ → ℕ) where
  no_digits : (fuel y : ℕ) → digits rest digit fuel 0 y ≡ rest y
  no_digits zero y = refl
  no_digits (suc fuel) y = refl

  spare_fuel :
      (x y fuel more : ℕ)
      → x ≤ fuel
      → fuel ≤ more
      → digits rest digit more x y ≡ digits rest digit fuel x y
  spare_fuel zero y fuel more enough larger = no_digits more y ∙ sym (no_digits fuel y)
  spare_fuel (suc x) y zero more enough larger = absurd (omega arith)
  spare_fuel (suc x) y (suc fuel) zero enough larger = absurd (omega arith)
  spare_fuel (suc x) y (suc fuel) (suc more) enough larger =
      ap (λ (t : ℕ). t * 2 + digit (suc x % 2) (y % 2))
        (spare_fuel (suc x / 2) (y / 2) fuel more (omega arith) (omega arith))

  -- The lowest digit of an operation that `bitwise` gives the meaning of.
  lowest_digit :
      (op : ℕ → ℕ → ℕ)
      → ((x y : ℕ) → op x y ≡ bitwise rest digit x y)
      → (x y : ℕ) → op (suc x) y ≡ op (suc x / 2) (y / 2) * 2 + digit (suc x % 2) (y % 2)
  lowest_digit op meaning x y = omega (
    arith,
    meaning (suc x) y,
    meaning (suc x / 2) (y / 2),
    spare_fuel (suc x / 2) (y / 2) (suc x / 2) x (omega arith) (omega arith),
  )

pub bit_and_step : (x y : ℕ) → bit_and x y ≡ bit_and (x / 2) (y / 2) * 2 + min (x % 2) (y % 2)
bit_and_step zero y = omega (arith, bit_and-bitwise zero y, bit_and-bitwise zero (y / 2))
bit_and_step (suc x) y = lowest_digit (λ _. 0) min bit_and bit_and-bitwise x y

pub bit_or_step : (x y : ℕ) → bit_or x y ≡ bit_or (x / 2) (y / 2) * 2 + max (x % 2) (y % 2)
bit_or_step zero y = omega (arith, bit_or-bitwise zero y, bit_or-bitwise zero (y / 2))
bit_or_step (suc x) y = lowest_digit (λ n. n) max bit_or bit_or-bitwise x y

differ-eq-mod : (x y : ℕ) → x < 2 → y < 2 → differ x y ≡ (x + y) % 2
differ-eq-mod zero zero p q = refl
differ-eq-mod zero (suc y) p q = omega arith
differ-eq-mod (suc x) zero p q = omega arith
differ-eq-mod (suc zero) (suc zero) p q = refl
differ-eq-mod (suc zero) (suc (suc y)) p q = absurd (omega arith)
differ-eq-mod (suc (suc x)) (suc y) p q = absurd (omega arith)

pub bit_xor_step : (a b : ℕ) → bit_xor a b ≡ bit_xor (a / 2) (b / 2) * 2 + (a + b) % 2
bit_xor_step zero b = omega (arith, bit_xor-bitwise zero b, bit_xor-bitwise zero (b / 2))
bit_xor_step (suc a) b = omega (
  arith,
  lowest_digit (λ y. y) differ bit_xor bit_xor-bitwise a b,
  differ-eq-mod (suc a % 2) (b % 2) (omega arith) (omega arith),
)

-- Induction on halves.
pub half_induction {ℓ} :
    (P : ℕ → Type ℓ) → P 0 → ((n : ℕ) → 0 < n → P (n / 2) → P n) → (n : ℕ) → P n
half_induction P base step n = WellFounded.induction lt_wf {C = P} n go
  where
    go : (k : ℕ) → ((m : ℕ) → m < k → P m) → P k
    go zero ih = base
    go (suc k) ih = step (suc k) (omega arith) (ih (suc k / 2) (omega arith))

pub zero-bit_and : (b : ℕ) → bit_and 0 b ≡ 0
zero-bit_and b = bit_and-bitwise 0 b

pub bit_and-zero : (a : ℕ) → bit_and a 0 ≡ 0
bit_and-zero =
    half_induction (λ n. bit_and n 0 ≡ 0) refl (λ n h ih. omega (arith, bit_and_step n 0))

pub bit_or-zero : (a : ℕ) → bit_or a 0 ≡ a
bit_or-zero = half_induction (λ n. bit_or n 0 ≡ n) refl (λ n h ih. omega (arith, bit_or_step n 0))

pub bit_xor-zero : (a : ℕ) → bit_xor a 0 ≡ a
bit_xor-zero =
    half_induction (λ n. bit_xor n 0 ≡ n) refl (λ n h ih. omega (arith, bit_xor_step n 0))

pub bit_xor_self : (a : ℕ) → bit_xor a a ≡ 0
bit_xor_self =
    half_induction (λ n. bit_xor n n ≡ 0) refl (λ n h ih. omega (arith, bit_xor_step n n))

pub bit_and_self : (a : ℕ) → bit_and a a ≡ a
bit_and_self =
    half_induction (λ n. bit_and n n ≡ n) refl (λ n h ih. omega (arith, bit_and_step n n))

pub zero-bit_xor : (b : ℕ) → bit_xor 0 b ≡ b
zero-bit_xor b = bit_xor-bitwise 0 b

-- A second exclusive or with the same word undoes the first.
pub bit_xor_cancel : (a b : ℕ) → bit_xor (bit_xor a b) b ≡ a
bit_xor_cancel =
    half_induction (λ n. (b : ℕ) → bit_xor (bit_xor n b) b ≡ n)
      (λ b. rw zero-bit_xor (bit_xor_self b))
      (λ n h ih b. omega (
        arith,
        ih (b / 2),
        bit_xor_step n b,
        bit_xor_step (bit_xor n b) b,
        ap (λ (t : ℕ). bit_xor t (b / 2))
            (let e : bit_xor n b / 2 ≡ bit_xor (n / 2) (b / 2) = omega (arith, bit_xor_step n b) in
              e),
      ))

pow_step : (k : ℕ) → 2 ^ suc k ≡ 2 * 2 ^ k
pow_step k = omega (arith, pow-suc 2 k)

half_lt_pow : (k a : ℕ) → a < 2 ^ suc k → a / 2 < 2 ^ k
half_lt_pow k a h = omega (arith, pow_step k)

-- Two k-bit words have a k-bit exclusive or.
pub bit_xor-lt : (k a b : ℕ) → a < 2 ^ k → b < 2 ^ k → bit_xor a b < 2 ^ k
bit_xor-lt zero zero zero h g = omega arith
bit_xor-lt zero zero (suc b) h g = absurd (omega arith)
bit_xor-lt zero (suc a) b h g = absurd (omega arith)
bit_xor-lt (suc k) a b h g = omega (
  arith,
  bit_xor_step a b,
  pow_step k,
  bit_xor-lt k (a / 2) (b / 2) (half_lt_pow k a h) (half_lt_pow k b g),
)

div-pow-suc : (a k : ℕ) → a / 2 ^ suc k ≡ a / 2 / 2 ^ k
div-pow-suc a k = rw (pow_step k) (sym (div-div-eq-div-mul a 2 (2 ^ k)))

-- A right shift goes through an exclusive or.
pub bit_xor-div : (k a b : ℕ) → bit_xor a b / 2 ^ k ≡ bit_xor (a / 2 ^ k) (b / 2 ^ k)
bit_xor-div zero a b = rw (div-one a, div-one b) (omega arith)
bit_xor-div (suc k) a b =
    let e : bit_xor a b / 2 ≡ bit_xor (a / 2) (b / 2) = omega (arith, bit_xor_step a b) in
    rw (div-pow-suc (bit_xor a b) k, div-pow-suc a k, div-pow-suc b k, e)
      (bit_xor-div k (a / 2) (b / 2))

mul_pow_step : (q k : ℕ) → q * 2 ^ suc k ≡ 2 * (q * 2 ^ k)
mul_pow_step q k = omega (arith, ap (λ (t : ℕ). q * t) (pow_step k))

-- `(hi << w) | lo` is a sum when `lo` fits `w` bits.
pub bit_or_fields : (w hi lo : ℕ) → lo < 2 ^ w → bit_or (hi * 2 ^ w) lo ≡ hi * 2 ^ w + lo
bit_or_fields zero hi lo fits = ground (arith, bit_or-zero hi)
bit_or_fields (suc w) hi lo fits = ground (
  arith,
  bit_or_step (hi * 2 ^ suc w) lo,
  mul_pow_step hi w,
  bit_or_fields w hi (lo / 2) (half_lt_pow w lo fits),
)

bit_and_fields : (w hi lo : ℕ) → lo < 2 ^ w → bit_and (hi * 2 ^ w + lo) (2 ^ w - 1) ≡ lo
bit_and_fields zero hi lo fits = rw bit_and-zero (omega arith)
bit_and_fields (suc w) hi lo fits = ground (
  arith,
  bit_and_step (hi * 2 ^ suc w + lo) (2 ^ suc w - 1),
  mul_pow_step hi w,
  pow_step w,
  one-le-pow w 2,
  bit_and_fields w hi (lo / 2) (half_lt_pow w lo fits),
)

-- A mask of `w` low bits is the remainder by `2 ^ w`.
pub bit_and_mask : (w a : ℕ) → bit_and a (2 ^ w - 1) ≡ a % 2 ^ w
bit_and_mask w a = ground (arith, one-le-pow w 2, bit_and_fields w (a / 2 ^ w) (a % 2 ^ w))

-- Bit `k` of a word, as 0 or 1.
abbrev pub bit_at : ℕ → ℕ → ℕ
bit_at a k = a / 2 ^ k % 2

-- The mask `1 << k` picks bit `k`.
pub bit_and-pow : (k a : ℕ) → bit_and a (2 ^ k) ≡ bit_at a k * 2 ^ k
bit_and-pow zero a = omega (arith, bit_and_step a 1, bit_and-zero (a / 2), div-one a)
bit_and-pow (suc k) a = omega (
  arith,
  bit_and_step a (2 ^ suc k),
  pow_step k,
  mul_pow_step (bit_at a (suc k)) k,
  ap (λ (t : ℕ). t % 2 * 2 ^ k) (div-pow-suc a k),
  bit_and-pow k (a / 2),
  ap (λ (t : ℕ). bit_and (a / 2) t)
      (let e : 2 ^ suc k / 2 ≡ 2 ^ k = omega (arith, pow_step k) in e),
)

-- Setting bit `k` adds `1 << k` where the bit was clear.
pub bit_or-pow : (k a : ℕ) → bit_or a (2 ^ k) ≡ a + (1 - bit_at a k) * 2 ^ k
bit_or-pow zero a = omega (arith, bit_or_step a 1, bit_or-zero (a / 2), div-one a)
bit_or-pow (suc k) a = omega (
  arith,
  bit_or_step a (2 ^ suc k),
  pow_step k,
  mul_pow_step (1 - bit_at a (suc k)) k,
  ap (λ (t : ℕ). (1 - t % 2) * 2 ^ k) (div-pow-suc a k),
  bit_or-pow k (a / 2),
  ap (λ (t : ℕ). bit_or (a / 2) t) (let e : 2 ^ suc k / 2 ≡ 2 ^ k = omega (arith, pow_step k) in e),
)

pub bit_at-suc : (a k : ℕ) → bit_at a (suc k) ≡ bit_at (a / 2) k
bit_at-suc a k = ap (λ (t : ℕ). t % 2) (div-pow-suc a k)

pub bit_at-bit_or : (k a b : ℕ) → bit_at (bit_or a b) k ≡ max (bit_at a k) (bit_at b k)
bit_at-bit_or zero a b = omega (arith, bit_or_step a b, div-one a, div-one b, div-one (bit_or a b))
bit_at-bit_or (suc k) a b =
    let e : bit_or a b / 2 ≡ bit_or (a / 2) (b / 2) = omega (arith, bit_or_step a b) in
    rw (bit_at-suc (bit_or a b) k, bit_at-suc a k, bit_at-suc b k, e)
      (bit_at-bit_or k (a / 2) (b / 2))

pub bit_at-bit_xor : (k a b : ℕ) → bit_at (bit_xor a b) k ≡ (bit_at a k + bit_at b k) % 2
bit_at-bit_xor zero a b =
    omega (arith, bit_xor_step a b, div-one a, div-one b, div-one (bit_xor a b))
bit_at-bit_xor (suc k) a b =
    let e : bit_xor a b / 2 ≡ bit_xor (a / 2) (b / 2) = omega (arith, bit_xor_step a b) in
    rw (bit_at-suc (bit_xor a b) k, bit_at-suc a k, bit_at-suc b k, e)
      (bit_at-bit_xor k (a / 2) (b / 2))

-- The only bit of `1 << k` is bit `k`.
pub bit_at-pow_self : (k : ℕ) → bit_at (2 ^ k) k ≡ 1
bit_at-pow_self zero = refl
bit_at-pow_self (suc k) =
    let e : 2 ^ suc k / 2 ≡ 2 ^ k = omega (arith, pow_step k) in
    rw (bit_at-suc (2 ^ suc k) k, e) (bit_at-pow_self k)

pub bit_at-pow_ne : (k j : ℕ) → k ≢ j → bit_at (2 ^ k) j ≡ 0
bit_at-pow_ne zero zero h = absurd (h refl)
bit_at-pow_ne zero (suc j) h = rw (bit_at-suc 1 j) (zero_bit j)
  where
    zero_bit : (j : ℕ) → bit_at 0 j ≡ 0
    zero_bit j = omega (arith, zero-div (2 ^ j))
bit_at-pow_ne (suc k) zero h = omega (arith, pow_step k, div-one (2 ^ suc k))
bit_at-pow_ne (suc k) (suc j) h =
    let e : 2 ^ suc k / 2 ≡ 2 ^ k = omega (arith, pow_step k) in
    rw (bit_at-suc (2 ^ suc k) j, e) (bit_at-pow_ne k j (λ q. h (ap suc q)))

-- Where bit `k` is set, clearing it by subtraction is an exclusive or.
pub bit_xor-pow : (k a : ℕ) → bit_at a k ≡ 1 → bit_xor a (2 ^ k) + 2 ^ k ≡ a
bit_xor-pow zero a h = omega (arith, bit_xor_step a 1, bit_xor-zero (a / 2), div-one a)
bit_xor-pow (suc k) a h = omega (
  arith,
  bit_xor_step a (2 ^ suc k),
  pow_step k,
  bit_xor-pow k (a / 2) (sym (bit_at-suc a k) ∙ h),
  ap (λ (t : ℕ). bit_xor (a / 2) t)
      (let e : 2 ^ suc k / 2 ≡ 2 ^ k = omega (arith, pow_step k) in e),
)

pub bit_or-lt : (k a b : ℕ) → a < 2 ^ k → b < 2 ^ k → bit_or a b < 2 ^ k
bit_or-lt zero zero zero h g = omega arith
bit_or-lt zero zero (suc b) h g = absurd (omega arith)
bit_or-lt zero (suc a) b h g = absurd (omega arith)
bit_or-lt (suc k) a b h g = omega (
  arith,
  bit_or_step a b,
  pow_step k,
  bit_or-lt k (a / 2) (b / 2) (half_lt_pow k a h) (half_lt_pow k b g),
)

pub bit_xor_comm : (a b : ℕ) → bit_xor a b ≡ bit_xor b a
bit_xor_comm =
    half_induction (λ n. (b : ℕ) → bit_xor n b ≡ bit_xor b n)
      (λ b. zero-bit_xor b ∙ sym (bit_xor-zero b))
      (λ n h ih b. omega (arith, ih (b / 2), bit_xor_step n b, bit_xor_step b n))

-- An exclusive or with the same word tells words apart.
pub bit_xor_injective : (a b c : ℕ) → bit_xor a c ≡ bit_xor b c → a ≡ b
bit_xor_injective a b c e =
    sym (bit_xor_cancel a c) ∙ ap (λ (t : ℕ). bit_xor t c) e ∙ bit_xor_cancel b c
