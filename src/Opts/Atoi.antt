-- ===== src/Opts/Atoi.antt =====
-- The numbers that the options read with `atoi`.
use native.Mathlib.Nat.{pow-suc}
use r_bench_an_interference.Base.{ℕ, suc, ◌+◌, ◌-◌, ◌*◌, ◌^◌, ◌≤◌, ◌<◌, ◌≡◌, arith, ◌∙◌, ap}
use r_bench_an_interference.Base.{[], ◌∷◌, All, length, true, false}
use r_bench_an_interference.Base.Int.{ℤ, pos, negsuc, pos_part, neg_part, to_signed, to_unsigned}
use r_bench_an_interference.Base.Cstring.{Cstring, isdigit, isspace, read_digits, atoll, atoi}

signed_range :
    (x : ℕ)
    → x < 2 ^ 32
    → (pos_part (to_signed 32 x) < 2 ^ 31) × (neg_part (to_signed 32 x) ≤ 2 ^ 31)
signed_range x h = ground arith

unsigned-lt : (z : ℤ) → to_unsigned 32 z < 2 ^ 32
unsigned-lt (pos n) = omega arith
unsigned-lt (negsuc n) = omega arith

-- `atoi` returns an `int`.
pub atoi_range : (s : Cstring) → (pos_part (atoi s) < 2 ^ 31) × (neg_part (atoi s) ≤ 2 ^ 31)
unfolding atoi
atoi_range s = signed_range (to_unsigned 32 (atoll s)) (unsigned-lt (atoll s))

-- The number that a text of digits stands for, by the places of its digits.
unfoldable pub value : Cstring → ℕ
value [] = 0
value (c ∷ s) = (c - b'0') * 10 ^ length s + value s

abbrev pub IsDigit : ℕ → Type 0
IsDigit c = (b'0' ≤ c) × (c ≤ b'9')

isdigit-true : (c : ℕ) → IsDigit c → isdigit c ≡ true
unfolding isdigit
isdigit-true c h = ground arith

read_digits-value :
    (acc : ℕ) (s : Cstring) → All IsDigit s → read_digits acc s ≡ acc * 10 ^ length s + value s
unfolding read_digits value
read_digits-value acc [] h = omega arith
read_digits-value acc (c ∷ s) (d, h) =
    rw (isdigit-true c d, read_digits)
      (read_digits-value (acc * 10 + (c - b'0')) s h
        ∙ omega (arith, ap (λ (t : ℕ). acc * t) (pow-suc 10 (length s))))

digit-not-space : (c : ℕ) → IsDigit c → isspace c ≡ false
unfolding isspace
digit-not-space c h = ground arith

atoll-value :
    (c : ℕ) (s : Cstring)
    → All IsDigit (c ∷ s)
    → value (c ∷ s) < 2 ^ 63
    → atoll (c ∷ s) ≡ pos (value (c ∷ s))
unfolding atoll value
atoll-value c s h small =
    rw (digit-not-space c h.0, atoll) (ground (arith, read_digits-value 0 (c ∷ s) h))

-- A text of digits reads as the number that it stands for, as long as that is an `int`.
pub atoi-value :
    (c : ℕ) (s : Cstring)
    → All IsDigit (c ∷ s)
    → value (c ∷ s) < 2 ^ 31
    → atoi (c ∷ s) ≡ pos (value (c ∷ s))
unfolding atoi
atoi-value c s h small = rw (atoll-value c s h (omega arith)) (ground arith)

-- With a minus sign in front, the same number is read as negative.
pub atoi-negative :
    (c : ℕ) (s : Cstring) (n : ℕ)
    → All IsDigit (c ∷ s)
    → value (c ∷ s) ≡ suc n
    → n < 2 ^ 31
    → atoi (b'-' ∷ c ∷ s) ≡ negsuc n
unfolding atoi atoll
atoi-negative c s n h e small = ground (arith, read_digits-value 0 (c ∷ s) h)
