-- ===== src/Tests/Divfloat.antt =====
-- validate/validate_cpu_divfloat.cpp: the theorem over coarse doubles, which keep of a quotient only
-- a power of two.
use r_bench_an_interference.Base.{
  ℕ, zero, suc, ◌+◌, ◌^◌, ◌≤◌, ◌<◌, ◌≡◌, refl, arith, ltb, ◌==◌, if◌then◌else◌, Bool, true, false,
  some, [], ◌∷◌,
}
use r_bench_an_interference.Base.Int.{ℤ, pos, negsuc, ◌+ℤ◌, neg_ℤ, leb_ℤ, eqb_ℤ}
use r_bench_an_interference.Validate.{Number}
use r_bench_an_interference.Validate.Laws.{Exact}
use r_bench_an_interference.Validate.Divfloat.{validate_cpu_divfloat}
use r_bench_an_interference.Validate.Divfloat.Laws.{Quotients, validate_cpu_divfloat-ok}

-- Whole numbers, 2^-k, 2^k, and infinity.
data Coarse : Type 0 where
  whole : ℤ → Coarse
  tiny : ℕ → Coarse
  huge : ℕ → Coarse
  infinite : Coarse

abbrev on_whole : (ℤ → ℤ → ℤ) → Coarse → Coarse → Coarse
on_whole f (whole a) (whole b) = whole (f a b)
on_whole f x y = infinite

abbrev test_whole : (ℤ → ℤ → Bool) → Coarse → Coarse → Bool
test_whole f (whole a) (whole b) = f a b
test_whole f x y = false

abbrev coarse : Number Coarse
coarse = record {
  of_int = whole;
  add = on_whole ◌+ℤ◌;
  sub = on_whole (λ a b. a +ℤ neg_ℤ b);
  leb = test_whole leb_ℤ;
  eqb = test_whole eqb_ℤ;
}

coarse-Exact : Exact coarse (2 ^ 53)
coarse-Exact = record {
  add_exact = λ a b h h' within. refl;
  sub_exact = λ a b h h' within. refl;
  leb_exact = λ a b h h'. refl;
  eqb_exact = λ a b h h'. refl;
}

abbrev down : ℕ → Coarse
down k = if ltb k 1075 then tiny k else whole (pos 0)

-- Of numbers from 0 on.
abbrev coarse_div : Coarse → Coarse → Coarse
coarse_div (whole (pos a)) (whole (pos zero)) = infinite
coarse_div (whole (pos a)) (whole (pos (suc b))) = if a == suc b then whole (pos 1) else huge 1
coarse_div (whole (pos a)) (tiny k) = huge (suc k)
coarse_div (whole (pos (suc zero))) (huge m) = down m
coarse_div (tiny k) (huge m) = down (k + m)
coarse_div x y = whole (pos 0)

abbrev CoarseAtMost : ℕ → Coarse → Type 0
CoarseAtMost k (whole (pos zero)) = Unit
CoarseAtMost k (whole (pos (suc zero))) = k ≡ 0
CoarseAtMost k (tiny j) = (k ≤ j) × (j < 1075)
CoarseAtMost k x = ⊥

abbrev CoarseAtLeast : ℕ → Coarse → Type 0
CoarseAtLeast k (huge j) = k ≤ j
CoarseAtLeast k infinite = Unit
CoarseAtLeast k x = ⊥

coarse_div_at_least :
    (k n : ℕ) (x : Coarse)
    → CoarseAtMost k x
    → 2 ≤ n
    → n ≤ 2 ^ 53
    → CoarseAtLeast (suc k) (coarse_div (whole (pos n)) x)
coarse_div_at_least k n (whole (pos zero)) h low high = tt
coarse_div_at_least k n (whole (pos (suc zero))) h low high =
    let other : (n == 1) ≡ false = ground arith in rw other (omega arith)
coarse_div_at_least k n (whole (pos (suc (suc a)))) h low high = absurd h
coarse_div_at_least k n (whole (negsuc a)) h low high = absurd h
coarse_div_at_least k n (tiny j) h low high = omega arith
coarse_div_at_least k n (huge j) h low high = absurd h
coarse_div_at_least k n infinite h low high = absurd h

down_lem : (k j : ℕ) → k ≤ j → CoarseAtMost k (down j)
down_lem k j h = choose (ltb j 1075) refl
  where
    choose : (b : Bool) → ltb j 1075 ≡ b → CoarseAtMost k (if b then tiny j else whole (pos 0))
    choose true e = (h, ground arith)
    choose false e = tt

coarse_div_at_most :
    (k m : ℕ) (x y : Coarse)
    → CoarseAtMost k x
    → CoarseAtLeast m y
    → CoarseAtMost (k + m) (coarse_div x y)
coarse_div_at_most k m (whole (pos zero)) (huge j) h h' = tt
coarse_div_at_most k m (whole (pos zero)) infinite h h' = tt
coarse_div_at_most k m (whole (pos (suc zero))) (huge j) h h' = down_lem (k + m) j (omega arith)
coarse_div_at_most k m (whole (pos (suc zero))) infinite h h' = tt
coarse_div_at_most k m (whole (pos (suc (suc a)))) y h h' = absurd h
coarse_div_at_most k m (whole (negsuc a)) y h h' = absurd h
coarse_div_at_most k m (tiny i) (huge j) h h' = down_lem (k + m) (i + j) (omega arith)
coarse_div_at_most k m (tiny i) infinite h h' = tt
coarse_div_at_most k m (huge i) y h h' = absurd h
coarse_div_at_most k m infinite y h h' = absurd h
coarse_div_at_most k m x (whole a) h h' = absurd h'
coarse_div_at_most k m x (tiny i) h h' = absurd h'

coarse_underflow : (k : ℕ) (x : Coarse) → 1075 ≤ k → CoarseAtMost k x → x ≡ whole (pos 0)
coarse_underflow k (whole (pos zero)) low h = refl
coarse_underflow k (whole (pos (suc zero))) low h = absurd (omega arith)
coarse_underflow k (whole (pos (suc (suc a)))) low h = absurd h
coarse_underflow k (whole (negsuc a)) low h = absurd h
coarse_underflow k (tiny j) low h = absurd (omega arith)
coarse_underflow k (huge j) low h = absurd h
coarse_underflow k infinite low h = absurd h

coarse_div_self :
    (n : ℕ) → 1 ≤ n → n ≤ 2 ^ 53 → coarse_div (whole (pos n)) (whole (pos n)) ≡ whole (pos 1)
coarse_div_self zero low high = absurd (omega arith)
coarse_div_self (suc n) low high = let same : (suc n == suc n) ≡ true = ground arith in rw same refl

coarse-Quotients : Quotients coarse (2 ^ 53) coarse_div
coarse-Quotients = record {
  AtMost = CoarseAtMost;
  AtLeast = CoarseAtLeast;
  one_at_most = refl;
  div_at_least = coarse_div_at_least;
  div_at_most = coarse_div_at_most;
  underflow = coarse_underflow;
  div_self = coarse_div_self;
}

validate_cpu_divfloat-ok_example :
    validate_cpu_divfloat coarse coarse_div (2 ^ 30)
    ≡ some true
      ∷ some true
      ∷ some true
      ∷ some true
      ∷ some true
      ∷ some true
      ∷ some true
      ∷ some true
      ∷ []
validate_cpu_divfloat-ok_example =
    validate_cpu_divfloat-ok coarse coarse_div (2 ^ 53) coarse-Exact coarse-Quotients (2 ^ 30)
      (omega arith) (omega arith)
