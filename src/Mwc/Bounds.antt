-- ===== src/Mwc/Bounds.antt =====
-- core-mwc.cpp: the draws modulo a number, without modulo bias.
use native.Mathlib.Nat.{pow-suc, mul-le-mul_right, mod-eq_of_lt, mod-lt}
use r_bench_an_interference.Base.{ℕ, zero, suc, ◌*◌, ◌%◌, ◌^◌, ◌≤◌, ◌<◌}
use r_bench_an_interference.Base.{◌≡◌, arith, ltb, leb, ap}
use r_bench_an_interference.Base.{Bool-cases, inl, inr, ltb→lt, ltb→le}
use r_bench_an_interference.Base.{some}
use r_bench_an_interference.Mwc.{Mwc, mwc8, mwc16, mwc32}
use r_bench_an_interference.Mwc.Modn.{
  raise_threshold, draw_below, modn_body, mwc8modn, mwc16modn, mwc32modn,
}

-- What the loop on the threshold is for: the largest `mmod * 2 ^ k` that fits the width.
pub record IsThreshold (v mmod t : ℕ) : Type 0 where
  pub shift : ℕ
  pub multiple : t ≡ mmod * 2 ^ shift
  pub high : 2 ^ v ≤ t
  pub fits : t < 2 ^ suc v

raise_threshold-from :
    (v fuel t : ℕ)
    → 2 ^ v ≤ t * 2 ^ fuel
    → t < 2 ^ suc v
    → IsThreshold v t (raise_threshold v fuel t)
unfolding raise_threshold
raise_threshold-from v zero t enough small = record {
  shift = 0;
  multiple = omega arith;
  high = omega arith;
  fits = small;
}
raise_threshold-from v (suc fuel) t enough small = elim (Bool-cases (ltb t (2 ^ v))) [
  | inl e ↦
      let below : t < 2 ^ v = ltb→lt t (2 ^ v) e in
      let whole : (t * 2) % 2 ^ suc v ≡ t * 2 = mod-eq_of_lt (omega (arith, pow-suc 2 v)) in
      let more : 2 ^ v ≤ t * 2 * 2 ^ fuel = omega (arith, ap (λ (p : ℕ). t * p) (pow-suc 2 fuel)) in
      let next = raise_threshold-from v fuel (t * 2) more (omega (arith, pow-suc 2 v)) in
      rw (e, raise_threshold, whole)
        (record {
          shift = suc next.shift;
          multiple = omega (arith, next.multiple, ap (λ (p : ℕ). t * p) (pow-suc 2 next.shift));
          high = next.high;
          fits = next.fits;
        })
  | inr e ↦
      rw (e, raise_threshold)
        (record { shift = 0; multiple = omega arith; high = ltb→le t (2 ^ v) e; fits = small })
]

-- Within as many rounds as the word has bits, the loop on the threshold raises a positive `mmod`
-- that fits the word to a power of two times `mmod` that is at least half of the range of the word
-- and still fits it.
pub raise_threshold-IsThreshold :
    (v mmod : ℕ) → 0 < mmod → mmod < 2 ^ suc v → IsThreshold v mmod (raise_threshold v (suc v) mmod)
raise_threshold-IsThreshold v mmod positive small =
    raise_threshold-from v (suc v) mmod
      (omega (arith, pow-suc 2 v, mul-le-mul_right (2 ^ suc v) positive)) small

-- The state after `n` draws.
unfoldable pub after : (Mwc → ℕ × Mwc) → ℕ → Mwc → Mwc
after draw zero m = m
after draw (suc n) m = after draw n (draw m).1

-- Draw number `n`, counted from 0, is the first one below `t`.
pub record IsFirst (draw : Mwc → ℕ × Mwc) (t n : ℕ) (m : Mwc) : Type 0 where
  pub refused : (i : ℕ) → i < n → t ≤ (draw (after draw i m)).0
  pub kept : (draw (after draw n m)).0 < t

draw_below-first :
    (draw : Mwc → ℕ × Mwc) (t fuel n : ℕ) (m : Mwc)
    → IsFirst draw t n m
    → n < fuel
    → draw_below draw t fuel m ≡ some (draw (after draw n m))
unfolding draw_below after
draw_below-first draw t zero n m f h = absurd (omega arith)
draw_below-first draw t (suc fuel) zero m f h = ground (arith, f.kept)
draw_below-first draw t (suc fuel) (suc n) m f h = elim (Bool-cases (leb t (draw m).0)) [
  | inl e ↦
      rw (e, draw_below)
        (draw_below-first draw t fuel n (draw m).1
          (record { refused = λ i lt. f.refused (suc i) (omega arith); kept = f.kept })
          (omega arith))
  | inr e ↦ absurd (ground (arith, f.refused 0 (omega arith)))
]

-- The threshold that the three loops below compare with.
abbrev pub threshold : ℕ → ℕ → ℕ
threshold top mmod = raise_threshold top (suc top) mmod

modn_body-first :
    (top : ℕ) (draw : Mwc → ℕ × Mwc) (fuel n mmod : ℕ) (m : Mwc)
    → IsFirst draw (threshold top mmod) n m
    → n < fuel
    → modn_body top draw fuel mmod m
      ≡ some ((draw (after draw n m)).0 % mmod, (draw (after draw n m)).1)
modn_body-first top draw fuel n mmod m first enough =
    rw (draw_below-first draw (threshold top mmod) fuel n m first enough)

-- With a positive `mmod`, if the 32-bit draw number `n` is the first one below the threshold, then
-- any fuel above `n` is enough, and `mwc32modn` returns the remainder of that draw, which is below
-- `mmod`, with the state after it.
pub mwc32modn-first :
    (fuel n mmod : ℕ) (m : Mwc)
    → 0 < mmod
    → IsFirst mwc32 (threshold 31 mmod) n m
    → n < fuel
    → let r = mwc32 (after mwc32 n m) in
      (mwc32modn fuel mmod m ≡ some (r.0 % mmod, r.1)) × (r.0 % mmod < mmod)
unfolding mwc32modn
mwc32modn-first fuel n mmod m positive first enough =
    (ground (arith, modn_body-first 31 mwc32 fuel n mmod m first enough), mod-lt _ positive)

-- With a positive `mmod`, if the 16-bit draw number `n` is the first one below the threshold, then
-- any fuel above `n` is enough, and `mwc16modn` returns the remainder of that draw, which is below
-- `mmod`, with the state after it.
pub mwc16modn-first :
    (fuel n mmod : ℕ) (m : Mwc)
    → 0 < mmod
    → IsFirst mwc16 (threshold 15 mmod) n m
    → n < fuel
    → let r = mwc16 (after mwc16 n m) in
      (mwc16modn fuel mmod m ≡ some (r.0 % mmod, r.1)) × (r.0 % mmod < mmod)
unfolding mwc16modn
mwc16modn-first fuel n mmod m positive first enough =
    (ground (arith, modn_body-first 15 mwc16 fuel n mmod m first enough), mod-lt _ positive)

-- With a positive `mmod`, if the 8-bit draw number `n` is the first one below the threshold, then
-- any fuel above `n` is enough, and `mwc8modn` returns the remainder of that draw, which is below
-- `mmod`, with the state after it.
pub mwc8modn-first :
    (fuel n mmod : ℕ) (m : Mwc)
    → 0 < mmod
    → IsFirst mwc8 (threshold 7 mmod) n m
    → n < fuel
    → let r = mwc8 (after mwc8 n m) in
      (mwc8modn fuel mmod m ≡ some (r.0 % mmod, r.1)) × (r.0 % mmod < mmod)
unfolding mwc8modn
mwc8modn-first fuel n mmod m positive first enough =
    (ground (arith, modn_body-first 7 mwc8 fuel n mmod m first enough), mod-lt _ positive)
