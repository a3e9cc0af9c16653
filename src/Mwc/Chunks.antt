-- ===== src/Mwc/Chunks.antt =====
-- core-mwc.cpp: `mwc16`, `mwc8` and `mwc1` hand out one 32-bit draw piece by piece.
use r_bench_an_interference.Base.{ℕ, zero, suc, ◌+◌, ◌*◌, ◌/◌, ◌%◌, ◌^◌, ◌<◌}
use r_bench_an_interference.Base.{◌≡◌, refl, arith, ◌∙◌}
use native.Mathlib.Nat.{pow-suc}
use r_bench_an_interference.Base.Bits.{bit_and_mask}
use r_bench_an_interference.Mwc.{Mwc, mwc32, mwc16, mwc8, mwc1}

-- `n` draws in a row as one number in base `b`, the first draw lowest.
pub draws : (Mwc → ℕ × Mwc) → ℕ → ℕ → Mwc → ℕ × Mwc
draws draw b zero m = (0, m)
draws draw b (suc n) m = let r = draw m in let s = draws draw b n r.1 in (r.0 + b * s.0, s.1)

-- Where a draw of 32 bits leaves the two words.
pub record SameSeed (m m' : Mwc) : Type 0 where
  pub same_w : m'.w ≡ m.w
  pub same_z : m'.z ≡ m.z

mwc32-lt : (m : Mwc) → (mwc32 m).0 < 2 ^ 32
unfolding mwc32
mwc32-lt m = omega arith

-- Two 16-bit draws from an empty buffer are the halves of one 32-bit draw, the low half first, and
-- leave the seeds as that draw does and the buffer empty.
pub mwc16-mwc32 :
    (m : Mwc)
    → m.n16 ≡ 0
    → let r = draws mwc16 (2 ^ 16) 2 m in
      (r.0 ≡ (mwc32 m).0) × SameSeed (mwc32 m).1 r.1 × (r.1.n16 ≡ 0)
unfolding draws mwc16
mwc16-mwc32 m h =
    let word = (mwc32 (record m { n16 = 0 })).0 in
    rw h (
      omega (
        arith,
        bit_and_mask 16 word,
        bit_and_mask 16 (word / 2 ^ 16),
        mwc32-lt (record m { n16 = 0 }),
      ),
      record { same_w = refl; same_z = refl },
      refl,
    )

-- Four 8-bit draws from an empty buffer are the bytes of one 32-bit draw, the lowest first, and
-- leave the seeds as that draw does and the buffer empty.
pub mwc8-mwc32 :
    (m : Mwc)
    → m.n8 ≡ 0
    → let r = draws mwc8 (2 ^ 8) 4 m in
      (r.0 ≡ (mwc32 m).0) × SameSeed (mwc32 m).1 r.1 × (r.1.n8 ≡ 0)
unfolding draws mwc8
mwc8-mwc32 m h =
    let word = (mwc32 (record m { n8 = 0 })).0 in
    rw h (
      omega (
        arith,
        bit_and_mask 8 word,
        bit_and_mask 8 (word / 2 ^ 8),
        bit_and_mask 8 (word / 2 ^ 8 / 2 ^ 8),
        bit_and_mask 8 (word / 2 ^ 8 / 2 ^ 8 / 2 ^ 8),
        mwc32-lt (record m { n8 = 0 }),
      ),
      record { same_w = refl; same_z = refl },
      refl,
    )

-- A draw from the buffer of bits.
mwc1_buffered :
    (k : ℕ) (m : Mwc)
    → m.n1 ≡ suc k
    → ((mwc1 m).0 ≡ m.saved1 / 2 % 2)
      × ((mwc1 m).1.saved1 ≡ m.saved1 / 2)
      × ((mwc1 m).1.n1 ≡ k)
      × SameSeed m (mwc1 m).1
unfolding mwc1
mwc1_buffered k m h = ground (arith, bit_and_mask 1 (m.saved1 / 2))

-- A draw that fills the buffer of bits.
mwc1_fresh :
    (m : Mwc)
    → m.n1 ≡ 0
    → ((mwc1 m).0 ≡ (mwc32 m).0 % 2)
      × ((mwc1 m).1.saved1 ≡ (mwc32 m).0)
      × ((mwc1 m).1.n1 ≡ 31)
      × SameSeed (mwc32 m).1 (mwc1 m).1
unfolding mwc1
mwc1_fresh m h = ground (arith, bit_and_mask 1 (mwc32 m).0)

-- What is left in the buffer comes out bit by bit.
draws-mwc1_buffered :
    (n : ℕ) (m : Mwc)
    → m.n1 ≡ n
    → m.saved1 / 2 < 2 ^ n
    → let r = draws mwc1 2 n m in (r.0 ≡ m.saved1 / 2) × SameSeed m r.1 × (r.1.n1 ≡ 0)
unfolding draws
draws-mwc1_buffered zero m h lt = (omega arith, record { same_w = refl; same_z = refl }, h)
draws-mwc1_buffered (suc n) m h lt =
    let (bit, saved, left, same) = mwc1_buffered n m h in
    let (value, same', done) =
      draws-mwc1_buffered n (mwc1 m).1 left (omega (arith, saved, pow-suc 2 n)) in
    (
      omega (arith, bit, value, saved),
      record { same_w = same'.same_w ∙ same.same_w; same_z = same'.same_z ∙ same.same_z },
      done,
    )

-- Thirty-two one-bit draws from an empty buffer are the bits of one 32-bit draw, the lowest first,
-- and leave the seeds as that draw does and the buffer empty.
pub mwc1-mwc32 :
    (m : Mwc)
    → m.n1 ≡ 0
    → let r = draws mwc1 2 32 m in (r.0 ≡ (mwc32 m).0) × SameSeed (mwc32 m).1 r.1 × (r.1.n1 ≡ 0)
mwc1-mwc32 m h =
    let (bit, saved, left, same) = mwc1_fresh m h in
    let (value, same', done) =
      draws-mwc1_buffered 31 (mwc1 m).1 left (omega (arith, saved, mwc32-lt m)) in
    unfold draws in
    (
      omega (arith, bit, value, saved),
      record { same_w = same'.same_w ∙ same.same_w; same_z = same'.same_z ∙ same.same_z },
      done,
    )
