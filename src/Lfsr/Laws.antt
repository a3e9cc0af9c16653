-- ===== src/Lfsr/Laws.antt =====
-- The shift register of core-lfsr.cpp is a permutation of the 32-bit words that fixes only 0.
use r_bench_an_interference.Base.{ℕ, zero, suc, ◌+◌, ◌*◌, ◌/◌, ◌^◌, ◌%◌, ◌<◌, bit_and, bit_xor}
use r_bench_an_interference.Base.{◌≡◌, ◌≢◌, refl, arith, ap}
use r_bench_an_interference.Base.{inl, inr, ◌∙◌, sym, ◌⊎◌}
use r_bench_an_interference.Base.Bits.{
  bit_xor-lt, bit_xor_cancel, bit_xor-div, bit_or_fields, bit_and-zero, bit_and_step,
}
use r_bench_an_interference.Lfsr.{lfsr32, lfsr64, galois_lfsr_mask}

-- The feedback word: the mask if the low bit is set, else 0.
abbrev feedback : ℕ → ℕ
feedback zero = 0
feedback (suc _) = galois_lfsr_mask

bit_and-low : (a : ℕ) → bit_and a 1 ≡ a % 2
bit_and-low a = omega (arith, bit_and_step a 1, bit_and-zero (a / 2))

lfsr32_lem : (s : ℕ) → lfsr32 s ≡ bit_xor (s / 2) (feedback (s % 2))
unfolding lfsr32
lfsr32_lem s = elim (mod_two s) [
  | inl e ↦ rw (bit_and-low s, e) (rw (bit_and-zero_left) refl)
  | inr e ↦ rw (bit_and-low s, e) refl
]
  where
    mod_two : (s : ℕ) → (s % 2 ≡ 0) ⊎ (s % 2 ≡ 1)
    mod_two s = omega arith

    bit_and-zero_left : bit_and 0 galois_lfsr_mask ≡ 0
    bit_and-zero_left = refl

feedback-lt : (b : ℕ) → feedback b < 2 ^ 32
feedback-lt zero = omega arith
feedback-lt (suc b) = omega arith

lfsr32-lt : (s : ℕ) → s < 2 ^ 32 → lfsr32 s < 2 ^ 32
lfsr32-lt s h =
    rw lfsr32_lem (bit_xor-lt 32 (s / 2) (feedback (s % 2)) (omega arith) (feedback-lt (s % 2)))

-- The register stepped back: the top bit tells whether the mask was applied.
pub lfsr32_back : ℕ → ℕ
lfsr32_back x = let top = x / 2 ^ 31 in bit_xor x (feedback top) * 2 + top

-- The top bit of the next state is the low bit of the state.
lfsr32_top : (s : ℕ) → s < 2 ^ 32 → lfsr32 s / 2 ^ 31 ≡ s % 2
lfsr32_top s h = rw lfsr32_lem (bit_xor-div 31 (s / 2) (feedback (s % 2)) ∙ top s h)
  where
    cases :
        (s b : ℕ) → b < 2 → s / 2 / 2 ^ 31 ≡ 0 → bit_xor (s / 2 / 2 ^ 31) (feedback b / 2 ^ 31) ≡ b
    cases s zero lt e = rw e refl
    cases s (suc zero) lt e = rw e refl
    cases s (suc (suc b)) lt e = absurd (omega arith)

    top : (s : ℕ) → s < 2 ^ 32 → bit_xor (s / 2 / 2 ^ 31) (feedback (s % 2) / 2 ^ 31) ≡ s % 2
    top s h = cases s (s % 2) (omega arith) (omega arith)

-- Stepping back undoes a draw from a 32-bit state, so no two states of the register lead to the
-- same next state.
pub lfsr32_back-lfsr32 : (s : ℕ) → s < 2 ^ 32 → lfsr32_back (lfsr32 s) ≡ s
unfolding lfsr32_back
lfsr32_back-lfsr32 s h = rw (lfsr32_top s h) (
    omega (
      arith,
      ap (λ (t : ℕ). bit_xor t (feedback (s % 2))) (lfsr32_lem s),
      bit_xor_cancel (s / 2) (feedback (s % 2)),
    ))

-- From a 32-bit state that is not 0 the next state is a 32-bit word that is not 0 either.
pub lfsr32_range : (s : ℕ) → s < 2 ^ 32 → s ≢ 0 → (lfsr32 s < 2 ^ 32) × (lfsr32 s ≢ 0)
lfsr32_range s h ne =
    (lfsr32-lt s h, λ e. ne (sym (lfsr32_back-lfsr32 s h) ∙ ap lfsr32_back e ∙ back_zero))
  where
    back_zero : lfsr32_back 0 ≡ 0
    back_zero = unfold lfsr32_back in refl

-- A 64-bit draw from a 32-bit state holds two 32-bit draws, the first in its high half, and leaves
-- the state of the second.
pub lfsr64_lem :
    (s : ℕ)
    → s < 2 ^ 32
    → ((lfsr64 s).0 / 2 ^ 32 ≡ lfsr32 s)
      × ((lfsr64 s).0 % 2 ^ 32 ≡ lfsr32 (lfsr32 s))
      × ((lfsr64 s).1 ≡ lfsr32 (lfsr32 s))
unfolding lfsr64
lfsr64_lem s h =
    let small = lfsr32-lt (lfsr32 s) (lfsr32-lt s h) in
    let sum = bit_or_fields 32 (lfsr32 s) (lfsr32 (lfsr32 s)) small in
    (omega (arith, sum), omega (arith, sum), refl)
