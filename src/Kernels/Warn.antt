-- ===== src/Kernels/Warn.antt =====
-- rbench-cpu-float.cpp and rbench-simd-avx.cpp: `warn_flag`, by which a file warns of a wrong result
-- only once, and `f_is_zero` of rbench.hpp.
use r_bench_an_interference.Base.{
  ℕ, zero, suc, ◌≡◌, refl, arith, ap, ◌∙◌, ◌&&◌, not, if◌then◌else◌, Bool, true, false, List, [],
  ◌∷◌, ◌++◌,
}

-- The flag, and the warnings so far.
pub record Warnings (W : Type 0) : Type 0 where
  pub warn_flag : Bool
  pub log : List W

-- `if( !correct && !warn_flag )`: the flag is set, and one warning given.
abbrev pub verify : {W : Type 0} → Bool → W → Warnings W → Warnings W
verify correct warning s =
    if not correct && not s.warn_flag
    then record { warn_flag = true; log = s.log ++ warning ∷ [] }
    else s

-- Checks one after another.
unfoldable pub verify_all : {W : Type 0} → List (Bool × W) → Warnings W → Warnings W
verify_all [] s = s
verify_all ((correct, warning) ∷ checks) s = verify_all checks (verify correct warning s)

-- So many calls of a kernel that makes these checks.
unfoldable pub verify_rounds : {W : Type 0} → ℕ → List (Bool × W) → Warnings W → Warnings W
verify_rounds zero checks s = s
verify_rounds (suc n) checks s = verify_rounds n checks (verify_all checks s)

-- The first check that fails.
abbrev pub first_wrong : {W : Type 0} → List (Bool × W) → List W
first_wrong [] = []
first_wrong ((true, warning) ∷ checks) = first_wrong checks
first_wrong ((false, warning) ∷ checks) = warning ∷ []

abbrev pub silent : {W : Type 0} → Warnings W
silent = record { warn_flag = false; log = [] }

module _ {W : Type 0} where
  warned_stays :
      (checks : List (Bool × W)) (log : List W)
      → verify_all checks (record { warn_flag = true; log = log })
        ≡ record { warn_flag = true; log = log }
  unfolding verify_all
  warned_stays [] log = refl
  warned_stays ((true, w) ∷ checks) log = warned_stays checks log
  warned_stays ((false, w) ∷ checks) log = warned_stays checks log

  abbrev any_wrong : List (Bool × W) → Bool
  any_wrong [] = false
  any_wrong ((true, w) ∷ checks) = any_wrong checks
  any_wrong ((false, w) ∷ checks) = true

  from_silent :
      (checks : List (Bool × W))
      → verify_all checks silent ≡ record { warn_flag = any_wrong checks; log = first_wrong checks }
  unfolding verify_all
  from_silent [] = refl
  from_silent ((true, w) ∷ checks) = from_silent checks
  from_silent ((false, w) ∷ checks) = warned_stays checks (w ∷ [])

  right_wrong : (checks : List (Bool × W)) → any_wrong checks ≡ false → first_wrong checks ≡ []
  right_wrong [] e = refl
  right_wrong ((true, w) ∷ checks) e = right_wrong checks e
  right_wrong ((false, w) ∷ checks) e = absurd (ground arith)

  settled :
      (n : ℕ) (checks : List (Bool × W)) (b : Bool)
      → any_wrong checks ≡ b
      → verify_rounds n checks (record { warn_flag = b; log = first_wrong checks })
        ≡ record { warn_flag = b; log = first_wrong checks }
  unfolding verify_rounds
  settled zero checks b e = refl
  settled (suc n) checks true e =
      ap (verify_rounds n checks) (warned_stays checks (first_wrong checks))
      ∙ settled n checks true e
  settled (suc n) checks false e =
      ap (λ l. verify_rounds n checks (verify_all checks (record { warn_flag = false; log = l })))
        (right_wrong checks e)
      ∙ ap (verify_rounds n checks)
          (from_silent checks ∙ ap (λ b. record { warn_flag = b; log = first_wrong checks }) e)
      ∙ settled n checks false e

  -- After one call or more, the warnings are those of the first call: the first check that fails.
  pub verify_rounds-once :
      (n : ℕ) (checks : List (Bool × W))
      → (verify_rounds (suc n) checks silent).log ≡ first_wrong checks
  unfolding verify_rounds
  verify_rounds-once n checks =
      ap (λ s. (verify_rounds n checks s).log) (from_silent checks)
      ∙ ap (λ (s : Warnings W). s.log) (settled n checks (any_wrong checks) refl)
