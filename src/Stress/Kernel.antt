-- ===== src/Stress/Kernel.antt =====
-- The loop of the stressors together with the kernel that it runs.
use r_bench_an_interference.Base.{
  ℕ, zero, suc, ◌+◌, ◌^◌, ◌≤◌, ◌<◌, ◌≡◌, ◌⊎◌, inl, inr, refl, arith, ap, sym, ◌∙◌,
}
use r_bench_an_interference.Base.{true, false, Bool-cases, Option, none, some}
use r_bench_an_interference.Base.Int.{ℤ, pos, pos_part, to_signed}
use r_bench_an_interference.Control.{Floating}
use r_bench_an_interference.Stress.{Readings, Stressor, Regulation, run_rounds, is_over, regulate}
use r_bench_an_interference.Stress.Laws.{
  IsPace, time_over, run_rounds_sumup, regulate_keeps, is_over_cases, not_over,
}

-- `for( int i = 0 ; i < n ; i ++ )` over what the kernel changes.
unfoldable pub repeat {ℓ} : {K : Type ℓ} → ℕ → (K → K) → K → K
repeat zero kernel k = k
repeat (suc n) kernel k = repeat n kernel (kernel k)

pub repeat-add {ℓ} :
    {K : Type ℓ} (m n : ℕ) (kernel : K → K) (k : K)
    → repeat (m + n) kernel k ≡ repeat n kernel (repeat m kernel k)
unfolding repeat
repeat-add zero n kernel k =
    let e : zero + n ≡ n = omega arith in ap (λ (t : ℕ). repeat t kernel k) e
repeat-add (suc m) n kernel k =
    let e : suc m + n ≡ suc (m + n) = omega arith in
    ap (λ (t : ℕ). repeat t kernel k) e ∙ repeat-add m n kernel (kernel k)

module _ {D : Type 0} (f : Floating D) {K : Type 0} (kernel : K → K) where
  -- The rounds of a turn; a loop up to a negative number runs none.
  abbrev pub kernel_rounds : Stressor D → K → K
  kernel_rounds s = repeat (pos_part (to_signed 32 s.pace.module_runround)) kernel

  -- The loop with its kernel.
  unfoldable pub stress_with :
      Regulation D → ℤ → ℕ → D → (ℕ → Readings D) → ℕ → ℕ → Stressor D → K → Option (Stressor D × K)
  unfolding run_rounds is_over regulate repeat
  stress_with g limit time_limit t_start readings zero turn s k = none
  stress_with g limit time_limit t_start readings (suc fuel) turn s k =
      let s' = run_rounds f (readings turn) s in
      elim (is_over f limit time_limit t_start (readings turn) s') [
        | true ↦ some (s', kernel_rounds s k)
        | false ↦
            stress_with g limit time_limit t_start readings fuel (turn + 1) (regulate f g s')
              (kernel_rounds s k)
      ]

  -- The loop ends with `kernel` run as often as the rounds that it counted from `start` on.
  pub record Runs (start limit time_limit : ℕ) (t_start : D) (readings : ℕ → Readings D) (k : K)
      (run : Option (Stressor D × K)) : Type 0 where
    pub state : Stressor D
    pub ran : ℕ
    pub turn : ℕ
    pub returns : run ≡ some (state, repeat ran kernel k)
    pub counted : state.knl_round_sumup ≡ start + ran
    pub below : state.knl_round_sumup < limit + 2 ^ 31
    pub warnings : state.low_actl_warning ≤ 8
    pub over :
        (limit ≤ state.knl_round_sumup) ⊎ (time_over f time_limit t_start (readings turn) ≡ true)

  turn_rounds :
      (s : Stressor D)
      → s.pace.module_runround < 2 ^ 31
      → pos_part (to_signed 32 s.pace.module_runround) ≡ s.pace.module_runround
  turn_rounds s h = ground arith

  -- Where every pace runs at least one round and fewer than 2 ^ 31, a limit of rounds is reached:
  -- with as much fuel as rounds are left, the loop ends after that limit or at its limit of time,
  -- with fewer than 2 ^ 31 rounds beyond the limit and at most eight low loads counted, and it has
  -- run its kernel exactly as often as it has counted rounds.
  pub stress_with-Runs :
      (g : Regulation D) (limit time_limit : ℕ) (t_start : D) (readings : ℕ → Readings D)
      (fuel turn : ℕ) (s : Stressor D) (k : K)
      → IsPace s.pace
      → ((a b : D) → IsPace (g.repace a b))
      → limit + 2 ^ 31 ≤ 2 ^ 63
      → s.low_actl_warning ≤ 8
      → s.knl_round_sumup < limit
      → limit ≤ s.knl_round_sumup + fuel
      → Runs s.knl_round_sumup limit time_limit t_start readings k
          (stress_with g (pos limit) time_limit t_start readings fuel turn s k)
  unfolding stress_with
  stress_with-Runs g limit time_limit t_start readings zero turn s k p ps room w below enough =
      absurd (omega arith)
  stress_with-Runs g limit time_limit t_start readings (suc fuel) turn s k p ps room w below
        enough =
      let s' = run_rounds f (readings turn) s in
      let sum = run_rounds_sumup f (readings turn) s p.fits (omega arith) in
      let small : s'.knl_round_sumup < 2 ^ 63 = omega (arith, sum) in
      let rounds = turn_rounds s p.fits in
      elim (Bool-cases (is_over f (pos limit) time_limit t_start (readings turn) s')) [
        | inl e ↦ record {
          state = s';
          ran = pos_part (to_signed 32 s.pace.module_runround);
          turn = turn;
          returns = rw (stress_with, e) refl;
          counted = omega (arith, sum, rounds);
          below = omega (arith, sum);
          warnings = unfold run_rounds in w;
          over = is_over_cases f limit time_limit t_start (readings turn) s' small e;
        }
        | inr e ↦
            let (same, p', w') =
              regulate_keeps f g s' (unfold run_rounds in p) ps (unfold run_rounds in w) in
            let lt = not_over f limit time_limit t_start (readings turn) s' small e in
            let rest =
              stress_with-Runs g limit time_limit t_start readings fuel (turn + 1) (regulate f g s')
                (kernel_rounds s k) p' ps room w' (omega (arith, same, lt))
                (omega (arith, same, sum)) in
            record {
              state = rest.state;
              ran = pos_part (to_signed 32 s.pace.module_runround) + rest.ran;
              turn = rest.turn;
              returns =
                  rw (stress_with, e)
                    (rest.returns
                      ∙ ap (λ (t : K). some (rest.state, t))
                          (sym (
                            repeat-add (pos_part (to_signed 32 s.pace.module_runround)) rest.ran
                              kernel k)));
              counted = omega (arith, rest.counted, same, sum, rounds);
              below = rest.below;
              warnings = rest.warnings;
              over = rest.over;
            }
      ]
