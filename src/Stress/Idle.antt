-- ===== src/Stress/Idle.antt =====
-- The loop of the stressors where the pace has no rounds.
use r_bench_an_interference.Base.{ℕ, zero, suc, ◌+◌, ◌^◌, ◌<◌, ◌≡◌, refl, arith, inl, inr, ◌∙◌, ap}
use r_bench_an_interference.Base.{false, none}
use r_bench_an_interference.Base.Int.{pos}
use r_bench_an_interference.Control.{Floating, Pace}
use r_bench_an_interference.Stress.{
  Readings, Stressor, Regulation, run_rounds, is_over, regulate, stress,
}
use r_bench_an_interference.Stress.Laws.{run_rounds_sumup, regulate_pace, regulate_sumup}

module _ {D : Type 0} (f : Floating D) where
  idle_turn :
      (g : Regulation D) (limit : ℕ) (t_start : D) (r : Readings D) (s : Stressor D)
      → s.pace.module_runround ≡ 0
      → ((a b : D) → (g.repace a b).module_runround ≡ 0)
      → s.knl_round_sumup < limit
      → limit < 2 ^ 63
      → (is_over f (pos limit) 0 t_start r (run_rounds f r s) ≡ false)
        × ((regulate f g (run_rounds f r s)).pace.module_runround ≡ 0)
        × ((regulate f g (run_rounds f r s)).knl_round_sumup < limit)
  unfolding is_over
  idle_turn g limit t_start r s p ps below small =
      let s' = run_rounds f r s in
      let sum : s'.knl_round_sumup ≡ s.knl_round_sumup =
        omega (arith, p, run_rounds_sumup f r s (omega (arith, p)) (omega (arith, p))) in
      (
        ground (arith, sum),
        elim (regulate_pace f g s') [
          | inl same ↦ ap (λ (q : Pace). q.module_runround) same ∙ (unfold run_rounds in p)
          | inr (a, b, e) ↦ ap (λ (q : Pace). q.module_runround) e ∙ ps a b
        ],
        omega (arith, sum, regulate_sumup f g s'),
      )

  -- Where every pace has no rounds, there is no limit of time, and the limit of rounds is not met
  -- at once, the loop does not end: no fuel is enough.
  pub stress_idle :
      (g : Regulation D) (limit : ℕ) (t_start : D) (readings : ℕ → Readings D) (fuel k : ℕ)
      (s : Stressor D)
      → s.pace.module_runround ≡ 0
      → ((a b : D) → (g.repace a b).module_runround ≡ 0)
      → s.knl_round_sumup < limit
      → limit < 2 ^ 63
      → stress f g (pos limit) 0 t_start readings fuel k s ≡ none
  unfolding stress
  stress_idle g limit t_start readings zero k s p ps below small = refl
  stress_idle g limit t_start readings (suc fuel) k s p ps below small =
      let (goes_on, p', below') = idle_turn g limit t_start (readings k) s p ps below small in
      rw (stress, goes_on)
        (stress_idle g limit t_start readings fuel (k + 1)
          (regulate f g (run_rounds f (readings k) s)) p' ps below' small)
