-- ===== src/Stress/Full.antt =====
-- The loop of the stressors at strength 100.
use r_bench_an_interference.Base.{
  ℕ, zero, suc, ◌+◌, ◌*◌, ◌/◌, ◌^◌, ◌≤◌, ◌<◌, ◌≡◌, refl, arith, inl, inr, ◌∙◌, ap,
}
use r_bench_an_interference.Base.{true, false, leb, leb→le, Bool-cases, some}
use r_bench_an_interference.Base.Int.{pos}
use r_bench_an_interference.Flags.{is_limited, get_arg_flag}
use r_bench_an_interference.Opts.{BenchArgs}
use r_bench_an_interference.Control.{Floating, Pace, strength_to_time}
use r_bench_an_interference.Stress.{
  Readings, Stressor, fresh, run_rounds, is_over, regulate, stress,
}
use r_bench_an_interference.Stress.Threads.{by_strength, knl_round_limit, strength_bench}
use r_bench_an_interference.Stress.Laws.{run_rounds_sumup, regulate_pace, regulate_sumup}

-- A hundred rounds and no sleep.
abbrev pub full_pace : Pace
full_pace = record { module_runround = 100; module_sleepus = 0 }

module _ {D : Type 0} (f : Floating D) where
  strength_to_time_full :
      (a b : D) (strength period : ℕ)
      → strength ≡ 100
      → strength_to_time f a b strength period ≡ full_pace
  unfolding strength_to_time
  strength_to_time_full a b strength period h = rw h refl

  regulate_full :
      (args : BenchArgs) (s : Stressor D)
      → args.strength ≡ 100
      → s.pace ≡ full_pace
      → (regulate f (by_strength f args) s).pace ≡ full_pace
  unfolding by_strength
  regulate_full args s h p = elim (regulate_pace f (by_strength f args) s) [
    | inl same ↦ same ∙ p
    | inr (a, b, e) ↦ e ∙ strength_to_time_full a b args.strength args.period h
  ]

  not_timed :
      (limit : ℕ) (t_start : D) (r : Readings D) (s : Stressor D)
      → s.knl_round_sumup < 2 ^ 63
      → is_over f (pos limit) 0 t_start r s ≡ leb limit s.knl_round_sumup
  unfolding is_over
  not_timed limit t_start r s small = ground arith

  beyond : (a b : ℕ) → leb a b ≡ false → b < a
  beyond a b h = ground arith

  stress_full :
      (args : BenchArgs) (limit : ℕ) (t_start : D) (readings : ℕ → Readings D) (fuel j k : ℕ)
      (s : Stressor D)
      → args.strength ≡ 100
      → limit + 2 ^ 31 ≤ 2 ^ 63
      → s.pace ≡ full_pace
      → s.knl_round_sumup ≡ 100 * j
      → 100 * j < limit
      → (limit + 99) / 100 ≤ j + fuel
      → (s' : Stressor D) × (stress f (by_strength f args) (pos limit) 0 t_start readings fuel k s
          ≡ some s')
        × (s'.knl_round_sumup ≡ 100 * ((limit + 99) / 100))
        × (s'.pace ≡ full_pace)
  unfolding stress
  stress_full args limit t_start readings zero j k s h room p sum below enough =
      absurd (omega arith)
  stress_full args limit t_start readings (suc fuel) j k s h room p sum below enough =
      let s' = run_rounds f (readings k) s in
      let rounds : s.pace.module_runround ≡ 100 = ap (λ (q : Pace). q.module_runround) p in
      let sum' : s'.knl_round_sumup ≡ 100 * (j + 1) = omega (
        arith,
        rounds,
        run_rounds_sumup f (readings k) s (omega (arith, rounds)) (omega (arith, rounds)),
      ) in
      let p' : s'.pace ≡ full_pace = unfold run_rounds in p in
      let test = not_timed limit t_start (readings k) s' (omega (arith, sum')) in
      elim (Bool-cases (leb limit s'.knl_round_sumup)) [
        | inl e ↦ (s', rw (stress, test, e) refl, omega (arith, sum', leb→le limit _ e), p')
        | inr e ↦
            let (s'', returns, total, pace) =
              stress_full args limit t_start readings fuel (j + 1) (k + 1)
                (regulate f (by_strength f args) s') h room (regulate_full args s' h p')
                (regulate_sumup f (by_strength f args) s' ∙ sum')
                (omega (arith, sum', beyond _ _ e)) (omega arith) in
            (s'', rw (stress, test, e) returns, total, pace)
      ]

  -- At strength 100, with a limit of rounds and no limit of time, a thread ends, whatever the
  -- clocks say: it runs a hundred rounds in every turn, never sleeps, and stops after as many turns
  -- as the limit has hundreds, rounded up. That many turns are enough fuel; the limit is at least 1
  -- and at most 2^63 - 2^31.
  pub strength_bench_full :
      (args : BenchArgs) (limit measure_rounds : ℕ) (first : Readings D) (t_start : D)
      (readings : ℕ → Readings D) (fuel : ℕ)
      → args.strength ≡ 100
      → get_arg_flag args.flags is_limited ≡ true
      → args.limit_round ≡ pos limit
      → args.time ≡ 0
      → 1 ≤ limit
      → limit + 2 ^ 31 ≤ 2 ^ 63
      → (limit + 99) / 100 ≤ fuel
      → (s : Stressor D) × (strength_bench f args measure_rounds first t_start readings fuel
          ≡ some s)
        × (s.knl_round_sumup ≡ 100 * ((limit + 99) / 100))
        × (s.pace ≡ full_pace)
  unfolding strength_bench knl_round_limit
  strength_bench_full args limit measure_rounds first t_start readings fuel h flag lim untimed
        some_limit room enough =
      rw (flag, lim, untimed)
        (stress_full args limit t_start readings fuel 0 0 (fresh f _) h room
          (strength_to_time_full _ _ args.strength args.period h) (omega arith) (omega arith)
          (omega arith))
