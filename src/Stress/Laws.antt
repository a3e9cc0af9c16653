-- ===== src/Stress/Laws.antt =====
-- The loop of the stressors: it stops, and it counts within its words.
use r_bench_an_interference.Base.{
  ℕ, zero, suc, ◌+◌, ◌^◌, ◌≤◌, ◌<◌, ◌≡◌, ◌⊎◌, inl, inr, refl, arith, ◌==◌,
}
use r_bench_an_interference.Base.{
  Bool, true, false, ltb, not, ◌&&◌, Bool-cases, bit_and, Option, some,
}
use r_bench_an_interference.Base.Int.{pos}
use r_bench_an_interference.Control.{Floating, Pace, of_nat}
use r_bench_an_interference.Stress.{
  Readings, Stressor, Regulation, one_millionth, run_rounds, is_over, warn_low, regulate, stress,
}

-- A number of rounds that a loop over an `int` runs, at least one.
pub record IsPace (p : Pace) : Type 0 where
  pub runs : 1 ≤ p.module_runround
  pub fits : p.module_runround < 2 ^ 31

module _ {D : Type 0} (f : Floating D) where
  -- The test of the time in a turn.
  abbrev pub time_over : ℕ → D → Readings D → Bool
  time_over time_limit t_start r =
      not (time_limit == 0) && f.at_least (f.sub r.sleep_end t_start) (of_nat f time_limit)

  -- The loop ends, by the rounds or by the time, with fewer than 2^31 rounds beyond the limit.
  pub record Stops (limit time_limit : ℕ) (t_start : D) (readings : ℕ → Readings D)
      (run : Option (Stressor D)) : Type 0 where
    pub state : Stressor D
    pub turn : ℕ
    pub returns : run ≡ some state
    pub below : state.knl_round_sumup < limit + 2 ^ 31
    pub warnings : state.low_actl_warning ≤ 8
    pub over :
        (limit ≤ state.knl_round_sumup) ⊎ (time_over time_limit t_start (readings turn) ≡ true)

  pub run_rounds_sumup :
      (r : Readings D) (s : Stressor D)
      → s.pace.module_runround < 2 ^ 31
      → s.knl_round_sumup + s.pace.module_runround < 2 ^ 63
      → (run_rounds f r s).knl_round_sumup ≡ s.knl_round_sumup + s.pace.module_runround
  unfolding run_rounds
  run_rounds_sumup r s fits small = ground arith

  warn_low_pace :
      (g : Regulation D) (actual : D) (s : Stressor D) → (warn_low f g actual s).pace ≡ s.pace
  unfolding warn_low
  warn_low_pace g actual s = elim (Bool-cases (g.low actual)) [
    | inr e ↦ rw e refl
    | inl e ↦ elim (Bool-cases (ltb 8 (s.low_actl_warning + 1))) [
      | inl e' ↦ rw (e, e') refl
      | inr e' ↦ rw (e, e') refl
    ]
  ]

  -- The pace after the regulation is the pace before it, or a new one.
  pub regulate_pace :
      (g : Regulation D) (s : Stressor D)
      → ((regulate f g s).pace ≡ s.pace)
        ⊎ ((a : D) × (b : D) × ((regulate f g s).pace ≡ g.repace a b))
  unfolding regulate
  regulate_pace g s = elim (Bool-cases (bit_and s.round_cnt 7 == 0)) [
    | inr e ↦ inl (rw e refl)
    | inl e ↦ elim (Bool-cases (g.off_target (g.actual s))) [
      | inl off ↦ inr (
        f.div (f.mul s.sum_runtimeus (one_millionth f)) s.sum_krounds,
        f.div (f.mul s.sum_runidleus (one_millionth f)) s.sum_krounds,
        rw (e, off) (warn_low_pace g (g.actual s) _),
      )
      | inr on ↦ inl (rw (e, on) (warn_low_pace g (g.actual s) _))
    ]
  ]

  pub regulate_sumup :
      (g : Regulation D) (s : Stressor D) → (regulate f g s).knl_round_sumup ≡ s.knl_round_sumup
  unfolding regulate warn_low
  regulate_sumup g s = ground arith

  -- What the regulation leaves alone, and the range that it keeps.
  pub regulate_keeps :
      (g : Regulation D) (s : Stressor D)
      → IsPace s.pace
      → ((a b : D) → IsPace (g.repace a b))
      → s.low_actl_warning ≤ 8
      → ((regulate f g s).knl_round_sumup ≡ s.knl_round_sumup)
        × IsPace (regulate f g s).pace
        × ((regulate f g s).low_actl_warning ≤ 8)
  unfolding regulate warn_low
  regulate_keeps g s p ps w = ground (
    arith,
    ps (f.div (f.mul s.sum_runtimeus (one_millionth f)) s.sum_krounds)
        (f.div (f.mul s.sum_runidleus (one_millionth f)) s.sum_krounds),
  )

  pub is_over_cases :
      (limit time_limit : ℕ) (t_start : D) (r : Readings D) (s : Stressor D)
      → s.knl_round_sumup < 2 ^ 63
      → is_over f (pos limit) time_limit t_start r s ≡ true
      → (limit ≤ s.knl_round_sumup) ⊎ (time_over time_limit t_start r ≡ true)
  unfolding is_over
  is_over_cases limit time_limit t_start r s small h = ground arith

  pub not_over :
      (limit time_limit : ℕ) (t_start : D) (r : Readings D) (s : Stressor D)
      → s.knl_round_sumup < 2 ^ 63
      → is_over f (pos limit) time_limit t_start r s ≡ false
      → s.knl_round_sumup < limit
  unfolding is_over
  not_over limit time_limit t_start r s small h = ground arith

  -- Where every pace runs at least one round, a limit of rounds is reached: with as much fuel as
  -- rounds are left, the loop ends, with fewer than 2^31 rounds beyond the limit and at most eight
  -- low loads counted, and it ends because the limit is reached or the time is over. The limit is
  -- at most 2^63 - 2^31, and paces are below 2^31.
  pub stress-Stops :
      (g : Regulation D) (limit time_limit : ℕ) (t_start : D) (readings : ℕ → Readings D)
      (fuel k : ℕ) (s : Stressor D)
      → IsPace s.pace
      → ((a b : D) → IsPace (g.repace a b))
      → limit + 2 ^ 31 ≤ 2 ^ 63
      → s.low_actl_warning ≤ 8
      → s.knl_round_sumup < limit
      → limit ≤ s.knl_round_sumup + fuel
      → Stops limit time_limit t_start readings
          (stress f g (pos limit) time_limit t_start readings fuel k s)
  unfolding stress
  stress-Stops g limit time_limit t_start readings zero k s p ps room w below enough =
      absurd (omega arith)
  stress-Stops g limit time_limit t_start readings (suc fuel) k s p ps room w below enough =
      let s' = run_rounds f (readings k) s in
      let sum = run_rounds_sumup (readings k) s p.fits (omega arith) in
      let small : s'.knl_round_sumup < 2 ^ 63 = omega (arith, sum) in
      elim (Bool-cases (is_over f (pos limit) time_limit t_start (readings k) s')) [
        | inl e ↦ record {
          state = s';
          turn = k;
          returns = rw (stress, e) refl;
          below = omega (arith, sum);
          warnings = unfold run_rounds in w;
          over = is_over_cases limit time_limit t_start (readings k) s' small e;
        }
        | inr e ↦
            let (same, p', w') =
              regulate_keeps g s' (unfold run_rounds in p) ps (unfold run_rounds in w) in
            let lt = not_over limit time_limit t_start (readings k) s' small e in
            let rest =
              stress-Stops g limit time_limit t_start readings fuel (k + 1) (regulate f g s') p' ps
                room w' (omega (arith, same, lt)) (omega (arith, same, sum)) in
            record {
              state = rest.state;
              turn = rest.turn;
              returns = rw (stress, e) rest.returns;
              below = rest.below;
              warnings = rest.warnings;
              over = rest.over;
            }
      ]
