-- ===== src/Opts/Total.antt =====
-- rbench.cpp: `parse_opts` returns valid tasks on every command line but one kind.
use r_bench_an_interference.Base.{ℕ, ◌^◌, ◌≤◌, ◌<◌, ◌≡◌, refl, arith, ◌==◌}
use r_bench_an_interference.Base.{
  some, List, [], ◌∷◌, All, Bool, true, false, ◌||◌, map, Bool-cases, inl, inr,
}
use r_bench_an_interference.Base.Bits.{bit_or-lt}
use r_bench_an_interference.Base.Int.{pos}
use r_bench_an_interference.Cpuinfo.{CpuInfo}
use r_bench_an_interference.Flags.{is_check, get_arg_flag}
use r_bench_an_interference.Opts.{BenchTask}
use r_bench_an_interference.Opts.State.{has_target, ParseState, bench_tasks, start}
use r_bench_an_interference.Opts.Parse.{
  switch, Event, parse_loop, Parsed, add_flags, finish, parse_opts,
}
use r_bench_an_interference.Opts.Invariant.{
  IsTask, IsValidState, bench_tasks-IsTask, start-IsValidState,
}
use r_bench_an_interference.Opts.Tasks.{HasSizes}
use r_bench_an_interference.Opts.Cases.{
  opens, IsAccepted, IsRead-started, or-started, handle-Returns,
}

module _ (online : ℕ) (info : CpuInfo) (sizes : HasSizes info)
    (processors : info.online_count ≡ pos online) (lo : 1 ≤ online) (hi : online < 2 ^ 16) where
  parse_loop-Returns :
      (started : Bool) (events : List Event) (s : ParseState)
      → IsAccepted started events
      → (started ≡ true → has_target s.target ≡ true)
      → IsValidState online s
      → (s' : ParseState) × (parse_loop info events s ≡ some s') × IsValidState online s'
  unfolding parse_loop
  parse_loop-Returns started [] s ok st v = (s, refl, v)
  parse_loop-Returns started (e ∷ rest) s ok st v =
      elim (Bool-cases (get_arg_flag s.global_flag is_check)) [
        | inl stop ↦ (s, rw (parse_loop, stop) refl, v)
        | inr go ↦
            let r =
              handle-Returns online info sizes processors lo hi (switch e.c) e.optarg s
                (IsRead-started (switch e.c) e.optarg started _ st ok.0) v in
            let (s', more, v') =
              parse_loop-Returns (started || opens (switch e.c) e.optarg) rest r.state ok.1
                (λ t. r.opened (or-started started _ _ st t)) r.valid in
            (s', rw (parse_loop, go, r.returns) more, v')
      ]

  flagged_tasks :
      (flags : ℕ) (ts : List BenchTask)
      → flags < 2 ^ 32
      → All (IsTask online) ts
      → All (IsTask online) (map (add_flags flags) ts)
  flagged_tasks flags [] h ok = tt
  flagged_tasks flags (t ∷ ts) h ok = (
    record {
      valid =
          ground (arith, (ok.0).valid, bit_or-lt 32 t.args.flags flags ((ok.0).valid).flags_hi h);
      named = (ok.0).named;
    },
    flagged_tasks flags ts h ok.1,
  )

  -- On a command line that can be read `parse_opts` returns, and each task that it leaves runs the
  -- function of its name, with its arguments in their ranges. The machine has from 1 to 2^16 - 1
  -- processors, and every search for a cache size returns.
  pub parse_opts-IsTask :
      (argc : ℕ) (events : List Event)
      → IsAccepted false events
      → (r : Parsed) × (parse_opts info argc events ≡ some r) × All (IsTask online) r.tasks
  unfolding parse_opts finish
  parse_opts-IsTask argc events ok = elim (Bool-cases (argc == 1)) [
    | inl e ↦ (
      record { tasks = []; global_flag = 0; log = []; helped = true },
      rw (parse_opts, e) refl,
      tt,
    )
    | inr e ↦
        let (s, ran, v) =
          parse_loop-Returns false events start ok (λ t. t) (start-IsValidState online lo) in
        (
          finish s,
          rw (parse_opts, e, ran) refl,
          flagged_tasks s.global_flag (bench_tasks s) v.flag_hi (bench_tasks-IsTask online s v),
        )
  ]
