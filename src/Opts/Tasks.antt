-- ===== src/Opts/Tasks.antt =====
-- rbench.cpp: `OPT_run` makes tasks that meet the invariant, and never faults.
use r_bench_an_interference.Base.{ℕ, ◌*◌, ◌^◌, ◌≤◌, ◌≡◌, refl, arith}
use r_bench_an_interference.Base.{Option, none, some, Bool, true, false, ◌||◌, if◌then◌else◌}
use r_bench_an_interference.Base.Cstring.{Cstring, codes, strncase_eq}
use r_bench_an_interference.Cpuinfo.{CpuInfo, get_data_cache_size_level}
use r_bench_an_interference.Opts.{
  BenchArgs, BenchFunc, bench_args, set_payload, set_network_pps, set_network_psize, find_func,
}
use r_bench_an_interference.Opts.State.{
  ParseState, has_target, emplace_task, pr_warning, no_such_benchmark,
}
use r_bench_an_interference.Opts.Run.{
  set_cache_level, run_chain, run_defaults, run_found, opt_run, default_tlb_page_tot,
}
use r_bench_an_interference.Opts.Valid.{IsValidArgs}
use r_bench_an_interference.Opts.Invariant.{
  IsValidState, emplace_task-IsValidState, pr_warning-IsValidState,
}

-- A step returns, and the state that it returns is valid; if `opens`, then `pargs` points to a
-- task there.
pub record Returns (online : ℕ) (opens : Bool) (run : Option ParseState) : Type 0 where
  pub state : ParseState
  pub returns : run ≡ some state
  pub valid : IsValidState online state
  pub opened : opens ≡ true → has_target state.target ≡ true

-- Settings return, keep the ranges and leave the name alone.
pub record Settles (online : ℕ) (name : Cstring) (run : Option BenchArgs) : Type 0 where
  pub args : BenchArgs
  pub returns : run ≡ some args
  pub valid : IsValidArgs online args
  pub same_name : args.bench_name ≡ name

-- Every search for a cache size returns.
abbrev pub HasSizes : CpuInfo → Type 0
HasSizes info = (lev : ℕ) → (v : ℕ) × (get_data_cache_size_level info lev ≡ some v)

module _ (online : ℕ) (info : CpuInfo) (sizes : HasSizes info) where
  pub set_cache_level-Settles :
      (lev : ℕ) (a : BenchArgs)
      → IsValidArgs online a
      → Settles online a.bench_name (set_cache_level info lev a)
  unfolding set_cache_level
  set_cache_level-Settles lev a v =
      let (size, e) = sizes lev in
      record { args = set_payload size a; returns = rw e; valid = ground arith; same_name = refl }

  pub named_args-IsValidArgs :
      (name : Cstring) → 1 ≤ online → IsValidArgs online (record bench_args { bench_name = name })
  named_args-IsValidArgs name h = omega arith

  if-Settles :
      (b : Bool) (name : Cstring) {x y : Option BenchArgs}
      → Settles online name x
      → Settles online name y
      → Settles online name (if b then x else y)
  if-Settles true name p q = p
  if-Settles false name p q = q

  pub settled :
      (a a' : BenchArgs)
      → IsValidArgs online a'
      → a'.bench_name ≡ a.bench_name
      → Settles online a.bench_name (some a')
  settled a a' v n = record { args = a'; returns = refl; valid = v; same_name = n }

  run_chain-Settles :
      (name : Cstring) (a : BenchArgs)
      → IsValidArgs online a
      → Settles online a.bench_name (run_chain info name a)
  unfolding run_chain
  run_chain-Settles name a v =
      let disk = set_payload (1 * 2 ^ 30) a in
      let udp = set_network_psize 64 (set_network_pps 0 a) in
      if-Settles (strncase_eq name (codes "disk-write") 10) _ (settled a disk (omega arith) refl) (
        if-Settles (strncase_eq name (codes "cacheL1") 7) _ (set_cache_level-Settles 1 a v) (
          if-Settles (strncase_eq name (codes "cacheL2") 7) _ (set_cache_level-Settles 2 a v) (
            if-Settles (strncase_eq name (codes "cacheL3") 7) _ (set_cache_level-Settles 3 a v) (
              if-Settles (strncase_eq name (codes "udp-server") 10) _
                (settled a udp (omega arith) refl)
                (if-Settles (strncase_eq name (codes "udp-client") 10) _
                  (settled a udp (omega arith) refl) (settled a a v refl))))))

  run_defaults-Settles :
      (name : Cstring) (a : BenchArgs)
      → IsValidArgs online a
      → Settles online a.bench_name (run_defaults info name a)
  unfolding run_defaults
  run_defaults-Settles name a v = first (strncase_eq name (codes "tlb") 3)
    where
      first :
          (b : Bool)
          → Settles online a.bench_name
              (run_chain info name (if b then set_payload default_tlb_page_tot a else a))
      first true = run_chain-Settles name (set_payload default_tlb_page_tot a) (omega arith)
      first false = run_chain-Settles name a v

  pub opt_run-Returns :
      (name : Cstring) (s : ParseState)
      → 1 ≤ online
      → IsValidState online s
      → Returns online (has_target s.target || has_target (find_func name)) (opt_run info name s)
  unfolding opt_run
  opt_run-Returns name s h v = each (find_func name) refl
    where
      warned :
          (has_target s.target || false) ≡ true
          → has_target (pr_warning (no_such_benchmark name) s).target ≡ true
      warned t = unfold pr_warning in ground arith

      each :
          (o : Option BenchFunc)
          → find_func name ≡ o
          → Returns online (has_target s.target || has_target o) (run_found info name s o)
      each none e = record {
        state = pr_warning (no_such_benchmark name) s;
        returns = refl;
        valid = pr_warning-IsValidState online (no_such_benchmark name) s v;
        opened = warned;
      }
      each (some f) e =
          let r =
            run_defaults-Settles name (record bench_args { bench_name = name })
              (named_args-IsValidArgs name h) in
          record {
            state = emplace_task f r.args s;
            returns = rw r.returns;
            valid = emplace_task-IsValidState online f r.args s v r.valid (rw r.same_name e);
            opened = λ _. unfold emplace_task in refl;
          }
