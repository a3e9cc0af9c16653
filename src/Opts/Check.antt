-- ===== src/Opts/Check.antt =====
-- rbench.cpp: `OPT_check` makes tasks that meet the invariant, and never faults.
use r_bench_an_interference.Base.{ℕ, ◌≤◌, ◌≡◌, refl, arith}
use r_bench_an_interference.Base.{Option, none, some, List, [], ◌∷◌, All}
use r_bench_an_interference.Base.Cstring.{Cstring, str_eq}
use r_bench_an_interference.Cpuinfo.{CpuInfo}
use r_bench_an_interference.Flags.{is_check, is_limited, set_arg_flag}
use r_bench_an_interference.Flags.Laws.{flags-lt}
use r_bench_an_interference.Opts.{
  BenchArgs, BenchFunc, BenchTask, bench_args, set_payload, find_func,
}
use r_bench_an_interference.Opts.State.{ParseState, has_target, emplace_task}
use r_bench_an_interference.Opts.Run.{
  check_tasks, emplace_all, default_limits, limit_with, limit_all, opt_check, default_tlb_page_tot,
}
use r_bench_an_interference.Opts.Valid.{IsValidArgs}
use r_bench_an_interference.Opts.Invariant.{
  IsTask, IsValidState, emplace_task-IsValidState, limited_default-total, Named,
}
use r_bench_an_interference.Opts.Tasks.{
  Returns, Settles, HasSizes, set_cache_level-Settles, named_args-IsValidArgs, settled,
}

module _ (online : ℕ) (info : CpuInfo) (sizes : HasSizes info) where
  -- A task of the preset check whose name is in the table and whose settings return.
  record IsPreset (p : Cstring × (BenchArgs → Option BenchArgs)) : Type 0 where
    func : BenchFunc
    found : find_func p.0 ≡ some func
    settles : (a : BenchArgs) → IsValidArgs online a → Settles online a.bench_name (p.1 a)

  emplace_all-Returns :
      (ps : List (Cstring × (BenchArgs → Option BenchArgs))) (s : ParseState)
      → 1 ≤ online
      → All IsPreset ps
      → IsValidState online s
      → Returns online (has_target s.target) (emplace_all ps s)
  unfolding emplace_all
  emplace_all-Returns [] s h ok v = record { state = s; returns = refl; valid = v; opened = λ t. t }
  emplace_all-Returns ((name, settings) ∷ rest) s h ok v =
      let preset = ok.0 in
      let r =
        preset.settles (record bench_args { bench_name = name })
          (named_args-IsValidArgs online info sizes name h) in
      let s' = emplace_task preset.func r.args s in
      let v' =
        emplace_task-IsValidState online preset.func r.args s v r.valid
          (rw r.same_name preset.found) in
      let more = emplace_all-Returns rest s' h ok.1 v' in
      record {
        state = more.state;
        returns = rw (preset.found, r.returns) more.returns;
        valid = more.valid;
        opened = λ _. more.opened (unfold emplace_task in refl);
      }

  plain : (a : BenchArgs) → IsValidArgs online a → Settles online a.bench_name (some a)
  plain a v = settled online info sizes a a v refl

  check_tasks-IsPreset : All IsPreset (check_tasks info)
  unfolding check_tasks find_func str_eq
  check_tasks-IsPreset = (
    record { func = _; found = refl; settles = plain },
    (
      record { func = _; found = refl; settles = plain },
      (
        record { func = _; found = refl; settles = plain },
        (
          record { func = _; found = refl; settles = plain },
          (
            record {
              func = _;
              found = refl;
              settles = set_cache_level-Settles online info sizes 1;
            },
            (
              record {
                func = _;
                found = refl;
                settles = set_cache_level-Settles online info sizes 1;
              },
              (
                record {
                  func = _;
                  found = refl;
                  settles = set_cache_level-Settles online info sizes 2;
                },
                (
                  record {
                    func = _;
                    found = refl;
                    settles = set_cache_level-Settles online info sizes 3;
                  },
                  (
                    record {
                      func = _;
                      found = refl;
                      settles = λ a v.
                          settled online info sizes a (set_payload default_tlb_page_tot a)
                            (omega arith) refl;
                    },
                    (record { func = _; found = refl; settles = plain }, tt),
                  ),
                ),
              ),
            ),
          ),
        ),
      ),
    ),
  )

-- The defaults of `bench_funcs_limited_default` are found for every task that has a function.
default_limits-IsTask :
    (online : ℕ) (ts : List BenchTask)
    → All (IsTask online) ts
    → (rs : List BenchTask) × (default_limits ts ≡ some rs) × All (IsTask online) rs
unfolding default_limits
default_limits-IsTask online [] h = ([], refl, tt)
default_limits-IsTask online (t ∷ ts) h =
    let (n, found) = limited_default-total t.args.bench_name t.func (h.0).named in
    let (rs, more, valid) = default_limits-IsTask online ts h.1 in
    (
      record t { args = record (t.args) { limit_round = n } } ∷ rs,
      rw (found, more),
      (record { valid = ground (arith, (h.0).valid); named = (h.0).named }, valid),
    )

limit_all-Returns :
    (online : ℕ) (s : ParseState)
    → IsValidState online s
    → Returns online (has_target s.target) (limit_all s)
unfolding limit_all
limit_all-Returns online s v = each s.target v.named
  where
    each :
        (t : Option BenchFunc)
        → Named t s.current.bench_name
        → Returns online (has_target s.target) (limit_with t s)
    each none e = record { state = s; returns = refl; valid = v; opened = λ t. t }
    each (some f) e =
        let (n, found) = limited_default-total s.current.bench_name f e in
        let (rs, more, valid) = default_limits-IsTask online s.earlier v.earlier_valid in
        let a : BenchArgs = record (s.current) { limit_round = n } in
        record {
          state = record s { earlier = rs; current = a };
          returns = rw (more, found);
          valid = record {
            earlier_valid = valid;
            current_valid = ground (arith, v.current_valid);
            named = v.named;
            flag_hi = v.flag_hi;
          };
          opened = λ t. t;
        }

-- The preset check makes its ten tasks and gives every task its default number of rounds.
pub opt_check-Returns :
    (online : ℕ) (info : CpuInfo) (s : ParseState)
    → HasSizes info
    → 1 ≤ online
    → IsValidState online s
    → Returns online (has_target s.target) (opt_check info s)
unfolding opt_check
opt_check-Returns online info s sizes h v =
    let flagged : ParseState = record s {
      global_flag = set_arg_flag (set_arg_flag s.global_flag is_check) is_limited;
    } in
    let r =
      emplace_all-Returns online info sizes (check_tasks info) flagged h
        (check_tasks-IsPreset online info sizes)
        (record {
          earlier_valid = v.earlier_valid;
          current_valid = v.current_valid;
          named = v.named;
          flag_hi = (flags-lt _ is_limited (flags-lt s.global_flag is_check v.flag_hi).0).0;
        }) in
    let l = limit_all-Returns online r.state r.valid in
    record {
      state = l.state;
      returns = rw r.returns l.returns;
      valid = l.valid;
      opened = λ t. l.opened (r.opened t);
    }
