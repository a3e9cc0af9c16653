-- ===== src/Opts/Invariant.antt =====
-- rbench.cpp: the invariant of `parse_opts` over its tasks.
use r_bench_an_interference.Base.{
  ℕ, ◌^◌, ◌≤◌, ◌<◌, ◌≡◌, ◌≢◌, arith, Bool-cases, Option-cases, inl, inr,
}
use r_bench_an_interference.Base.{Option, none, some, All, All-append}
use r_bench_an_interference.Base.Int.{ℤ}
use r_bench_an_interference.Base.Cstring.{Cstring}
use r_bench_an_interference.Flags.{no_warn, get_arg_flag}
use r_bench_an_interference.Opts.{BenchArgs, BenchFunc, BenchTask, find_func, find_limited_default}
use r_bench_an_interference.Opts.State.{
  ParseState, bench_tasks, tasks_of, emplace_task, pr_warning, start, Message,
}
use r_bench_an_interference.Opts.Valid.{IsValidArgs, IsUpdate}

-- A task runs the function that its name has in the table.
pub record IsTask (online : ℕ) (t : BenchTask) : Type 0 where
  pub valid : IsValidArgs online t.args
  pub named : find_func t.args.bench_name ≡ some t.func

abbrev pub Named : Option BenchFunc → Cstring → Type 0
Named none name = Unit
Named (some f) name = find_func name ≡ some f

pub record IsValidState (online : ℕ) (s : ParseState) : Type 0 where
  pub earlier_valid : All (IsTask online) s.earlier
  pub current_valid : IsValidArgs online s.current
  pub named : Named s.target s.current.bench_name
  pub flag_hi : s.global_flag < 2 ^ 32

module _ (online : ℕ) where
  pub start-IsValidState : 1 ≤ online → IsValidState online start
  start-IsValidState h = record {
    earlier_valid = tt;
    current_valid = omega arith;
    named = tt;
    flag_hi = omega arith;
  }

  pub IsUpdate-IsValidState :
      {s s' : ParseState} → IsUpdate online s s' → IsValidState online s → IsValidState online s'
  IsUpdate-IsValidState {s} {s'} u v = record {
    earlier_valid = rw u.same_earlier v.earlier_valid;
    current_valid = u.valid;
    named = rw (u.same_target, u.same_name) v.named;
    flag_hi = rw u.same_flag v.flag_hi;
  }

  pub bench_tasks-IsTask :
      (s : ParseState) → IsValidState online s → All (IsTask online) (bench_tasks s)
  bench_tasks-IsTask s v = each s.target v.named
    where
      each :
          (t : Option BenchFunc)
          → Named t s.current.bench_name
          → All (IsTask online) (tasks_of s.earlier t s.current)
      each none n = v.earlier_valid
      each (some f) n =
          All-append (IsTask online) s.earlier _ v.earlier_valid
            (record { valid = v.current_valid; named = n }, tt)

  pub emplace_task-IsValidState :
      (f : BenchFunc) (a : BenchArgs) (s : ParseState)
      → IsValidState online s
      → IsValidArgs online a
      → find_func a.bench_name ≡ some f
      → IsValidState online (emplace_task f a s)
  unfolding emplace_task
  emplace_task-IsValidState f a s v va n = record {
    earlier_valid = bench_tasks-IsTask s v;
    current_valid = va;
    named = n;
    flag_hi = v.flag_hi;
  }

  pub pr_warning-IsValidState :
      (m : Message) (s : ParseState) → IsValidState online s → IsValidState online (pr_warning m s)
  unfolding pr_warning
  pr_warning-IsValidState m s v = elim (Bool-cases (get_arg_flag s.global_flag no_warn)) [
    | inl e ↦ rw e v
    | inr e ↦ rw e (record {
      earlier_valid = v.earlier_valid;
      current_valid = v.current_valid;
      named = v.named;
      flag_hi = v.flag_hi;
    })
  ]

-- Every name of the table of functions has a default number of rounds.
limited_default-ne-none :
    (name : Cstring) (f : BenchFunc) → find_func name ≡ some f → find_limited_default name ≢ none
unfolding find_func find_limited_default
limited_default-ne-none name f h = ground arith

pub limited_default-total :
    (name : Cstring) (f : BenchFunc)
    → find_func name ≡ some f
    → (n : ℤ) × (find_limited_default name ≡ some n)
limited_default-total name f h = elim (Option-cases (find_limited_default name)) [
  | inl e ↦ absurd (limited_default-ne-none name f h e)
  | inr found ↦ found
]
