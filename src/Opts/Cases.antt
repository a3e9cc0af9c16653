-- ===== src/Opts/Cases.antt =====
-- rbench.cpp: each case of the `switch` returns and keeps the invariant.
use r_bench_an_interference.Base.{ℕ, ◌^◌, ◌≤◌, ◌<◌, ◌≡◌, refl, arith}
use r_bench_an_interference.Base.{Option, none, some, List, [], ◌∷◌, Bool, true, false, ◌||◌, ◌&&◌}
use r_bench_an_interference.Base.Int.{pos}
use r_bench_an_interference.Base.Cstring.{Cstring}
use r_bench_an_interference.Cpuinfo.{CpuInfo}
use r_bench_an_interference.Flags.{ArgFlag, is_limited, set_arg_flag}
use r_bench_an_interference.Flags.Laws.{flags-lt}
use r_bench_an_interference.Opts.{BenchFunc, find_func}
use r_bench_an_interference.Opts.State.{has_target, ParseState, pr_error, unknown_argument}
use r_bench_an_interference.Opts.Handlers.{opt_limited}
use r_bench_an_interference.Opts.Parse.{
  ArgvOpt, limited, mem_bandwidth, ninstance, run, strength, time, addr, addr_to, cache_size, check,
  debug, disk_file_size, no_warning, page_tot, pack_per_sec, pack_size, parallel, period,
  set_global, handle, switch, Event,
}
use r_bench_an_interference.Opts.Valid
use r_bench_an_interference.Opts.Valid.{IsValidArgs, IsUpdate}
use r_bench_an_interference.Opts.Invariant.{
  IsValidState, Named, IsUpdate-IsValidState, limited_default-total,
}
use r_bench_an_interference.Opts.Tasks.{Returns, HasSizes, opt_run-Returns}
use r_bench_an_interference.Opts.Check.{opt_check-Returns}

-- The cases that do not read `optarg`.
abbrev takes_none : ArgvOpt → Bool
takes_none check = true
takes_none debug = true
takes_none no_warning = true
takes_none parallel = true
takes_none _ = false

abbrev is_limit : ArgvOpt → Bool
is_limit limited = true
is_limit _ = false

-- Whether `optarg` is there where the case reads it; `-l` alone needs a task to read a default for,
-- and `started` says that there is one.
abbrev pub IsRead : Option ArgvOpt → Option Cstring → Bool → Type 0
IsRead none arg started = Unit
IsRead (some o) none started = (takes_none o || (is_limit o && started)) ≡ true
IsRead (some o) (some t) started = Unit

-- Whether an option makes a task.
abbrev pub opens : Option ArgvOpt → Option Cstring → Bool
opens (some run) (some t) = has_target (find_func t)
opens _ _ = false

-- The events that `parse_opts` can read: every argument is there, and no `-l` without a number
-- comes before the first task.
abbrev pub IsAccepted : Bool → List Event → Type 0
IsAccepted started [] = Unit
IsAccepted started (e ∷ rest) =
    IsRead (switch e.c) e.optarg started × IsAccepted (started || opens (switch e.c) e.optarg) rest

-- A test of `pargs` in place of what the options say of it.
pub IsRead-started :
    (o : Option ArgvOpt) (arg : Option Cstring) (started b : Bool)
    → (started ≡ true → b ≡ true)
    → IsRead o arg started
    → IsRead o arg b
IsRead-started none arg started b st r = tt
IsRead-started (some o) (some t) started b st r = tt
IsRead-started (some o) none started b st r = each (takes_none o) (is_limit o) started b st r
  where
    each :
        (f l started b : Bool)
        → (started ≡ true → b ≡ true)
        → (f || (l && started)) ≡ true
        → (f || (l && b)) ≡ true
    each true l started b st r = refl
    each false true true b st r = st r
    each false true false b st r = ground arith
    each false false started b st r = r

pub or-started :
    (started b c : Bool) → (started ≡ true → b ≡ true) → (started || c) ≡ true → (b || c) ≡ true
or-started true b c st t = rw (st refl) refl
or-started false true c st t = refl
or-started false false c st t = t

module _ (online : ℕ) (info : CpuInfo) (sizes : HasSizes info)
    (processors : info.online_count ≡ pos online) (lo : 1 ≤ online) (hi : online < 2 ^ 16) where
  kept : {a b : Option BenchFunc} → a ≡ b → (has_target b || false) ≡ true → has_target a ≡ true
  kept {a} {b} e t = rw e (held (has_target b) t)
    where
      held : (b : Bool) → (b || false) ≡ true → b ≡ true
      held true t = refl
      held false t = t

  updated :
      {s : ParseState} (s' : ParseState)
      → IsValidState online s
      → IsUpdate online s s'
      → Returns online (has_target s.target || false) (some s')
  updated s' v u = record {
    state = s';
    returns = refl;
    valid = IsUpdate-IsValidState online u v;
    opened = kept u.same_target;
  }

  flagged :
      (s : ParseState) (f : ArgFlag)
      → IsValidState online s
      → Returns online (has_target s.target || false) (some (set_global f s))
  flagged s f v = record {
    state = set_global f s;
    returns = refl;
    valid = record {
      earlier_valid = v.earlier_valid;
      current_valid = v.current_valid;
      named = v.named;
      flag_hi = (flags-lt s.global_flag f v.flag_hi).0;
    };
    opened = kept refl;
  }

  opt_limited-Returns :
      (arg : Option Cstring) (s : ParseState)
      → IsRead (some limited) arg (has_target s.target)
      → IsValidState online s
      → Returns online (has_target s.target || false) (opt_limited arg s)
  unfolding opt_limited
  opt_limited-Returns (some t) s r v = record {
    state = _;
    returns = refl;
    valid = record {
      earlier_valid = v.earlier_valid;
      current_valid = ground (arith, v.current_valid, flags-lt s.current.flags is_limited);
      named = v.named;
      flag_hi = v.flag_hi;
    };
    opened = kept refl;
  }
  opt_limited-Returns none s r v = each s.target r v.named
    where
      each :
          (t : Option BenchFunc)
          → IsRead (some limited) none (has_target t)
          → Named t s.current.bench_name
          → Returns online (has_target s.target || false) (opt_limited none s)
      each none r n = ground arith
      each (some f) r n =
          let (k, found) = limited_default-total s.current.bench_name f n in
          record {
            state = record s {
              current = record (s.current) {
                flags = set_arg_flag s.current.flags is_limited;
                limit_round = k;
              };
            };
            returns = rw found refl;
            valid = record {
              earlier_valid = v.earlier_valid;
              current_valid = ground (arith, v.current_valid, flags-lt s.current.flags is_limited);
              named = v.named;
              flag_hi = v.flag_hi;
            };
            opened = kept refl;
          }

  pub handle-Returns :
      (o : Option ArgvOpt) (arg : Option Cstring) (s : ParseState)
      → IsRead o arg (has_target s.target)
      → IsValidState online s
      → Returns online (has_target s.target || opens o arg) (handle info o arg s)
  unfolding handle
  handle-Returns none arg s r v = record {
    state = pr_error unknown_argument s;
    returns = refl;
    valid =
        unfold pr_error in
        record {
          earlier_valid = v.earlier_valid;
          current_valid = v.current_valid;
          named = v.named;
          flag_hi = v.flag_hi;
        };
    opened = unfold pr_error in kept refl;
  }
  handle-Returns (some limited) arg s r v = opt_limited-Returns arg s r v
  handle-Returns (some check) arg s r v =
      let r = opt_check-Returns online info s sizes lo v in
      record {
        state = r.state;
        returns = r.returns;
        valid = r.valid;
        opened = λ t. r.opened (kept refl t);
      }
  handle-Returns (some debug) arg s r v = flagged s _ v
  handle-Returns (some no_warning) arg s r v = flagged s _ v
  handle-Returns (some parallel) arg s r v = flagged s _ v
  handle-Returns (some run) (some t) s r v = opt_run-Returns online info sizes t s lo v
  handle-Returns (some mem_bandwidth) (some t) s r v =
      updated _ v (Valid.opt_mem_bandwidth-IsUpdate online s v.current_valid t)
  handle-Returns (some ninstance) (some t) s r v =
      updated _ v (Valid.opt_ninstance-IsUpdate online s v.current_valid info t processors lo hi)
  handle-Returns (some strength) (some t) s r v =
      updated _ v (Valid.opt_strength-IsUpdate online s v.current_valid t)
  handle-Returns (some time) (some t) s r v =
      updated _ v (Valid.opt_time-IsUpdate online s v.current_valid t)
  handle-Returns (some addr) (some t) s r v =
      updated _ v (Valid.opt_addr-IsUpdate online s v.current_valid t)
  handle-Returns (some addr_to) (some t) s r v =
      updated _ v (Valid.opt_addr_to-IsUpdate online s v.current_valid t)
  handle-Returns (some cache_size) (some t) s r v =
      updated _ v (Valid.opt_cache_size-IsUpdate online s v.current_valid t)
  handle-Returns (some disk_file_size) (some t) s r v =
      updated _ v (Valid.opt_disk_file_size-IsUpdate online s v.current_valid t)
  handle-Returns (some page_tot) (some t) s r v =
      updated _ v (Valid.opt_page_tot-IsUpdate online s v.current_valid t)
  handle-Returns (some pack_size) (some t) s r v =
      updated _ v (Valid.opt_pack_size-IsUpdate online s v.current_valid t)
  handle-Returns (some pack_per_sec) (some t) s r v =
      updated _ v (Valid.opt_pack_per_sec-IsUpdate online s v.current_valid t)
  handle-Returns (some period) (some t) s r v =
      updated _ v (Valid.opt_period-IsUpdate online s v.current_valid t)
  handle-Returns (some run) none s r v = ground arith
  handle-Returns (some mem_bandwidth) none s r v = ground arith
  handle-Returns (some ninstance) none s r v = ground arith
  handle-Returns (some strength) none s r v = ground arith
  handle-Returns (some time) none s r v = ground arith
  handle-Returns (some addr) none s r v = ground arith
  handle-Returns (some addr_to) none s r v = ground arith
  handle-Returns (some cache_size) none s r v = ground arith
  handle-Returns (some disk_file_size) none s r v = ground arith
  handle-Returns (some page_tot) none s r v = ground arith
  handle-Returns (some pack_size) none s r v = ground arith
  handle-Returns (some pack_per_sec) none s r v = ground arith
  handle-Returns (some period) none s r v = ground arith
