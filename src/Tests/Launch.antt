-- ===== src/Tests/Launch.antt =====
-- rbench.cpp, `main`, and validate/: the theorems on two tasks, and on the numbers of the programs.
use r_bench_an_interference.Base.{
  ◌*◌, ◌≡◌, ◌^◌, arith, leb, if◌then◌else◌, true, some, none, List, [], ◌∷◌, ◌++◌, length,
}
use r_bench_an_interference.Base.Int.{pos, negsuc}
use r_bench_an_interference.Opts.{BenchTask, bench_args, cpu_int_bench_entry, mem_bw_bench_entry}
use r_bench_an_interference.Udp.Entry.{World}
use r_bench_an_interference.Launch.{Machine, run_tasks}
use r_bench_an_interference.Launch.Share.{own, left}
use r_bench_an_interference.Launch.Laws.{run_tasks_lem}
use r_bench_an_interference.Validate.Int.{validate_cpu_int, validate_cpu_int-ok}
use r_bench_an_interference.Validate.Access.{
  InBlock, rand_access_l1, rand_access_l2, rand_access_l3, rand_access_tlb, rand_access-InBlock,
}

abbrev silent : World
silent = record {
  inet = λ i. negsuc 0;
  inet6 = λ i. negsuc 0;
  binds = true;
  answers = λ t i. none;
  seen = λ k i. pos 0;
}

abbrev machine : Machine
machine = record { mapped = true; client = silent; server = silent; listenbuf = []; fuel = 0 }

-- Three threads that are joined at once, and two in parallel.
abbrev two_tasks : List BenchTask
two_tasks =
    record { func = cpu_int_bench_entry; args = record bench_args { threads = 3 } }
    ∷ record { func = mem_bw_bench_entry; args = record bench_args { threads = 2; flags = 8 } }
    ∷ []

run_tasks_lem_example : run_tasks machine two_tasks ≡ (
    if leb (length (left machine two_tasks)) 1000
    then some (own machine two_tasks ++ left machine two_tasks)
    else none)
run_tasks_lem_example = run_tasks_lem machine two_tasks (tt, (tt, tt))

validate_cpu_int-ok_example :
    validate_cpu_int (2 ^ 33)
    ≡ some true
      ∷ some true
      ∷ some true
      ∷ some true
      ∷ some true
      ∷ some true
      ∷ some true
      ∷ some true
      ∷ []
validate_cpu_int-ok_example = validate_cpu_int-ok (2 ^ 33) (omega arith)

rand_access-InBlock_example :
    InBlock 32768 2000000020 4096 (rand_access_l1 (2 ^ 30))
    × InBlock 1048576 2000000020 4096 (rand_access_l2 (2 ^ 30))
    × InBlock 14417920 2000000020 4096 (rand_access_l3 (2 ^ 30))
    × InBlock (4 * 2 ^ 30) 200000020 4096 (rand_access_tlb (2 ^ 30))
rand_access-InBlock_example = rand_access-InBlock 4096 (2 ^ 30) (omega arith)
