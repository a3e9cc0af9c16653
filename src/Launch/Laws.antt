-- ===== src/Launch/Laws.antt =====
-- rbench.cpp, `main`: every thread that a task starts is joined once.
use mathlib.Core.List.{append-nil, append_assoc}
use r_bench_an_interference.Base.{
  ℕ, ◌≤◌, ◌<◌, ◌≡◌, inl, inr, refl, arith, ap, ◌∙◌, ltb, leb, Bool, true, false, Bool-cases, Option,
  none, some, List, [], ◌∷◌, ◌++◌, if◌then◌else◌, length, length-append, All,
}
use r_bench_an_interference.Base.Int.{ℤ, pos, negsuc}
use r_bench_an_interference.Flags.{is_run_parallel, get_arg_flag}
use r_bench_an_interference.Opts.{
  BenchArgs, BenchFunc, BenchTask, cache_bench_entry, cpu_int_bench_entry, cpu_float_bench_entry,
  simd_avx_bench_entry, simd_avx512_bench_entry, cpu_l1i_bench_entry, tlb_bench_entry,
  mem_bw_bench_entry, disk_write_bench_entry, udp_server_bench_entry, udp_client_bench_entry,
}
use r_bench_an_interference.Udp.Entry
use r_bench_an_interference.Launch.{
  Started, Threads, start_threads, swap_all, launch, udp_entry, Machine, call, call_all, run_tasks,
}
use r_bench_an_interference.Launch.Share.{Share, share_of, udp_share, share, Returns, own, left}

-- The threads with a share more, while the 1000 slots are enough.
abbrev after : Threads → Share → Option Threads
after g s =
    if leb (length (g.glob_threads ++ s.1)) 1000
    then some (record { glob_threads = g.glob_threads ++ s.1; joined = g.joined ++ s.0 })
    else none

fits_below : (n : ℕ) → ltb n 1000 ≡ true → n < 1000
fits_below n e = ground arith

full_above : (n : ℕ) → ltb n 1000 ≡ false → 1000 ≤ n
full_above n e = ground arith

too_many : (n : ℕ) → 1000 < n → leb n 1000 ≡ false
too_many n h = ground arith

swap_all_lem :
    (thrs glob : List Started)
    → length glob ≤ 1000
    → swap_all thrs glob ≡ (if leb (length (glob ++ thrs)) 1000 then some (glob ++ thrs) else none)
unfolding swap_all
swap_all_lem [] glob room =
    let e : leb (length glob) 1000 ≡ true = ground arith in rw (append-nil glob, e) refl
swap_all_lem (thr ∷ thrs) glob room = elim (Bool-cases (ltb (length glob) 1000)) [
  | inl fits ↦
      rw (swap_all, fits)
        (swap_all_lem thrs (glob ++ (thr ∷ []))
            (omega (arith, length-append glob (thr ∷ []), fits_below (length glob) fits))
          ∙ rw (append_assoc glob (thr ∷ []) thrs) refl)
  | inr full ↦
      let over : leb (length (glob ++ (thr ∷ thrs))) 1000 ≡ false =
        too_many (length (glob ++ (thr ∷ thrs)))
          (omega (arith, length-append glob (thr ∷ thrs), full_above (length glob) full)) in
      rw (swap_all, full, over) refl
]

after-nothing : (g : Threads) → length g.glob_threads ≤ 1000 → some g ≡ after g ([], [])
after-nothing g room =
    let e : leb (length g.glob_threads) 1000 ≡ true = ground arith in
    rw (append-nil g.glob_threads, append-nil g.joined, e) refl

launch_lem :
    (func : BenchFunc) (args : BenchArgs) (g : Threads)
    → length g.glob_threads ≤ 1000
    → launch func args g
      ≡ after g
          (share_of (get_arg_flag args.flags is_run_parallel) (start_threads func 1 args.threads))
unfolding launch
launch_lem func args g room = choose (get_arg_flag args.flags is_run_parallel)
  where
    thrs : List Started
    thrs = start_threads func 1 args.threads

    stored :
        (fits : Bool)
        → elim (if fits then some (g.glob_threads ++ thrs) else none) [
          | none ↦ none
          | some glob_threads ↦ some (record g { glob_threads = glob_threads })
        ]
          ≡ (if fits then some (record g { glob_threads = g.glob_threads ++ thrs }) else none)
    stored true = refl
    stored false = refl

    choose :
        (b : Bool)
        → elim b [
          | true ↦ elim (swap_all thrs g.glob_threads) [
            | none ↦ none
            | some glob_threads ↦ some (record g { glob_threads = glob_threads })
          ]
          | false ↦ some (record g { joined = g.joined ++ thrs })
        ]
          ≡ after g (share_of b thrs)
    choose true =
        rw (swap_all_lem thrs g.glob_threads room, append-nil g.joined)
          (stored (leb (length (g.glob_threads ++ thrs)) 1000))
    choose false =
        let e : leb (length g.glob_threads) 1000 ≡ true = ground arith in
        rw (append-nil g.glob_threads, e) refl

udp_entry_lem :
    (func : BenchFunc) (args : BenchArgs) (r : Option ℤ) (n : ℤ) (g : Threads)
    → length g.glob_threads ≤ 1000
    → r ≡ some n
    → udp_entry func args r g ≡ after g (udp_share (start_threads func 1 args.threads) r)
udp_entry_lem func args none n g room e = absurd (ground arith)
udp_entry_lem func args (some (pos k)) n g room e =
    let fits : leb (length g.glob_threads) 1000 ≡ true = ground arith in
    rw (append-nil g.glob_threads, fits) refl
udp_entry_lem func args (some (negsuc k)) n g room e = after-nothing g room

call_lem :
    (m : Machine) (func : BenchFunc) (args : BenchArgs) (g : Threads)
    → length g.glob_threads ≤ 1000
    → Returns m func args
    → call m func args g ≡ after g (share m func args)
unfolding call share
call_lem m cache_bench_entry args g room r = launch_lem cache_bench_entry args g room
call_lem m cpu_int_bench_entry args g room r = launch_lem cpu_int_bench_entry args g room
call_lem m cpu_float_bench_entry args g room r = launch_lem cpu_float_bench_entry args g room
call_lem m simd_avx_bench_entry args g room r = launch_lem simd_avx_bench_entry args g room
call_lem m simd_avx512_bench_entry args g room r = launch_lem simd_avx512_bench_entry args g room
call_lem m cpu_l1i_bench_entry args g room r = launch_lem cpu_l1i_bench_entry args g room
call_lem m tlb_bench_entry args g room r = launch_lem tlb_bench_entry args g room
call_lem m disk_write_bench_entry args g room r = launch_lem disk_write_bench_entry args g room
call_lem m mem_bw_bench_entry args g room r = choose m.mapped
  where
    choose :
        (b : Bool)
        → (if b then launch mem_bw_bench_entry args g else some g)
          ≡ after g (
              if b
              then share_of
                  (get_arg_flag args.flags is_run_parallel)
                  (start_threads mem_bw_bench_entry 1 args.threads)
              else ([], []))
    choose true = launch_lem mem_bw_bench_entry args g room
    choose false = after-nothing g room
call_lem m udp_server_bench_entry args g room (n, e) =
    udp_entry_lem udp_server_bench_entry args
      (Entry.udp_server_bench_entry args m.server m.listenbuf m.fuel) n g room e
call_lem m udp_client_bench_entry args g room (n, e) =
    udp_entry_lem udp_client_bench_entry args (Entry.udp_client_bench_entry args m.client m.fuel) n
      g room e

few_enough : (n : ℕ) → leb n 1000 ≡ true → n ≤ 1000
few_enough n e = ground arith

above : (n : ℕ) → leb n 1000 ≡ false → 1000 < n
above n e = ground arith

longer : (xs ys zs : List Started) → 1000 < length (xs ++ ys) → 1000 < length (xs ++ (ys ++ zs))
longer xs ys zs h =
    omega (arith, length-append xs ys, length-append xs (ys ++ zs), length-append ys zs)

call_all_lem :
    (m : Machine) (tasks : List BenchTask) (g : Threads)
    → length g.glob_threads ≤ 1000
    → All (λ task. Returns m task.func task.args) tasks
    → call_all m tasks g ≡ after g (own m tasks, left m tasks)
unfolding call_all
call_all_lem m [] g room h = after-nothing g room
call_all_lem m (task ∷ tasks) g room h =
    ap (λ o. elim o [ none ↦ none | some g' ↦ call_all m tasks g' ])
      (call_lem m task.func task.args g room h.0)
    ∙ elim (Bool-cases (leb (length (g.glob_threads ++ (share m task.func task.args).1)) 1000)) [
      | inl fits ↦
          let s = share m task.func task.args in
          rw fits (
            call_all_lem m tasks
              (record { glob_threads = g.glob_threads ++ s.1; joined = g.joined ++ s.0 })
              (few_enough (length (g.glob_threads ++ s.1)) fits) h.1
            ∙ rw
                (
                  append_assoc g.glob_threads (s.1) (left m tasks),
                  append_assoc g.joined (s.0) (own m tasks),
                )
                refl)
      | inr full ↦
          let s = share m task.func task.args in
          let over : leb (length (g.glob_threads ++ (s.1 ++ left m tasks))) 1000 ≡ false =
            too_many (length (g.glob_threads ++ (s.1 ++ left m tasks))) (
              longer g.glob_threads (s.1) (left m tasks)
                (above (length (g.glob_threads ++ s.1)) full)) in
          rw (full, over) refl
    ]

-- Where the entries of the network return, `main` joins every thread that a task starts: those that
-- the tasks join themselves come first, in their order, and then those that parallel tasks have
-- left in `glob_threads`. With more than 1000 of the latter, a slot that is not there is written.
pub run_tasks_lem :
    (m : Machine) (tasks : List BenchTask)
    → All (λ task. Returns m task.func task.args) tasks
    → run_tasks m tasks
      ≡ (if leb (length (left m tasks)) 1000 then some (own m tasks ++ left m tasks) else none)
unfolding run_tasks
run_tasks_lem m tasks h =
    ap joins (call_all_lem m tasks (record { glob_threads = []; joined = [] }) (omega arith) h)
    ∙ choose (leb (length (left m tasks)) 1000)
  where
    joins : Option Threads → Option (List Started)
    joins none = none
    joins (some g) = some (g.joined ++ g.glob_threads)

    choose :
        (b : Bool)
        → joins (
            if b then some (record { glob_threads = left m tasks; joined = own m tasks }) else none)
          ≡ (if b then some (own m tasks ++ left m tasks) else none)
    choose true = refl
    choose false = refl
