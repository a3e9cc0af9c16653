-- ===== src/Udp/Conn.antt =====
-- rbench-udp.cpp: how a thread of the client or of the server ends, as `*pconn` tells it.
use native.Mathlib.Nat.{mul-suc, mul-zero, mul-le-mul_left}
use r_bench_an_interference.Base.{
  ℕ, zero, suc, ◌+◌, ◌-◌, ◌*◌, ◌^◌, ◌≤◌, ◌<◌, ◌≡◌, refl, arith, ap, sym, ◌∙◌,
}
use r_bench_an_interference.Base.{true, Option, none, some}
use r_bench_an_interference.Base.Int.{ℤ, pos, negsuc, ◌+ℤ◌, neg_ℤ}
use r_bench_an_interference.Base.Cstring.{Cstring}
use r_bench_an_interference.Flags.{is_limited, get_arg_flag}
use r_bench_an_interference.Opts.{BenchArgs, IpType, network_pps}
use r_bench_an_interference.Control.{Floating, of_nat, network_pps_to_time}
use r_bench_an_interference.Stress.{Readings, fresh}
use r_bench_an_interference.Stress.Laws.{IsPace}
use r_bench_an_interference.Stress.Threads.{knl_round_limit, measure}
use r_bench_an_interference.Stress.Kernel.{repeat, repeat-add, stress_with-Runs}
use r_bench_an_interference.Udp.Threads.{
  net_thread_ready, net_thread_error, Answers, Waits, Conn, conn_round, ◌>>=◌, client_set_up,
  server_set_up, udp_send_kernel, by_pps, net_bench, after_set_up, udp_client_bench,
  udp_server_bench,
}
use r_bench_an_interference.Udp.SetUp.{
  failed_conn, IsReadyOrError, client_set_up-IsReadyOrError, server_set_up-IsReadyOrError,
}

conn_path :
    {a b x y : ℕ}
    → a ≡ b
    → x ≡ y
    → ◌≡◌ {A = Conn} (record { pconn = pos a; packets = x }) (record { pconn = pos b; packets = y })
conn_path e e' = λ i. record { pconn = pos (e i); packets = e' i }

-- Whole numbers up to 2 ^ 53 are doubles.
abbrev pub IsExact : (ℤ → ℤ) → Type 0
IsExact rnd = (a : ℕ) → a ≤ 2 ^ 53 → rnd (pos a) ≡ pos a

module _ (rnd : ℤ → ℤ) (exact : IsExact rnd) where
  repeat_pconn :
      (packs sent n a packets : ℕ)
      → a + packs * n ≤ 2 ^ 53
      → repeat n (conn_round rnd packs sent) (record { pconn = pos a; packets = packets })
        ≡ record { pconn = pos (a + packs * n); packets = packets + sent * n }
  unfolding repeat ◌+ℤ◌
  repeat_pconn packs sent zero a packets room =
      conn_path (omega (arith, mul-zero packs)) (omega (arith, mul-zero sent))
  repeat_pconn packs sent (suc n) a packets room =
      ap (repeat n (conn_round rnd packs sent))
        (λ i. record { pconn = next_pconn i; packets = packets + sent })
      ∙ repeat_pconn packs sent n (a + packs) (packets + sent)
          (omega (arith, room, mul-suc packs n))
      ∙ conn_path (omega (arith, mul-suc packs n)) (omega (arith, mul-suc sent n))
    where
      sum : pos a +ℤ pos packs ≡ pos (a + packs)
      sum = ground arith

      next_pconn : rnd (pos a +ℤ pos packs) ≡ pos (a + packs)
      next_pconn = ap rnd sum ∙ exact (a + packs) (omega (arith, room, mul-suc packs n))

  -- Rounds from a ready `*pconn` on.
  repeat_ready :
      (packs sent n : ℕ)
      → 9 ≤ packs
      → 1 ≤ n
      → packs * n ≤ 2 ^ 53
      → repeat n (conn_round rnd packs sent) (record { pconn = net_thread_ready; packets = 0 })
        ≡ record { pconn = pos (packs * n - 9); packets = sent * n }
  unfolding repeat ◌+ℤ◌
  repeat_ready packs sent zero h positive room = absurd (omega arith)
  repeat_ready packs sent (suc n) h positive room =
      ap (repeat n (conn_round rnd packs sent)) (λ i. record {
        pconn = first_pconn i;
        packets = (let e : 0 + sent ≡ sent = omega arith in e) i;
      })
      ∙ repeat_pconn packs sent n (packs - 9) sent (omega (arith, room, mul-suc packs n))
      ∙ conn_path (omega (arith, mul-suc packs n)) (omega (arith, mul-suc sent n))
    where
      sum : net_thread_ready +ℤ pos packs ≡ pos (packs - 9)
      sum = ground arith

      first_pconn : rnd (net_thread_ready +ℤ pos packs) ≡ pos (packs - 9)
      first_pconn = ap rnd sum ∙ exact (packs - 9) (omega (arith, room, mul-suc packs n))

at_least_ten : (p t : ℕ) → 10 ≤ p → 1 ≤ t → 10 ≤ p * t
at_least_ten p zero h positive = absurd (omega arith)
at_least_ten p (suc t) h positive = omega (arith, mul-suc p t)

negative : (x : ℕ) → 10 ≤ x → neg_ℤ (pos (x - 9)) ≡ negsuc (x - 10)
negative x h = ground arith

-- A thread that has run: `*pconn` is the negative of its packets but nine.
pub record Ended (packs sent limit measure_rounds : ℕ) (run : Option Conn) : Type 0 where
  pub out : Conn
  pub ran : ℕ
  pub returns : run ≡ some out
  pub counted : out.pconn ≡ negsuc (packs * (measure_rounds + ran) - 10)
  pub passed_on : out.packets ≡ sent * (measure_rounds + ran)
  pub bounded : ran < limit + 2 ^ 31

module _ {D : Type 0} (f : Floating D) (rnd : ℤ → ℤ) (exact : IsExact rnd) where
  pub net_bench-Ended :
      (args : BenchArgs) (packs sent limit measure_rounds : ℕ) (first : Readings D) (t_start : D)
      (readings : ℕ → Readings D) (fuel : ℕ)
      → 10 ≤ packs
      → 1 ≤ measure_rounds
      → get_arg_flag args.flags is_limited ≡ true
      → args.limit_round ≡ pos limit
      → 1 ≤ limit
      → limit + 2 ^ 31 ≤ 2 ^ 63
      → packs * (measure_rounds + limit + 2 ^ 31) ≤ 2 ^ 53
      → limit ≤ fuel
      → ((a b : D)
          → IsPace (network_pps_to_time f (of_nat f packs) (network_pps args) a b args.period))
      → Ended packs sent limit measure_rounds (
          net_bench f rnd args packs sent measure_rounds first t_start readings fuel
            (record { pconn = net_thread_ready; packets = 0 }))
  unfolding net_bench by_pps knl_round_limit
  net_bench-Ended args packs sent limit measure_rounds first t_start readings fuel h m flag lim
        positive room precise enough paces =
      let (a, b) = measure f first measure_rounds in
      let kernel = conn_round rnd packs sent in
      let ready : Conn = record { pconn = net_thread_ready; packets = 0 } in
      let runs =
        stress_with-Runs f kernel (by_pps f packs args) limit args.time t_start readings fuel 0
          (fresh f (network_pps_to_time f (of_nat f packs) (network_pps args) a b args.period))
          (repeat measure_rounds kernel ready) (paces a b) paces room (omega arith) (omega arith)
          (omega arith) in
      let total = measure_rounds + runs.ran in
      let ended : repeat runs.ran kernel (repeat measure_rounds kernel ready)
          ≡ record { pconn = pos (packs * total - 9); packets = sent * total } =
        sym (repeat-add measure_rounds runs.ran kernel ready)
        ∙ repeat_ready rnd exact packs sent total (omega arith) (omega arith)
            (fits runs.ran (omega (arith, runs.counted, runs.below))) in
      record {
        out = record { pconn = negsuc (packs * total - 10); packets = sent * total };
        ran = runs.ran;
        returns =
            rw (flag, lim, runs.returns)
              (ap (λ (c : Conn). some (record c { pconn = neg_ℤ c.pconn })) ended
                ∙ ap (λ (z : ℤ). some (record { pconn = z; packets = sent * total }))
                    (negative (packs * total) (at_least_ten packs total h (omega arith))));
        counted = refl;
        passed_on = refl;
        bounded = omega (arith, runs.counted, runs.below);
      }
    where
      fits : (ran : ℕ) → ran < limit + 2 ^ 31 → packs * (measure_rounds + ran) ≤ 2 ^ 53
      fits ran below = omega (
        arith,
        precise,
        mul-le-mul_left {m = measure_rounds + ran} {n = measure_rounds + limit + 2 ^ 31} packs
            (omega (arith, below)),
      )

-- How a thread goes on from its set-up: with an error it is over, and ready it runs to its end.
pub record Thread (packs sent limit measure_rounds : ℕ) (set_up : Option ℤ) (run : Option Conn)
    : Type 0 where
  pub sets_up : IsReadyOrError set_up
  pub fails : set_up ≡ some net_thread_error → run ≡ some failed_conn
  pub waits : set_up ≡ none → run ≡ none
  pub ends : set_up ≡ some net_thread_ready → Ended packs sent limit measure_rounds run

goes_through :
    (packs sent limit measure_rounds : ℕ) (set_up : Option ℤ) (bench : Conn → Option Conn)
    → IsReadyOrError set_up
    → Ended packs sent limit measure_rounds
        (bench (record { pconn = net_thread_ready; packets = 0 }))
    → Thread packs sent limit measure_rounds set_up (set_up >>= λ ready. after_set_up ready bench)
goes_through packs sent limit measure_rounds set_up bench sets_up ended = record {
  sets_up = sets_up;
  fails = λ error. rw error refl;
  waits = λ waiting. rw waiting refl;
  ends = λ ready. rw ready ended;
}

module _ {D : Type 0} (f : Floating D) (rnd : ℤ → ℤ) (exact : IsExact rnd) where
  -- With a limit of rounds that keeps all counts at 2 ^ 53 or below, doubles that are exact so far,
  -- and paces of at least one round and fewer than 2 ^ 31, a thread of the client whose set-up fails leaves the error in `*pconn`; one whose set-up gets ready ends, and
  -- leaves the negative of a hundred for each round but nine there, although it has sent nothing
  -- where the server has an address of IPV6.
  pub udp_client_bench-Thread :
      (args : BenchArgs) (srv_ip_type : IpType) (answers : Answers) (limit : ℕ) (first : Readings D)
      (t_start : D) (readings : ℕ → Readings D) (fuel : ℕ) (conn : ℤ)
      → get_arg_flag args.flags is_limited ≡ true
      → args.limit_round ≡ pos limit
      → 1 ≤ limit
      → 100 * (5000 + limit + 2 ^ 31) ≤ 2 ^ 53
      → limit ≤ fuel
      → ((a b : D)
          → IsPace (network_pps_to_time f (of_nat f 100) (network_pps args) a b args.period))
      → Thread 100
          (udp_send_kernel srv_ip_type)
          limit
          5000
          (client_set_up args answers conn)
          (udp_client_bench f rnd args srv_ip_type answers first t_start readings fuel conn)
  unfolding udp_client_bench
  udp_client_bench-Thread args srv_ip_type answers limit first t_start readings fuel conn flag lim
        positive precise enough paces =
      goes_through 100 (udp_send_kernel srv_ip_type) limit 5000 (client_set_up args answers conn)
        (net_bench f rnd args 100 (udp_send_kernel srv_ip_type) 5000 first t_start readings fuel)
        (client_set_up-IsReadyOrError args answers conn)
        (net_bench-Ended f rnd exact args 100 (udp_send_kernel srv_ip_type) limit 5000 first t_start
          readings fuel (omega arith) (omega arith) flag lim positive (omega (arith, precise))
          precise enough paces)

  -- With a limit of rounds that keeps all counts at 2 ^ 53 or below, doubles that are exact so far,
  -- and paces of at least one round and fewer than 2 ^ 31, a thread of the server whose set-up fails
  -- leaves the error in `*pconn`; one whose set-up gets ready ends, and leaves the negative of its
  -- packets but nine there, with fewer than 2 ^ 31 rounds beyond the limit. Its set-up does one or
  -- the other, where its `Recv` returns and a look at `*pconn` reads ready within the looks.
  pub udp_server_bench-Thread :
      (args : BenchArgs) (answers : Answers) (waits : Waits) (looks d : ℕ) (answer : Option Cstring)
      (limit : ℕ) (first : Readings D) (t_start : D) (readings : ℕ → Readings D) (fuel : ℕ)
      → waits.received ≡ some answer
      → d < looks
      → waits.told d ≡ net_thread_ready
      → get_arg_flag args.flags is_limited ≡ true
      → args.limit_round ≡ pos limit
      → 1 ≤ limit
      → 40 * (2000 + limit + 2 ^ 31) ≤ 2 ^ 53
      → limit ≤ fuel
      → ((a b : D)
          → IsPace (network_pps_to_time f (of_nat f 40) (network_pps args) a b args.period))
      → Thread 40 40 limit 2000
          (server_set_up args answers waits looks)
          (udp_server_bench f rnd args answers waits looks first t_start readings fuel)
  unfolding udp_server_bench
  udp_server_bench-Thread args answers waits looks d answer limit first t_start readings fuel
        returns told ready flag lim positive precise enough paces =
      goes_through 40 40 limit 2000 (server_set_up args answers waits looks)
        (net_bench f rnd args 40 40 2000 first t_start readings fuel)
        (server_set_up-IsReadyOrError args answers waits looks d answer returns told ready)
        (net_bench-Ended f rnd exact args 40 40 limit 2000 first t_start readings fuel (omega arith)
          (omega arith) flag lim positive (omega (arith, precise)) precise enough paces)
