-- ===== src/Tests/Udp.antt =====
-- rbench-udp.cpp: the theorems on one thread of the server.
use r_bench_an_interference.Base.{ℕ, ◌<◌, ◌≡◌, ◌↔◌, refl, arith}
use r_bench_an_interference.Base.Int.{ℤ, pos, negsuc, ◌+ℤ◌, neg_ℤ, leb_ℤ, pos_part}
use r_bench_an_interference.Base.{ltb, ◌^◌, ◌%◌}
use r_bench_an_interference.Base.{List, [], ◌∷◌, some, none, true, if◌then◌else◌}
use r_bench_an_interference.Base.Cstring.{codes}
use r_bench_an_interference.Flags.{get_arg_flag}
use r_bench_an_interference.Opts.{BenchArgs, bench_args, ipv4}
use r_bench_an_interference.Control.{network_pps_to_time}
use r_bench_an_interference.Mwc.{mwc, mwc32, mwc8}
use r_bench_an_interference.Mwc.Fill.{fill_array}
use r_bench_an_interference.Net.{net_set_headfoot_checksum, socket_open, exists_socket}
use r_bench_an_interference.Udp.{open_tries, find_port}
use r_bench_an_interference.Udp.Threads.{
  net_thread_wait, Answers, Waits, wait_told, client_set_up, server_set_up, udp_send_kernel,
  udp_client_bench, udp_server_bench,
}
use r_bench_an_interference.Udp.Conn.{
  Thread, IsExact, udp_client_bench-Thread, udp_server_bench-Thread,
}
use r_bench_an_interference.Udp.Packets.{send_packet, udp_receive_kernel}
use r_bench_an_interference.Udp.Exchange.{sent_packets_pass}
use r_bench_an_interference.Udp.Entry.{
  World, wait_cnt, udp_client_bench_entry, udp_server_bench_entry,
}
use r_bench_an_interference.Udp.Touch.{Schedule, looks}
use r_bench_an_interference.Udp.Returns.{
  Asked, has_main_socket, udp_client_bench_entry-returns, udp_server_bench_entry-returns,
  udp_server_bench_entry-failed,
}
use r_bench_an_interference.Tests.Stress.{thousandths, steady}
use r_bench_an_interference.Udp.System.{
  failed, waiting, running, fail, wait, go, round, ServerState, update, initial, start_thread,
  store_ready, move, Reach, here, next, tick,
}
use r_bench_an_interference.Udp.Monitor.{HasFinished, monitor_ends}
use r_bench_an_interference.Udp.Look.{look_conn, begin, entry, look-HasFinished}
use r_bench_an_interference.Base.{◌≤◌}

abbrev one_started : ServerState
one_started = record initial { started = 1 }

one_started_reached : Reach 1 initial one_started
one_started_reached = next here (start_thread initial (omega arith))

abbrev one_ready : ServerState
one_ready = record one_started { stored = 1; conns = update one_started.conns 0 (negsuc 8) }

abbrev one_waits : ServerState
one_waits = record one_ready {
  phase = update one_ready.phase 0 waiting;
  conns = update one_ready.conns 0 (negsuc 8);
}

abbrev one_goes : ServerState
one_goes = record one_waits {
  phase = update one_waits.phase 0 (running 0);
  conns = update one_waits.conns 0 (negsuc 8);
}

one_goes_reached : Reach 1 initial one_goes
one_goes_reached =
    next
      (next (next one_started_reached (store_ready one_started refl (omega arith)))
        (move one_ready 0 (omega arith) wait))
      (move one_waits 0 (omega arith) go)

abbrev one_ran : ServerState
one_ran = record one_goes {
  phase = update one_goes.phase 0 (running 1);
  conns = update one_goes.conns 0 (pos 31);
}

one_ran_reached : Reach 1 initial one_ran
unfolding ◌+ℤ◌
one_ran_reached = next one_goes_reached (move one_goes 0 (omega arith) round)

-- The thread runs a round between the first comparison and the sum.
look-HasFinished_example :
    let k =
      look_conn
        (one_goes.conns 0)
        (one_ran.conns 0)
        (one_ran.conns 0)
        (record { nowpsum = pos 0; cnt_norun = 0 }) in
    (k.cnt_norun ≤ 1)
    × (k.cnt_norun ≡ 1 → (i : ℕ) → i < 1 → HasFinished (one_ran.phase i))
    × (((i : ℕ) → i < 1 → HasFinished (one_goes.phase i)) → k.cnt_norun ≡ 1)
unfolding ◌+ℤ◌
look-HasFinished_example =
    look-HasFinished one_goes_reached
      (entry begin here (next here (move one_goes 0 (omega arith) round)) here)

monitor_ends_example :
    ((tick one_ran.conns 1).cnt_norun ≡ 1) ↔ ((i : ℕ) → i < 1 → HasFinished (one_ran.phase i))
monitor_ends_example = monitor_ends one_ran_reached

abbrev one_failed : ServerState
one_failed = record one_started {
  phase = update one_started.phase 0 failed;
  conns = update one_started.conns 0 (negsuc 7);
}

one_failed_reached : Reach 1 initial one_failed
one_failed_reached = next one_started_reached (move one_started 0 (omega arith) fail)

-- One client that asks at once; its thread has ended at the first look.
abbrev one_asks : World
one_asks = record {
  inet = λ i. pos 5;
  inet6 = λ i. negsuc 0;
  binds = true;
  answers = λ t i. some (codes "64");
  seen = λ k i. negsuc 79990;
}

one_asks-Asked : Asked one_asks 3
one_asks-Asked = record {
  asked = λ t. 0;
  message = λ t. codes "64";
  silent = λ t j h. absurd (omega arith);
  asks = λ t. refl;
  in_time = λ t. omega arith;
}

udp_server_bench_entry-returns_example :
    udp_server_bench_entry bench_args one_asks [] 3
    ≡ some (if has_main_socket bench_args one_asks then pos 0 else negsuc 0)
unfolding tick
udp_server_bench_entry-returns_example =
    udp_server_bench_entry-returns bench_args one_asks [] 3 0 one_asks-Asked refl (omega arith)

udp_client_bench_entry-returns_example :
    udp_client_bench_entry bench_args one_asks 3
    ≡ some (if has_main_socket bench_args one_asks then pos 0 else negsuc 0)
unfolding tick wait_cnt
udp_client_bench_entry-returns_example =
    udp_client_bench_entry-returns bench_args one_asks 3 0 one_asks-Asked (λ k h. refl)
      (λ k h. refl) (omega arith)

-- A run in which the only thread has failed at the first look.
abbrev failing : Schedule 1
failing = record { states = λ k. one_failed; first = one_failed_reached; later = λ k. here }

udp_server_bench_entry-failed_example :
    udp_server_bench_entry bench_args (record one_asks { seen = looks failing }) [] 9 ≡ none
unfolding open_tries socket_open exists_socket
udp_server_bench_entry-failed_example =
    udp_server_bench_entry-failed bench_args (record one_asks { seen = looks failing }) [] 9 0
      failing refl refl (omega arith) refl

abbrev limited_args : BenchArgs
limited_args = record bench_args { flags = 2; limit_round = pos 250 }

abbrev all_answer : Answers
all_answer = record {
  inet = λ i. pos 5;
  inet6 = λ i. negsuc 0;
  binds = λ port. true;
  sends = true;
  replies = λ i. some (codes "-9");
}

-- Whole numbers up to 2 ^ 53 are doubles; of those above, only the even ones are.
abbrev rounded : ℤ → ℤ
rounded z = if leb_ℤ z (pos (2 ^ 53)) then z else z +ℤ neg_ℤ (pos (pos_part z % 2))

rounded-IsExact : IsExact rounded
rounded-IsExact a h =
    let small : leb_ℤ (pos a) (pos (2 ^ 53)) ≡ true = ground arith in rw small refl

-- The main thread says ready before the third look.
abbrev told_late : Waits
told_late = record {
  received = some (some (codes "hello"));
  told = λ i. if ltb i 2 then negsuc 9 else negsuc 8;
}

-- The set-up of that thread gets ready.
set_up_ready : server_set_up limited_args all_answer told_late 3 ≡ some (negsuc 8)
unfolding server_set_up open_tries socket_open exists_socket find_port wait_told
set_up_ready = refl

udp_server_bench-Thread_example :
    Thread 40 40 250 2000 (server_set_up limited_args all_answer told_late 3) (
      udp_server_bench thousandths rounded limited_args all_answer told_late 3
        (steady 0)
        0
        steady
        250)
unfolding get_arg_flag network_pps_to_time
udp_server_bench-Thread_example =
    udp_server_bench-Thread thousandths rounded rounded-IsExact limited_args all_answer told_late 3
      2 (some (codes "hello")) 250 (steady 0) 0 steady 250 refl (omega arith) refl refl refl
      (omega arith) (omega arith) (omega arith)
      (λ a b. record { runs = omega arith; fits = omega arith })

udp_client_bench-Thread_example :
    Thread 100
      (udp_send_kernel ipv4)
      250
      5000
      (client_set_up limited_args all_answer net_thread_wait)
      (udp_client_bench thousandths rounded limited_args ipv4 all_answer
        (steady 0)
        0
        steady
        250
        net_thread_wait)
unfolding get_arg_flag network_pps_to_time
udp_client_bench-Thread_example =
    udp_client_bench-Thread thousandths rounded rounded-IsExact limited_args ipv4 all_answer 250
      (steady 0) 0 steady 250 net_thread_wait refl refl (omega arith) (omega arith) (omega arith)
      (λ a b. record { runs = omega arith; fits = omega arith })

-- Five bytes of memory, and the packet that is made of them.
abbrev five_bytes : List ℕ
five_bytes = 1 ∷ 2 ∷ 3 ∷ 4 ∷ 5 ∷ []

abbrev five_sent : List ℕ
five_sent = 150 ∷ 217 ∷ 114 ∷ 169 ∷ 79 ∷ []

sent_packets_pass_example :
    (buf : List ℕ) × (udp_receive_kernel (pos 5) (λ j. some five_sent) (5 ∷ five_bytes)
      ≡ some (buf, 0))
unfolding send_packet fill_array mwc32 mwc8 net_set_headfoot_checksum
sent_packets_pass_example =
    sent_packets_pass 5 (λ j. mwc 1 2) (λ j. five_bytes) (λ j. five_sent) (5 ∷ five_bytes)
      (omega arith) (λ j. refl) (λ j. refl) (omega arith)
