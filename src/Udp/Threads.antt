-- ===== src/Udp/Threads.antt =====
-- rbench-udp.cpp, `udp_client_bench` and `udp_server_bench`: what a thread leaves in `*pconn`. It is a
-- double that holds whole numbers; `rnd` is the double next to a whole number, a sum is rounded by it.
use r_bench_an_interference.Base.{ℕ, zero, suc, ◌+◌, if◌then◌else◌, Bool, true, false, not, ◌||◌}
use r_bench_an_interference.Base.{Option, none, some}
use r_bench_an_interference.Base.Int.{ℤ, pos, negsuc, ◌+ℤ◌, eqb_ℤ, neg_ℤ}
use r_bench_an_interference.Base.Cstring.{Cstring, atoi}
use r_bench_an_interference.Opts.{BenchArgs, IpType, ipv4, ipv6, unknown, network_pps}
use r_bench_an_interference.Control.{Floating, of_nat, one_million, network_pps_to_time}
use r_bench_an_interference.Stress.{Readings, Regulation, fresh}
use r_bench_an_interference.Stress.Threads.{knl_round_limit, measure}
use r_bench_an_interference.Stress.Kernel.{repeat, stress_with}
use r_bench_an_interference.Net.{exists_socket}
use r_bench_an_interference.Udp.{
  PortSearch, bound, no_available_port, find_port, no_socket, open_tries,
}

-- `net_thread_state_t`
abbrev pub net_thread_wait : ℤ
net_thread_wait = negsuc 9

abbrev pub net_thread_ready : ℤ
net_thread_ready = negsuc 8

abbrev pub net_thread_error : ℤ
net_thread_error = negsuc 7

-- What the system answers to a thread before its loop: the descriptors of ten tries, the ports that
-- can be bound, whether the first packet is sent, and what is received.
pub record Answers : Type 0 where
  pub inet : ℕ → ℤ
  pub inet6 : ℕ → ℤ
  pub binds : ℕ → Bool
  pub sends : Bool
  pub replies : ℕ → Option Cstring

-- The receives that are left of the thousand, up to a message that says ready.
unfoldable pub wait_ready : (ℕ → Option Cstring) → ℕ → ℕ → ℤ → ℤ
wait_ready replies zero i conn = conn
wait_ready replies (suc left) i conn = elim (replies i) [
  | none ↦ wait_ready replies left (i + 1) conn
  | some recvbuf ↦ elim (eqb_ℤ (atoi recvbuf) net_thread_ready) [
    | true ↦ net_thread_ready
    | false ↦ wait_ready replies left (i + 1) conn
  ]
]

abbrev pub with_found : Bool → Option ℤ → Option PortSearch → Option ℤ
with_found sends go none = none
with_found sends go (some no_available_port) = some net_thread_error
with_found sends go (some (bound port)) = if sends then go else some net_thread_error

-- The socket, the port and the first packet, and then `go`; all failures leave the error.
abbrev pub with_port : BenchArgs → Answers → Option ℤ → Option ℤ
with_port args answers go =
    let s = open_tries args.netaddr.ip_type answers.inet answers.inet6 10 0 no_socket in
    if not (exists_socket s)
    then some net_thread_error
    else with_found answers.sends go (find_port answers.binds args.netaddr.port 65532 0)

-- A client thread up to its measurement.
unfoldable pub client_set_up : BenchArgs → Answers → ℤ → Option ℤ
unfolding open_tries find_port wait_ready exists_socket
client_set_up args answers conn =
    let heard = wait_ready answers.replies 1000 0 conn in
    with_port args answers
      (some (if eqb_ℤ heard net_thread_ready then net_thread_ready else net_thread_error))

-- `while( round( *pconn ) != NET_THREAD_READY )` from look `i` on, with the looks that are left, over
-- what the thread reads in `*pconn`, which the main thread stores. `none` says that it still waits.
unfoldable pub wait_told : (ℕ → ℤ) → ℕ → ℕ → Option ℤ
wait_told told zero i = none
wait_told told (suc left) i = elim (eqb_ℤ (told i) net_thread_ready) [
  | true ↦ some (told i)
  | false ↦ wait_told told left (i + 1)
]

-- What a server thread waits for: the end of its one `Recv`, which has no timeout and may never
-- return, and what its looks read in `*pconn`.
pub record Waits : Type 0 where
  pub received : Option (Option Cstring)
  pub told : ℕ → ℤ

abbrev pub with_received : Option (Option Cstring) → Option ℤ → Option ℤ
with_received none go = none
with_received (some none) go = some net_thread_error
with_received (some (some recvbuf)) go = go

-- A server thread up to its measurement, with the number of its looks at `*pconn`.
unfoldable pub server_set_up : BenchArgs → Answers → Waits → ℕ → Option ℤ
unfolding open_tries find_port exists_socket wait_told
server_set_up args answers waits looks =
    with_port args answers (with_received waits.received (wait_told waits.told looks 0))

abbrev pub udp_send_kernel_pack_per_round : ℕ
udp_send_kernel_pack_per_round = 100

-- `udp_send_kernel`: how many packets it hands to the socket.
unfoldable pub udp_send_kernel : IpType → ℕ
udp_send_kernel ipv4 = udp_send_kernel_pack_per_round
udp_send_kernel ipv6 = 0
udp_send_kernel unknown = 0

-- What the rounds of a thread change: `*pconn`, and the packets that it has passed on.
pub record Conn : Type 0 where
  pub pconn : ℤ
  pub packets : ℕ

-- A round of `sent` packets, after which `*pconn` is raised by `packs`.
abbrev pub conn_round : (ℤ → ℤ) → ℕ → ℕ → Conn → Conn
conn_round rnd packs sent c = record c {
  pconn = rnd (c.pconn +ℤ pos packs);
  packets = c.packets + sent;
}

infixl 5 ◌>>=◌
abbrev pub ◌>>=◌ : {A B : Type 0} → Option A → (A → Option B) → Option B
none >>= k = none
some x >>= k = k x

-- An error ends the thread; otherwise it runs from a ready `*pconn` on.
abbrev pub after_set_up : ℤ → (Conn → Option Conn) → Option Conn
after_set_up conn run =
    let c : Conn = record { pconn = conn; packets = 0 } in
    if eqb_ℤ conn net_thread_error then some c else run c

module _ {D : Type 0} (f : Floating D) where
  -- The regulation by packets per second.
  unfoldable pub by_pps : ℕ → BenchArgs → Regulation D
  by_pps packs args = record {
    actual = λ s.
        f.mul
          (f.div (f.mul s.sum_krounds (of_nat f packs))
            (f.add (f.add s.sum_runtimeus s.sum_sleepus) s.sum_runidleus))
          (one_million f);
    off_target = λ actual.
        f.less actual (f.of_int (network_pps args +ℤ negsuc 499))
        || f.less (f.of_int (network_pps args +ℤ pos 500)) actual;
    low = λ actual. f.less actual (f.of_int (network_pps args +ℤ negsuc 499));
    repace = λ sgl_time sgl_idle.
        network_pps_to_time f (of_nat f packs) (network_pps args) sgl_time sgl_idle args.period;
  }

module _ {D : Type 0} (f : Floating D) (rnd : ℤ → ℤ) where
  -- From the measurement on: both threads run rounds, raise `*pconn`, and change its sign at the end.
  unfoldable pub net_bench :
      BenchArgs → ℕ → ℕ → ℕ → Readings D → D → (ℕ → Readings D) → ℕ → Conn → Option Conn
  unfolding by_pps stress_with repeat measure knl_round_limit
  net_bench args packs sent measure_rounds first t_start readings fuel c = do
    let (sgl_time, sgl_idle) = measure f first measure_rounds
    r ←
        stress_with f (conn_round rnd packs sent) (by_pps f packs args) (knl_round_limit args)
          args.time t_start readings fuel 0
          (fresh f (
            network_pps_to_time f (of_nat f packs) (network_pps args) sgl_time sgl_idle
              args.period))
          (repeat measure_rounds (conn_round rnd packs sent) c)
    some (record (r.1) { pconn = neg_ℤ r.1.pconn })

  unfoldable pub udp_client_bench :
      BenchArgs → IpType → Answers → Readings D → D → (ℕ → Readings D) → ℕ → ℤ → Option Conn
  unfolding client_set_up net_bench udp_send_kernel
  udp_client_bench args srv_ip_type answers first t_start readings fuel conn = do
    ready ← client_set_up args answers conn
    after_set_up ready (
        net_bench args udp_send_kernel_pack_per_round (udp_send_kernel srv_ip_type) 5000 first
          t_start readings fuel)

  unfoldable pub udp_server_bench :
      BenchArgs → Answers → Waits → ℕ → Readings D → D → (ℕ → Readings D) → ℕ → Option Conn
  unfolding server_set_up net_bench
  udp_server_bench args answers waits looks first t_start readings fuel = do
    ready ← server_set_up args answers waits looks
    after_set_up ready (net_bench args 40 40 2000 first t_start readings fuel)
