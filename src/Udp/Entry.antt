-- ===== src/Udp/Entry.antt =====
-- rbench-udp.cpp: the main threads of the client and of the server, up to their return.
use r_bench_an_interference.Base.{
  ℕ, zero, suc, ◌+◌, ltb, leb, ◌==◌, if◌then◌else◌, Bool, true, false, not, Option, none, some,
  List, [], ◌∷◌,
}
use r_bench_an_interference.Base.Int.{ℤ, pos, negsuc, eqb_ℤ}
use r_bench_an_interference.Base.Cstring.{Cstring, atoi}
use r_bench_an_interference.Opts.{BenchArgs}
use r_bench_an_interference.Net.{exists_socket}
use r_bench_an_interference.Udp.{no_socket, open_tries}
use r_bench_an_interference.Udp.Threads.{◌>>=◌, net_thread_wait}
use r_bench_an_interference.Udp.System.{tick}

-- The counter of failures after one more: it starts again at ten.
abbrev pub next_fail : ℕ → ℕ
next_fail fail_cnt = if leb 10 (suc fail_cnt) then 0 else suc fail_cnt

-- The client asks the server for a thread. `replies i` is what the i-th receive brings before its timeout.
unfoldable pub touch : (ℕ → Option Cstring) → ℕ → ℕ → ℕ → Option ℤ
touch replies zero i touch_fail_cnt = none
touch replies (suc fuel) i touch_fail_cnt = elim (ltb touch_fail_cnt 10) [
  | false ↦ some (negsuc 0)
  | true ↦ elim (replies i) [
    | some recvbuf ↦ some (atoi recvbuf)
    | none ↦ touch replies fuel (suc i) (next_fail touch_fail_cnt)
  ]
]

-- The server listens for a client; after ten failures it would read the buffer as it is.
unfoldable pub listen : (ℕ → Option Cstring) → Cstring → ℕ → ℕ → ℕ → Option ℤ
listen messages listenbuf zero i listen_fail_cnt = none
listen messages listenbuf (suc fuel) i listen_fail_cnt = elim (ltb listen_fail_cnt 10) [
  | false ↦ some (atoi listenbuf)
  | true ↦ elim (messages i) [
    | some received ↦ some (atoi received)
    | none ↦ listen messages listenbuf fuel (suc i) (next_fail listen_fail_cnt)
  ]
]

-- One exchange for each thread, in the order of the threads.
unfoldable pub exchange_all : (ℕ → Option ℤ) → ℕ → ℕ → Option (List ℤ)
exchange_all exchange thrid zero = some []
exchange_all exchange thrid (suc left) = do
  answer ← exchange thrid
  rest ← exchange_all exchange (suc thrid) left
  some (answer ∷ rest)

-- How many of the first threads still wait.
unfoldable pub wait_cnt : (ℕ → ℤ) → ℕ → ℕ
wait_cnt conns zero = 0
wait_cnt conns (suc i) = wait_cnt conns i + (if eqb_ℤ (conns i) net_thread_wait then 1 else 0)

-- The client's loop until no thread waits. `seen k` is what the k-th look at `conns` finds.
unfoldable pub await_ready : (ℕ → ℕ → ℤ) → ℕ → ℕ → ℕ → Option ℕ
unfolding wait_cnt
await_ready seen count_thr zero k = none
await_ready seen count_thr (suc fuel) k = elim (wait_cnt (seen k) count_thr == 0) [
  | true ↦ some (suc k)
  | false ↦ await_ready seen count_thr fuel (suc k)
]

-- The monitor's loop, until no thread runs.
unfoldable pub monitor : (ℕ → ℕ → ℤ) → ℕ → ℕ → ℕ → Option ℕ
unfolding tick
monitor seen count_thr zero k = none
monitor seen count_thr (suc fuel) k =
    let t = tick (seen k) count_thr in
    elim (t.cnt_norun == count_thr) [ true ↦ some k | false ↦ monitor seen count_thr fuel (suc k) ]

-- What the main thread meets: the descriptors, whether its port can be bound, what thread `thrid`
-- brings it at its i-th receive, and what it sees in `conns`.
pub record World : Type 0 where
  pub inet : ℕ → ℤ
  pub inet6 : ℕ → ℤ
  pub binds : Bool
  pub answers : ℕ → ℕ → Option Cstring
  pub seen : ℕ → ℕ → ℤ

-- The main socket, and then `run`; both entries return -1 without the socket or the port.
abbrev pub with_main_socket : BenchArgs → World → Option ℤ → Option ℤ
with_main_socket args world run =
    let s = open_tries args.netaddr.ip_type world.inet world.inet6 10 0 no_socket in
    if not (exists_socket s)
    then some (negsuc 0)
    else if not world.binds
    then some (negsuc 0)
    else run

-- The threads are counted by `args.threads`, which `check_option` keeps above 0.
unfoldable pub udp_client_bench_entry : BenchArgs → World → ℕ → Option ℤ
unfolding open_tries exists_socket touch exchange_all await_ready monitor
udp_client_bench_entry args world fuel =
    let count_thr = args.threads in
    let run = do
      srv_thrids ← exchange_all (λ thrid. touch (world.answers thrid) fuel 0 0) 1 count_thr
      k ← await_ready world.seen count_thr fuel 0
      last ← monitor world.seen count_thr fuel k
      some (pos 0)
    in with_main_socket args world run

unfoldable pub udp_server_bench_entry : BenchArgs → World → Cstring → ℕ → Option ℤ
unfolding open_tries exists_socket listen exchange_all monitor
udp_server_bench_entry args world listenbuf fuel =
    let count_thr = args.threads in
    let run = do
      packsizes ←
          exchange_all (λ thrid. listen (world.answers thrid) listenbuf fuel 0 0) 1 count_thr
      last ← monitor world.seen count_thr fuel 0
      some (pos 0)
    in with_main_socket args world run
