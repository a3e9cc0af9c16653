-- ===== src/Udp/Client.antt =====
-- rbench-udp.cpp: the main thread of the client beside its workers. Every step is one store or one
-- round of one thread, or a look of the main thread, and the steps come in any order.
pub mod Watch
pub mod Ready
pub mod Progress
use r_bench_an_interference.Base.{ℕ, zero, suc, ◌≤◌, ◌<◌, ◌≡◌, Bool, true, false}
use r_bench_an_interference.Base.Int.{ℤ, pos, ◌+ℤ◌, neg_ℤ}
use r_bench_an_interference.Udp.Threads.{net_thread_wait, net_thread_ready, net_thread_error}
use r_bench_an_interference.Udp.System.{update}
use r_bench_an_interference.Udp.Entry.{wait_cnt}

-- Where a thread of `udp_client_bench` is. The number counts the calls of the kernel so far.
pub data ClientPhase : Type 0 where
  setting_up : ClientPhase
  failed : ClientPhase
  running : ℕ → ClientPhase
  finished : ℕ → ClientPhase

-- A step of a thread, with its `*pconn` before and after. It stores itself that it is ready, when the
-- server has told it so; behind 1000 receives it fails.
pub data ClientMove : ClientPhase → ℤ → ClientPhase → ℤ → Type 0 where
  fail : {c : ℤ} → ClientMove setting_up c failed net_thread_error
  ready : {c : ℤ} → ClientMove setting_up c (running 0) net_thread_ready
  round : {r : ℕ} {c : ℤ} → ClientMove (running r) c (running (suc r)) (c +ℤ pos 100)
  finish : {r : ℕ} {c : ℤ} → 5000 ≤ r → ClientMove (running r) c (finished r) (neg_ℤ c)

-- `started` threads exist; `waited` says that the main thread has left its loop on `WAIT_cnt`.
pub record ClientState : Type 0 where
  pub started : ℕ
  pub waited : Bool
  pub phase : ℕ → ClientPhase
  pub conns : ℕ → ℤ

abbrev pub initial_client : ClientState
initial_client = record {
  started = 0;
  waited = false;
  phase = λ i. setting_up;
  conns = λ i. net_thread_wait;
}

-- The main thread starts the threads one after another, and then waits until none is at WAIT.
pub data ClientStep (count_thr : ℕ) : ClientState → ClientState → Type 0 where
  start_thread :
      (s : ClientState)
      → s.started < count_thr
      → ClientStep count_thr s (record s { started = suc s.started })
  stop_waiting :
      (s : ClientState)
      → s.started ≡ count_thr
      → wait_cnt s.conns count_thr ≡ 0
      → ClientStep count_thr s (record s { waited = true })
  move :
      (s : ClientState) (i : ℕ) {p : ClientPhase} {c : ℤ}
      → i < s.started
      → ClientMove (s.phase i) (s.conns i) p c
      → ClientStep count_thr s (record s { phase = update s.phase i p; conns = update s.conns i c })

pub data ClientReach (count_thr : ℕ) (s : ClientState) : ClientState → Type 0 where
  here : ClientReach count_thr s s
  next :
      {t u : ClientState}
      → ClientReach count_thr s t
      → ClientStep count_thr t u
      → ClientReach count_thr s u
