-- ===== src/Udp/System.antt =====
-- rbench-udp.cpp: the main thread of the server beside its workers. Every step is one store or one
-- round of one thread, and the steps of the threads come in any order.
use r_bench_an_interference.Base.{ℕ, zero, suc, ◌≤◌, ◌<◌, ◌≡◌, ◌==◌, if◌then◌else◌}
use r_bench_an_interference.Base.Int.{ℤ, pos, negsuc, ◌+ℤ◌, ltb_ℤ, leb_ℤ, neg_ℤ}
use r_bench_an_interference.Udp.Threads.{net_thread_wait, net_thread_ready, net_thread_error}

-- `NET_THREAD_STATE_BEGIN`
abbrev pub net_thread_state_begin : ℤ
net_thread_state_begin = negsuc 99

-- Where a thread of `udp_server_bench` is. The number counts the calls of the kernel so far.
pub data Phase : Type 0 where
  setting_up : Phase
  failed : Phase
  waiting : Phase
  running : ℕ → Phase
  finished : ℕ → Phase

-- A step of a thread, with its `*pconn` before and after.
pub data Move : Phase → ℤ → Phase → ℤ → Type 0 where
  fail : {c : ℤ} → Move setting_up c failed net_thread_error
  wait : {c : ℤ} → Move setting_up c waiting c
  go : Move waiting net_thread_ready (running 0) net_thread_ready
  round : {r : ℕ} {c : ℤ} → Move (running r) c (running (suc r)) (c +ℤ pos 40)
  finish : {r : ℕ} {c : ℤ} → 2000 ≤ r → Move (running r) c (finished r) (neg_ℤ c)

-- `started` threads exist, and the main thread has said ready to the first `stored` of them.
pub record ServerState : Type 0 where
  pub started : ℕ
  pub stored : ℕ
  pub phase : ℕ → Phase
  pub conns : ℕ → ℤ

abbrev pub update {ℓ} : {A : Type ℓ} → (ℕ → A) → ℕ → A → ℕ → A
update f i a j = if i == j then a else f j

abbrev pub initial : ServerState
initial = record { started = 0; stored = 0; phase = λ i. setting_up; conns = λ i. net_thread_wait }

-- The main thread starts the threads one after another, and then says ready to each.
pub data Step (count_thr : ℕ) : ServerState → ServerState → Type 0 where
  start_thread :
      (s : ServerState)
      → s.started < count_thr
      → Step count_thr s (record s { started = suc s.started })
  store_ready :
      (s : ServerState)
      → s.started ≡ count_thr
      → s.stored < count_thr
      → Step count_thr s
          (record s { stored = suc s.stored; conns = update s.conns s.stored net_thread_ready })
  move :
      (s : ServerState) (i : ℕ) {p : Phase} {c : ℤ}
      → i < s.started
      → Move (s.phase i) (s.conns i) p c
      → Step count_thr s (record s { phase = update s.phase i p; conns = update s.conns i c })

pub data Reach (count_thr : ℕ) (s : ServerState) : ServerState → Type 0 where
  here : Reach count_thr s s
  next : {t u : ServerState} → Reach count_thr s t → Step count_thr t u → Reach count_thr s u

-- What the monitor reads off `conns`: the packets, and how many threads run no more.
pub record Tick : Type 0 where
  pub nowpsum : ℤ
  pub cnt_norun : ℕ

abbrev pub add_conn : ℤ → Tick → Tick
add_conn conn t =
    if leb_ℤ (pos 0) conn
    then record t { nowpsum = t.nowpsum +ℤ conn }
    else if ltb_ℤ conn net_thread_state_begin
    then record { nowpsum = t.nowpsum +ℤ neg_ℤ conn; cnt_norun = suc t.cnt_norun }
    else t

-- The loop over the first threads, in the order of their numbers, as a look at one moment and in whole
-- numbers. Udp/Look has it read by read.
unfoldable pub tick : (ℕ → ℤ) → ℕ → Tick
tick conns zero = record { nowpsum = pos 0; cnt_norun = 0 }
tick conns (suc i) = add_conn (conns i) (tick conns i)
