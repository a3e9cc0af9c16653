-- ===== src/Udp/Client/Progress.antt =====
-- rbench-udp.cpp: the client and its threads can come to their end from every reachable state but
-- those where a thread has failed.
use r_bench_an_interference.Base.{ℕ, ◌<◌, ◌≡◌, ◌≢◌, true}
use r_bench_an_interference.Base.Int.{ℤ}
use r_bench_an_interference.Udp.System.{update, tick}
use r_bench_an_interference.Udp.Client.{ClientPhase, failed, ClientState, ClientReach}
use r_bench_an_interference.Udp.Client.Ready.{HasFinished}

-- A state in which thread `i` has moved.
abbrev put : ClientState → ℕ → ClientPhase → ℤ → ClientState
put s i p c = record s { phase = update s.phase i p; conns = update s.conns i c }

-- Thread `i` has come to its end, and the others are where they were.
record Advanced (n i : ℕ) (s : ClientState) : Type 0 where
  after : ClientState
  reached : ClientReach n s after
  started_kept : after.started ≡ s.started
  done : HasFinished (after.phase i)
  others : (j : ℕ) → i ≢ j → after.phase j ≡ s.phase j

-- The main thread has started all threads and moved none.
record Begun (n : ℕ) (s : ClientState) : Type 0 where
  after : ClientState
  reached : ClientReach n s after
  all_started : after.started ≡ n
  phases : after.phase ≡ s.phase

abbrev NoneFailed : ℕ → ClientState → Type 0
NoneFailed n s = (i : ℕ) → i < n → s.phase i ≢ failed

-- The first `k` threads have come to their end.
record FirstDone (n k : ℕ) (s : ClientState) : Type 0 where
  after : ClientState
  reached : ClientReach n s after
  all_started : after.started ≡ n
  first : (i : ℕ) → i < k → HasFinished (after.phase i)
  sound : NoneFailed n after

-- The main thread has left its loop on `WAIT_cnt`, and its monitor sees that no thread runs any more.
abbrev pub ClientCanEnd : ℕ → ClientState → Type 0
ClientCanEnd n s =
    (t : ClientState) × ClientReach n s t × (t.waited ≡ true) × ((tick t.conns n).cnt_norun ≡ n)
