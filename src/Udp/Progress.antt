-- ===== src/Udp/Progress.antt =====
-- rbench-udp.cpp: the server and its threads can come to their end from every reachable state but
-- those where a thread has failed.
use r_bench_an_interference.Base.{ℕ, ◌<◌, ◌≡◌, ◌≢◌, refl, arith, ◌==◌, true, false}
use r_bench_an_interference.Base.Int.{ℤ}
use r_bench_an_interference.Udp.System.{Phase, failed, ServerState, Reach, update, tick}
use r_bench_an_interference.Udp.Monitor.{HasFinished}

-- A state in which thread `i` has moved.
abbrev put : ServerState → ℕ → Phase → ℤ → ServerState
put s i p c = record s { phase = update s.phase i p; conns = update s.conns i c }

pub update_self {ℓ} : {A : Type ℓ} (f : ℕ → A) (i : ℕ) (a : A) → update f i a i ≡ a
update_self f i a = let same : (i == i) ≡ true = ground arith in rw same refl

pub update-ne {ℓ} : {A : Type ℓ} (f : ℕ → A) (i j : ℕ) (a : A) → i ≢ j → update f i a j ≡ f j
update-ne f i j a h = let other : (i == j) ≡ false = ground arith in rw other refl

-- Thread `i` has come to its end, and the others are where they were.
record Advanced (n i : ℕ) (s : ServerState) : Type 0 where
  after : ServerState
  reached : Reach n s after
  started_kept : after.started ≡ s.started
  stored_kept : after.stored ≡ s.stored
  done : HasFinished (after.phase i)
  others : (j : ℕ) → i ≢ j → after.phase j ≡ s.phase j

-- The main thread has started all threads, said ready to `stored` of them, and moved none.
record Begun (n stored : ℕ) (s : ServerState) : Type 0 where
  after : ServerState
  reached : Reach n s after
  all_started : after.started ≡ n
  said : after.stored ≡ stored
  phases : after.phase ≡ s.phase

abbrev NoneFailed : ℕ → ServerState → Type 0
NoneFailed n s = (i : ℕ) → i < n → s.phase i ≢ failed

-- The first `k` threads have come to their end.
record FirstDone (n k : ℕ) (s : ServerState) : Type 0 where
  after : ServerState
  reached : Reach n s after
  all_started : after.started ≡ n
  said : after.stored ≡ n
  first : (i : ℕ) → i < k → HasFinished (after.phase i)
  sound : NoneFailed n after

abbrev pub CanEnd : ℕ → ServerState → Type 0
CanEnd n s = (t : ServerState) × Reach n s t × ((tick t.conns n).cnt_norun ≡ n)
