-- ===== src/Udp/Touch.antt =====
-- rbench-udp.cpp: the exchanges before the threads start, and the monitor beside the threads.
use r_bench_an_interference.Base.{
  ℕ, zero, suc, ◌+◌, ◌<◌, ◌≡◌, refl, arith, ap, sym, ◌∙◌, ltb, ◌==◌, true, false, Option, none,
  some, Option-cases, Bool-cases, inl, inr,
}
use r_bench_an_interference.Base.Int.{ℤ}
use r_bench_an_interference.Base.Cstring.{Cstring, atoi}
use r_bench_an_interference.Udp.System.{ServerState, initial, failed, Reach, here, tick}
use r_bench_an_interference.Udp.Monitor.{
  HasFinished, monitor_ends, failed_thread, Reach-append, Reach-failed,
}
use r_bench_an_interference.Udp.Entry.{next_fail, touch, listen, monitor}

next_fail-below : (fail_cnt : ℕ) → next_fail fail_cnt < 10
next_fail-below fail_cnt = ground arith

pub touch-answer :
    (replies : ℕ → Option Cstring) (recvbuf : Cstring) (n fuel i fail_cnt : ℕ)
    → ((j : ℕ) → j < n → replies (i + j) ≡ none)
    → replies (i + n) ≡ some recvbuf
    → n < fuel
    → fail_cnt < 10
    → touch replies fuel i fail_cnt ≡ some (atoi recvbuf)
unfolding touch
touch-answer replies recvbuf n zero i fail_cnt silent answer enough few = absurd (omega arith)
touch-answer replies recvbuf zero (suc fuel) i fail_cnt silent answer enough few =
    let below : ltb fail_cnt 10 ≡ true = ground arith in
    let now : replies i ≡ some recvbuf = ap replies (omega arith) ∙ answer in
    rw (touch, below, now) refl
touch-answer replies recvbuf (suc n) (suc fuel) i fail_cnt silent answer enough few =
    let below : ltb fail_cnt 10 ≡ true = ground arith in
    let now : replies i ≡ none = ap replies (omega arith) ∙ silent 0 (omega arith) in
    rw (touch, below, now)
      (touch-answer replies recvbuf n fuel (suc i) (next_fail fail_cnt)
        (λ j h. ap replies (omega arith) ∙ silent (suc j) (omega arith))
        (ap replies (omega arith) ∙ answer) (omega arith) (next_fail-below fail_cnt))

pub touch-silent :
    (replies : ℕ → Option Cstring) (fuel i fail_cnt : ℕ)
    → ((j : ℕ) → replies j ≡ none)
    → fail_cnt < 10
    → touch replies fuel i fail_cnt ≡ none
unfolding touch
touch-silent replies zero i fail_cnt silent few = refl
touch-silent replies (suc fuel) i fail_cnt silent few =
    let below : ltb fail_cnt 10 ≡ true = ground arith in
    rw (touch, below, silent i)
      (touch-silent replies fuel (suc i) (next_fail fail_cnt) silent (next_fail-below fail_cnt))

pub listen-touch :
    (messages : ℕ → Option Cstring) (listenbuf : Cstring) (fuel i fail_cnt : ℕ)
    → fail_cnt < 10
    → listen messages listenbuf fuel i fail_cnt ≡ touch messages fuel i fail_cnt
unfolding listen touch
listen-touch messages listenbuf zero i fail_cnt few = refl
listen-touch messages listenbuf (suc fuel) i fail_cnt few =
    let below : ltb fail_cnt 10 ≡ true = ground arith in
    elim (Option-cases (messages i)) [
      | inl e ↦
          rw (listen, touch, below, e)
            (listen-touch messages listenbuf fuel (suc i) (next_fail fail_cnt)
              (next_fail-below fail_cnt))
      | inr (received, e) ↦ rw (listen, touch, below, e) refl
    ]

-- A run of the server: the state at each look of the monitor.
pub record Schedule (n : ℕ) : Type 0 where
  pub states : ℕ → ServerState
  pub first : Reach n initial (states 0)
  pub later : (k : ℕ) → Reach n (states k) (states (suc k))

abbrev pub looks : {n : ℕ} → Schedule n → ℕ → ℕ → ℤ
looks schedule k = (schedule.states k).conns

reached : {n : ℕ} (schedule : Schedule n) (k : ℕ) → Reach n initial (schedule.states k)
reached schedule zero = schedule.first
reached schedule (suc k) = Reach-append (reached schedule k) (schedule.later k)

injective : {a b : ℕ} → some a ≡ some b → a ≡ b
injective e = ground arith

pub monitor-HasFinished :
    {n : ℕ} (schedule : Schedule n) (fuel k last i : ℕ)
    → monitor (looks schedule) n fuel k ≡ some last
    → i < n
    → HasFinished ((schedule.states last).phase i)
unfolding monitor
monitor-HasFinished schedule zero k last i ends below = absurd (ground arith)
monitor-HasFinished {n} schedule (suc fuel) k last i ends below =
    elim (Bool-cases ((tick (looks schedule k) n).cnt_norun == n)) [
      | inl all ↦
          let ended : monitor (looks schedule) n (suc fuel) k ≡ some k = rw (monitor, all) refl in
          let same : last ≡ k = injective (sym ends ∙ ended) in
          rw same ((monitor_ends (reached schedule k)).0 (ground arith) i below)
      | inr some_run ↦
          let goes_on : monitor (looks schedule) n (suc fuel) k
              ≡ monitor (looks schedule) n fuel (suc k) =
            rw (monitor, some_run) refl in
          monitor-HasFinished schedule fuel (suc k) last i (sym goes_on ∙ ends) below
    ]

pub monitor-failed :
    {n : ℕ} (schedule : Schedule n) (fuel k i : ℕ)
    → i < n
    → (schedule.states k).phase i ≡ failed
    → monitor (looks schedule) n fuel k ≡ none
unfolding monitor
monitor-failed schedule zero k i below e = refl
monitor-failed {n} schedule (suc fuel) k i below e =
    let runs : (tick (looks schedule k) n).cnt_norun < n =
      failed_thread (reached schedule k) below e here in
    let not_all : (tick (looks schedule k) n).cnt_norun == n ≡ false = ground arith in
    rw (monitor, not_all)
      (monitor-failed schedule fuel (suc k) i below (Reach-failed (schedule.later k) e))
