-- ===== src/Udp/Monitor.antt =====
-- rbench-udp.cpp: what the monitor of the server reads off `conns` in every reachable state, and
-- when it ends.
use native.Mathlib.Decide.{dec_lt}
use r_bench_an_interference.Base.{
  ℕ, ◌≤◌, ◌<◌, ◌≡◌, ◌↔◌, refl, arith, ap, sym, ◌∙◌, ◌==◌, Bool, true, false, if◌then◌else◌,
}
use r_bench_an_interference.Base.Int.{ℤ, pos}
use r_bench_an_interference.Udp.System.{
  Phase, setting_up, failed, waiting, running, finished, Move, fail, wait, go, round, finish,
  ServerState, initial, Step, start_thread, store_ready, move, Reach, here, next, Tick, tick,
}
use r_bench_an_interference.Udp.Total.{total, total-le, total-full, full-total}
use r_bench_an_interference.Udp.Safety.{shown, stopped, tick_of, Reach-Inv}

-- What a look at one moment sums up: in whole numbers, which doubles are up to 2 ^ 53, the packets of
-- the rounds so far, less nine for each thread that has run a round, and the threads that have ended.
monitor_reads :
    {n : ℕ} {s : ServerState}
    → Reach n initial s
    → tick s.conns n
      ≡ record { nowpsum = pos (total shown s.phase n); cnt_norun = total stopped s.phase n }
monitor_reads {n} {s} r = tick_of s n (Reach-Inv r)

abbrev pub HasFinished : Phase → Type 0
HasFinished p = (r : ℕ) × (p ≡ finished r)

stopped_le : (p : Phase) → stopped p ≤ 1
stopped_le (finished r) = omega arith
stopped_le setting_up = omega arith
stopped_le failed = omega arith
stopped_le waiting = omega arith
stopped_le (running r) = omega arith

stopped-HasFinished : (p : Phase) → stopped p ≡ 1 → HasFinished p
stopped-HasFinished setting_up e = absurd (omega arith)
stopped-HasFinished failed e = absurd (omega arith)
stopped-HasFinished waiting e = absurd (omega arith)
stopped-HasFinished (running r) e = absurd (omega arith)
stopped-HasFinished (finished r) e = (r, refl)

HasFinished-stopped : {p : Phase} → HasFinished p → stopped p ≡ 1
HasFinished-stopped (r, e) = rw e refl

-- In every reachable state of the server and its threads, the count of the monitor is the number of
-- threads, which ends its loop, exactly when each thread has come to its end after all its rounds.
pub monitor_ends :
    {n : ℕ} {s : ServerState}
    → Reach n initial s
    → ((tick s.conns n).cnt_norun ≡ n) ↔ ((i : ℕ) → i < n → HasFinished (s.phase i))
monitor_ends {n} {s} r = (
  (λ e i h.
      stopped-HasFinished (s.phase i)
        (total-full stopped s.phase n stopped_le (sym counted ∙ e) i h)),
  (λ h. counted ∙ full-total stopped s.phase n (λ i below. HasFinished-stopped (h i below))),
)
  where
    counted : (tick s.conns n).cnt_norun ≡ total stopped s.phase n
    counted = ap (λ (t : Tick). t.cnt_norun) (monitor_reads r)

Move-failed : {p q : Phase} {c d : ℤ} → Move p c q d → p ≡ failed → q ≡ failed
Move-failed fail e = refl
Move-failed wait e = absurd (ground arith)
Move-failed go e = absurd (ground arith)
Move-failed round e = absurd (ground arith)
Move-failed (finish h) e = absurd (ground arith)

Step-failed : {n i : ℕ} {s t : ServerState} → Step n s t → s.phase i ≡ failed → t.phase i ≡ failed
Step-failed (start_thread s h) e = e
Step-failed (store_ready s h below) e = e
Step-failed {i} (move s j {p} {c} h m) e = choose (j == i) refl
  where
    choose : (b : Bool) → (j == i) ≡ b → (if b then p else s.phase i) ≡ failed
    choose true same = let same_j : j ≡ i = ground arith in Move-failed m (ap s.phase same_j ∙ e)
    choose false other = e

pub Reach-failed :
    {n i : ℕ} {s t : ServerState} → Reach n s t → s.phase i ≡ failed → t.phase i ≡ failed
Reach-failed here e = e
Reach-failed (next r st) e = Step-failed st (Reach-failed r e)

pub Reach-append : {n : ℕ} {s t u : ServerState} → Reach n s t → Reach n t u → Reach n s u
Reach-append r here = r
Reach-append r (next q st) = next (Reach-append r q) st

distinct : {k : ℕ} → ¬ (failed ≡ finished k)
distinct e = ground arith

pub failed_thread :
    {n i : ℕ} {s t : ServerState}
    → Reach n initial s
    → i < n
    → s.phase i ≡ failed
    → Reach n s t
    → (tick t.conns n).cnt_norun < n
failed_thread {n} {i} {s} {t} r below e later = elim (dec_lt (tick t.conns n).cnt_norun n) [
  | yes h ↦ h
  | no all ↦ absurd (still_failed ((monitor_ends reached).0 (omega (arith, at_most)) i below))
]
  where
    reached : Reach n initial t
    reached = Reach-append r later

    at_most : (tick t.conns n).cnt_norun ≤ n
    at_most = rw (monitor_reads reached) (total-le stopped t.phase n stopped_le)

    still_failed : ¬ HasFinished (t.phase i)
    still_failed (k, done) = distinct (sym (Reach-failed later e) ∙ done)
