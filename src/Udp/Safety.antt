-- ===== src/Udp/Safety.antt =====
-- rbench-udp.cpp: what holds of the server's threads in every reachable state, and what the monitor
-- concludes from it.
use r_bench_an_interference.Base.{
  ℕ, zero, suc, ◌+◌, ◌*◌, ◌-◌, ◌≤◌, ◌≡◌, ◌⊎◌, inl, inr, refl, sym, arith, Bool, true, false, ltb,
  ◌==◌, if◌then◌else◌,
}
use r_bench_an_interference.Base.Int.{ℤ, pos, ◌+ℤ◌, neg_ℤ}
use r_bench_an_interference.Udp.Threads.{net_thread_wait, net_thread_ready, net_thread_error}
use r_bench_an_interference.Udp.Total.{total}
use r_bench_an_interference.Udp.System.{
  Phase, setting_up, failed, waiting, running, finished, Move, fail, wait, go, round, finish,
  ServerState, initial, Step, start_thread, store_ready, move, Reach, here, next, add_conn, tick,
}

-- `*pconn` in each phase; `stored` says whether the main thread has said ready.
abbrev pub ConnIs : Bool → Phase → ℤ → Type 0
ConnIs stored setting_up c = c ≡ (if stored then net_thread_ready else net_thread_wait)
ConnIs stored failed c = (c ≡ net_thread_error) ⊎ (c ≡ net_thread_ready)
ConnIs stored waiting c = c ≡ (if stored then net_thread_ready else net_thread_wait)
ConnIs stored (running r) c = (stored ≡ true) × (c ≡ net_thread_ready +ℤ pos (40 * r))
ConnIs stored (finished r) c =
    (stored ≡ true) × (2000 ≤ r) × (c ≡ neg_ℤ (net_thread_ready +ℤ pos (40 * r)))

ready_plus :
    (a b d : ℕ) → d ≡ a + b → (net_thread_ready +ℤ pos a) +ℤ pos b ≡ net_thread_ready +ℤ pos d
unfolding ◌+ℤ◌
ready_plus a b d e = ground arith

Move-ConnIs :
    {p q : Phase} {c d : ℤ} (stored : Bool) → Move p c q d → ConnIs stored p c → ConnIs stored q d
unfolding ◌+ℤ◌
Move-ConnIs stored fail h = inl refl
Move-ConnIs stored wait h = h
Move-ConnIs true go h = (refl, refl)
Move-ConnIs false go h = absurd (ground arith)
Move-ConnIs stored (round {r}) h = (h.0, rw h.1 (ready_plus (40 * r) 40 (40 * suc r) (omega arith)))
Move-ConnIs stored (finish enough) h = (h.0, enough, rw h.1 refl)

abbrev pub Inv : ServerState → Type 0
Inv s = (i : ℕ) → ConnIs (ltb i s.stored) (s.phase i) (s.conns i)

-- The main thread's store: only to the thread whose turn it is, which does not run yet.
store-ConnIs : (p : Phase) (c : ℤ) → ConnIs false p c → ConnIs true p net_thread_ready
store-ConnIs setting_up c h = refl
store-ConnIs failed c h = inr refl
store-ConnIs waiting c h = refl
store-ConnIs (running r) c h = absurd (ground arith)
store-ConnIs (finished r) c h = absurd (ground arith)

retell : {a b : Bool} (p : Phase) (c : ℤ) → a ≡ b → ConnIs a p c → ConnIs b p c
retell {b} p c e h = rw (sym e) h

Step-Inv : {n : ℕ} {s t : ServerState} → Step n s t → Inv s → Inv t
Step-Inv (start_thread s h) inv i = inv i
Step-Inv (store_ready s h below) inv i = choose (s.stored == i) refl
  where
    choose :
        (b : Bool)
        → (s.stored == i) ≡ b
        → ConnIs (ltb i (suc s.stored)) (s.phase i) (if b then net_thread_ready else s.conns i)
    choose true e = retell {a = true} (s.phase i) net_thread_ready (ground arith) (
        store-ConnIs (s.phase i) (s.conns i)
          (retell {a = ltb i s.stored} {b = false} (s.phase i) (s.conns i) (ground arith) (inv i)))
    choose false e = retell {a = ltb i s.stored} (s.phase i) (s.conns i) (ground arith) (inv i)
Step-Inv (move s j {p} {c} h m) inv i = choose (j == i) refl
  where
    choose :
        (b : Bool)
        → (j == i) ≡ b
        → ConnIs (ltb i s.stored) (if b then p else s.phase i) (if b then c else s.conns i)
    choose true e =
        let same : i ≡ j = ground arith in rw same (Move-ConnIs (ltb j s.stored) m (inv j))
    choose false e = inv i

initial-Inv : Inv initial
initial-Inv i = ground arith

pub Reach-Inv : {n : ℕ} {s : ServerState} → Reach n initial s → Inv s
Reach-Inv here = initial-Inv
Reach-Inv (next r st) = Step-Inv st (Reach-Inv r)

-- What a thread has passed on as the monitor sees it, and whether it runs no more.
abbrev pub shown : Phase → ℕ
shown setting_up = 0
shown failed = 0
shown waiting = 0
shown (running r) = 40 * r - 9
shown (finished r) = 40 * r - 9

abbrev pub stopped : Phase → ℕ
stopped setting_up = 0
stopped failed = 0
stopped waiting = 0
stopped (running r) = 0
stopped (finished r) = 1

add_conn_lem :
    (stored : Bool) (p : Phase) (c : ℤ) (sum cnt : ℕ)
    → ConnIs stored p c
    → add_conn c (record { nowpsum = pos sum; cnt_norun = cnt })
      ≡ record { nowpsum = pos (sum + shown p); cnt_norun = cnt + stopped p }
unfolding ◌+ℤ◌
add_conn_lem true setting_up c sum cnt h = ground arith
add_conn_lem false setting_up c sum cnt h = ground arith
add_conn_lem true waiting c sum cnt h = ground arith
add_conn_lem false waiting c sum cnt h = ground arith
add_conn_lem stored failed c sum cnt (inl h) = ground arith
add_conn_lem stored failed c sum cnt (inr h) = ground arith
add_conn_lem stored (running r) c sum cnt h = ground arith
add_conn_lem stored (finished r) c sum cnt h = ground arith

pub tick_of :
    (s : ServerState) (n : ℕ)
    → Inv s
    → tick s.conns n
      ≡ record { nowpsum = pos (total shown s.phase n); cnt_norun = total stopped s.phase n }
unfolding tick total
tick_of s zero inv = refl
tick_of s (suc i) inv = rw (tick_of s i inv) (
    add_conn_lem (ltb i s.stored) (s.phase i) (s.conns i) (total shown s.phase i)
      (total stopped s.phase i) (inv i))
