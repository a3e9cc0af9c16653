-- ===== src/Udp/Client/Watch.antt =====
-- rbench-udp.cpp: what the main thread of the client reads off `conns` in every reachable state.
use r_bench_an_interference.Base.{
  ℕ, zero, suc, ◌+◌, ◌*◌, ◌-◌, ◌≤◌, ◌≡◌, refl, arith, Bool, true, false, ◌==◌, if◌then◌else◌,
}
use r_bench_an_interference.Base.Int.{ℤ, pos, ◌+ℤ◌, neg_ℤ, eqb_ℤ}
use r_bench_an_interference.Udp.Threads.{net_thread_wait, net_thread_ready, net_thread_error}
use r_bench_an_interference.Udp.System.{add_conn, tick}
use r_bench_an_interference.Udp.Total.{total}
use r_bench_an_interference.Udp.Entry.{wait_cnt}
use r_bench_an_interference.Udp.Client.{
  ClientPhase, setting_up, failed, running, finished, ClientMove, fail, ready, round, finish,
  ClientState, initial_client, ClientStep, start_thread, stop_waiting, move, ClientReach, here,
  next,
}

-- `*pconn` in each phase.
abbrev ConnIs : ClientPhase → ℤ → Type 0
ConnIs setting_up c = c ≡ net_thread_wait
ConnIs failed c = c ≡ net_thread_error
ConnIs (running r) c = c ≡ net_thread_ready +ℤ pos (100 * r)
ConnIs (finished r) c = (5000 ≤ r) × (c ≡ neg_ℤ (net_thread_ready +ℤ pos (100 * r)))

ready_plus :
    (a b d : ℕ) → d ≡ a + b → (net_thread_ready +ℤ pos a) +ℤ pos b ≡ net_thread_ready +ℤ pos d
unfolding ◌+ℤ◌
ready_plus a b d e = ground arith

ClientMove-ConnIs : {p q : ClientPhase} {c d : ℤ} → ClientMove p c q d → ConnIs p c → ConnIs q d
unfolding ◌+ℤ◌
ClientMove-ConnIs fail h = refl
ClientMove-ConnIs ready h = refl
ClientMove-ConnIs (round {r}) h = rw h (ready_plus (100 * r) 100 (100 * suc r) (omega arith))
ClientMove-ConnIs (finish enough) h = (enough, rw h refl)

abbrev Inv : ClientState → Type 0
Inv s = (i : ℕ) → ConnIs (s.phase i) (s.conns i)

ClientStep-Inv : {n : ℕ} {s t : ClientState} → ClientStep n s t → Inv s → Inv t
ClientStep-Inv (start_thread s h) inv i = inv i
ClientStep-Inv (stop_waiting s h none_waits) inv i = inv i
ClientStep-Inv (move s j {p} {c} h m) inv i = choose (j == i) refl
  where
    choose :
        (b : Bool) → (j == i) ≡ b → ConnIs (if b then p else s.phase i) (if b then c else s.conns i)
    choose true e = ClientMove-ConnIs m (inv j)
    choose false e = inv i

ClientReach-Inv : {n : ℕ} {s : ClientState} → ClientReach n initial_client s → Inv s
ClientReach-Inv here i = refl
ClientReach-Inv (next r st) i = ClientStep-Inv st (ClientReach-Inv r) i

-- The packets of a thread as the monitor sees them, and whether it waits, or runs no more.
abbrev pub shown : ClientPhase → ℕ
shown (running r) = 100 * r - 9
shown (finished r) = 100 * r - 9
shown _ = 0

abbrev pub stopped : ClientPhase → ℕ
stopped (finished r) = 1
stopped _ = 0

abbrev pub waits : ClientPhase → ℕ
waits setting_up = 1
waits _ = 0

add_conn_lem :
    (p : ClientPhase) (c : ℤ) (sum cnt : ℕ)
    → ConnIs p c
    → add_conn c (record { nowpsum = pos sum; cnt_norun = cnt })
      ≡ record { nowpsum = pos (sum + shown p); cnt_norun = cnt + stopped p }
unfolding ◌+ℤ◌
add_conn_lem setting_up c sum cnt h = ground arith
add_conn_lem failed c sum cnt h = ground arith
add_conn_lem (running r) c sum cnt h = ground arith
add_conn_lem (finished r) c sum cnt h = ground arith

waits_lem :
    (p : ClientPhase) (c : ℤ) → ConnIs p c → (if eqb_ℤ c net_thread_wait then 1 else 0) ≡ waits p
unfolding ◌+ℤ◌
waits_lem setting_up c h = ground arith
waits_lem failed c h = ground arith
waits_lem (running r) c h = ground arith
waits_lem (finished r) c h = ground arith

pub tick_of :
    {n : ℕ} {s : ClientState} (k : ℕ)
    → ClientReach n initial_client s
    → tick s.conns k
      ≡ record { nowpsum = pos (total shown s.phase k); cnt_norun = total stopped s.phase k }
unfolding tick total
tick_of zero r = refl
tick_of {s} (suc i) r = rw (tick_of i r) (
    add_conn_lem (s.phase i) (s.conns i) (total shown s.phase i) (total stopped s.phase i)
      (ClientReach-Inv r i))

pub wait_cnt_of :
    {n : ℕ} {s : ClientState} (k : ℕ)
    → ClientReach n initial_client s
    → wait_cnt s.conns k ≡ total waits s.phase k
unfolding wait_cnt total
wait_cnt_of zero r = refl
wait_cnt_of {s} (suc i) r =
    omega (arith, wait_cnt_of i r, waits_lem (s.phase i) (s.conns i) (ClientReach-Inv r i))
