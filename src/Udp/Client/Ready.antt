-- ===== src/Udp/Client/Ready.antt =====
-- rbench-udp.cpp: what is known once the main thread of the client has left its loop on `WAIT_cnt`,
-- and when its monitor ends.
use r_bench_an_interference.Base.{
  ℕ, ◌≤◌, ◌<◌, ◌≡◌, ◌≢◌, ◌↔◌, refl, arith, ap, sym, ◌∙◌, ◌==◌, Bool, true, false, if◌then◌else◌,
}
use r_bench_an_interference.Base.Int.{ℤ}
use r_bench_an_interference.Udp.System.{tick, Tick}
use r_bench_an_interference.Udp.Client.{
  ClientPhase, setting_up, failed, running, finished, ClientMove, fail, ready, round, finish,
  ClientState, initial_client, ClientStep, start_thread, stop_waiting, move, ClientReach, here,
  next,
}
use r_bench_an_interference.Udp.Total.{total, total-zero, total-full, full-total}
use r_bench_an_interference.Udp.Client.Watch.{stopped, waits, tick_of, wait_cnt_of}

ClientMove-waits : {p q : ClientPhase} {c d : ℤ} → ClientMove p c q d → waits q ≡ 0
ClientMove-waits fail = refl
ClientMove-waits ready = refl
ClientMove-waits round = refl
ClientMove-waits (finish h) = refl

abbrev NoneWaits : ℕ → ClientState → Type 0
NoneWaits n s = s.waited ≡ true → (i : ℕ) → i < n → waits (s.phase i) ≡ 0

ClientStep-NoneWaits :
    {n : ℕ} {s t : ClientState}
    → ClientReach n initial_client s
    → ClientStep n s t
    → NoneWaits n s
    → NoneWaits n t
ClientStep-NoneWaits r (start_thread s h) inv e i below = inv e i below
ClientStep-NoneWaits {n} r (stop_waiting s h none) inv e i below =
    total-zero waits s.phase n (sym (wait_cnt_of n r) ∙ none) i below
ClientStep-NoneWaits r (move s j {p} h m) inv e i below = choose (j == i)
  where
    choose : (b : Bool) → waits (if b then p else s.phase i) ≡ 0
    choose true = ClientMove-waits m
    choose false = inv e i below

ClientReach-NoneWaits : {n : ℕ} {s : ClientState} → ClientReach n initial_client s → NoneWaits n s
ClientReach-NoneWaits here e i below = absurd (ground arith)
ClientReach-NoneWaits (next r st) e i below =
    ClientStep-NoneWaits r st (ClientReach-NoneWaits r) e i below

not_setting_up : {p : ClientPhase} → waits p ≡ 0 → p ≢ setting_up
not_setting_up {p} e e' = absurd (let bad : waits p ≡ 1 = ap waits e' in omega (arith, e, bad))

-- Once the main thread of the client has left its loop on `WAIT_cnt`, each of the threads is ready or
-- has failed, in whatever order their steps came, and this stays so.
waited-none_setting_up :
    {n : ℕ} {s : ClientState}
    → ClientReach n initial_client s
    → s.waited ≡ true
    → (i : ℕ) → i < n
    → s.phase i ≢ setting_up
waited-none_setting_up r e i below = not_setting_up (ClientReach-NoneWaits r e i below)

abbrev pub HasFinished : ClientPhase → Type 0
HasFinished p = (r : ℕ) × (p ≡ finished r)

stopped_le : (p : ClientPhase) → stopped p ≤ 1
stopped_le (finished r) = omega arith
stopped_le setting_up = omega arith
stopped_le failed = omega arith
stopped_le (running r) = omega arith

stopped-HasFinished : (p : ClientPhase) → stopped p ≡ 1 → HasFinished p
stopped-HasFinished setting_up e = absurd (omega arith)
stopped-HasFinished failed e = absurd (omega arith)
stopped-HasFinished (running r) e = absurd (omega arith)
stopped-HasFinished (finished r) e = (r, refl)

HasFinished-stopped : {p : ClientPhase} → HasFinished p → stopped p ≡ 1
HasFinished-stopped (r, e) = rw e refl

-- In every reachable state of the client, the count of its monitor is the number of threads exactly
-- when each thread has come to its end after all its rounds.
pub client_monitor_ends :
    {n : ℕ} {s : ClientState}
    → ClientReach n initial_client s
    → ((tick s.conns n).cnt_norun ≡ n) ↔ ((i : ℕ) → i < n → HasFinished (s.phase i))
client_monitor_ends {n} {s} r = (
  (λ e i h.
      stopped-HasFinished (s.phase i)
        (total-full stopped s.phase n stopped_le (sym counted ∙ e) i h)),
  (λ h. counted ∙ full-total stopped s.phase n (λ i below. HasFinished-stopped (h i below))),
)
  where
    counted : (tick s.conns n).cnt_norun ≡ total stopped s.phase n
    counted = ap (λ (t : Tick). t.cnt_norun) (tick_of n r)
