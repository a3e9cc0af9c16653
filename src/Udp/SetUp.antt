-- ===== src/Udp/SetUp.antt =====
-- rbench-udp.cpp: how a thread of the client or of the server gets ready.
use r_bench_an_interference.Base.{ℕ, zero, suc, ◌+◌, ◌<◌, ◌≡◌, ◌∙◌, ap, ◌⊎◌, inl, inr, refl, arith}
use r_bench_an_interference.Base.{Bool, true, false, not, if◌then◌else◌, Option, none, some}
use r_bench_an_interference.Base.Int.{ℤ, eqb_ℤ}
use r_bench_an_interference.Base.Cstring.{Cstring}
use r_bench_an_interference.Opts.{BenchArgs}
use r_bench_an_interference.Net.{exists_socket}
use r_bench_an_interference.Udp.{PortSearch, bound, no_available_port}
use r_bench_an_interference.Udp.Laws.{find_port-total}
use r_bench_an_interference.Udp.Threads.{
  net_thread_ready, net_thread_error, Answers, Conn, wait_ready, with_found, with_port,
  client_set_up, server_set_up, wait_told, Waits, with_received,
}

-- A thread that fails before its loop.
abbrev pub failed_conn : Conn
failed_conn = record { pconn = net_thread_error; packets = 0 }

abbrev pub IsReadyOrError : Option ℤ → Type 0
IsReadyOrError run = (run ≡ some net_thread_ready) ⊎ (run ≡ some net_thread_error)

with_port-IsReadyOrError :
    (args : BenchArgs) (answers : Answers) (go : Option ℤ)
    → IsReadyOrError go
    → IsReadyOrError (with_port args answers go)
with_port-IsReadyOrError args answers go h =
    let (r, found) =
      find_port-total answers.binds args.netaddr.port 65532 0 (omega arith) (omega arith) in
    choose (not (exists_socket _)) (rw found (port r))
  where
    port : (r : PortSearch) → IsReadyOrError (with_found answers.sends go (some r))
    port no_available_port = inr refl
    port (bound p) = sent answers.sends
      where
        sent : (b : Bool) → IsReadyOrError (if b then go else some net_thread_error)
        sent true = h
        sent false = inr refl

    choose :
        (b : Bool) {run : Option ℤ}
        → IsReadyOrError run
        → IsReadyOrError (if b then some net_thread_error else run)
    choose true ok = inr refl
    choose false ok = ok

pub client_set_up-IsReadyOrError :
    (args : BenchArgs) (answers : Answers) (conn : ℤ)
    → IsReadyOrError (client_set_up args answers conn)
unfolding client_set_up
client_set_up-IsReadyOrError args answers conn =
    with_port-IsReadyOrError args answers _
      (choose (eqb_ℤ (wait_ready answers.replies 1000 0 conn) net_thread_ready))
  where
    choose : (b : Bool) → IsReadyOrError (some (if b then net_thread_ready else net_thread_error))
    choose true = inl refl
    choose false = inr refl

-- A look that reads ready ends the wait.
wait_told-ready :
    (told : ℕ → ℤ) (d left i : ℕ)
    → d < left
    → told (i + d) ≡ net_thread_ready
    → wait_told told left i ≡ some net_thread_ready
unfolding wait_told
wait_told-ready told d zero i h e = absurd (omega arith)
wait_told-ready told zero (suc left) i h e =
    let here : told i ≡ net_thread_ready =
      ap told (let same : i ≡ i + 0 = omega arith in same) ∙ e in
    rw (wait_told, here) (ap some here)
wait_told-ready told (suc d) (suc left) i h e = by_look (eqb_ℤ (told i) net_thread_ready) refl (
    wait_told-ready told d left (i + 1) (omega arith)
      (ap told (let same : i + 1 + d ≡ i + suc d = omega arith in same) ∙ e))
  where
    by_look :
        (b : Bool)
        → eqb_ℤ (told i) net_thread_ready ≡ b
        → wait_told told left (i + 1) ≡ some net_thread_ready
        → wait_told told (suc left) i ≡ some net_thread_ready
    by_look true same rest =
        let here : told i ≡ net_thread_ready = ground arith in rw (wait_told, same) (ap some here)
    by_look false other rest = rw (wait_told, other) rest

-- As long as no look reads ready, it waits.
wait_told-none :
    (told : ℕ → ℤ) (left i : ℕ)
    → ((j : ℕ) → eqb_ℤ (told j) net_thread_ready ≡ false)
    → wait_told told left i ≡ none
unfolding wait_told
wait_told-none told zero i never = refl
wait_told-none told (suc left) i never =
    rw (wait_told, never i) (wait_told-none told left (i + 1) never)

-- With a `Recv` that returns, and a look that reads ready, the set-up of a server thread ends.
pub server_set_up-IsReadyOrError :
    (args : BenchArgs) (answers : Answers) (waits : Waits) (looks d : ℕ) (answer : Option Cstring)
    → waits.received ≡ some answer
    → d < looks
    → waits.told d ≡ net_thread_ready
    → IsReadyOrError (server_set_up args answers waits looks)
unfolding server_set_up
server_set_up-IsReadyOrError args answers waits looks d answer returns h e =
    with_port-IsReadyOrError args answers _ (rw returns (choose answer))
  where
    told : wait_told waits.told looks 0 ≡ some net_thread_ready
    told =
        wait_told-ready waits.told d looks 0 h
          (ap waits.told (let same : 0 + d ≡ d = omega arith in same) ∙ e)

    choose :
        (o : Option Cstring)
        → IsReadyOrError (with_received (some o) (wait_told waits.told looks 0))
    choose none = inr refl
    choose (some recvbuf) = inl told
