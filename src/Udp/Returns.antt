-- ===== src/Udp/Returns.antt =====
-- rbench-udp.cpp: what `udp_client_bench_entry` and `udp_server_bench_entry` return, and when they
-- do not return.
use r_bench_an_interference.Base.{
  ℕ, zero, suc, ◌+◌, ◌-◌, ◌<◌, ◌≤◌, ◌≡◌, refl, arith, ap, ◌∙◌, ◌==◌, if◌then◌else◌, Bool, true,
  false, not, ◌&&◌, Option, none, some, List, [], ◌∷◌, Bool-cases, inl, inr,
}
use r_bench_an_interference.Base.Int.{ℤ, pos, negsuc}
use r_bench_an_interference.Base.Cstring.{Cstring, atoi}
use r_bench_an_interference.Opts.{BenchArgs}
use r_bench_an_interference.Net.{exists_socket}
use r_bench_an_interference.Udp.{no_socket, open_tries}
use r_bench_an_interference.Udp.Threads.{◌>>=◌}
use r_bench_an_interference.Udp.System.{failed, tick}
use r_bench_an_interference.Udp.Entry.{
  touch, listen, exchange_all, wait_cnt, await_ready, monitor, World, udp_client_bench_entry,
  udp_server_bench_entry,
}
use r_bench_an_interference.Udp.Touch.{touch-answer, listen-touch, Schedule, looks, monitor-failed}

exchange_all-total :
    (exchange : ℕ → Option ℤ) (thrid left : ℕ)
    → ((t : ℕ) → (a : ℤ) × (exchange t ≡ some a))
    → (answers : List ℤ) × (exchange_all exchange thrid left ≡ some answers)
unfolding exchange_all
exchange_all-total exchange thrid zero h = ([], refl)
exchange_all-total exchange thrid (suc left) h =
    let (a, e) = h thrid in
    let (rest, es) = exchange_all-total exchange (suc thrid) left h in
    (a ∷ rest, rw (exchange_all, e, es) refl)

rewritten : {a b : ℕ} → a ≡ b → (a == b) ≡ true
rewritten e = ground arith

monitor-total :
    (seen : ℕ → ℕ → ℤ) (n d fuel k : ℕ)
    → (tick (seen (k + d)) n).cnt_norun ≡ n
    → d < fuel
    → (last : ℕ) × (monitor seen n fuel k ≡ some last)
unfolding monitor
monitor-total seen n d zero k all enough = absurd (omega arith)
monitor-total seen n zero (suc fuel) k all enough =
    let now : (tick (seen k) n).cnt_norun == n ≡ true =
      rewritten (
        ap (λ (j : ℕ). (tick (seen j) n).cnt_norun) (let e : k ≡ k + 0 = omega arith in e) ∙ all) in
    (k, rw (monitor, now) refl)
monitor-total seen n (suc d) (suc fuel) k all enough =
    elim (Bool-cases ((tick (seen k) n).cnt_norun == n)) [
      | inl now ↦ (k, rw (monitor, now) refl)
      | inr runs ↦
          let (last, e) =
            monitor-total seen n d fuel (suc k)
              (ap (λ (j : ℕ). (tick (seen j) n).cnt_norun)
                  (let e : suc k + d ≡ k + suc d = omega arith in e)
                ∙ all)
              (omega arith) in
          (last, rw (monitor, runs) e)
    ]

-- The server's clients all ask: the first message for thread t comes at `asked t`.
pub record Asked (world : World) (fuel : ℕ) : Type 0 where
  pub asked : ℕ → ℕ
  pub message : ℕ → Cstring
  pub silent : (t j : ℕ) → j < asked t → world.answers t j ≡ none
  pub asks : (t : ℕ) → world.answers t (asked t) ≡ some (message t)
  pub in_time : (t : ℕ) → asked t < fuel

touched :
    {world : World} {fuel : ℕ}
    → Asked world fuel
    → (t : ℕ) → (a : ℤ) × (touch (world.answers t) fuel 0 0 ≡ some a)
touched {world} {fuel} asked t = (
  atoi (asked.message t),
  touch-answer (world.answers t) (asked.message t) (asked.asked t) fuel 0 0
      (λ j h. ap (world.answers t) (let e : 0 + j ≡ j = omega arith in e) ∙ asked.silent t j h)
      (ap (world.answers t) (let e : 0 + asked.asked t ≡ asked.asked t = omega arith in e)
        ∙ asked.asks t)
      (asked.in_time t) (omega arith),
)

listened :
    {world : World} {fuel : ℕ}
    → Asked world fuel
    → (listenbuf : Cstring) (t : ℕ)
    → (a : ℤ) × (listen (world.answers t) listenbuf fuel 0 0 ≡ some a)
listened {world} {fuel} asked listenbuf t =
    let (a, e) = touched asked t in
    (a, listen-touch (world.answers t) listenbuf fuel 0 0 (omega arith) ∙ e)

-- Whether the main thread has its socket and its port.
abbrev pub has_main_socket : BenchArgs → World → Bool
has_main_socket args world =
    exists_socket (open_tries args.netaddr.ip_type world.inet world.inet6 10 0 no_socket)
    && world.binds

with_main_socket_lem :
    (s binds : Bool) (answer : ℤ)
    → (if not s then some (negsuc 0) else if not binds then some (negsuc 0) else some answer)
      ≡ some (if s && binds then answer else negsuc 0)
with_main_socket_lem true true answer = refl
with_main_socket_lem true false answer = refl
with_main_socket_lem false binds answer = refl

-- Where a client asks for each thread within the fuel, however many receives fail before, and the
-- threads have ended at some look within the fuel, the main thread of the server returns: 0 with
-- its socket and its port, and -1 without.
pub udp_server_bench_entry-returns :
    (args : BenchArgs) (world : World) (listenbuf : Cstring) (fuel ended : ℕ)
    → Asked world fuel
    → (tick (world.seen ended) args.threads).cnt_norun ≡ args.threads
    → ended < fuel
    → udp_server_bench_entry args world listenbuf fuel
      ≡ some (if has_main_socket args world then pos 0 else negsuc 0)
unfolding udp_server_bench_entry
udp_server_bench_entry-returns args world listenbuf fuel ended clients all enough =
    let (packsizes, e) =
      exchange_all-total (λ thrid. listen (world.answers thrid) listenbuf fuel 0 0) 1 args.threads
        (listened clients listenbuf) in
    let (last, e') = monitor-total world.seen args.threads ended fuel 0 (at_zero all) enough in
    rw (e, e')
      (with_main_socket_lem
        (exists_socket (open_tries args.netaddr.ip_type world.inet world.inet6 10 0 no_socket))
        world.binds (pos 0))
  where
    at_zero :
        (tick (world.seen ended) args.threads).cnt_norun ≡ args.threads
        → (tick (world.seen (0 + ended)) args.threads).cnt_norun ≡ args.threads
    at_zero all' =
        ap (λ (j : ℕ). (tick (world.seen j) args.threads).cnt_norun)
          (let e : 0 + ended ≡ ended = omega arith in e)
        ∙ all'

await_ready-total :
    (seen : ℕ → ℕ → ℤ) (n d fuel k : ℕ)
    → wait_cnt (seen (k + d)) n ≡ 0
    → d < fuel
    → (first : ℕ) × (await_ready seen n fuel k ≡ some first) × (first ≤ k + suc d)
unfolding await_ready
await_ready-total seen n d zero k none_waits enough = absurd (omega arith)
await_ready-total seen n zero (suc fuel) k none_waits enough =
    let now : wait_cnt (seen k) n == 0 ≡ true =
      rewritten
        (ap (λ (j : ℕ). wait_cnt (seen j) n) (let e : k ≡ k + 0 = omega arith in e) ∙ none_waits) in
    (suc k, rw (await_ready, now) refl, omega arith)
await_ready-total seen n (suc d) (suc fuel) k none_waits enough =
    elim (Bool-cases (wait_cnt (seen k) n == 0)) [
      | inl now ↦ (suc k, rw (await_ready, now) refl, omega arith)
      | inr waits ↦
          let (first, e, h) =
            await_ready-total seen n d fuel (suc k)
              (ap (λ (j : ℕ). wait_cnt (seen j) n)
                  (let e : suc k + d ≡ k + suc d = omega arith in e)
                ∙ none_waits)
              (omega arith) in
          (first, rw (await_ready, waits) e, omega arith)
    ]

-- Where the server answers for each thread within the fuel, however many receives fail before, and
-- from some look on, two before the fuel is out, no thread waits and all have ended, the main
-- thread of the client returns: 0 with its socket and its port, and -1 without.
pub udp_client_bench_entry-returns :
    (args : BenchArgs) (world : World) (fuel ended : ℕ)
    → Asked world fuel
    → ((k : ℕ) → ended ≤ k → wait_cnt (world.seen k) args.threads ≡ 0)
    → ((k : ℕ) → ended ≤ k → (tick (world.seen k) args.threads).cnt_norun ≡ args.threads)
    → ended + 1 < fuel
    → udp_client_bench_entry args world fuel
      ≡ some (if has_main_socket args world then pos 0 else negsuc 0)
unfolding udp_client_bench_entry
udp_client_bench_entry-returns args world fuel ended servers none_waits all enough =
    let (srv_thrids, e) =
      exchange_all-total (λ thrid. touch (world.answers thrid) fuel 0 0) 1 args.threads
        (touched servers) in
    let (first, e', h) =
      await_ready-total world.seen args.threads ended fuel 0 (none_waits (0 + ended) (omega arith))
        (omega arith) in
    let (last, e'') =
      monitor-total world.seen args.threads (ended + 1 - first) fuel first
        (all (first + (ended + 1 - first)) (omega arith)) (omega arith) in
    rw (e, e', e'')
      (with_main_socket_lem
        (exists_socket (open_tries args.netaddr.ip_type world.inet world.inet6 10 0 no_socket))
        world.binds (pos 0))

goes_on :
    (s binds : Bool) (run : Option ℤ)
    → s && binds ≡ true
    → (if not s then some (negsuc 0) else if not binds then some (negsuc 0) else run) ≡ run
goes_on true true run h = refl
goes_on true false run h = absurd (ground arith)
goes_on false binds run h = absurd (ground arith)

never :
    (packsizes : Option (List ℤ)) (last : Option ℕ)
    → last ≡ none
    → packsizes >>= (λ ps. last >>= (λ k. some (pos 0))) ≡ none
never none last e = refl
never (some ps) last e = rw e refl

-- Where a thread of the server has failed before the first look of the monitor, the main thread
-- that has its socket and its port never returns: no fuel is enough, whatever the other threads do.
pub udp_server_bench_entry-failed :
    (args : BenchArgs) (world : World) (listenbuf : Cstring) (fuel i : ℕ)
    (schedule : Schedule args.threads)
    → has_main_socket args world ≡ true
    → world.seen ≡ looks schedule
    → i < args.threads
    → (schedule.states 0).phase i ≡ failed
    → udp_server_bench_entry args world listenbuf fuel ≡ none
unfolding udp_server_bench_entry
udp_server_bench_entry-failed args world listenbuf fuel i schedule opened looked below e =
    goes_on (exists_socket (open_tries args.netaddr.ip_type world.inet world.inet6 10 0 no_socket))
      world.binds
      (exchange_all (λ thrid. listen (world.answers thrid) listenbuf fuel 0 0) 1 args.threads
        >>= (λ ps. monitor world.seen args.threads fuel 0 >>= (λ k. some (pos 0))))
      opened
    ∙ never (exchange_all (λ thrid. listen (world.answers thrid) listenbuf fuel 0 0) 1 args.threads)
        (monitor world.seen args.threads fuel 0)
        (rw looked (monitor-failed schedule fuel 0 i below e))
