-- ===== src/Udp/Look.antt =====
-- rbench-udp.cpp: a look of the monitor at `conns` that is not one step. It reads each entry up to
-- three times, entry after entry, and the threads go on between any two reads.
use mathlib.Core.Path.{subst}
use r_bench_an_interference.Base.{
  ℕ, suc, ◌≤◌, ◌<◌, ◌≡◌, ◌⊎◌, inl, inr, refl, arith, ap, sym, ◌∙◌, ◌==◌, Bool, true, false, ltb,
  if◌then◌else◌,
}
use r_bench_an_interference.Base.Int.{ℤ, pos, ◌+ℤ◌, neg_ℤ, leb_ℤ, ltb_ℤ}
use r_bench_an_interference.Udp.System.{
  Phase, setting_up, failed, waiting, running, finished, Move, fail, wait, go, round, finish,
  ServerState, initial, Step, start_thread, store_ready, move, Reach, here, next, Tick,
  net_thread_state_begin,
}
use r_bench_an_interference.Udp.Safety.{ConnIs, Reach-Inv}
use r_bench_an_interference.Udp.Monitor.{HasFinished, Reach-append}

-- The body of the loop over `conns`: `test` is what the first comparison reads, `below` what the
-- second reads, and `added` what is added.
abbrev pub look_conn : ℤ → ℤ → ℤ → Tick → Tick
look_conn test below added t =
    if leb_ℤ (pos 0) test
    then record t { nowpsum = t.nowpsum +ℤ below }
    else if ltb_ℤ below net_thread_state_begin
    then record { nowpsum = t.nowpsum +ℤ neg_ℤ added; cnt_norun = suc t.cnt_norun }
    else t

-- A look at the first threads, from one state to another, with what it has summed up. Where the first
-- comparison holds, the second read is the sum's.
pub data Look (count_thr : ℕ) (s : ServerState) : ℕ → ServerState → Tick → Type 0 where
  begin : Look count_thr s 0 s (record { nowpsum = pos 0; cnt_norun = 0 })
  entry :
      {i : ℕ} {t u v w : ServerState} {k : Tick}
      → Look count_thr s i t k
      → Reach count_thr t u
      → Reach count_thr u v
      → Reach count_thr v w
      → Look count_thr s (suc i) w (look_conn (u.conns i) (v.conns i) (w.conns i) k)

Look-Reach :
    {n : ℕ} {s : ServerState} {m : ℕ} {t : ServerState} {k : Tick} → Look n s m t k → Reach n s t
Look-Reach begin = here
Look-Reach (entry l a b c) = Reach-append (Reach-append (Reach-append (Look-Reach l) a) b) c

-- What the comparisons say of a thread.
below_begin :
    (stored : Bool) (p : Phase) (c : ℤ)
    → ConnIs stored p c
    → ltb_ℤ c net_thread_state_begin ≡ true
    → HasFinished p
unfolding ◌+ℤ◌
below_begin true setting_up c h e = absurd (ground arith)
below_begin false setting_up c h e = absurd (ground arith)
below_begin true waiting c h e = absurd (ground arith)
below_begin false waiting c h e = absurd (ground arith)
below_begin stored failed c (inl h) e = absurd (ground arith)
below_begin stored failed c (inr h) e = absurd (ground arith)
below_begin stored (running r) c h e = absurd (ground arith)
below_begin stored (finished r) c h e = (r, refl)

finished_reads :
    (stored : Bool) (r : ℕ) (c : ℤ)
    → ConnIs stored (finished r) c
    → (leb_ℤ (pos 0) c ≡ false) × (ltb_ℤ c net_thread_state_begin ≡ true)
unfolding ◌+ℤ◌
finished_reads stored r c h = (ground arith, ground arith)

Move-HasFinished : {p q : Phase} {c d : ℤ} → Move p c q d → HasFinished p → HasFinished q
Move-HasFinished fail (r, e) = absurd (ground arith)
Move-HasFinished wait (r, e) = absurd (ground arith)
Move-HasFinished go (r, e) = absurd (ground arith)
Move-HasFinished round (r, e) = absurd (ground arith)
Move-HasFinished (finish {r = k} h) (r, e) = (k, refl)

Step-HasFinished :
    {n i : ℕ} {s t : ServerState} → Step n s t → HasFinished (s.phase i) → HasFinished (t.phase i)
Step-HasFinished (start_thread s h) f = f
Step-HasFinished (store_ready s h below) f = f
Step-HasFinished {i} (move s j {p} h m) f = choose (j == i) refl
  where
    choose : (b : Bool) → (j == i) ≡ b → HasFinished (if b then p else s.phase i)
    choose true same =
        let same_j : j ≡ i = ground arith in Move-HasFinished m (f.0, ap s.phase same_j ∙ f.1)
    choose false other = f

Reach-HasFinished :
    {n i : ℕ} {s t : ServerState} → Reach n s t → HasFinished (s.phase i) → HasFinished (t.phase i)
Reach-HasFinished here f = f
Reach-HasFinished (next r st) f = Step-HasFinished st (Reach-HasFinished r f)

-- One entry: it counts only a thread that has ended, and one that had ended before is counted.
counts_or_not :
    {n i : ℕ} {u v : ServerState} (w : ServerState) (k : Tick)
    → Reach n initial u
    → Reach n u v
    → (HasFinished (v.phase i)
        × ((look_conn (u.conns i) (v.conns i) (w.conns i) k).cnt_norun ≡ suc k.cnt_norun))
      ⊎ ((¬ HasFinished (u.phase i))
          × ((look_conn (u.conns i) (v.conns i) (w.conns i) k).cnt_norun ≡ k.cnt_norun))
counts_or_not {n} {i} {u} {v} w k r q =
    choose (leb_ℤ (pos 0) (u.conns i)) refl (ltb_ℤ (v.conns i) net_thread_state_begin) refl
  where
    Counts : Bool → Bool → Type 0
    Counts a b =
        let t : Tick =
          if a
          then record k { nowpsum = k.nowpsum +ℤ v.conns i }
          else if b
          then record { nowpsum = k.nowpsum +ℤ neg_ℤ (w.conns i); cnt_norun = suc k.cnt_norun }
          else k in
        (HasFinished (v.phase i) × (t.cnt_norun ≡ suc k.cnt_norun))
        ⊎ ((¬ HasFinished (u.phase i)) × (t.cnt_norun ≡ k.cnt_norun))

    reads :
        (x : ServerState)
        → Reach n initial x
        → HasFinished (x.phase i)
        → (leb_ℤ (pos 0) (x.conns i) ≡ false) × (ltb_ℤ (x.conns i) net_thread_state_begin ≡ true)
    reads x reached (m, e) =
        finished_reads (ltb i x.stored) m (x.conns i)
          (subst (λ (p : Phase). ConnIs (ltb i x.stored) p (x.conns i)) e (Reach-Inv reached i))

    choose :
        (a : Bool)
        → leb_ℤ (pos 0) (u.conns i) ≡ a
        → (b : Bool) → ltb_ℤ (v.conns i) net_thread_state_begin ≡ b
        → Counts a b
    choose true e b e' = inr (
      (λ f. absurd (
          let (no_sum, low) = reads u r f in
          let bad : true ≡ false = sym e ∙ no_sum in ground arith)),
      refl,
    )
    choose false e true e' = inl (
      below_begin (ltb i v.stored) (v.phase i) (v.conns i) (Reach-Inv (Reach-append r q) i) e',
      refl,
    )
    choose false e false e' = inr (
      (λ f. absurd (
          let (no_sum, low) = reads v (Reach-append r q) (Reach-HasFinished q f) in
          let bad : true ≡ false = sym low ∙ e' in ground arith)),
      refl,
    )

-- What a look at the first `m` threads has counted.
record Counted (n m : ℕ) (s t : ServerState) (k : Tick) : Type 0 where
  at_most : k.cnt_norun ≤ m
  ended : k.cnt_norun ≡ m → (i : ℕ) → i < m → HasFinished (t.phase i)
  seen : ((i : ℕ) → i < m → HasFinished (s.phase i)) → k.cnt_norun ≡ m

Look-Counted :
    {n : ℕ} {s : ServerState} {m : ℕ} {t : ServerState} {k : Tick}
    → Reach n initial s
    → Look n s m t k
    → Counted n m s t k
Look-Counted r begin = record {
  at_most = omega arith;
  ended = λ e i below. absurd (omega arith);
  seen = λ all. refl;
}
Look-Counted {n} {s} r (entry {i} {t} {u} {v} {w} {k} l a b c) =
    let before = Look-Counted r l in
    let at_u : Reach n s u = Reach-append (Look-Reach l) a in
    elim (counts_or_not {i = i} w k (Reach-append r at_u) b) [
      | inl (done, one) ↦ record {
        at_most = omega (arith, one, before.at_most);
        ended = λ e j below. last i j (i == j) refl below (Reach-HasFinished c done) (λ lower.
            Reach-HasFinished c (
              Reach-HasFinished b
                (Reach-HasFinished a (before.ended (omega (arith, one, e)) j lower))));
        seen = λ all. omega (arith, one, before.seen (λ j below. all j (omega arith)));
      }
      | inr (unfinished, kept) ↦ record {
        at_most = omega (arith, kept, before.at_most);
        ended = λ e j below. absurd (omega (arith, kept, e, before.at_most));
        seen = λ all. absurd (unfinished (Reach-HasFinished at_u (all i (omega arith))));
      }
    ]
  where
    last :
        (i j : ℕ) (b : Bool)
        → (i == j) ≡ b
        → j < suc i
        → HasFinished (w.phase i)
        → (j < i → HasFinished (w.phase j))
        → HasFinished (w.phase j)
    last i j true same below done rest = let same_i : i ≡ j = ground arith in rw (sym same_i) done
    last i j false other below done rest = rest (ground arith)

-- A look of the monitor from a reachable state on, with the threads going on between its reads, counts
-- at most the number of threads. When it counts all, which ends the loop, each thread has come to its
-- end at the end of the look; and when each has come to its end at the start of it, it counts all.
pub look-HasFinished :
    {n : ℕ} {s t : ServerState} {k : Tick}
    → Reach n initial s
    → Look n s n t k
    → (k.cnt_norun ≤ n)
      × (k.cnt_norun ≡ n → (i : ℕ) → i < n → HasFinished (t.phase i))
      × (((i : ℕ) → i < n → HasFinished (s.phase i)) → k.cnt_norun ≡ n)
look-HasFinished r l = let c = Look-Counted r l in (c.at_most, c.ended, c.seen)
