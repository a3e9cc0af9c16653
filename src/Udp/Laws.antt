-- ===== src/Udp/Laws.antt =====
-- rbench-udp.cpp: the search for a port ends within 65532 tries.
use r_bench_an_interference.Base.{
  ℕ, zero, suc, ◌+◌, ◌≤◌, ◌<◌, ◌≡◌, refl, arith, ap, ◌∙◌, ◌==◌, ==_iff, ltb, u16, inl, inr, Bool,
  true, false, Bool-cases, some,
}
use r_bench_an_interference.Udp.{PortSearch, bound, no_available_port, find_port}

-- A try that fails and is not the last goes on with the next port.
find_port_next :
    (bind : ℕ → Bool) (port fuel delta : ℕ)
    → delta ≤ 65530
    → bind (u16 (port + delta)) ≡ false
    → find_port bind port (suc fuel) delta ≡ find_port bind port fuel (delta + 1)
unfolding find_port
find_port_next bind port fuel delta h e =
    let goes_on : ltb 65530 delta ≡ false = ground arith in
    let wrap : u16 (delta + 1) ≡ delta + 1 = omega arith in rw (find_port, e, goes_on, wrap) refl

-- The first port that can be bound is bound, as long as fewer than 65532 ports from `port` on come
-- before it; a try for each port up to it is enough.
find_port-first :
    (bind : ℕ → Bool) (port fuel delta last : ℕ)
    → delta ≤ last
    → last ≤ 65531
    → ((i : ℕ) → delta ≤ i → i < last → bind (u16 (port + i)) ≡ false)
    → bind (u16 (port + last)) ≡ true
    → last < delta + fuel
    → find_port bind port fuel delta ≡ some (bound (u16 (port + last)))
unfolding find_port
find_port-first bind port zero delta last h hi failed e enough = absurd (omega arith)
find_port-first bind port (suc fuel) delta last h hi failed e enough =
    elim (Bool-cases (delta == last)) [
      | inl same ↦
          let at : delta ≡ last = (==_iff delta last).0 same in
          let now : bind (u16 (port + delta)) ≡ true = rw at e in
          rw (find_port, now) (ap (λ (i : ℕ). some (bound (u16 (port + i)))) at)
      | inr other ↦
          let before : delta < last = apart delta last h other in
          find_port_next bind port fuel delta (omega (arith, before))
            (failed delta (omega arith) before)
          ∙ find_port-first bind port fuel (delta + 1) last (omega (arith, before)) hi
              (λ i a b. failed i (omega (arith, a)) b) e (omega arith)
    ]
  where
    apart : (a b : ℕ) → a ≤ b → (a == b) ≡ false → a < b
    apart a b h ne = ground arith

-- Where none of the 65532 ports from `port` on can be bound, the search gives up; as many tries
-- are enough.
pub find_port-none :
    (bind : ℕ → Bool) (port fuel delta : ℕ)
    → delta ≤ 65531
    → ((i : ℕ) → delta ≤ i → i ≤ 65531 → bind (u16 (port + i)) ≡ false)
    → 65531 < delta + fuel
    → find_port bind port fuel delta ≡ some no_available_port
unfolding find_port
find_port-none bind port zero delta hi failed enough = absurd (omega arith)
find_port-none bind port (suc fuel) delta hi failed enough = elim (Bool-cases (ltb 65530 delta)) [
  | inl last ↦ rw (find_port, failed delta (omega arith) hi, last) refl
  | inr other ↦
      let before : delta ≤ 65530 = early delta other in
      find_port_next bind port fuel delta before (failed delta (omega arith) hi)
      ∙ find_port-none bind port fuel (delta + 1) (omega (arith, before))
          (λ i a b. failed i (omega (arith, a)) b) (omega arith)
]
  where
    early : (a : ℕ) → ltb 65530 a ≡ false → a ≤ 65530
    early a h = ground arith

-- With as many tries as ports the search ends.
pub find_port-total :
    (bind : ℕ → Bool) (port fuel delta : ℕ)
    → delta ≤ 65531
    → 65531 < delta + fuel
    → (r : PortSearch) × (find_port bind port fuel delta ≡ some r)
unfolding find_port
find_port-total bind port zero delta hi enough = absurd (omega arith)
find_port-total bind port (suc fuel) delta hi enough =
    elim (Bool-cases (bind (u16 (port + delta)))) [
      | inl now ↦ (bound (u16 (port + delta)), rw (find_port, now) refl)
      | inr busy ↦ elim (Bool-cases (ltb 65530 delta)) [
        | inl last ↦ (no_available_port, rw (find_port, busy, last) refl)
        | inr other ↦
            let before : delta ≤ 65530 = ground (arith, other) in
            let (r, e) =
              find_port-total bind port fuel (delta + 1) (omega (arith, before)) (omega arith) in
            (r, find_port_next bind port fuel delta before busy ∙ e)
      ]
    ]
