-- ===== src/Net/Checksum.antt =====
-- core-net.cpp: what the checksum of a packet finds.
use r_bench_an_interference.Base.{
  ℕ, zero, suc, ◌≤◌, ◌≡◌, ◌≢◌, refl, arith, sym, ◌∙◌, ap, ◌==◌, bit_xor,
}
use mathlib.Core.Option.{some-injective}
use r_bench_an_interference.Base.{
  true, false, Bool-cases, inl, inr, ==_iff, not, ◌||◌, Option, some, List, [], ◌∷◌, length,
  get_elem?, set, get_elem?-lt, get_elem?-set_ne, get_elem?-set_self,
}
use r_bench_an_interference.Base.Bits.{bit_xor_comm, bit_xor_injective}
use r_bench_an_interference.Base.Int.{pos}
use r_bench_an_interference.Net.{net_set_headfoot_checksum, net_check_headfoot_checksum}

-- A packet whose checksum was set, and what is the same in it.
pub record IsSealed (buf : List ℕ) (len : ℕ) (run : Option (List ℕ)) : Type 0 where
  pub packet : List ℕ
  pub returns : run ≡ some packet
  pub same_length : length packet ≡ length buf
  pub checks : net_check_headfoot_checksum packet (pos len) ≡ some true
  pub same : (j : ℕ) → 1 ≤ j → get_elem? packet j ≡ get_elem? buf j

self : (a : ℕ) → (a == a) ≡ true
self a = ground arith

kept : (a b : ℕ) (buf : List ℕ) (j : ℕ) → 1 ≤ j → get_elem? (b ∷ buf) j ≡ get_elem? (a ∷ buf) j
kept a b buf zero h = absurd (omega arith)
kept a b buf (suc j) h = refl

-- From two bytes on, setting the checksum of a packet writes its first byte only, and the packet
-- then passes the check.
pub net_check-net_set :
    (buf : List ℕ) (len : ℕ)
    → 2 ≤ len
    → len ≤ length buf
    → IsSealed buf len (net_set_headfoot_checksum buf (pos len))
unfolding net_set_headfoot_checksum net_check_headfoot_checksum
net_check-net_set [] len h fits = absurd (omega arith)
net_check-net_set (a ∷ []) len h fits = absurd (omega arith)
net_check-net_set (a ∷ b ∷ buf) zero h fits = absurd (omega arith)
net_check-net_set (a ∷ b ∷ buf) (suc zero) h fits = absurd (omega arith)
net_check-net_set (a ∷ b ∷ buf) (suc (suc zero)) h fits = record {
  packet = b ∷ b ∷ buf;
  returns = refl;
  same_length = refl;
  checks = ap some (self b);
  same = kept a b (b ∷ buf);
}
net_check-net_set (a ∷ b ∷ buf) (suc (suc (suc n))) h fits =
    let (last, e) = get_elem?-lt buf n (omega arith) in
    record {
      packet = bit_xor last b ∷ b ∷ buf;
      returns = ground (arith, e);
      same_length = refl;
      checks = ground (arith, e);
      same = kept a (bit_xor last b) (b ∷ buf);
    }

-- What the check compares in a packet of three bytes or more.
check_long :
    (a b n last : ℕ) (buf : List ℕ)
    → get_elem? buf n ≡ some last
    → net_check_headfoot_checksum (a ∷ b ∷ buf) (pos (suc (suc (suc n))))
      ≡ some (a == bit_xor last b)
unfolding net_check_headfoot_checksum
check_long a b n last buf e = ground (arith, e)

fails : (a c : ℕ) → a ≢ c → (a == c) ≡ false
fails a c ne = ground arith

at_last :
    (i n : ℕ)
    → i ≡ n
    → not (suc (suc i) == 0 || (suc (suc i) == 1 || suc (suc i) == suc (suc n))) ≡ false
at_last i n h = ground arith

in_middle :
    (i n : ℕ)
    → (i == n) ≡ false
    → not (suc (suc i) == 0 || (suc (suc i) == 1 || suc (suc i) == suc (suc n))) ≡ true
in_middle i n h = ground arith

at_middle : (i n : ℕ) → (i == n) ≡ false → i ≢ n
at_middle i n h eq = ground arith

-- In a packet of three bytes or more that passes the check, the change of one byte of it is found
-- if that byte is the first, the second or the last, and not otherwise.
pub net_check_change :
    (a b n j old new : ℕ) (buf : List ℕ)
    → length buf ≡ suc n
    → net_check_headfoot_checksum (a ∷ b ∷ buf) (pos (suc (suc (suc n)))) ≡ some true
    → get_elem? (a ∷ b ∷ buf) j ≡ some old
    → new ≢ old
    → net_check_headfoot_checksum (set (a ∷ b ∷ buf) j new) (pos (suc (suc (suc n))))
      ≡ some (not (j == 0 || (j == 1 || j == suc (suc n))))
net_check_change a b n j old new buf size ok at_j differ = each j at_j
  where
    found : (l : ℕ) × (get_elem? buf n ≡ some l)
    found = get_elem?-lt buf n (omega (arith, size))

    sealed : a ≡ bit_xor found.0 b
    sealed = (==_iff a _).0 (some-injective _ _ (sym (check_long a b n found.0 buf found.1) ∙ ok))

    each :
        (j : ℕ)
        → get_elem? (a ∷ b ∷ buf) j ≡ some old
        → net_check_headfoot_checksum (set (a ∷ b ∷ buf) j new) (pos (suc (suc (suc n))))
          ≡ some (not (j == 0 || (j == 1 || j == suc (suc n))))
    each zero e =
        check_long new b n found.0 buf found.1
        ∙ ap some (fails new _ (λ same. differ (same ∙ sym sealed ∙ some-injective _ _ e)))
    each (suc zero) e =
        check_long a new n found.0 buf found.1
        ∙ ap some (
            fails a _ (λ same. differ (
              bit_xor_injective new b found.0
                (bit_xor_comm new found.0 ∙ sym same ∙ sealed ∙ bit_xor_comm found.0 b)
              ∙ some-injective _ _ e)))
    each (suc (suc i)) e = elim (Bool-cases (i == n)) [
      | inl same ↦
          let at_n : i ≡ n = (==_iff i n).0 same in
          let l_old : found.0 ≡ old = some-injective _ _ (sym found.1 ∙ (rw (sym at_n) e)) in
          check_long a b n new (set buf i new)
            (rw at_n (get_elem?-set_self buf n new (omega (arith, size))))
          ∙ ap some (
              fails a _ (λ eq.
                differ (
                  bit_xor_injective new old b
                    (sym eq ∙ sealed ∙ ap (λ (t : ℕ). bit_xor t b) l_old)))
              ∙ sym (at_last i n at_n))
      | inr other ↦
          check_long a b n found.0 (set buf i new)
            (get_elem?-set_ne buf i n new (λ eq. at_middle i n other eq) ∙ found.1)
          ∙ ap some ((==_iff a _).1 sealed ∙ sym (in_middle i n other))
    ]
