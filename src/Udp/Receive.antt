-- ===== src/Udp/Receive.antt =====
-- rbench-udp.cpp: packets made by a client thread pass the check of a server thread.
use r_bench_an_interference.Base.{
  ℕ, zero, suc, ◌+◌, ◌≤◌, ◌<◌, ◌≡◌, refl, arith, ◌∙◌, ap, ◌==◌, ltb, bit_xor, if◌then◌else◌,
}
use r_bench_an_interference.Base.{
  Bool, true, false, Option, some, List, [], ◌∷◌, length, get_elem?, get_elem?-lt,
}
use r_bench_an_interference.Base.Int.{pos}
use r_bench_an_interference.Mwc.{Mwc}
use r_bench_an_interference.Mwc.FillLaws.{fill_array-Ends}
use r_bench_an_interference.Net.{net_check_headfoot_checksum}
use r_bench_an_interference.Net.Checksum.{net_check-net_set}
use r_bench_an_interference.Udp.Packets.{
  send_packet, receive_into, udp_recv_kernel_pack_per_round, count_warning, receive_rounds,
  udp_receive_kernel,
}

-- A buffer that starts with a packet.
pub record IsReceived (buf packet : List ℕ) (run : Option (List ℕ)) : Type 0 where
  pub out : List ℕ
  pub returns : run ≡ some out
  pub same_length : length out ≡ length buf
  pub starts : (j : ℕ) → j < length packet → get_elem? out j ≡ get_elem? packet j

receive_into-IsReceived :
    (n : ℕ) (buf packet : List ℕ)
    → length packet ≡ n
    → n ≤ length buf
    → IsReceived buf packet (receive_into n buf packet)
unfolding receive_into
receive_into-IsReceived zero buf [] e fits = record {
  out = buf;
  returns = refl;
  same_length = refl;
  starts = λ j h. absurd (omega arith);
}
receive_into-IsReceived zero buf (b ∷ packet) e fits = absurd (omega (arith, e))
receive_into-IsReceived (suc n) buf [] e fits = absurd (omega (arith, e))
receive_into-IsReceived (suc n) [] (b ∷ packet) e fits = absurd (omega arith)
receive_into-IsReceived (suc n) (a ∷ buf) (b ∷ packet) e fits =
    let rest = receive_into-IsReceived n buf packet (omega (arith, e)) (omega arith) in
    record {
      out = b ∷ rest.out;
      returns = rw rest.returns refl;
      same_length = ap suc rest.same_length;
      starts = each b rest.out rest.starts;
    }
  where
    each :
        (b : ℕ) (out : List ℕ)
        → ((j : ℕ) → j < length packet → get_elem? out j ≡ get_elem? packet j)
        → (j : ℕ) → j < suc (length packet)
        → get_elem? (b ∷ out) j ≡ get_elem? (b ∷ packet) j
    each b out starts zero h = refl
    each b out starts (suc j) h = starts j (omega arith)

-- The check reads only the bytes of the packet.
net_check_same :
    (out packet : List ℕ) (n : ℕ)
    → ((j : ℕ) → j < suc (suc n) → get_elem? out j ≡ get_elem? packet j)
    → net_check_headfoot_checksum out (pos (suc (suc n)))
      ≡ net_check_headfoot_checksum packet (pos (suc (suc n)))
unfolding net_check_headfoot_checksum
net_check_same out packet n same =
    ground (arith, same 0 (omega arith), same 1 (omega arith), same (suc n) (omega arith))

-- The check of a packet of its length returns.
check_total :
    (packet : List ℕ) (n : ℕ)
    → length packet ≡ suc (suc n)
    → (ok : Bool) × (net_check_headfoot_checksum packet (pos (suc (suc n))) ≡ some ok)
unfolding net_check_headfoot_checksum
check_total packet n e =
    let (first, e0) = get_elem?-lt packet 0 (omega (arith, e)) in
    let (second, e1) = get_elem?-lt packet 1 (omega (arith, e)) in
    let (last, e2) = get_elem?-lt packet (suc n) (omega (arith, e)) in
    (
      first == (if ltb 2 (suc (suc n)) then bit_xor last second else last),
      ground (arith, e0, e1, e2),
    )

-- How many of the packets from number `i` on fail the check.
abbrev pub failed : Option Bool → ℕ
failed (some false) = 1
failed _ = 0

unfoldable pub bad_packets : ℕ → (ℕ → List ℕ) → ℕ → ℕ → ℕ
bad_packets len packets zero i = 0
bad_packets len packets (suc left) i =
    failed (net_check_headfoot_checksum (packets i) (pos len))
    + bad_packets len packets left (i + 1)

count_warning-failed : (ok : Bool) (w : ℕ) → count_warning ok w ≡ w + failed (some ok)
count_warning-failed true w = omega arith
count_warning-failed false w = refl

receive_rounds-counts :
    (n : ℕ) (packets : ℕ → List ℕ) (left i : ℕ) (buf : List ℕ) (w : ℕ)
    → ((j : ℕ) → length (packets j) ≡ suc (suc n))
    → suc (suc n) ≤ length buf
    → (buf' : List ℕ) × (receive_rounds (pos (suc (suc n))) (λ j. some (packets j)) left i buf w
        ≡ some (buf', w + bad_packets (suc (suc n)) packets left i))
unfolding receive_rounds bad_packets
receive_rounds-counts n packets zero i buf w sizes fits =
    (buf, ap (λ (t : ℕ). some (buf, t)) (let e : w ≡ w + 0 = omega arith in e))
receive_rounds-counts n packets (suc left) i buf w sizes fits =
    let r = receive_into-IsReceived (suc (suc n)) buf (packets i) (sizes i) fits in
    let (ok, checked) = check_total (packets i) n (sizes i) in
    let same = net_check_same r.out (packets i) n (λ j h. r.starts j (omega (arith, sizes i))) in
    let (buf', rest) =
      receive_rounds-counts n packets left (i + 1) r.out (count_warning ok w) sizes
        (omega (arith, r.same_length)) in
    (
      buf',
      rw (receive_rounds, r.returns, same, checked)
          (rest
            ∙ ap (λ (t : ℕ). some (buf', t))
                (omega (arith, count_warning-failed ok w, ap failed checked))),
    )

pub udp_receive_kernel-counts :
    (n : ℕ) (packets : ℕ → List ℕ) (recvbuf : List ℕ)
    → ((j : ℕ) → length (packets j) ≡ suc (suc n))
    → suc (suc n) ≤ length recvbuf
    → (buf' : List ℕ) × (udp_receive_kernel (pos (suc (suc n))) (λ j. some (packets j)) recvbuf
        ≡ some (buf', bad_packets (suc (suc n)) packets udp_recv_kernel_pack_per_round 0))
unfolding udp_receive_kernel
udp_receive_kernel-counts n packets recvbuf sizes fits =
    let (buf', ran) =
      receive_rounds-counts n packets udp_recv_kernel_pack_per_round 0 recvbuf 0 sizes fits in
    let bad = bad_packets (suc (suc n)) packets udp_recv_kernel_pack_per_round 0 in
    (buf', ran ∙ ap (λ (t : ℕ). some (buf', t)) (let e : 0 + bad ≡ bad = omega arith in e))

-- What a client thread sends.
pub record IsPacket (len : ℕ) (run : Option (List ℕ)) : Type 0 where
  pub packet : List ℕ
  pub returns : run ≡ some packet
  pub size : length packet ≡ len
  pub checks : net_check_headfoot_checksum packet (pos len) ≡ some true

pub send_packet-IsPacket :
    (len : ℕ) (m : Mwc) (memory : List ℕ)
    → 4 ≤ len
    → length memory ≡ len
    → IsPacket len (send_packet (pos len) m memory)
unfolding send_packet
send_packet-IsPacket len m memory h e =
    let filled = fill_array-Ends len m memory h (omega (arith, e)) in
    let size : length filled.out ≡ len = filled.same_length ∙ e in
    let sealed = net_check-net_set filled.out len (omega arith) (omega (arith, size)) in
    record {
      packet = sealed.packet;
      returns = rw filled.returns sealed.returns;
      size = sealed.same_length ∙ size;
      checks = sealed.checks;
    }
