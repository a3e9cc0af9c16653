-- ===== src/Udp/Exchange.antt =====
-- rbench-udp.cpp: what a client sends passes the check of the server.
use r_bench_an_interference.Base.{
  ℕ, zero, suc, ◌+◌, ◌≤◌, ◌≡◌, refl, arith, ap, sym, ◌∙◌, true, none, some, List, length,
}
use r_bench_an_interference.Base.Int.{pos}
use r_bench_an_interference.Mwc.{Mwc}
use r_bench_an_interference.Net.{net_check_headfoot_checksum}
use r_bench_an_interference.Udp.Packets.{
  send_packet, udp_recv_kernel_pack_per_round, udp_receive_kernel,
}
use r_bench_an_interference.Udp.Receive.{
  failed, bad_packets, udp_receive_kernel-counts, send_packet-IsPacket,
}

none_bad :
    (len : ℕ) (packets : ℕ → List ℕ) (left i : ℕ)
    → ((j : ℕ) → net_check_headfoot_checksum (packets j) (pos len) ≡ some true)
    → bad_packets len packets left i ≡ 0
unfolding bad_packets
none_bad len packets zero i checks = refl
none_bad len packets (suc left) i checks =
    omega (arith, ap failed (checks i), none_bad len packets left (i + 1) checks)

same_packet : {a b : List ℕ} → some a ≡ some b → a ≡ b
same_packet {a} e = ap (λ o. elim o [ none ↦ a | some x ↦ x ]) e

-- Forty packets of four bytes or more, made as the threads of a client make them, pass the check of
-- the server, which gives no warning: whatever the generators and the memory were, and with a
-- buffer that is long enough for a packet.
pub sent_packets_pass :
    (len : ℕ) (engines : ℕ → Mwc) (memory packets : ℕ → List ℕ) (recvbuf : List ℕ)
    → 4 ≤ len
    → ((j : ℕ) → length (memory j) ≡ len)
    → ((j : ℕ) → send_packet (pos len) (engines j) (memory j) ≡ some (packets j))
    → len ≤ length recvbuf
    → (buf : List ℕ) × (udp_receive_kernel (pos len) (λ j. some (packets j)) recvbuf
        ≡ some (buf, 0))
sent_packets_pass (suc (suc n)) engines memory packets recvbuf h sizes sends fits =
    let (buf, ran) = udp_receive_kernel-counts n packets recvbuf long fits in
    (
      buf,
      ran
          ∙ ap (λ (t : ℕ). some (buf, t))
              (none_bad (suc (suc n)) packets udp_recv_kernel_pack_per_round 0 checks),
    )
  where
    sent :
        (j : ℕ)
        → (length (packets j) ≡ suc (suc n))
          × (net_check_headfoot_checksum (packets j) (pos (suc (suc n))) ≡ some true)
    sent j =
        let p = send_packet-IsPacket (suc (suc n)) (engines j) (memory j) h (sizes j) in
        let same : packets j ≡ p.packet = same_packet (sym (sends j) ∙ p.returns) in
        rw same (p.size, p.checks)

    long : (j : ℕ) → length (packets j) ≡ suc (suc n)
    long j = (sent j).0

    checks : (j : ℕ) → net_check_headfoot_checksum (packets j) (pos (suc (suc n))) ≡ some true
    checks j = (sent j).1
sent_packets_pass (suc zero) engines memory packets recvbuf h sizes sends fits =
    absurd (omega arith)
sent_packets_pass zero engines memory packets recvbuf h sizes sends fits = absurd (omega arith)
