-- ===== src/Udp/Packets.antt =====
-- rbench-udp.cpp: the packet of a client thread, and `udp_receive_kernel`.
use r_bench_an_interference.Base.{
  ℕ, zero, suc, ◌+◌, ◌-◌, ◌^◌, Bool, true, false, Option, none, some, List, [], ◌∷◌,
}
use r_bench_an_interference.Base.Int.{ℤ, pos, negsuc}
use r_bench_an_interference.Mwc.{Mwc}
use r_bench_an_interference.Mwc.Fill.{fill_array}
use r_bench_an_interference.Net.{◌>>=◌, net_set_headfoot_checksum, net_check_headfoot_checksum}

-- The block that makes `sendbuf`; `memory` is what `new char[sendlen]` holds at first.
unfoldable pub send_packet : ℤ → Mwc → List ℕ → Option (List ℕ)
send_packet sendlen mwc_eng memory =
    fill_array sendlen mwc_eng memory >>= λ r. net_set_headfoot_checksum r.0 sendlen

-- `recvfrom` with a length: at most so many bytes of the datagram replace the first bytes of the
-- buffer; `none` is a write past its end.
unfoldable pub receive_into : ℕ → List ℕ → List ℕ → Option (List ℕ)
receive_into zero buf datagram = some buf
receive_into (suc len) buf [] = some buf
receive_into (suc len) [] (b ∷ datagram) = none
receive_into (suc len) (a ∷ buf) (b ∷ datagram) =
    receive_into len buf datagram >>= λ rest. some (b ∷ rest)

-- The length, converted to `size_t`.
abbrev pub receive_len : ℤ → ℕ
receive_len (pos n) = n
receive_len (negsuc n) = 2 ^ 64 - 1 - n

-- A call that fails changes nothing.
abbrev pub received : ℤ → List ℕ → Option (List ℕ) → Option (List ℕ)
received recvlen buf none = some buf
received recvlen buf (some datagram) = receive_into (receive_len recvlen) buf datagram

abbrev pub udp_recv_kernel_pack_per_round : ℕ
udp_recv_kernel_pack_per_round = 40

abbrev pub count_warning : Bool → ℕ → ℕ
count_warning true warnings = warnings
count_warning false warnings = warnings + 1

-- The rounds that are left, over the answers of `recvfrom`; the result is the buffer and the number
-- of warnings. `none` is an access outside of the buffer.
unfoldable pub receive_rounds : ℤ → (ℕ → Option (List ℕ)) → ℕ → ℕ → List ℕ → ℕ → Option (List ℕ × ℕ)
unfolding receive_into
receive_rounds recvlen answers zero i buf warnings = some (buf, warnings)
receive_rounds recvlen answers (suc left) i buf warnings = do
  buf' ← received recvlen buf (answers i)
  ok ← net_check_headfoot_checksum buf' recvlen
  receive_rounds recvlen answers left (i + 1) buf' (count_warning ok warnings)

unfoldable pub udp_receive_kernel : ℤ → (ℕ → Option (List ℕ)) → List ℕ → Option (List ℕ × ℕ)
unfolding receive_rounds
udp_receive_kernel recvlen answers recvbuf =
    receive_rounds recvlen answers udp_recv_kernel_pack_per_round 0 recvbuf 0
