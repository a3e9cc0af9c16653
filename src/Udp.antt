-- ===== src/Udp.antt =====
-- rbench-udp.cpp: how the sockets of the client and of the server are opened and bound.
pub mod Laws
pub mod Packets
pub mod Receive
pub mod Exchange
pub mod Threads
pub mod SetUp
pub mod Conn
pub mod Entry
pub mod Touch
pub mod Returns
pub mod Total
pub mod System
pub mod Safety
pub mod Monitor
pub mod Look
pub mod Progress
pub mod Client
use r_bench_an_interference.Base.{ℕ, zero, suc, ◌+◌, ◌^◌, ◌%◌, ltb, if◌then◌else◌, u16}
use r_bench_an_interference.Base.{Bool, true, false, Option, none, some}
use r_bench_an_interference.Base.Int.{ℤ, negsuc}
use r_bench_an_interference.Opts.{IpType, ipv4, ipv6, unknown}
use r_bench_an_interference.Net.{UdpSocket, socket_open}

-- How the search ends: with a port that is bound, or with `NET_THREAD_ERROR`.
pub data PortSearch : Type 0 where
  bound : ℕ → PortSearch
  no_available_port : PortSearch

-- The loop from `port_delta` on. `bind` says which ports can be bound; the fuel is the number of tries.
unfoldable pub find_port : (ℕ → Bool) → ℕ → ℕ → ℕ → Option PortSearch
find_port bind port zero port_delta = none
find_port bind port (suc fuel) port_delta =
    let try_port = u16 (port + port_delta) in
    elim (bind try_port) [
      | true ↦ some (bound try_port)
      | false ↦ elim (ltb 65530 port_delta) [
        | true ↦ some no_available_port
        | false ↦ find_port bind port fuel (u16 (port_delta + 1))
      ]
    ]

-- `UdpSocket()`, before a type is set.
abbrev pub no_socket : UdpSocket
no_socket = record { sockfd = negsuc 0; ip_type = unknown }

-- The loop of ten tries; `inet i` and `inet6 i` are what the system answers to try `i`.
unfoldable pub open_tries : IpType → (ℕ → ℤ) → (ℕ → ℤ) → ℕ → ℕ → UdpSocket → UdpSocket
unfolding socket_open
open_tries type inet inet6 zero i s = s
open_tries type inet inet6 (suc left) i s =
    let r = socket_open type (inet i) (inet6 i) s in
    elim r.0 [ true ↦ r.1 | false ↦ open_tries type inet inet6 left (i + 1) r.1 ]
