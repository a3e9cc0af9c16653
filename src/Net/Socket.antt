-- ===== src/Net/Socket.antt =====
-- core-net.cpp: the address that `Bind` takes, and the descriptor that `Close` closes.
use r_bench_an_interference.Base.{ℕ, ◌==◌, if◌then◌else◌, ◌≡◌, refl, arith, true, false}
use r_bench_an_interference.Base.{none, some, List}
use r_bench_an_interference.Base.Int.{pos, negsuc}
use r_bench_an_interference.Base.Cstring.{Cstring}
use r_bench_an_interference.Opts.{ipv4}
use r_bench_an_interference.Net.{
  Interface, UdpSocket, find_interface, net_interface_exists, bind_address, socket_open,
  exists_socket, close_socket,
}

-- `Bind` takes the address of its `ip` where the interface is found, and an address that was never
-- written where it is not.
bind_address_inverted :
    (inet_addr addr : ℕ) (name : Cstring) (found missing : List Interface)
    → find_interface name 2 found ≡ some addr
    → find_interface name 2 missing ≡ none
    → (bind_address inet_addr (some name) (some found) ≡ some inet_addr)
      × (bind_address inet_addr (some name) (some missing) ≡ none)
unfolding bind_address net_interface_exists
bind_address_inverted inet_addr addr name found missing e e' =
    let missed : bind_address inet_addr (some name) (some missing) ≡ none = ground (arith, e') in
    (rw (bind_address, net_interface_exists, e) refl, missed)

-- A socket that was opened with descriptor `n` is closed by `Close`, which leaves no socket
-- behind, unless `n` is 0: then nothing is closed.
pub close_opened :
    (n : ℕ) (s : UdpSocket)
    → let opened = socket_open ipv4 (pos n) (negsuc 0) s in
      let closed = close_socket opened.1 in
      (opened.0 ≡ true)
      × (closed.1 ≡ (if n == 0 then none else some (pos n)))
      × (exists_socket closed.2 ≡ false)
unfolding socket_open close_socket exists_socket
close_opened n s = (ground arith, ground arith, ground arith)
