-- ===== src/Net.antt =====
-- core-net.cpp: the checksum of a packet, and `UdpSocket` over the answers of the system.
pub mod Checksum
pub mod Socket
pub mod Transfer
use r_bench_an_interference.Base.{ℕ, zero, suc, ◌+◌, ◌-◌, ◌==◌, ltb, leb, if◌then◌else◌, bit_xor}
use r_bench_an_interference.Base.{
  Bool, true, false, ◌&&◌, ◌||◌, Option, none, some, List, [], ◌∷◌, get_elem?, set,
}
use r_bench_an_interference.Base.Int.{ℤ, pos, negsuc, ltb_ℤ, leb_ℤ, ◌+ℤ◌}
use r_bench_an_interference.Base.Cstring.{Cstring, str_eq}
use r_bench_an_interference.Opts.{IpType, ipv4, ipv6, unknown}

infixl 5 ◌>>=◌
abbrev pub ◌>>=◌ : {A B : Type 0} → Option A → (A → Option B) → Option B
none >>= k = none
some x >>= k = k x

-- `buf[buflen-1] ^ buf[1]`
abbrev pub with_second : List ℕ → ℕ → Option ℕ
with_second buf last = do second ← get_elem? buf 1; some (bit_xor last second)

-- `buf` is a list of bytes; `none` is an access outside of it.
unfoldable pub net_set_headfoot_checksum : List ℕ → ℤ → Option (List ℕ)
net_set_headfoot_checksum buf (negsuc n) = none
net_set_headfoot_checksum buf (pos zero) = none
net_set_headfoot_checksum buf (pos (suc n)) = do
  last ← get_elem? buf n
  foot ← if ltb 2 (suc n) then with_second buf last else some last
  some (set buf 0 foot)

unfoldable pub net_check_headfoot_checksum : List ℕ → ℤ → Option Bool
net_check_headfoot_checksum buf (negsuc n) = none
net_check_headfoot_checksum buf (pos zero) = none
net_check_headfoot_checksum buf (pos (suc n)) = do
  first ← get_elem? buf 0
  last ← get_elem? buf n
  foot ← if ltb 2 (suc n) then with_second buf last else some last
  some (first == foot)

-- An entry of `getifaddrs`: the name, and the family and the address; `none` is a null pointer.
pub record Interface : Type 0 where
  pub ifa_name : Option Cstring
  pub ifa_addr : Option (ℕ × ℕ)

abbrev pub interface_found : Cstring → ℕ → Option Cstring → Option (ℕ × ℕ) → Option ℕ
interface_found interface domain (some name) (some (family, addr)) =
    if family == domain && str_eq name interface then some addr else none
interface_found interface domain _ _ = none

-- The loop over the entries: the address of the first one that fits.
unfoldable pub find_interface : Cstring → ℕ → List Interface → Option ℕ
find_interface interface domain [] = none
find_interface interface domain (ifa ∷ rest) =
    elim (interface_found interface domain ifa.ifa_name ifa.ifa_addr) [
      | some addr ↦ some addr
      | none ↦ find_interface interface domain rest
    ]

-- `__net_interface_exists`: what it returns, and what it writes to `addr`, if anything. The list is
-- what `getifaddrs` gives, `none` its failure.
unfoldable pub net_interface_exists : Option Cstring → ℕ → Option (List Interface) → ℤ × Option ℕ
unfolding find_interface
net_interface_exists none domain ifaddr = (negsuc 0, none)
net_interface_exists (some interface) domain none = (negsuc 0, none)
net_interface_exists (some interface) domain (some ifaddr) =
    elim (find_interface interface domain ifaddr) [
      | some addr ↦ (pos 0, some addr)
      | none ↦ (negsuc 0, none)
    ]

pub record UdpSocket : Type 0 where
  pub sockfd : ℤ
  pub ip_type : IpType

-- `socket()`: what the system returns for IPv4 and IPv6. Without a known type it is not called.
unfoldable pub socket_open : IpType → ℤ → ℤ → UdpSocket → Bool × UdpSocket
socket_open type inet inet6 s =
    let fd : ℤ = elim type [ ipv4 ↦ inet | ipv6 ↦ inet6 | unknown ↦ negsuc 0 ] in
    (leb_ℤ (pos 0) fd, record s { sockfd = fd; ip_type = type })

-- The address that `Bind` hands to `bind`: `none` is one that was never written.
unfoldable pub bind_address : ℕ → Option Cstring → Option (List Interface) → Option ℕ
unfolding net_interface_exists
bind_address inet_addr none ifaddr = some inet_addr
bind_address inet_addr (some ifname) ifaddr =
    let r = net_interface_exists (some ifname) 2 ifaddr in
    elim r.0 [ pos zero ↦ some inet_addr | pos (suc n) ↦ r.1 | negsuc n ↦ r.1 ]

unfoldable pub exists_socket : UdpSocket → Bool
exists_socket s = ltb_ℤ (pos 0) s.sockfd

-- `SetRecvTimeout` and `SetSendTimeout`: the times handed to `setsockopt`, whose answer is `answer`.
unfoldable pub set_timeout : ℤ → ℤ → ℤ → Bool × Option (ℤ × ℤ)
set_timeout sec usec answer =
    if ltb_ℤ sec (pos 0)
      || ltb_ℤ usec (pos 0)
      || (leb_ℤ (sec +ℤ usec) (pos 0) && leb_ℤ (pos 0) (sec +ℤ usec))
    then (false, none)
    else (leb_ℤ (pos 0) answer, some (sec, usec))

-- `Close`: what it returns, the descriptor that it closes, and the socket behind it.
unfoldable pub close_socket : UdpSocket → Bool × Option ℤ × UdpSocket
unfolding exists_socket
close_socket s =
    if exists_socket s
    then (true, some s.sockfd, record s { sockfd = negsuc 0 })
    else (true, none, s)
