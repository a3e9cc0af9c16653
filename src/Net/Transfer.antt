-- ===== src/Net/Transfer.antt =====
-- core-net.cpp: `Bind`, `Recv` and `Send` of `UdpSocket`. The C library's conversions of addresses and
-- of byte orders are a parameter, and so are the answers of the system.
use r_bench_an_interference.Base.{
  ℕ, ◌≡◌, ap, ap₂, ◌∙◌, if◌then◌else◌, Bool, true, Option, none, some, List,
}
use r_bench_an_interference.Base.Int.{ℤ, pos, leb_ℤ}
use r_bench_an_interference.Base.Cstring.{Cstring}
use r_bench_an_interference.Net.{Interface, bind_address}

-- `inet_addr`, `inet_ntoa`, `htons` and `ntohs`
pub record Conversions : Type 0 where
  pub inet_addr : Cstring → ℕ
  pub inet_ntoa : ℕ → Cstring
  pub htons : ℕ → ℕ
  pub ntohs : ℕ → ℕ

-- The address of a peer, in the order of the network.
pub record SockaddrIn : Type 0 where
  pub s_addr : ℕ
  pub sin_port : ℕ

-- What `recvfrom` gives: the bytes, and who has sent them.
pub record Datagram : Type 0 where
  pub bytes : List ℕ
  pub peer : SockaddrIn

-- What `Recv` has written through its pointers behind a success.
pub record Received : Type 0 where
  pub ip : Option Cstring
  pub port : Option ℕ

module _ (lib : Conversions) where
  -- `Bind`: the address and the port handed to `bind`, with `none` for an address that was never
  -- written, and what `Bind` returns.
  unfoldable pub bind_to :
      Cstring → ℕ → Option Cstring → Option (List Interface) → ℤ → (Option ℕ × ℕ) × Bool
  unfolding bind_address
  bind_to ip port ifname ifaddr ret =
      ((bind_address (lib.inet_addr ip) ifname ifaddr, lib.htons port), leb_ℤ (pos 0) ret)

  -- `Recv`; the two tests say whether `ip` and `port` are pointers other than NULL.
  unfoldable pub recv_from : Option Datagram → Bool → Bool → Option Received
  recv_from none with_ip with_port = none
  recv_from (some d) with_ip with_port = some (record {
    ip = if with_ip then some (lib.inet_ntoa d.peer.s_addr) else none;
    port = if with_port then some (lib.ntohs d.peer.sin_port) else none;
  })

  -- `Send` to a text and a port: the address handed to `sendto`, and what `Send` returns.
  unfoldable pub send_to : Cstring → ℕ → ℤ → SockaddrIn × Bool
  send_to ip port ret =
      (record { s_addr = lib.inet_addr ip; sin_port = lib.htons port }, leb_ℤ (pos 0) ret)

  -- Where the conversions undo one another at the sender of a datagram, `Send` to the address that
  -- `Recv` has written goes to that sender.
  reply_to_sender :
      (d : Datagram) (ip : Cstring) (port : ℕ) (ret : ℤ)
      → lib.inet_addr (lib.inet_ntoa d.peer.s_addr) ≡ d.peer.s_addr
      → lib.htons (lib.ntohs d.peer.sin_port) ≡ d.peer.sin_port
      → recv_from (some d) true true ≡ some (record { ip = some ip; port = some port })
      → (send_to ip port ret).0 ≡ d.peer
  unfolding recv_from send_to
  reply_to_sender d ip port ret back back' e =
      let same_ip : ip ≡ lib.inet_ntoa d.peer.s_addr = cc in
      let same_port : port ≡ lib.ntohs d.peer.sin_port = cc in
      ap₂ (λ (a b : ℕ). record { s_addr = a; sin_port = b }) (ap lib.inet_addr same_ip ∙ back)
        (ap lib.htons same_port ∙ back')
