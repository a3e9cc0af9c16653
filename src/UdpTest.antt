-- ===== src/UdpTest.antt =====
-- udptest/: the sockets of udpsocket.hpp, and the client and the server that try them out. What the
-- calls of the system answer is an argument.
pub mod Laws
use r_bench_an_interference.Base.{
  ℕ, zero, suc, ◌+◌, ◌%◌, ◌==◌, not, if◌then◌else◌, Bool, true, false, Option, none, some, List, [],
  ◌∷◌, ◌++◌, u16,
}
use r_bench_an_interference.Base.Int.{ℤ, pos, negsuc, leb_ℤ}

-- `Socket`, `Bind` and `Send`: a negative answer is an error.
abbrev pub answered : ℤ → Bool
answered ret = leb_ℤ (pos 0) ret

-- `tmp` holds so many bytes.
abbrev pub take : ℕ → List ℕ → List ℕ
take zero bytes = []
take (suc n) [] = []
take (suc n) (x ∷ bytes) = x ∷ take n bytes

-- `memcpy` to the start of a buffer.
abbrev pub overwrite : List ℕ → List ℕ → List ℕ
overwrite [] buf = buf
overwrite (x ∷ bytes) [] = []
overwrite (x ∷ bytes) (b ∷ buf) = x ∷ overwrite bytes buf

-- `Recv`: the buffer behind it, and whether the datagram came; `none` is an error of `recvfrom`.
unfoldable pub recv : Option (List ℕ) → List ℕ → Bool × List ℕ
recv none buf = (false, buf)
recv (some datagram) buf = (true, overwrite (take 4096 datagram) buf)

-- `none` is a read behind the buffer.
unfoldable pub strlen : List ℕ → Option ℕ
strlen [] = none
strlen (zero ∷ buf) = some 0
strlen (suc c ∷ buf) = elim (strlen buf) [ none ↦ none | some n ↦ some (suc n) ]

-- How a program ends; `running` says that it goes on behind the answers.
pub data End : Type 0 where
  running : End
  overrun : End
  returned : ℤ → End

-- What the client prints.
pub data Line : Type 0 where
  length_line : ℕ → Line
  speed_line : Line

-- `if( cnt == 100000 )`, with `cnt` counted up: the next count.
abbrev pub next_cnt : ℕ → ℕ
next_cnt cnt = if suc cnt == 100000 then 0 else suc cnt

abbrev pub client_lines : ℕ → ℕ → List Line
client_lines len cnt =
    (if len == 40 then [] else length_line len ∷ [])
    ++ (if suc cnt == 100000 then speed_line ∷ [] else [])

-- The loop of the client, over the answers of `recvfrom`.
unfoldable pub client_loop : List (Option (List ℕ)) → List ℕ → ℕ → List Line × End
unfolding strlen recv
client_loop [] buf cnt = ([], running)
client_loop (answer ∷ answers) buf cnt =
    let r = recv answer buf in
    let rest = client_loop answers r.1 (next_cnt cnt) in
    elim r.0 [
      | false ↦ ([], returned (negsuc 0))
      | true ↦ elim (strlen r.1) [
        | none ↦ ([], overrun)
        | some len ↦ (client_lines len cnt ++ rest.0, rest.1)
      ]
    ]

-- `main` of the client: the answers of `socket` and `sendto`, and the buffer that `new` gives.
unfoldable pub client_main : ℕ → ℤ → ℤ → List (Option (List ℕ)) → List ℕ → List Line × End
unfolding client_loop
client_main argc socket sendto answers buf =
    if not (argc == 3)
    then ([], returned (negsuc 0))
    else if not (answered socket)
    then ([], returned (negsuc 0))
    else if not (answered sendto)
    then ([], returned (negsuc 0))
    else client_loop answers buf 0

-- `buf[i] = rand() % 26 + 'a'`, for so many, from the draw `d` on.
abbrev pub random_letters : (ℕ → ℕ) → ℕ → ℕ → List ℕ
random_letters rand d zero = []
random_letters rand d (suc n) = (rand d % 26 + b'a') ∷ random_letters rand (suc d) n

-- What the server sends to the one client, and how often it prints its speed.
pub record Served : Type 0 where
  pub sent : List (List ℕ)
  pub speeds : ℕ
  pub end : End

-- The first forty bytes of the buffer, and the draws, as a turn uses them.
abbrev pub refill : (ℕ → ℕ) → ℕ → ℕ → List ℕ → List ℕ × ℕ
refill rand d cnt packet =
    if suc cnt % 10000 == 0 then (random_letters rand d 40, d + 40) else (packet, d)

-- The inner loop of the server, over the answers of `sendto`. It has no way out but an error, whose
-- `false` is the 0 that `main` returns.
unfoldable pub server_loop : (ℕ → ℕ) → List ℤ → ℕ → List ℕ → ℕ → Served
server_loop rand [] d packet cnt = record { sent = []; speeds = 0; end = running }
server_loop rand (ret ∷ answers) d packet cnt =
    let r = refill rand d cnt packet in
    let rest = server_loop rand answers r.1 r.0 (next_cnt cnt) in
    elim (answered ret) [
      | false ↦ record { sent = []; speeds = 0; end = returned (pos 0) }
      | true ↦ record {
        sent = r.0 ∷ rest.sent;
        speeds = (if suc cnt == 100000 then 1 else 0) + rest.speeds;
        end = rest.end;
      }
    ]

-- `main` of the server: the answers of `socket`, `bind` and the first `recvfrom`, and of `sendto`,
-- and the buffer that `new` gives. What is received is printed up to its end before the loop.
unfoldable pub server_main : ℕ → ℤ → ℤ → Option (List ℕ) → (ℕ → ℕ) → List ℤ → List ℕ → Served
unfolding server_loop strlen recv
server_main argc socket bind recvfrom rand answers buf =
    if not (argc == 3)
    then record { sent = []; speeds = 0; end = returned (negsuc 0) }
    else if not (answered socket)
    then record { sent = []; speeds = 0; end = returned (pos 0) }
    else if not (answered bind)
    then record { sent = []; speeds = 0; end = returned (pos 0) }
    else let r = recv recvfrom buf in
      elim r.0 [
        | false ↦ record { sent = []; speeds = 0; end = returned (pos 0) }
        | true ↦ elim (strlen r.1) [
          | none ↦ record { sent = []; speeds = 0; end = overrun }
          | some len ↦ server_loop rand answers 0 (take 40 r.1) 0
        ]
      ]
