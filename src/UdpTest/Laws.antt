-- ===== src/UdpTest/Laws.antt =====
-- udptest/: how the client and the server count, and what the server sends.
use r_bench_an_interference.Base.{
  ℕ, zero, suc, ◌+◌, ◌/◌, ◌%◌, ◌≤◌, ◌<◌, ◌≡◌, ◌≢◌, refl, arith, ap, ap₂, ◌∙◌, ◌==◌, if◌then◌else◌,
  Bool, true, false, Option, none, some, List, [], ◌∷◌, ◌++◌, length, All,
}
use r_bench_an_interference.Base.Int.{ℤ, pos, negsuc}
use r_bench_an_interference.UdpTest.{
  answered, take, overwrite, recv, strlen, returned, overrun, Line, length_line, speed_line,
  next_cnt, client_lines, client_loop, client_main, random_letters, refill, server_loop,
  server_main,
}

abbrev pub speeds_of : List Line → ℕ
speeds_of [] = 0
speeds_of (length_line n ∷ lines) = speeds_of lines
speeds_of (speed_line ∷ lines) = suc (speeds_of lines)

speeds_of-append : (a b : List Line) → speeds_of (a ++ b) ≡ speeds_of a + speeds_of b
speeds_of-append [] b = omega arith
speeds_of-append (length_line n ∷ a) b = speeds_of-append a b
speeds_of-append (speed_line ∷ a) b = omega (arith, speeds_of-append a b)

-- A text of forty bytes is not reported, and each hundred thousandth datagram gives a speed.
client_lines-speeds :
    (len cnt : ℕ) → speeds_of (client_lines len cnt) ≡ (if suc cnt == 100000 then 1 else 0)
client_lines-speeds len cnt = choose (len == 40) (suc cnt == 100000)
  where
    choose :
        (a b : Bool)
        → speeds_of
            ((if a then [] else length_line len ∷ []) ++ (if b then speed_line ∷ [] else []))
          ≡ (if b then 1 else 0)
    choose true true = refl
    choose true false = refl
    choose false true = refl
    choose false false = refl

speed_sum :
    (cnt n : ℕ)
    → cnt < 100000
    → (if suc cnt == 100000 then 1 else 0) + (next_cnt cnt + n) / 100000 ≡ (cnt + suc n) / 100000
speed_sum cnt n h = choose (suc cnt == 100000) refl
  where
    choose :
        (b : Bool)
        → (suc cnt == 100000) ≡ b
        → (if b then 1 else 0) + ((if b then 0 else suc cnt) + n) / 100000 ≡ (cnt + suc n) / 100000
    choose true e = let full : suc cnt ≡ 100000 = ground arith in omega arith
    choose false e = omega arith

next_cnt-lt : (cnt : ℕ) → cnt < 100000 → next_cnt cnt < 100000
next_cnt-lt cnt h = choose (suc cnt == 100000) refl
  where
    choose : (b : Bool) → (suc cnt == 100000) ≡ b → (if b then 0 else suc cnt) < 100000
    choose true e = omega arith
    choose false e = let other : suc cnt ≢ 100000 = λ x. ground arith in omega (arith, other)

-- Every datagram leaves a text in the buffer that ends in it.
abbrev pub Readable : List (List ℕ) → List ℕ → Type 0
Readable [] buf = Unit
Readable (datagram ∷ more) buf =
    ((len : ℕ) × (strlen (overwrite (take 4096 datagram) buf) ≡ some len))
    × Readable more (overwrite (take 4096 datagram) buf)

-- The answers of `recvfrom`: these datagrams, and then an error.
abbrev pub then_error : List (List ℕ) → List (Option (List ℕ))
then_error [] = none ∷ []
then_error (datagram ∷ more) = some datagram ∷ then_error more

client_loop-counts :
    (datagrams : List (List ℕ)) (buf : List ℕ) (cnt : ℕ)
    → cnt < 100000
    → Readable datagrams buf
    → ((client_loop (then_error datagrams) buf cnt).1 ≡ returned (negsuc 0))
      × (speeds_of (client_loop (then_error datagrams) buf cnt).0
          ≡ (cnt + length datagrams) / 100000)
unfolding client_loop recv
client_loop-counts [] buf cnt h r = (refl, omega arith)
client_loop-counts (datagram ∷ more) buf cnt h ((len, e), r) =
    let (ends, counts) =
      client_loop-counts more (overwrite (take 4096 datagram) buf) (next_cnt cnt)
        (next_cnt-lt cnt h) r in
    rw (client_loop, e)
      (
        ends,
        speeds_of-append (client_lines len cnt)
              (client_loop (then_error more) (overwrite (take 4096 datagram) buf) (next_cnt cnt)).0
            ∙ ap₂ (λ (a b : ℕ). a + b) (client_lines-speeds len cnt) counts
            ∙ speed_sum cnt (length more) h,
      )

-- With its socket and its first datagram sent, the client counts what it receives until an error of
-- `recvfrom`, prints its speed once for each hundred thousand datagrams, and returns -1. Every
-- datagram must leave a text that ends in the buffer.
pub client_main-counts :
    (socket sendto : ℤ) (datagrams : List (List ℕ)) (buf : List ℕ)
    → answered socket ≡ true
    → answered sendto ≡ true
    → Readable datagrams buf
    → ((client_main 3 socket sendto (then_error datagrams) buf).1 ≡ returned (negsuc 0))
      × (speeds_of (client_main 3 socket sendto (then_error datagrams) buf).0
          ≡ length datagrams / 100000)
unfolding client_main
client_main-counts socket sendto datagrams buf opened sent r =
    rw (client_main, opened, sent)
      (
        (client_loop-counts datagrams buf 0 (omega arith) r).0,
        (client_loop-counts datagrams buf 0 (omega arith) r).1
            ∙ ap (λ (t : ℕ). t / 100000)
                (let e : 0 + length datagrams ≡ length datagrams = omega arith in e),
      )

-- Forty lower-case letters.
abbrev pub IsText : List ℕ → Type 0
IsText packet = (length packet ≡ 40) × All (λ c. (b'a' ≤ c) × (c ≤ b'z')) packet

random_letters-length : (rand : ℕ → ℕ) (d n : ℕ) → length (random_letters rand d n) ≡ n
random_letters-length rand d zero = refl
random_letters-length rand d (suc n) = omega (arith, random_letters-length rand (suc d) n)

random_letters-All :
    (rand : ℕ → ℕ) (d n : ℕ) → All (λ c. (b'a' ≤ c) × (c ≤ b'z')) (random_letters rand d n)
random_letters-All rand d zero = tt
random_letters-All rand d (suc n) = ((omega arith, omega arith), random_letters-All rand (suc d) n)

refill-IsText :
    (rand : ℕ → ℕ) (d cnt : ℕ) (packet : List ℕ)
    → IsText packet
    → IsText (refill rand d cnt packet).0
refill-IsText rand d cnt packet h = choose (suc cnt % 10000 == 0)
  where
    choose :
        (b : Bool)
        → IsText (
            let r : List ℕ × ℕ = if b then (random_letters rand d 40, d + 40) else (packet, d) in
            r.0)
    choose true = (random_letters-length rand d 40, random_letters-All rand d 40)
    choose false = h

abbrev pub AllAnswered : List ℤ → Type 0
AllAnswered answers = All (λ ret. answered ret ≡ true) answers

-- Once the buffer holds a text, only texts are sent.
texts_stay :
    (rand : ℕ → ℕ) (ret : ℤ) (oks : List ℤ) (d cnt : ℕ) (packet : List ℕ)
    → AllAnswered oks
    → answered ret ≡ false
    → IsText packet
    → All IsText (server_loop rand (oks ++ ret ∷ []) d packet cnt).sent
unfolding server_loop
texts_stay rand ret [] d cnt packet h bad text = rw (server_loop, bad) tt
texts_stay rand ret (ok ∷ oks) d cnt packet (h, hs) bad text =
    let next = refill-IsText rand d cnt packet text in
    rw (server_loop, h)
      (
        next,
        texts_stay rand ret oks ((refill rand d cnt packet).1) (next_cnt cnt)
            ((refill rand d cnt packet).0) hs bad next,
      )

abbrev pub drop : ℕ → List (List ℕ) → List (List ℕ)
drop zero packets = packets
drop (suc n) [] = []
drop (suc n) (p ∷ packets) = drop n packets

texts_from :
    (rand : ℕ → ℕ) (ret : ℤ) (oks : List ℤ) (left d cnt : ℕ) (packet : List ℕ)
    → AllAnswered oks
    → answered ret ≡ false
    → cnt + left ≡ 9999
    → All IsText (drop left (server_loop rand (oks ++ ret ∷ []) d packet cnt).sent)
unfolding server_loop
texts_from rand ret [] zero d cnt packet h bad e = rw (server_loop, bad) tt
texts_from rand ret [] (suc left) d cnt packet h bad e = rw (server_loop, bad) tt
texts_from rand ret (ok ∷ oks) zero d cnt packet (h, hs) bad e =
    let full : (suc cnt % 10000 == 0) ≡ true = ground arith in
    let text : IsText (random_letters rand d 40) =
      (random_letters-length rand d 40, random_letters-All rand d 40) in
    rw (server_loop, h, full)
      (text, texts_stay rand ret oks (d + 40) (next_cnt cnt) (random_letters rand d 40) hs bad text)
texts_from rand ret (ok ∷ oks) (suc left) d cnt packet (h, hs) bad e =
    let more : (suc cnt == 100000) ≡ false = ground arith in
    rw (server_loop, h)
      (texts_from rand ret oks left ((refill rand d cnt packet).1) (next_cnt cnt)
        ((refill rand d cnt packet).0) hs bad (rw more (omega arith)))

server_loop-counts :
    (rand : ℕ → ℕ) (ret : ℤ) (oks : List ℤ) (d cnt : ℕ) (packet : List ℕ)
    → AllAnswered oks
    → answered ret ≡ false
    → cnt < 100000
    → (length (server_loop rand (oks ++ ret ∷ []) d packet cnt).sent ≡ length oks)
      × ((server_loop rand (oks ++ ret ∷ []) d packet cnt).speeds ≡ (cnt + length oks) / 100000)
      × ((server_loop rand (oks ++ ret ∷ []) d packet cnt).end ≡ returned (pos 0))
unfolding server_loop
server_loop-counts rand ret [] d cnt packet h bad small =
    rw (server_loop, bad) (refl, omega arith, refl)
server_loop-counts rand ret (ok ∷ oks) d cnt packet (h, hs) bad small =
    let (sent, speeds, ends) =
      server_loop-counts rand ret oks ((refill rand d cnt packet).1) (next_cnt cnt)
        ((refill rand d cnt packet).0) hs bad (next_cnt-lt cnt small) in
    rw (server_loop, h)
      (
        omega (arith, sent),
        ap (λ (t : ℕ). (if suc cnt == 100000 then 1 else 0) + t) speeds
            ∙ speed_sum cnt (length oks) small,
        ends,
      )

-- With its socket bound and a first datagram received that leaves a text which ends in the buffer,
-- the server sends a packet for each answer of `sendto` until an error, prints its speed once for
-- each hundred thousand, and then returns 0. From packet 10000 on, each packet is forty lower-case
-- letters.
pub server_main-counts :
    (socket bind ret : ℤ) (datagram buf : List ℕ) (len : ℕ) (rand : ℕ → ℕ) (oks : List ℤ)
    → answered socket ≡ true
    → answered bind ≡ true
    → strlen (overwrite (take 4096 datagram) buf) ≡ some len
    → AllAnswered oks
    → answered ret ≡ false
    → let served = server_main 3 socket bind (some datagram) rand (oks ++ ret ∷ []) buf in
      (length served.sent ≡ length oks)
      × (served.speeds ≡ length oks / 100000)
      × (served.end ≡ returned (pos 0))
      × All IsText (drop 9999 served.sent)
unfolding server_main recv
server_main-counts socket bind ret datagram buf len rand oks opened bound ends_there h bad =
    let packet = take 40 (overwrite (take 4096 datagram) buf) in
    let (sent, speeds, ends) = server_loop-counts rand ret oks 0 0 packet h bad (omega arith) in
    rw (server_main, opened, bound, ends_there)
      (
        sent,
        speeds
            ∙ ap (λ (t : ℕ). t / 100000) (let e : 0 + length oks ≡ length oks = omega arith in e),
        ends,
        texts_from rand ret oks 9999 0 0 packet h bad refl,
      )

-- A text that does not end in the buffer is read past it, before a packet is sent.
server_main-overrun :
    (socket bind : ℤ) (datagram buf : List ℕ) (rand : ℕ → ℕ) (answers : List ℤ)
    → answered socket ≡ true
    → answered bind ≡ true
    → strlen (overwrite (take 4096 datagram) buf) ≡ none
    → server_main 3 socket bind (some datagram) rand answers buf
      ≡ record { sent = []; speeds = 0; end = overrun }
unfolding server_main recv
server_main-overrun socket bind datagram buf rand answers opened bound endless =
    rw (server_main, opened, bound, endless) refl
