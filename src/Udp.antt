-- ===== src/Udp.antt =====
-- The receivers of datagrams: `ZeroCopyUDP` (include/HFTPerf.h) and `ZeroCopyUDPSocket`
-- (include/HFT.h). What the operating system answers is an argument: the descriptor of `socket`, the
-- result of `bind`, and what `recvfrom` returns, sets `errno` to and leaves in the buffer.
mod Sequence
mod Short
mod Tests
use quant_sim_x.Prelude.{
  ℕ, zero, suc, ◌+◌, ◌*◌, Bool, true, false, List, [], ◌∷◌, ◌++◌, Option, none, some, get_or, take,
  drop, ltb, leb, add64, if◌then◌else◌,
}
use quant_sim_x.Prelude.Int.{ℤ, pos, negsuc}

-- The doubles are bit patterns; nothing computes with them here.
pub record MarketData : Type 0 where
  pub ts_ns : ℕ
  pub seq : ℕ
  pub bid : ℕ
  pub ask : ℕ
  pub bid_qty : ℕ
  pub ask_qty : ℕ
  pub last_px : ℕ
  pub last_qty : ℕ

unfoldable pub valid : MarketData → Bool
valid m = ltb 0 m.ts_ns

pub record ZeroCopyUdp : Type 0 where
  pub fd : ℤ
  pub rx : ℕ
  pub drops : ℕ
  pub last_seq : ℕ

abbrev pub new_receiver : ZeroCopyUdp
new_receiver = record { fd = negsuc 0; rx = 0; drops = 0; last_seq = 0 }

abbrev pub is_negative : ℤ → Bool
is_negative (pos _) = false
is_negative (negsuc _) = true

-- `socket` is the descriptor that the system gives, `bound` what `::bind` returns.
unfoldable pub bind : ZeroCopyUdp → ℤ → ℤ → Bool × ZeroCopyUdp
bind u socket bound =
    let opened = record u { fd = socket } in
    if is_negative socket
    then (false, opened)
    else if is_negative bound
    then (false, record u { fd = negsuc 0 })
    else (true, opened)

-- with the descriptor that `::close` is called with
unfoldable pub close : ZeroCopyUdp → Option ℤ × ZeroCopyUdp
close u = if is_negative u.fd then (none, u) else (some u.fd, record u { fd = negsuc 0 })

-- `w[k]`: eight bytes, the lowest first
abbrev pub word : List ℕ → ℕ → ℕ
word bytes zero = 0
word bytes (suc n) = get_or bytes 0 0 + 256 * word (drop 1 bytes) n

unfoldable pub word_at : List ℕ → ℕ → ℕ
word_at buf k = word (drop (8 * k) buf) 8

unfoldable pub market_data : List ℕ → MarketData
unfolding word_at
market_data buf = record {
  ts_ns = word_at buf 0;
  seq = word_at buf 7;
  bid = word_at buf 1;
  ask = word_at buf 2;
  bid_qty = word_at buf 3;
  ask_qty = word_at buf 4;
  last_px = word_at buf 5;
  last_qty = word_at buf 6;
}

-- What a call of `recvfrom` leaves: its result, whether `errno` is EAGAIN or EWOULDBLOCK, and the 1024
-- bytes of the buffer, which is a local array that nothing clears.
pub record Reception : Type 0 where
  pub n : ℤ
  pub would_block : Bool
  pub buf : List ℕ

-- The code that is returned, what `out` points to afterwards, and the receiver.
unfoldable pub recv : ZeroCopyUdp → MarketData → Reception → ℤ × (MarketData × ZeroCopyUdp)
unfolding market_data
recv u out r =
    let failed = if r.would_block then pos 0 else negsuc 0 in
    let dropped = record u { drops = add64 u.drops 1 } in
    let m = market_data r.buf in
    elim r.n [
      | negsuc _ ↦ (failed, (out, u))
      | pos n ↦
          if leb n 0
          then (failed, (out, u))
          else if ltb n 48
          then (negsuc 0, (out, dropped))
          else if leb m.seq u.last_seq
          then (negsuc 0, (m, dropped))
          else (pos 1, (m, record u { last_seq = m.seq; rx = add64 u.rx 1 }))
    ]

-- `ZeroCopyUDPSocket`
pub record UdpSocket : Type 0 where
  pub fd : ℤ
  pub buffer : Option (List ℕ)

abbrev pub is_valid : UdpSocket → Bool
is_valid s = if is_negative s.fd then false else true

unfoldable pub close_socket : UdpSocket → Option ℤ × UdpSocket
close_socket s =
    let closed = record s { buffer = none } in
    if is_negative s.fd then (none, closed) else (some s.fd, record closed { fd = negsuc 0 })

-- `fresh` is the content of the new buffer of 65536 bytes.
unfoldable pub bind_socket : UdpSocket → ℤ → ℤ → List ℕ → Bool × UdpSocket
unfolding close_socket
bind_socket s socket bound fresh =
    let opened = record s { fd = socket } in
    if is_negative socket
    then (false, opened)
    else if is_negative bound
    then (false, (close_socket opened).1)
    else (true, record opened { buffer = some fresh })

-- `ret` is what `recvmsg` returns and `buffer` what it leaves there; `dest` is the memory of the
-- caller.
unfoldable pub recv_raw : ℤ → List ℕ → List ℕ → ℕ → ℤ × List ℕ
recv_raw ret buffer dest max_len = elim ret [
  | negsuc k ↦ (negsuc k, dest)
  | pos n ↦
      let size = if ltb max_len n then max_len else n in
      if leb n 0 then (pos n, dest) else (pos size, take size buffer ++ drop size dest)
]
