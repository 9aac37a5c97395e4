-- ===== src/TlsBuffer.antt =====
-- connection/tlsconn.go: `tlsBufferConn` after the handshake (its `direct` is nil), between crypto/tls
-- and the socket, with `readCiphertext` and the ciphertext part of `ATLSConn.FlushN`. The socket is
-- the caller's: what unix.Read returned and how much writev took are arguments.
pub mod Stream
pub mod Traffic
mod Tests
use connaxis.Prelude.{
  ℕ, ◌+◌, ◌-◌, ◌≤◌, Bool, true, false, ◌&&◌, ◌||◌, ◌++◌, Option, none, some, List, [], ◌∷◌, Bytes,
  ltb, leb, ◌==◌, if◌then◌else◌, ℤ, pos, negsuc, min, copy_at,
}
use connaxis.Prelude.Lists.{length, take}
use connaxis.Alloc.{Allocator}
use connaxis.Ring.{RingBuffer, Span, read, forward, op_read, op_write, has, peek2}
use connaxis.Ring.Grow.{write, peek_write}

-- A count, or the error of the call.
pub data IoResult : Type 0 where
  count : ℕ → IoResult
  would_block : IoResult
  no_memory : IoResult

-- `tlsBufferConn.Read(p)` over `cin`: the result, `p`, and the ring.
pub tls_read : RingBuffer → Bytes → Option (IoResult × Bytes × RingBuffer)
tls_read cin p =
    if length p == 0
    then some (count 0, p, cin)
    else (if has cin == 0 then some (would_block, p, cin) else (elim (read cin p (length p) true) [
      | none ↦ none
      | some (negsuc k, p', cin') ↦ some (would_block, p', cin')
      | some (pos n, p', cin') ↦ some (if n == 0 then would_block else count n, p', cin')
    ]))

-- What writev is given of the two pieces of `cout`: at most `remaining` bytes, if there is a limit.
pub trimmed : Bytes × Bytes → Option ℕ → Bytes × Bytes
trimmed (head, tail) none = (head, tail)
trimmed (head, tail) (some remaining) =
    if ltb remaining (length head)
    then (take remaining head, [])
    else (if ltb remaining (length head + length tail)
        then (head, take (remaining - length head) tail)
        else (head, tail))

-- One round of `FlushN` over a `cout` that is not empty: the bytes that writev sent, being at most
-- `accepted`, and the ring after `Forward`.
pub flush_round : RingBuffer → Option ℕ → ℕ → Bytes × RingBuffer
unfolding trimmed
flush_round cout limit accepted =
    let (head, tail) = trimmed (peek2 cout) limit in
    let sent = take accepted (head ++ tail) in
    if length sent == 0 then ([], cout) else (sent, (forward cout (length sent) op_read).1)

-- The bytes of the socket that unix.Read put into the span, and `Forward` if there are any.
pub received : RingBuffer → Span → Bytes → RingBuffer
received cin sp incoming =
    let got = take (sp.end - sp.start) incoming in
    let filled = record cin { buf = copy_at cin.buf sp.start got } in
    if length got == 0 then filled else (forward filled (length got) op_write).1

-- `tlsCipherReadSize`
abbrev pub tls_cipher_read_size : ℕ
tls_cipher_read_size = 32768

module _ (al : Allocator) where
  open al use {State}

  -- `tlsBufferConn.Write(p)` over `cout`
  pub tls_write : RingBuffer → Bytes → State → Option (IoResult × RingBuffer × State)
  tls_write cout p s =
      if length p == 0 then some (count 0, cout, s) else (elim (write al cout p (length p) true s) [
        | none ↦ none
        | some (negsuc k, cout', s') ↦ some (no_memory, cout', s')
        | some (pos n, cout', s') ↦ some (count (length p), cout', s')
      ])

  -- `readCiphertext` where the socket has the bytes `incoming`: the bytes read, and the ring. With
  -- none, unix.Read returns EAGAIN.
  pub read_ciphertext : RingBuffer → Bytes → State → Option (IoResult × Bytes × RingBuffer × State)
  unfolding received
  read_ciphertext cin incoming s = elim (peek_write al cin tls_cipher_read_size s) [
    | none ↦ none
    | some (none, cin', s') ↦ some (no_memory, [], cin', s')
    | some (some sp, cin', s') ↦
        if sp.end - sp.start == 0
        then some (no_memory, [], cin', s')
        else (let got = take (sp.end - sp.start) incoming in
            some (
              if length got == 0 then would_block else count (length got),
              got,
              received cin' sp incoming,
              s',
            ))
  ]
