-- ===== src/WriteQueue/Flush.antt =====
-- connection/flush.go and connection/writev_unix.go: `flushWriteQueue` offers the queue's bytes to one
-- writev. What the kernel does with them is a parameter.
pub mod Sent
pub mod Fails
use connaxis.Prelude.{
  ℕ, zero, suc, ◌+◌, ◌-◌, ◌%◌, ◌^◌, ◌&&◌, Bool, true, false, Option, none, some, List, [], ◌∷◌,
  ◌++◌, Bytes, ltb, leb, ◌==◌, if◌then◌else◌, ℤ, pos, negsuc,
}
use connaxis.Prelude.Lists.{length, take, drop}
use connaxis.Alloc.{Allocator}
use connaxis.WriteQueue.{WriteEntry, WriteQueue, unsent, consume}

-- An errno, and nil where there is none.
abbrev pub Errno : Type 0
Errno = Option ℕ

abbrev pub ebadf : Errno
ebadf = some 9

pub is_eagain : Errno → Bool
is_eagain none = false
is_eagain (some e) = e == 11

-- `maxWritevIovecs`
abbrev pub max_writev_iovecs : ℕ
max_writev_iovecs = 64

-- The first bytes of an entry, at most the budget where there is one.
pub cut : ℕ → ℕ → Bytes → Bytes
cut max_bytes remaining b =
    if ltb 0 max_bytes && ltb remaining (length b) then take remaining b else b

-- The loop that fills `iovecs`, with the slots left of the array. `max_bytes` 0 is no limit.
unfoldable pub gather : ℕ → ℕ → ℕ → List WriteEntry → List Bytes
unfolding cut
gather slots max_bytes remaining [] = []
gather zero max_bytes remaining (item ∷ rest) = []
gather (suc slots) max_bytes remaining (item ∷ rest) = elim (leb item.size item.off) [
  | true ↦ gather (suc slots) max_bytes remaining rest
  | false ↦ (elim (ltb 0 max_bytes && remaining == 0) [
    | true ↦ []
    | false ↦
        let b = cut max_bytes remaining (unsent item) in
        b ∷ gather slots max_bytes (remaining - length b) rest
  ])
]

-- `writev`; the system call gets the buffers and gives its result and errno.
pub writev : (List Bytes → ℤ × Errno) → List Bytes → ℤ × Errno
writev syscall [] = (pos 0, none)
writev syscall (b ∷ bs) = syscall (b ∷ bs)

-- A negative result with EAGAIN counts as nothing sent.
pub settle : ℤ × Errno → ℤ × Errno
unfolding is_eagain
settle (pos n, err) = (pos n, err)
settle (negsuc n, err) = (if is_eagain err then pos 0 else negsuc n, err)

module _ (al : Allocator) where
  open al use {State}

  -- What the function does with the result: the count of bytes sent is an int32 that wraps.
  pub sent : ℤ × Errno → WriteQueue → ℕ → State → Option ((ℤ × Errno) × WriteQueue × ℕ × State)
  sent (negsuc n, err) q send s = some ((negsuc n, err), q, send, s)
  sent (pos zero, err) q send s = some ((pos 0, err), q, send, s)
  sent (pos (suc n), err) q send s = elim (consume al q (suc n) s) [
    | none ↦ none
    | some (q', s') ↦ some ((pos (suc n), err), q', (send + suc n) % 2 ^ 32, s')
  ]

  -- `flushWriteQueue(fd, wq, maxBytes, send)`: none is a panic.
  unfoldable pub flush_write_queue :
      (List Bytes → ℤ × Errno)
      → ℕ
      → WriteQueue
      → ℕ
      → ℕ
      → State
      → Option ((ℤ × Errno) × WriteQueue × ℕ × State)
  unfolding gather writev settle sent
  flush_write_queue syscall fd q max_bytes send s =
      if fd == 0
      then some ((pos 0, ebadf), q, send, s)
      else (if q.bytes == 0
          then some ((pos 0, none), q, send, s)
          else sent
              (settle (
                writev syscall
                  (gather max_writev_iovecs max_bytes max_bytes (drop q.head q.items))))
              q send s)
