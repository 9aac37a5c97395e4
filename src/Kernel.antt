-- ===== src/Kernel.antt =====
-- The system calls of a connection and of an event loop, which connection/conn.go, connection/flush.go
-- and eventloop/ make through golang.org/x/sys/unix: what each call answers is a parameter, with what
-- read(2), write(2) and writev(2) document.
use connaxis.Prelude.{ℕ, ◌≤◌, ◌≡◌, Bool, false, ◌==◌, some, none, not, List, Bytes, ℤ}
use connaxis.Prelude.Lists.{length}
use connaxis.WriteQueue.Flush.{Errno}
use connaxis.WriteQueue.Flush.Sent.{TakesPrefix, count_of}

-- `err != nil && err != unix.EAGAIN`
abbrev pub fails : Errno → Bool
fails none = false
fails (some e) = not (e == 11)

abbrev pub eagain : Errno → Bool
eagain none = false
eagain (some e) = e == 11

abbrev pub enomem : Errno
enomem = some 12

pub record Kernel : Type 0 where
  -- The answer to the n-th write or writev, for the buffers that it is offered.
  pub write : ℕ → List Bytes → ℤ × Errno
  -- The answer to the n-th read into a buffer of a length, and the bytes that it put there.
  pub read : ℕ → ℕ → (ℤ × Errno) × Bytes
  -- The answer of the poller to `AddRead(fd)`.
  pub add_read : ℕ → Errno
  -- No more is taken than offered, and nothing where an errno is set.
  pub write_takes : (n : ℕ) → TakesPrefix (write n)
  pub write_fails :
      (n : ℕ) (bs : List Bytes) (e : ℕ) → (write n bs).1 ≡ some e → count_of (write n bs).0 ≡ 0
  -- The count is that of the bytes put, at most the buffer's length.
  pub read_fits :
      (n len : ℕ)
      → (length (read n len).1 ≡ count_of (read n len).0.0) × (length (read n len).1 ≤ len)
