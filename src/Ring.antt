-- ===== src/Ring.antt =====
-- ringbuffer/ringbuffer.go. The two indices only grow and are reduced at each access; they are
-- natural numbers here, which an `int` of 64 bits is until 2^63 bytes have gone through. Lengths and
-- steps are not negative. The lock is `internal.Fakelock`, whose methods do nothing. `none` is a
-- run-time panic: a division by a size of zero, or an index out of range.
pub mod Grow
pub mod Window
pub mod Valid
pub mod Fill
pub mod Access
pub mod Tests
use connaxis.Prelude.{
  ℕ, zero, suc, ◌+◌, ◌-◌, ◌%◌, Bool, true, false, ◌&&◌, ◌||◌, Option, none, some, List, [], ◌∷◌,
  Bytes, slice, copy, copy_at, ltb, leb, ◌==◌, if◌then◌else◌, ℤ, pos, negsuc,
}
use connaxis.Prelude.Lists.{length, take, drop}

pub record RingBuffer : Type 0 where
  pub buf : Bytes
  pub size : ℕ
  pub r : ℕ
  pub w : ℕ

-- `NewRingBuffer`
abbrev pub new_ring_buffer : RingBuffer
new_ring_buffer = record { buf = []; size = 0; r = 0; w = 0 }

-- The copy of the first `n` readable bytes into `dst`, which `Read`, `AlignBytes` and `resize` spell
-- out one after the other.
pub copy_out : RingBuffer → ℕ → Bytes → Bytes
copy_out rb n dst =
    let start = rb.r % rb.size in
    let copyed = rb.size - start in
    if ltb (start + n) rb.size
    then copy dst (slice rb.buf start (start + n))
    else copy_at (copy dst (slice rb.buf start rb.size)) copyed (slice rb.buf 0 (n - copyed))

-- `Read(p, length, update)`: the result, `p` afterwards, and the ring.
pub read : RingBuffer → Bytes → ℕ → Bool → Option (ℤ × Bytes × RingBuffer)
read rb p len update =
    if length p == 0 || ltb (length p) len
    then some (negsuc 0, p, rb)
    else (if rb.w == rb.r
        then some (pos 0, p, rb)
        else (let n = if ltb len (rb.w - rb.r) then len else rb.w - rb.r in
            if rb.size == 0
            then none
            else some (pos n, copy_out rb n p, if update then record rb { r = rb.r + n } else rb)))

-- The copy of `Write`: all of `p`, also where `length` is less than its length.
pub put_bytes : RingBuffer → Bytes → ℕ → Bytes
put_bytes rb p len =
    let start = rb.w % rb.size in
    let copyed = rb.size - start in
    if ltb (start + len) rb.size
    then copy_at rb.buf start p
    else copy_at (copy_at rb.buf start (take copyed p)) 0 (drop copyed p)

-- `mode` of `Forward`
pub data Mode : Type 0 where
  op_read op_write : Mode

-- `Forward`
unfoldable pub forward : RingBuffer → ℕ → Mode → ℤ × RingBuffer
forward rb step op_read = if ltb rb.w (rb.r + step) then (negsuc 0, rb) else (
  pos 0,
  if rb.r + step == rb.w then record rb { r = 0; w = 0 } else record rb { r = rb.r + step },
)
forward rb step op_write =
    if ltb rb.size (rb.w + step - rb.r)
    then (negsuc 0, rb)
    else (pos 0, record rb { w = rb.w + step })

unfoldable pub has : RingBuffer → ℕ
has rb = rb.w - rb.r

unfoldable pub free : RingBuffer → ℕ
free rb = rb.size - (rb.w - rb.r)

unfoldable pub truncate : RingBuffer → RingBuffer
truncate rb = record rb { r = 0; w = 0 }

-- `Peek2`; a nil slice is the empty one.
pub peek2 : RingBuffer → Bytes × Bytes
peek2 rb =
    if rb.size == 0 || rb.w == rb.r
    then ([], [])
    else (let n = rb.w - rb.r in
        let start = rb.r % rb.size in
        if leb (start + n) rb.size
        then (slice rb.buf start (start + n), [])
        else (slice rb.buf start rb.size, slice rb.buf 0 (start + n - rb.size)))

-- A slice `buf[start:end]` that the caller may write through.
pub record Span : Type 0 where
  pub start : ℕ
  pub end : ℕ
