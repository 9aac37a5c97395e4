-- ===== src/Ring/Grow.antt =====
-- ringbuffer/ringbuffer.go: the operations that call pool.GAlloctor, over any allocator. They thread
-- its state.
pub mod Room
pub mod Append
pub mod Fits
pub mod Overrun
pub mod Peek
mod Tests
use connaxis.Prelude.{
  ℕ, ◌+◌, ◌-◌, ◌%◌, Bool, ◌&&◌, ◌||◌, Option, none, some, [], Bytes, ltb, leb, ◌==◌, if◌then◌else◌,
  ℤ, pos, negsuc,
}
use connaxis.Prelude.Lists.{length}
use connaxis.Alloc.{Allocator}
use connaxis.Ring.{RingBuffer, Span, copy_out, put_bytes}

module _ (al : Allocator) where
  open al use {State, get, put}

  -- `resize(resize)`
  pub resize : RingBuffer → ℕ → State → Option (ℤ × RingBuffer × State)
  unfolding copy_out
  resize rb wanted s = elim (get wanted s) [
    | none ↦ none
    | some (none, s') ↦ some (negsuc 0, rb, s')
    | some (some buf, s') ↦
        let n = rb.w - rb.r in
        if ltb 0 n && rb.size == 0
        then none
        else some (
          pos 0,
          record {
            buf = if ltb 0 n then copy_out rb n buf else buf;
            size = length buf;
            r = 0;
            w = n;
          },
          put rb.buf s',
        )
  ]

  -- The first lines of `Write`: a ring without a buffer asks for one.
  pub write_alloc : RingBuffer → ℕ → State → Option (RingBuffer × State)
  write_alloc rb len s =
      if rb.size == 0
      then (elim (get len s) [
        | none ↦ none
        | some (none, s') ↦ some (record rb { buf = []; size = 0 }, s')
        | some (some buf, s') ↦ some (record rb { buf = buf; size = length buf }, s')
      ])
      else some (rb, s)

  -- The space check of `Write` and `PeekWrite`.
  pub ensure : RingBuffer → ℕ → State → Option (ℤ × RingBuffer × State)
  unfolding resize
  ensure rb len s =
      let avail = rb.size - (rb.w - rb.r) in
      if ltb avail len then resize rb (len - avail + rb.size) s else some (pos 0, rb, s)

  pub write_ready : RingBuffer → Bytes → ℕ → Bool → State → Option (ℤ × RingBuffer × State)
  unfolding put_bytes
  write_ready rb p len update s =
      if rb.size == 0
      then none
      else some (
        pos len,
        record rb { buf = put_bytes rb p len; w = if update then rb.w + len else rb.w },
        s,
      )

  -- `Write(p, length, update)`
  pub write : RingBuffer → Bytes → ℕ → Bool → State → Option (ℤ × RingBuffer × State)
  unfolding write_alloc ensure write_ready
  write rb p len update s = elim (write_alloc rb len s) [
    | none ↦ none
    | some (rb', s') ↦
        if length p == 0 || ltb (length p) len
        then some (negsuc 0, rb', s')
        else (elim (ensure rb' len s') [
          | none ↦ none
          | some (negsuc k, rb'', s'') ↦ some (negsuc 1, rb'', s'')
          | some (pos k, rb'', s'') ↦ write_ready rb'' p len update s''
        ])
  ]

  pub peek_write_span : RingBuffer → ℕ → State → Option (Option Span × RingBuffer × State)
  peek_write_span rb len s =
      let start = rb.w % rb.size in
      if rb.size == 0
      then none
      else some (
        some (record {
          start = start;
          end = if leb (start + len) rb.size then start + len else rb.size;
        }),
        rb,
        s,
      )

  -- The first lines of `PeekWrite`: none is the nil slice of the pool.
  pub peek_alloc : RingBuffer → ℕ → State → Option (Option RingBuffer × State)
  peek_alloc rb len s =
      if rb.size == 0
      then (elim (get len s) [
        | none ↦ none
        | some (none, s') ↦ some (none, s')
        | some (some buf, s') ↦
            some (some (record { buf = buf; size = length buf; r = 0; w = 0 }), s')
      ])
      else some (some rb, s)

  -- `PeekWrite(length)`
  pub peek_write : RingBuffer → ℕ → State → Option (Option Span × RingBuffer × State)
  unfolding ensure peek_write_span peek_alloc
  peek_write rb len s = if len == 0 then some (none, rb, s) else (elim (peek_alloc rb len s) [
    | none ↦ none
    | some (none, s') ↦ some (none, record rb { buf = [] }, s')
    | some (some rb', s') ↦ elim (ensure rb' len s') [
      | none ↦ none
      | some (negsuc k, rb'', s'') ↦ some (none, rb'', s'')
      | some (pos k, rb'', s'') ↦ peek_write_span rb'' len s''
    ]
  ])

  -- `AlignBytes` without a new buffer: `copy` into a nil slice does nothing, `buf[copyed:]` panics.
  pub align_failed : RingBuffer → State → Option (RingBuffer × State)
  align_failed rb s =
      let n = rb.w - rb.r in
      if ltb 0 n && leb rb.size (rb.r % rb.size + n)
      then none
      else some (record rb { buf = []; w = n; r = 0 }, put rb.buf s)

  -- `AlignBytes`: the ring, whose buffer it returns.
  unfoldable pub align_bytes : RingBuffer → State → Option (RingBuffer × State)
  unfolding copy_out align_failed
  align_bytes rb s =
      if rb.size == 0
      then none
      else (if rb.r % rb.size == 0 then some (rb, s) else (elim (get rb.size s) [
        | none ↦ none
        | some (none, s') ↦ align_failed rb s'
        | some (some buf, s') ↦
            let n = rb.w - rb.r in
            some (
              record rb { buf = if ltb 0 n then copy_out rb n buf else buf; w = n; r = 0 },
              put rb.buf s',
            )
      ]))

  -- `Update(buf)`
  unfoldable pub update : RingBuffer → Bytes → State → RingBuffer × State
  update rb buf s = (record { buf = buf; size = length buf; r = 0; w = 0 }, put rb.buf s)

  -- `Reset`
  unfoldable pub reset : RingBuffer → State → RingBuffer × State
  reset rb s = (record { buf = []; size = 0; r = 0; w = 0 }, put rb.buf s)
