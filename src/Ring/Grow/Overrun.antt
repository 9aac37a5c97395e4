-- ===== src/Ring/Grow/Overrun.antt =====
-- ringbuffer/ringbuffer.go: `Write` with a length below that of its slice copies the whole slice.
use connaxis.Prelude.{
  ℕ, suc, ◌+◌, ◌-◌, ◌%◌, ◌<◌, ◌≡◌, sym, ap, ◌∙◌, ltb, ◌==◌, ◌||◌, Bytes, true, false, lt→ltb,
  ge→ltb, arith, some, pos,
}
use connaxis.Prelude.Lists.{length, get_or}
use connaxis.Prelude.Slices.{get_or-copy_at_in}
use connaxis.Alloc.{Allocator}
use connaxis.Ring.{RingBuffer, put_bytes}
use connaxis.Ring.Grow.{write_alloc, write_ready, write, ensure}
use connaxis.Prelude.Modulo.{mod-step, mod-step_round}
use connaxis.Ring.Valid.{IsValid, contents}

put_bytes_overrun :
    (rb : RingBuffer) (p : Bytes) (len : ℕ)
    → IsValid rb
    → rb.r < rb.w
    → len < length p
    → rb.w - rb.r + len ≡ rb.size
    → rb.w % rb.size + len < rb.size
    → get_or (put_bytes rb p len) (rb.r % rb.size) 0 ≡ get_or p len 0
unfolding put_bytes
put_bytes_overrun rb p len v more long full straight =
    rw (lt→ltb _ _ straight, put_bytes, oldest)
      (get_or-copy_at_in rb.buf (rb.w % rb.size) p len 0 long (omega arith))
  where
    ends : rb.w + len ≡ rb.r + rb.size
    ends = omega arith

    oldest : rb.r % rb.size ≡ rb.w % rb.size + len
    oldest =
        sym (
          mod-step_round rb.r rb.size rb.size (omega arith) (omega arith) (omega arith)
          ∙ omega arith)
        ∙ ap (λ k. k % rb.size) (sym ends)
        ∙ mod-step rb.w len rb.size (omega arith) (omega arith) straight

module _ (al : Allocator) where
  open al use {State}

  -- A `Write` of the first `len` bytes of a longer slice that fills the ring up, before its end,
  -- reports success and overwrites the oldest readable byte by the first byte past `len`.
  pub write_overrun :
      (rb : RingBuffer) (p : Bytes) (len : ℕ) (s : State)
      → IsValid rb
      → rb.r < rb.w
      → len < length p
      → rb.w - rb.r + len ≡ rb.size
      → rb.w % rb.size + len < rb.size
      → (rb' : RingBuffer) × (write al rb p len true s ≡ some (pos len, rb', s))
        × (get_or (contents rb') 0 0 ≡ get_or p len 0)
  unfolding write ensure write_alloc write_ready
  write_overrun rb p len s v more long full straight = (
    record rb { buf = put_bytes rb p len; w = rb.w + len },
    rw (kept, write, accepted, roomy, ready),
    rw some_bytes (put_bytes_overrun rb p len v more long full straight),
  )
    where
      sized : (rb.size == 0) ≡ false
      sized = ground arith

      accepted : (length p == 0 || ltb (length p) len) ≡ false
      accepted = ground arith

      room : ltb (rb.size - (rb.w - rb.r)) len ≡ false
      room = ge→ltb _ _ (omega arith)

      kept : write_alloc al rb len s ≡ some (rb, s)
      kept = rw (sized, write_alloc)

      roomy : ensure al rb len s ≡ some (pos 0, rb, s)
      roomy = rw (room, ensure)

      ready :
          write_ready al rb p len true s
          ≡ some (pos len, record rb { buf = put_bytes rb p len; w = rb.w + len }, s)
      ready = rw (sized, write_ready)

      some_bytes : rb.w + len - rb.r ≡ suc (rb.w + len - rb.r - 1)
      some_bytes = omega arith
