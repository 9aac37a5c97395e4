-- ===== src/Ring/Grow/Fits.antt =====
-- ringbuffer/ringbuffer.go: `Write` of bytes that fit into the buffer asks for no other.
use connaxis.Prelude.{
  ◌+◌, ◌-◌, ◌≤◌, ◌<◌, ◌≡◌, refl, sym, ◌∙◌, ap, take, ◌%◌, ltb, ◌==◌, ◌++◌, ◌||◌, true, false, Bytes,
  arith, some, pos,
}
use connaxis.Prelude.Lists.{length}
use connaxis.Alloc.{Allocator}
use connaxis.Ring.{RingBuffer}
use connaxis.Ring.Grow.{write_alloc, ensure, write_ready, write, align_bytes}
use connaxis.Ring.Window.{length-window}
use connaxis.Ring.Fill.{length-put_bytes}
use connaxis.Ring.Grow.Peek.{front-contents}
use native.Mathlib.Nat.{zero-mod}
use connaxis.Ring.Valid.{IsValid, contents}
use connaxis.Ring.Grow.Append.{appended, appended-IsValid, contents-appended}

-- A ring whose bytes start at the front of its buffer, all of which it uses.
abbrev pub AtFront : RingBuffer → Type 0
AtFront rb = (rb.r ≡ 0) × (rb.size ≡ length rb.buf)

module _ (al : Allocator) where
  open al use {State}

  -- `Write` of bytes for which there is room appends them, without a new buffer, behind the others.
  pub write-fits :
      (rb : RingBuffer) (p : Bytes) (s : State)
      → IsValid rb
      → 0 < length p
      → rb.w - rb.r + length p ≤ rb.size
      → (rb' : RingBuffer) × (write al rb p (length p) true s ≡ some (pos (length p), rb', s))
        × IsValid rb'
        × (contents rb' ≡ contents rb ++ p)
        × (AtFront rb → AtFront rb')
  unfolding write write_alloc ensure write_ready
  write-fits rb p s v h room =
      let sized : (rb.size == 0) ≡ false = ground arith in
      let accepted : (length p == 0 || ltb (length p) (length p)) ≡ false = ground arith in
      let enough : ltb (rb.size - (rb.w - rb.r)) (length p) ≡ false = ground arith in
      (
        appended rb p,
        rw (write, write_alloc, sized, accepted, ensure, enough, write_ready, sized) refl,
        appended-IsValid rb p v room,
        contents-appended rb p v (omega arith) room,
        λ front. (front.0, front.1 ∙ sym (length-put_bytes rb p (length p))),
      )

  -- `AlignBytes` of a ring at its front does nothing.
  pub align_bytes-front :
      (rb : RingBuffer) (s : State) → AtFront rb → 0 < rb.size → align_bytes al rb s ≡ some (rb, s)
  unfolding align_bytes
  align_bytes-front rb s front h =
      let sized : (rb.size == 0) ≡ false = ground arith in
      let start : rb.r % rb.size ≡ 0 = ap (λ k. k % rb.size) front.0 ∙ zero-mod rb.size in
      let aligned : (rb.r % rb.size == 0) ≡ true = rw start refl in
      rw (align_bytes, sized, aligned) refl

-- The bytes of a ring at its front are the first of its buffer.
pub take-AtFront :
    (rb : RingBuffer) → IsValid rb → AtFront rb → take (rb.w - rb.r) rb.buf ≡ contents rb
take-AtFront rb v front =
    let start : rb.r % rb.size ≡ 0 = ap (λ k. k % rb.size) front.0 ∙ zero-mod rb.size in
    ap (λ k. take k rb.buf) (sym (length-window rb.buf rb.size rb.r (rb.w - rb.r)))
    ∙ front-contents rb v start

pub length-contents : (rb : RingBuffer) → length (contents rb) ≡ rb.w - rb.r
length-contents rb = length-window rb.buf rb.size rb.r (rb.w - rb.r)
