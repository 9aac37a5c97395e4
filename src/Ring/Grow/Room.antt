-- ===== src/Ring/Grow/Room.antt =====
-- ringbuffer/ringbuffer.go: `resize` and the space check keep the bytes and make the room.
use connaxis.Prelude.{
  ℕ, ◌+◌, ◌-◌, ◌≤◌, ◌≡◌, refl, ap, ◌∙◌, inl, inr, ◌⊎◌, Bool-cases, ltb, ◌==◌, ◌++◌, ◌&&◌, false,
  Bytes, ltb→lt, ltb→le, arith, Option, some, none, pos, negsuc, if◌then◌else◌, ℤ,
}
use connaxis.Prelude.Lists.{
  length, take, drop, length-append, length-drop, take-all, take-append_le,
}
use connaxis.Alloc.{Allocator}
use connaxis.Ring.{RingBuffer, copy_out}
use connaxis.Ring.Grow.{resize, ensure}
use connaxis.Ring.Window.{window, length-window, window-take}
use connaxis.Ring.Valid.{IsValid, contents, copy_out_lem}

-- The buffer that `resize` and `AlignBytes` install: the `n` readable bytes at its front.
abbrev pub moved : RingBuffer → Bytes → Bytes
moved rb buf = if ltb 0 (rb.w - rb.r) then copy_out rb (rb.w - rb.r) buf else buf

pub moved_lem :
    (rb : RingBuffer) (buf : Bytes)
    → IsValid rb
    → rb.w - rb.r ≤ length buf
    → moved rb buf ≡ contents rb ++ drop (rb.w - rb.r) buf
moved_lem rb buf v h = elim (Bool-cases (ltb 0 (rb.w - rb.r))) [
  | inl some_bytes ↦
      let more = ltb→lt _ _ some_bytes in
      rw some_bytes (copy_out_lem rb (rb.w - rb.r) buf v.in_buf (omega arith) (omega arith) h)
  | inr no_bytes ↦
      let nothing : rb.w - rb.r ≡ 0 = omega (arith, ltb→le _ _ no_bytes) in
      rw (no_bytes, nothing) refl
]

-- A ring of `size` bytes over that buffer holds the same bytes, from index 0 on.
module _ (rb : RingBuffer) (buf : Bytes) (size : ℕ) where
  abbrev pub restarted : RingBuffer
  restarted = record { buf = moved rb buf; size = size; r = 0; w = rb.w - rb.r }

  pub restarted_lem :
      IsValid rb
      → size ≤ length buf
      → rb.w - rb.r ≤ size
      → IsValid restarted × (contents restarted ≡ contents rb)
  restarted_lem v h k = (
    record { in_buf = omega (arith, same_length); ordered = omega arith; bounded = omega arith },
    bytes,
  )
    where
      front : moved rb buf ≡ contents rb ++ drop (rb.w - rb.r) buf
      front = moved_lem rb buf v (omega arith)

      held : length (contents rb) ≡ rb.w - rb.r
      held = length-window rb.buf rb.size rb.r (rb.w - rb.r)

      same_length : length (moved rb buf) ≡ length buf
      same_length =
          ap length front
          ∙ length-append (contents rb) (drop (rb.w - rb.r) buf)
          ∙ omega (arith, held, length-drop (rb.w - rb.r) buf)

      bytes : contents restarted ≡ contents rb
      bytes =
          ap (window (moved rb buf) size 0) {y = rb.w - rb.r} (omega arith)
          ∙ window-take (moved rb buf) size (rb.w - rb.r) 0 0 (omega arith) (omega arith)
              (omega (arith, same_length))
          ∙ ap (take (rb.w - rb.r)) front
          ∙ take-append_le (rb.w - rb.r) (contents rb) (drop (rb.w - rb.r) buf)
              (omega (arith, held))
          ∙ take-all (rb.w - rb.r) (contents rb) (omega (arith, held))

module _ (al : Allocator) where
  open al use {State}

  -- What a request for room of `len` bytes leaves: refused, with the ring as it was, or granted.
  abbrev pub Refused : RingBuffer → Option (ℤ × RingBuffer × State) → Type 0
  Refused rb out = (s' : State) × (out ≡ some (negsuc 0, rb, s')) × al.IsValid s'

  abbrev pub Granted : RingBuffer → ℕ → Option (ℤ × RingBuffer × State) → Type 0
  Granted rb len out =
      (rb' : RingBuffer) × (s' : State) × (out ≡ some (pos 0, rb', s'))
      × al.IsValid s'
      × IsValid rb'
      × (contents rb' ≡ contents rb)
      × (rb'.w - rb'.r + len ≤ rb'.size)

  -- `resize` to at least the readable bytes: it fails and changes nothing, or keeps the bytes in
  -- order in a buffer of the size asked for.
  pub resize_lem :
      (rb : RingBuffer) (wanted len : ℕ) (s : State)
      → IsValid rb
      → al.IsValid s
      → rb.w - rb.r + len ≤ wanted
      → Refused rb (resize al rb wanted s) ⊎ Granted rb len (resize al rb wanted s)
  unfolding resize
  resize_lem rb wanted len s v valid h =
      let (o, s', got, valid', fits) = al.get_lem wanted s valid in outcome o s' got valid' fits
    where
      no_panic : (ltb 0 (rb.w - rb.r) && rb.size == 0) ≡ false
      no_panic = ground arith

      outcome :
          (o : Option Bytes) (s' : State)
          → al.get wanted s ≡ some (o, s')
          → al.IsValid s'
          → ((b : Bytes) → o ≡ some b → wanted ≤ length b)
          → Refused rb (resize al rb wanted s) ⊎ Granted rb len (resize al rb wanted s)
      outcome none s' got valid' fits = inl (s', rw (got, resize), valid')
      outcome (some buf) s' got valid' fits =
          let enough = fits buf refl in
          let (ring_valid, same) =
            restarted_lem rb buf (length buf) v (omega arith) (omega arith) in
          inr (
            restarted rb buf (length buf),
            al.put rb.buf s',
            rw (got, resize, no_panic),
            al.put-IsValid rb.buf s' valid',
            ring_valid,
            same,
            omega arith,
          )

  -- The space check.
  pub ensure_lem :
      (rb : RingBuffer) (len : ℕ) (s : State)
      → IsValid rb
      → al.IsValid s
      → Refused rb (ensure al rb len s) ⊎ Granted rb len (ensure al rb len s)
  unfolding ensure
  ensure_lem rb len s v valid = elim (Bool-cases (ltb (rb.size - (rb.w - rb.r)) len)) [
    | inl short ↦
        let less = ltb→lt _ _ short in
        rw (short, ensure)
          (resize_lem rb (len - (rb.size - (rb.w - rb.r)) + rb.size) len s v valid (omega arith))
    | inr room ↦
        let enough = ltb→le _ _ room in
        rw (room, ensure) (inr (rb, s, refl, valid, v, refl, omega arith))
  ]
