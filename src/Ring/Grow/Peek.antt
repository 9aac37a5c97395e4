-- ===== src/Ring/Grow/Peek.antt =====
-- ringbuffer/ringbuffer.go: writing in place, `PeekWrite`, then the caller's bytes, then
-- `Forward(n, OpWrite)`; and `AlignBytes`.
use native.Mathlib.Nat.{mod-lt}
use connaxis.Prelude.{
  ℕ, ◌+◌, ◌-◌, ◌%◌, ◌≤◌, ◌<◌, ◌≡◌, refl, sym, ap, ◌∙◌, inl, inr, ◌⊎◌, Bool-cases, Option-cases, ltb,
  leb, ◌==◌, ◌++◌, true, false, [], Bytes, copy, copy_at, ltb→le, ==→eq, arith, Option, some, none,
  pos, if◌then◌else◌, ge→ltb, ℤ,
}
use connaxis.Prelude.Lists.{length, take, take-all, drop-all}
use connaxis.Alloc.{Allocator}
use connaxis.Ring.{RingBuffer, Span, put_bytes, forward, op_write}
use connaxis.Ring.Grow.{peek_alloc, peek_write_span, peek_write, align_bytes}
use connaxis.Ring.Window.{length-window, window-take}
use connaxis.Ring.Valid.{IsValid, contents}
use connaxis.Ring.Grow.Room.{ensure_lem, restarted, restarted_lem}
use connaxis.Ring.Grow.Append.{appended, appended-IsValid, contents-appended}

copy_at-nil : (buf : Bytes) → copy_at buf 0 [] ≡ buf
unfolding copy_at copy
copy_at-nil buf = ap (λ front. front ++ buf) (take-all (length buf) [] (omega arith))

-- A piece that stops at the end of the buffer is put where `Write` would put it.
span-put_bytes :
    (rb : RingBuffer) (q : Bytes)
    → rb.w % rb.size + length q ≤ rb.size
    → copy_at rb.buf (rb.w % rb.size) q ≡ put_bytes rb q (length q)
unfolding put_bytes
span-put_bytes rb q h = elim (Bool-cases (ltb (rb.w % rb.size + length q) rb.size)) [
  | inl straight ↦ rw (straight, put_bytes) refl
  | inr exact ↦
      let reach = ltb→le _ _ exact in
      rw
        (
          exact,
          put_bytes,
          take-all (rb.size - rb.w % rb.size) q (omega arith),
          drop-all (rb.size - rb.w % rb.size) q (omega arith),
        )
        (sym (copy_at-nil (copy_at rb.buf (rb.w % rb.size) q)))
]

pub front-contents :
    (rb : RingBuffer)
    → IsValid rb
    → rb.r % rb.size ≡ 0
    → take (length (contents rb)) rb.buf ≡ contents rb
front-contents rb v e =
    ap (λ k. take k rb.buf) (length-window rb.buf rb.size rb.r (rb.w - rb.r))
    ∙ sym (window-take rb.buf rb.size (rb.w - rb.r) rb.r 0 (sym e) (omega arith) v.in_buf)

-- The bytes that the caller puts into a span, and the step that makes them readable.
abbrev pub fill : RingBuffer → Span → Bytes → ℤ × RingBuffer
fill rb sp q = forward (record rb { buf = copy_at rb.buf sp.start q }) (length q) op_write

fill_lem :
    (rb : RingBuffer) (sp : Span) (q : Bytes)
    → IsValid rb
    → 0 < rb.size
    → sp.start ≡ rb.w % rb.size
    → rb.w % rb.size + length q ≤ rb.size
    → rb.w - rb.r + length q ≤ rb.size
    → fill rb sp q ≡ (pos 0, appended rb q)
unfolding forward
fill_lem rb sp q v p e h room =
    let fits : ltb rb.size (rb.w + length q - rb.r) ≡ false = ge→ltb _ _ (omega arith) in
    rw (e, span-put_bytes rb q h, fits) refl

module _ (al : Allocator) where
  open al use {State}

  -- A span is not empty nor longer than asked, and whatever the caller puts into it is appended.
  abbrev pub Offered : RingBuffer → ℕ → Option (Option Span × RingBuffer × State) → Type 0
  Offered rb len out =
      (sp : Span) × (rb' : RingBuffer) × (s' : State) × (out ≡ some (some sp, rb', s'))
      × al.IsValid s'
      × (contents rb' ≡ contents rb)
      × (sp.start < sp.end)
      × (sp.end ≤ sp.start + len)
      × ((q : Bytes)
          → sp.start + length q ≤ sp.end
          → ((fill rb' sp q).0 ≡ pos 0)
            × IsValid (fill rb' sp q).1
            × (contents (fill rb' sp q).1 ≡ contents rb ++ q))

  abbrev pub Withheld : RingBuffer → Option (Option Span × RingBuffer × State) → Type 0
  Withheld rb out =
      (rb' : RingBuffer) × (s' : State) × (out ≡ some (none, rb', s'))
      × al.IsValid s'
      × IsValid rb'
      × (contents rb' ≡ contents rb)

  peek_write_span_lem :
      (rb : RingBuffer) (len : ℕ) (s : State)
      → IsValid rb
      → al.IsValid s
      → 0 < len
      → rb.w - rb.r + len ≤ rb.size
      → Offered rb len (peek_write_span al rb len s)
  unfolding peek_write_span
  peek_write_span_lem rb len s v valid h room = (
    span,
    rb,
    s,
    rw (sized, peek_write_span),
    valid,
    refl,
    bounds.0,
    bounds.1,
    λ q fits.
        let (within, below) = reach q fits in
        let e = fill_lem rb span q v (omega arith) refl within below in
        rw e (refl, appended-IsValid rb q v below, contents-appended rb q v (omega arith) below),
  )
    where
      sized : (rb.size == 0) ≡ false
      sized = ground arith

      span : Span
      span = record {
        start = rb.w % rb.size;
        end = if leb (rb.w % rb.size + len) rb.size then rb.w % rb.size + len else rb.size;
      }

      bounds : (span.start < span.end) × (span.end ≤ span.start + len)
      bounds = ground (arith, mod-lt rb.w {m = rb.size} (omega arith))

      reach :
          (q : Bytes)
          → span.start + length q ≤ span.end
          → (rb.w % rb.size + length q ≤ rb.size) × (rb.w - rb.r + length q ≤ rb.size)
      reach q fits = ground arith

  -- What the first lines of `PeekWrite` leave.
  abbrev Prepared : RingBuffer → Option (Option RingBuffer × State) → Type 0
  Prepared rb out =
      ((s' : State) × (out ≡ some (none, s')) × al.IsValid s' × (rb.size ≡ 0))
      ⊎ ((rb' : RingBuffer) × (s' : State) × (out ≡ some (some rb', s'))
          × al.IsValid s'
          × IsValid rb'
          × (contents rb' ≡ contents rb))

  peek_alloc_new :
      (rb : RingBuffer) (len : ℕ) (s : State) (o : Option Bytes) (s' : State)
      → IsValid rb
      → (rb.size == 0) ≡ true
      → al.get len s ≡ some (o, s')
      → al.IsValid s'
      → Prepared rb (peek_alloc al rb len s)
  unfolding peek_alloc
  peek_alloc_new rb len s none s' v unsized got valid =
      inl (s', rw (unsized, peek_alloc, got), valid, ==→eq _ _ unsized)
  peek_alloc_new rb len s (some b) s' v unsized got valid =
      let size_zero = ==→eq _ _ unsized in
      let empty : rb.w - rb.r ≡ 0 = omega arith in
      inr (
        record { buf = b; size = length b; r = 0; w = 0 },
        s',
        rw (unsized, peek_alloc, got),
        valid,
        omega arith,
        rw empty refl,
      )

  peek_alloc_lem :
      (rb : RingBuffer) (len : ℕ) (s : State)
      → IsValid rb
      → al.IsValid s
      → Prepared rb (peek_alloc al rb len s)
  unfolding peek_alloc
  peek_alloc_lem rb len s v valid = elim (Bool-cases (rb.size == 0)) [
    | inr sized ↦ rw (sized, peek_alloc) (inr (rb, s, refl, valid, v, refl))
    | inl unsized ↦
        let (o, s', got, valid', _) = al.get_lem len s valid in
        peek_alloc_new rb len s o s' v unsized got valid'
  ]

  -- `PeekWrite` of a positive length: it offers a span, which takes any bytes that fit behind those
  -- of the ring, or returns nil with the bytes of the ring as they were. It does not panic.
  pub peek_write_lem :
      (rb : RingBuffer) (len : ℕ) (s : State)
      → IsValid rb
      → al.IsValid s
      → 0 < len
      → Offered rb len (peek_write al rb len s) ⊎ Withheld rb (peek_write al rb len s)
  unfolding peek_write
  peek_write_lem rb len s v valid h =
      let positive : (len == 0) ≡ false = ground arith in
      elim (peek_alloc_lem rb len s v valid) [
        | inl (s₁, e₁, valid₁, unsized) ↦ inr (
          record rb { buf = [] },
          s₁,
          rw (positive, peek_write, e₁),
          valid₁,
          omega arith,
          let empty : rb.w - rb.r ≡ 0 = omega arith in rw empty refl,
        )
        | inr (rb₁, s₁, e₁, valid₁, v₁, same₁) ↦ elim (ensure_lem al rb₁ len s₁ v₁ valid₁) [
          | inl (s₂, e₂, valid₂) ↦
              inr (rb₁, s₂, rw (positive, peek_write, e₁, e₂), valid₂, v₁, same₁)
          | inr (rb₂, s₂, e₂, valid₂, v₂, same₂, room) ↦ inl (
              rw (positive, peek_write, e₁, e₂)
                (rw (same₂ ∙ same₁) at (peek_write_span_lem rb₂ len s₂ v₂ valid₂ h room)))
        ]
      ]

  -- A ring whose bytes stand at the front of its buffer.
  abbrev pub Aligned : RingBuffer → Option (RingBuffer × State) → Type 0
  Aligned rb out =
      (rb' : RingBuffer) × (s' : State) × (out ≡ some (rb', s'))
      × al.IsValid s'
      × IsValid rb'
      × (contents rb' ≡ contents rb)
      × (take (length (contents rb)) rb'.buf ≡ contents rb)

  align_bytes_new :
      (rb : RingBuffer) (s : State) (b : Bytes) (s' : State)
      → IsValid rb
      → 0 < rb.size
      → (rb.r % rb.size == 0) ≡ false
      → al.get rb.size s ≡ some (some b, s')
      → al.IsValid s'
      → rb.size ≤ length b
      → Aligned rb (align_bytes al rb s)
  unfolding align_bytes
  align_bytes_new rb s b s' v p apart got valid fits =
      let (v', same) = restarted_lem rb b rb.size v fits (omega arith) in
      let sized : (rb.size == 0) ≡ false = ground arith in
      (
        restarted rb b rb.size,
        al.put rb.buf s',
        rw (sized, align_bytes, apart, got),
        al.put-IsValid rb.buf s' valid,
        v',
        same,
        rw same at (front-contents (restarted rb b rb.size) v' (omega arith)),
      )

  -- `AlignBytes` of a ring with a buffer: the bytes of the ring are as they were and stand at the
  -- front of the buffer that it returns, unless the pool has no buffer of the ring's size.
  pub align_bytes_lem :
      (rb : RingBuffer) (s : State)
      → IsValid rb
      → al.IsValid s
      → 0 < rb.size
      → Aligned rb (align_bytes al rb s) ⊎ ((s' : State) × (al.get rb.size s ≡ some (none, s')))
  unfolding align_bytes
  align_bytes_lem rb s v valid p = elim (Bool-cases (rb.r % rb.size == 0)) [
    | inl aligned ↦
        let sized : (rb.size == 0) ≡ false = ground arith in
        inl (
          rb,
          s,
          rw (sized, align_bytes, aligned),
          valid,
          v,
          refl,
          front-contents rb v (==→eq _ _ aligned),
        )
    | inr apart ↦
        let (o, s', got, valid', fits) = al.get_lem rb.size s valid in
        elim (Option-cases o) [
          | inl missing ↦ inr (s', rw missing at got)
          | inr (b, there) ↦
              inl (align_bytes_new rb s b s' v p apart (rw there at got) valid' (fits b there))
        ]
  ]
