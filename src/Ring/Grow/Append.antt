-- ===== src/Ring/Grow/Append.antt =====
-- ringbuffer/ringbuffer.go: `Write` appends all of its bytes, or refuses them all.
use connaxis.Prelude.{
  ℕ, ◌+◌, ◌-◌, ◌≤◌, ◌<◌, ◌≡◌, refl, sym, ap₂, ◌∙◌, inl, inr, ◌⊎◌, Bool-cases, ltb, ◌==◌, ◌++◌, ◌||◌,
  Bool, true, false, [], Bytes, ==→eq, arith, Option, some, none, pos, negsuc, if◌then◌else◌, ℤ,
}
use connaxis.Prelude.Lists.{length}
use connaxis.Alloc.{Allocator}
use connaxis.Ring.{RingBuffer, put_bytes}
use connaxis.Ring.Grow.{write_alloc, write_ready, write}
use connaxis.Ring.Window.{window-append}
use connaxis.Ring.Fill.{put_bytes-new, put_bytes-old, length-put_bytes}
use connaxis.Ring.Valid.{IsValid, contents}
use connaxis.Ring.Grow.Room.{ensure_lem}

-- The ring after the bytes of `p` have been put in.
abbrev pub appended : RingBuffer → Bytes → RingBuffer
appended rb p = record rb { buf = put_bytes rb p (length p); w = rb.w + length p }

module _ (rb : RingBuffer) (p : Bytes) where
  pub appended-IsValid : IsValid rb → rb.w - rb.r + length p ≤ rb.size → IsValid (appended rb p)
  appended-IsValid v room = record {
    in_buf = omega (arith, length-put_bytes rb p (length p));
    ordered = omega arith;
    bounded = omega arith;
  }

  pub contents-appended :
      IsValid rb
      → 0 < rb.size
      → rb.w - rb.r + length p ≤ rb.size
      → contents (appended rb p) ≡ contents rb ++ p
  contents-appended v q room =
      sym (window-append _ rb.size (rb.w - rb.r) (length p) _ rb.r rb.w (omega arith) (omega arith))
      ∙ ap₂ ◌++◌ (put_bytes-old rb p v.in_buf q v.ordered room)
          (put_bytes-new rb p v.in_buf q (omega arith))

module _ (al : Allocator) where
  open al use {State}

  abbrev Allocated : RingBuffer → Option (RingBuffer × State) → Type 0
  Allocated rb out =
      (rb' : RingBuffer) × (s' : State) × (out ≡ some (rb', s'))
      × al.IsValid s'
      × IsValid rb'
      × (contents rb' ≡ contents rb)

  -- A ring without a buffer holds nothing, so asking for one loses nothing.
  write_alloc_new :
      (rb : RingBuffer) (len : ℕ) (s : State) (o : Option Bytes) (s' : State)
      → IsValid rb
      → (rb.size == 0) ≡ true
      → al.get len s ≡ some (o, s')
      → al.IsValid s'
      → Allocated rb (write_alloc al rb len s)
  unfolding write_alloc
  write_alloc_new rb len s none s' v unsized got valid =
      let size_zero = ==→eq _ _ unsized in
      let empty : rb.w - rb.r ≡ 0 = omega arith in
      (
        record rb { buf = []; size = 0 },
        s',
        rw (unsized, write_alloc, got),
        valid,
        omega arith,
        rw empty refl,
      )
  write_alloc_new rb len s (some b) s' v unsized got valid =
      let size_zero = ==→eq _ _ unsized in
      let empty : rb.w - rb.r ≡ 0 = omega arith in
      (
        record rb { buf = b; size = length b },
        s',
        rw (unsized, write_alloc, got),
        valid,
        omega arith,
        rw empty refl,
      )

  write_alloc_lem :
      (rb : RingBuffer) (len : ℕ) (s : State)
      → IsValid rb
      → al.IsValid s
      → Allocated rb (write_alloc al rb len s)
  unfolding write_alloc
  write_alloc_lem rb len s v valid = elim (Bool-cases (rb.size == 0)) [
    | inr sized ↦ rw (sized, write_alloc) (rb, s, refl, valid, v, refl)
    | inl unsized ↦
        let (o, s', got, valid', _) = al.get_lem len s valid in
        write_alloc_new rb len s o s' v unsized got valid'
  ]

  -- The outcome of `Write`: -2 with the bytes as they were, or all of `p` behind them.
  abbrev pub Written : RingBuffer → Bytes → Bool → Option (ℤ × RingBuffer × State) → Type 0
  Written rb p update out =
      (code : ℤ) × (rb' : RingBuffer) × (s' : State) × (out ≡ some (code, rb', s'))
      × al.IsValid s'
      × IsValid rb'
      × ((code ≡ negsuc 1) × (contents rb' ≡ contents rb)
          ⊎ (code ≡ pos (length p))
            × (contents rb' ≡ (if update then contents rb ++ p else contents rb)))

  write_ready_lem :
      (rb : RingBuffer) (p : Bytes) (update : Bool) (s : State)
      → IsValid rb
      → al.IsValid s
      → 0 < length p
      → rb.w - rb.r + length p ≤ rb.size
      → Written rb p update (write_ready al rb p (length p) update s)
  unfolding write_ready
  write_ready_lem rb p true s v valid h room = (
    pos (length p),
    appended rb p,
    s,
    ground arith,
    valid,
    appended-IsValid rb p v room,
    inr (refl, contents-appended rb p v (omega arith) room),
  )
  write_ready_lem rb p false s v valid h room = (
    pos (length p),
    record rb { buf = put_bytes rb p (length p) },
    s,
    ground arith,
    valid,
    record {
      in_buf = omega (arith, length-put_bytes rb p (length p));
      ordered = v.ordered;
      bounded = v.bounded;
    },
    inr (refl, put_bytes-old rb p v.in_buf (omega arith) v.ordered room),
  )

  -- `Write` of a whole slice: no panic; either all of the bytes are appended, in order, and their
  -- number returned (with `update` unset they are not counted as written), or the allocator has no
  -- room and -2 is returned with the bytes of the ring as they were.
  pub write_lem :
      (rb : RingBuffer) (p : Bytes) (update : Bool) (s : State)
      → IsValid rb
      → al.IsValid s
      → 0 < length p
      → Written rb p update (write al rb p (length p) update s)
  unfolding write
  write_lem rb p update s v valid h =
      let (rb₁, s₁, e₁, valid₁, v₁, same₁) = write_alloc_lem rb (length p) s v valid in
      let accepted : (length p == 0 || ltb (length p) (length p)) ≡ false = ground arith in
      elim (ensure_lem al rb₁ (length p) s₁ v₁ valid₁) [
        | inl (s₂, e₂, valid₂) ↦
            (negsuc 1, rb₁, s₂, rw (e₁, write, accepted, e₂), valid₂, v₁, inl (refl, same₁))
        | inr (rb₂, s₂, e₂, valid₂, v₂, same₂, room) ↦
            let (code, rb₃, s₃, e₃, valid₃, v₃, done) =
              write_ready_lem rb₂ p update s₂ v₂ valid₂ h room in
            (code, rb₃, s₃, rw (e₁, write, accepted, e₂) e₃, valid₃, v₃, rw (same₂ ∙ same₁) at done)
      ]
