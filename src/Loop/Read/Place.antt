-- ===== src/Loop/Read/Place.antt =====
-- eventloop/loopConn.go: where the bytes of a read end up, and when a read is the last of an event.
use connaxis.Prelude.{
  ℕ, ◌+◌, ◌-◌, ◌≤◌, ◌<◌, ◌≡◌, refl, sym, ap, ◌∙◌, inl, inr, false, Bool-cases, Bytes, [], ◌++◌,
  take, drop, copy, copy_at, arith,
}
use connaxis.Prelude.Lists.{length, length-append, length-take, length-drop, take-append_ge}
use connaxis.Prelude.Slices.{length-copy_at, take-copy}
use connaxis.Kernel.{eagain}
use connaxis.Tuning.{Globals}
use connaxis.Ring.{RingBuffer, has}
use connaxis.Ring.Valid.{IsValid, contents}
use connaxis.Ring.Grow.Fits.{AtFront, take-AtFront, length-contents}
use connaxis.WriteQueue.Flush.{Errno}
use connaxis.Loop.State.{Base}
use connaxis.Loop.Read.{Target, use_shared, use_private, place, last_read}

take-copy_at :
    (dst : Bytes) (i : ℕ) (src : Bytes)
    → i + length src ≤ length dst
    → take (i + length src) (copy_at dst i src) ≡ take i dst ++ src
unfolding copy_at
take-copy_at dst i src h =
    let front = length-take i dst in
    take-append_ge (i + length src) (take i dst) (copy (drop i dst) src) (omega arith)
    ∙ ap (◌++◌ (take i dst)) (
        ap (λ k. take k (copy (drop i dst) src)) {x = i + length src - length (take i dst)}
          {y = length src} (omega arith)
        ∙ take-copy (drop i dst) src (omega (arith, length-drop i dst)))

-- Where the bytes of a read are: behind those that waited.
abbrev pub Placed : Base → Bytes → Base × Bytes → Type 0
Placed c bytes (c₂, inp) =
    IsValid c₂.recvbuf
    × AtFront c₂.recvbuf
    × (inp ≡ contents c.recvbuf ++ bytes)
    × (length inp ≡ 0 → contents c₂.recvbuf ≡ [])
    × (c₂ ≡ record c { recvbuf = c₂.recvbuf })

no_contents :
    (rb rb' : RingBuffer) (bytes : Bytes)
    → rb'.w - rb'.r ≡ rb.w - rb.r
    → length (contents rb ++ bytes) ≡ 0
    → contents rb' ≡ []
no_contents rb rb' bytes same h =
    let none_held : rb'.w - rb'.r ≡ 0 =
      omega (arith, h, same, length-append (contents rb) bytes, length-contents rb) in
    rw none_held refl

pub place_lem :
    (target : Target) (bytes : Bytes) (c : Base)
    → IsValid c.recvbuf
    → AtFront c.recvbuf
    → (target ≡ use_private → c.recvbuf.w - c.recvbuf.r + length bytes ≤ length c.recvbuf.buf)
    → Placed c bytes (place target bytes c)
unfolding place has
place_lem use_shared bytes c v front room =
    let waits = take-AtFront c.recvbuf v front in
    let all : take (c.recvbuf.w - c.recvbuf.r) c.recvbuf.buf ++ bytes
        ≡ contents c.recvbuf ++ bytes =
      ap (λ x. x ++ bytes) waits in
    (v, front, all, λ e. no_contents c.recvbuf c.recvbuf bytes refl (ap length (sym all) ∙ e), refl)
place_lem use_private bytes c v front room =
    let fits = room refl in
    let size = length-copy_at c.recvbuf.buf (c.recvbuf.w - c.recvbuf.r) bytes in
    let all =
      take-copy_at c.recvbuf.buf (c.recvbuf.w - c.recvbuf.r) bytes fits
      ∙ ap (λ x. x ++ bytes) (take-AtFront c.recvbuf v front) in
    (
      record { in_buf = omega (arith, v.in_buf, size); ordered = v.ordered; bounded = v.bounded },
      (front.0, front.1 ∙ sym size),
      all,
      λ e.
          no_contents c.recvbuf
            (record c.recvbuf { buf = copy_at c.recvbuf.buf (c.recvbuf.w - c.recvbuf.r) bytes })
            bytes refl (ap length (sym all) ∙ e),
      refl,
    )

pub last_read_lem :
    (globals : Globals) (err : Errno) (n room total : ℕ)
    → last_read globals err n room total ≡ false
    → (eagain err ≡ false)
      × (0 < globals.event_loop.max_read_bytes_per_event
          → total < globals.event_loop.max_read_bytes_per_event)
unfolding last_read
last_read_lem globals err n room total h = elim (Bool-cases (eagain err)) [
  | inl again ↦ let h' = rw (last_read, again) at h in absurd (cc)
  | inr other ↦ (other, λ budget. ground arith)
]
