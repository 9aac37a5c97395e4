-- ===== src/Loop/Read/Choice.antt =====
-- eventloop/loopConn.go: the choice of the buffer that a round of `processRead` reads into keeps the
-- bytes that wait in the receive buffer.
use connaxis.Prelude.{
  ◌+◌, ◌-◌, ◌*◌, ◌≤◌, ◌<◌, ◌≡◌, refl, sym, ap, ◌∙◌, inl, inr, Option, none, some, Bool, false,
  Bool-cases, Bytes, take, copy, ltb, ◌==◌, if◌then◌else◌, arith, ==→eq, ge→ltb,
}
use connaxis.Prelude.Lists.{length, take-all}
use connaxis.Prelude.Slices.{length-copy, take-copy}
use connaxis.Alloc.{Allocator}
use connaxis.Kernel.{Kernel}
use connaxis.Tuning.{Globals}
use connaxis.Ring.{RingBuffer, has, free, forward}
use connaxis.Ring.Valid.{IsValid, contents}
use connaxis.Ring.Grow.{update}
use connaxis.Ring.Grow.Fits.{AtFront, align_bytes-front, take-AtFront, length-contents}
use connaxis.Loop.State.{
  Base, LoopConn, PktHandler, Outcome, returned, went_on, close_pkt_size_limit,
}
use connaxis.Loop.Send.{close_conn}
use connaxis.Loop.Send.Close.{close_conn-fd}
use connaxis.Loop.Packets.{close_and_return}
use connaxis.Loop.Packets.Consumed.{Sound}
use connaxis.Loop.Read.Cause.{NotDoubled}
use connaxis.Loop.Read.{use_shared, use_private, double_buf, read_target}

-- A full ring at its front, moved into a buffer of twice its size.
abbrev doubled : RingBuffer → Bytes → RingBuffer
doubled rb b = record {
  buf = copy b rb.buf;
  size = length (copy b rb.buf);
  r = 0;
  w = 0 + length rb.buf;
}

doubled_lem :
    (rb : RingBuffer) (b : Bytes)
    → IsValid rb
    → AtFront rb
    → rb.w - rb.r ≡ rb.size
    → rb.size * 2 ≤ length b
    → IsValid (doubled rb b) × AtFront (doubled rb b) × (contents (doubled rb b) ≡ contents rb)
doubled_lem rb b v front full room =
    let size = length-copy b rb.buf in
    let rb' = doubled rb b in
    let v' : IsValid rb' = record {
      in_buf = omega arith;
      ordered = omega arith;
      bounded = omega (arith, front.1);
    } in
    (
      v',
      (refl, refl),
      sym (take-AtFront rb' v' (refl, refl))
          ∙ ap (λ k. take k (copy b rb.buf)) {x = 0 + length rb.buf - 0} {y = length rb.buf}
              (omega arith)
          ∙ take-copy b rb.buf (omega (arith, front.1))
          ∙ sym (take-all (rb.w - rb.r) rb.buf (omega (arith, front.1)))
          ∙ take-AtFront rb v front,
    )

module _ (al : Allocator) (kernel : Kernel) (globals : Globals) {H : Type 0}
    (h : PktHandler H) where
  -- The connection is closed, or goes on with the same bytes waiting.
  abbrev pub SameBytes :
      {A : Type 0} → Base → LoopConn al.State H → Outcome A → Base → LoopConn al.State H → Type 0
  SameBytes c l returned c' l' = (c'.fd ≡ 0) × NotDoubled al kernel globals h c l
  SameBytes c l (went_on t) c' l' =
      Sound al c' l'
      × (contents c'.recvbuf ≡ contents c.recvbuf)
      × (c'.fd ≡ c.fd)
      × (c'.self ≡ c.self)
      × (l'.log ≡ l.log)
      × (l'.reads ≡ l.reads)

  abbrev pub Targeted :
      {A : Type 0}
      → Base
      → LoopConn al.State H
      → Option (Outcome A × Base × LoopConn al.State H)
      → Type 0
  Targeted {A = A} c l out =
      (o : Outcome A) × (c' : Base) × (l' : LoopConn al.State H) × (out ≡ some (o, c', l'))
      × SameBytes c l o c' l'

  double_buf_lem :
      (c : Base) (l : LoopConn al.State H)
      → Sound al c l
      → 0 < c.recvbuf.size
      → c.recvbuf.w - c.recvbuf.r ≡ c.recvbuf.size
      → Targeted c l (double_buf al kernel globals c l)
  unfolding double_buf update forward close_and_return
  double_buf_lem c l (ready, v, front) sized full =
      let (o, s, e, valid, room) = al.get_lem (c.recvbuf.size * 2) l.pool ready.1 in
      got o s e valid room
    where
      got :
          (o : Option Bytes) (s : al.State)
          → al.get (c.recvbuf.size * 2) l.pool ≡ some (o, s)
          → al.IsValid s
          → ((b : Bytes) → o ≡ some b → c.recvbuf.size * 2 ≤ length b)
          → Targeted c l (double_buf al kernel globals c l)
      got none s e valid room =
          let (c', l') =
            close_conn al kernel globals c close_pkt_size_limit (record l { pool = s }) in
          (
            returned,
            c',
            l',
            rw (double_buf, e) refl,
            (
              close_conn-fd al kernel globals c close_pkt_size_limit (record l { pool = s }),
              (sized, full, (s, e)),
            ),
          )
      got (some b) s e valid room =
          let fits = room b refl in
          let size = length-copy b c.recvbuf.buf in
          let (v', front', same) = doubled_lem c.recvbuf b v front full fits in
          let steps : ltb (length (copy b c.recvbuf.buf)) (0 + length c.recvbuf.buf - 0) ≡ false =
            ground (arith, front.1, size, fits) in
          (
            went_on tt,
            record c { recvbuf = doubled c.recvbuf b },
            record l { pool = al.put c.recvbuf.buf s },
            rw (double_buf, e, align_bytes-front al c.recvbuf s front sized, steps) refl,
            (
              ((ready.0, al.put-IsValid c.recvbuf.buf s valid, ready.2), v', front'),
              same,
              refl,
              refl,
              refl,
              refl,
            ),
          )

  -- A private buffer with room, or a larger one.
  private_lem :
      (c : Base) (l : LoopConn al.State H)
      → Sound al c l
      → 0 < c.recvbuf.size
      → Targeted c l (
          if free c.recvbuf == 0 then double_buf al kernel globals c l else some (went_on tt, c, l))
  unfolding free
  private_lem c l sound sized = elim (Bool-cases (free c.recvbuf == 0)) [
    | inl full ↦
        let none_free = ==→eq (free c.recvbuf) 0 full in
        rw full (
          double_buf_lem c l sound sized
            (omega (arith, sound.1.bounded, sound.1.ordered, sound.2.0)))
    | inr room ↦ rw room (went_on tt, c, l, refl, (sound, refl, refl, refl, refl, refl))
  ]

  -- The buffer of a round: without a panic, the bytes that wait are as they were, at the front of the
  -- receive buffer; or the connection is closed since the pool has no larger one.
  pub read_target_lem :
      (c : Base) (l : LoopConn al.State H)
      → Sound al c l
      → Targeted c l (read_target al kernel globals c l)
  unfolding read_target has
  read_target_lem c l (ready, v, front) = elim (Bool-cases (has c.recvbuf == 0)) [
    | inl empty ↦ (
      went_on use_shared,
      c,
      l,
      rw (read_target, empty) refl,
      ((ready, v, front), refl, refl, refl, refl, refl),
    )
    | inr waits ↦
        let sized : 0 < c.recvbuf.size = ground (arith, v.bounded, v.ordered) in
        elim (Bool-cases shares) [
          | inl shared ↦
              let stays = align_bytes-front al c.recvbuf l.pool front sized in
              let inside : ltb (length c.recvbuf.buf) (has c.recvbuf) ≡ false =
                ge→ltb (length c.recvbuf.buf) (has c.recvbuf)
                  (omega (arith, v.in_buf, v.bounded)) in
              (
                went_on use_shared,
                c,
                l,
                rw (read_target, waits, shared, stays, inside) refl,
                ((ready, v, front), refl, refl, refl, refl, refl),
              )
          | inr private ↦
              let (o, c', l', e, same) = private_lem c l (ready, v, front) sized in
              moved waits private o c' l' e same
        ]
  ]
    where
      shares : Bool
      shares = ltb (c.recvbuf.size - has c.recvbuf) (l.shared - has c.recvbuf)

      moved :
          (has c.recvbuf == 0) ≡ false
          → shares ≡ false
          → (o : Outcome Unit) (c' : Base) (l' : LoopConn al.State H)
          → (if free c.recvbuf == 0
              then double_buf al kernel globals c l
              else some (went_on tt, c, l))
            ≡ some (o, c', l')
          → SameBytes c l o c' l'
          → Targeted c l (read_target al kernel globals c l)
      moved waits private returned c' l' e closed =
          (returned, c', l', rw (read_target, waits, private, e) refl, closed)
      moved waits private (went_on t) c' l' e ((ready', v', front'), same, fd, self, log, reads) =
          let held : c'.recvbuf.w - c'.recvbuf.r ≡ c.recvbuf.w - c.recvbuf.r =
            sym (length-contents c'.recvbuf) ∙ ap length same ∙ length-contents c.recvbuf in
          let sized : 0 < c'.recvbuf.size = ground (arith, v'.bounded, v'.ordered, held) in
          let inside : ltb (length c'.recvbuf.buf) (has c.recvbuf) ≡ false =
            ge→ltb (length c'.recvbuf.buf) (has c.recvbuf)
              (omega (arith, v'.in_buf, v'.bounded, held)) in
          (
            went_on use_private,
            c',
            l',
            rw
                (
                  read_target,
                  waits,
                  private,
                  e,
                  align_bytes-front al c'.recvbuf l'.pool front' sized,
                  inside,
                )
                refl,
            ((ready', v', front'), same, fd, self, log, reads),
          )
