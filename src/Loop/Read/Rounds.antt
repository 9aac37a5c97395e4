-- ===== src/Loop/Read/Rounds.antt =====
-- eventloop/loopConn.go: a round of `processRead`.
use connaxis.Prelude.{
  ℕ, ◌+◌, ◌-◌, ◌≤◌, ◌<◌, ◌≡◌, refl, sym, ap, ap₂, subst, ◌∙◌, ◌⊎◌, inl, inr, Option, none, some,
  true, false, not, Bool-cases, Bytes, ◌++◌, append_assoc, leb, ◌||◌, ◌&&◌, ℤ, pos, arith,
}
use connaxis.Prelude.Lists.{length}
use connaxis.Prelude.FdSets.{member}
use connaxis.Alloc.{Allocator}
use connaxis.Kernel.{Kernel, fails, eagain}
use connaxis.Tuning.{Globals}
use connaxis.Ring.{has}
use connaxis.Ring.Valid.{IsValid, contents}
use connaxis.Ring.Grow.Fits.{AtFront}
use connaxis.WriteQueue.Flush.{Errno}
use connaxis.WriteQueue.Flush.Sent.{count_of}
use connaxis.Loop.State.{
  Base, LoopConn, PktHandler, Outcome, returned, went_on, close_read_err, add_int32,
}
use connaxis.Loop.Send.{close_conn}
use connaxis.Loop.Send.Drain.{Ready}
use connaxis.Loop.Send.Close.{close_conn-fd}
use connaxis.Loop.Send.Interest.{heard}
use connaxis.Loop.Packets.Consumed.{Sound}
use connaxis.Loop.Read.{
  Target, use_shared, use_private, place, last_read, room_of, after_read, conn_read, read_target,
  digest, read_into, read_round,
}
use connaxis.Loop.Read.Cause.{
  bad_read, DigestFault, DigestAsks, WithBytes, ReadFault, read_failed, with_bytes, ReadAsks,
  RoundFault, not_doubled, with_target, RoundAsks,
}
use connaxis.Loop.Read.Finish.{Closed}
use connaxis.Loop.Read.Digest.{Announces, digest_lem}
use connaxis.Loop.Read.Choice.{SameBytes, read_target_lem}
use connaxis.Loop.Read.Place.{place_lem, last_read_lem}
use connaxis.Loop.Read.Reads.{got, FromRead, Answered, answered_lem}

module _ (al : Allocator) (kernel : Kernel) (globals : Globals) {H : Type 0}
    (h : PktHandler H) where
  -- A connection that is still open after a round that read some bytes, with what is known where the
  -- handler asked to close it.
  abbrev pub Read :
      (Bytes → Type 0)
      → Type 0
      → ℕ
      → Base
      → LoopConn al.State H
      → ℕ
      → Outcome Unit
      → Base
      → LoopConn al.State H
      → Type 0
  Read P W total c l sum o c' l' =
      (bytes : Bytes) × P bytes
      × Ready al c' l'
      × IsValid c'.recvbuf
      × (c'.fd ≡ c.fd)
      × (c'.self ≡ c.self)
      × (l'.reads ≡ l.reads + 1)
      × (sum ≡ total + length bytes)
      × ((o ≡ went_on tt)
          → (0 < length bytes)
            × (0 < globals.event_loop.max_read_bytes_per_event
                → sum < globals.event_loop.max_read_bytes_per_event))
      × ((o ≡ returned) × (member c'.fd l'.close_on_drain ≡ true) × W
          ⊎ AtFront c'.recvbuf
            × (heard c.self l'.log ++ contents c'.recvbuf
                ≡ (heard c.self l.log ++ contents c.recvbuf) ++ bytes))

  -- A round, with what is known where it closes the connection.
  abbrev pub Round :
      (Bytes → Type 0)
      → Type 0
      → Type 0
      → ℕ
      → Base
      → LoopConn al.State H
      → Option (ℕ × Outcome Unit × Base × LoopConn al.State H)
      → Type 0
  Round P K W total c l out =
      (sum : ℕ) × (o : Outcome Unit) × (c' : Base) × (l' : LoopConn al.State H) × (out
        ≡ some (sum, o, c', l'))
      × (Closed K o c' ⊎ Read P W total c l sum o c' l')

  -- The bytes of a read go through the handler.
  digested :
      {P : Bytes → Type 0} {K W : Type 0} (total n room : ℕ) (err : Errno) (target : Target)
      (bytes : Bytes) (c c₁ : Base) (l l₁ : LoopConn al.State H)
      → Announces h
      → Sound al c₁ l₁
      → (c₁.recvbuf ≡ c.recvbuf)
        × (c₁.fd ≡ c.fd)
        × (c₁.self ≡ c.self)
        × (l₁.log ≡ l.log)
        × (l₁.reads ≡ l.reads + 1)
      → P bytes
      → n ≡ length bytes
      → (eagain err ≡ false → 0 < n)
      → (target ≡ use_private → c₁.recvbuf.w - c₁.recvbuf.r + length bytes ≤ length c₁.recvbuf.buf)
      → (WithBytes al kernel globals h
            (DigestFault al kernel globals h)
            target
            ((pos n, err), bytes, c₁, l₁)
          → K)
      → (WithBytes al kernel globals h
            (DigestAsks al kernel globals h)
            target
            ((pos n, err), bytes, c₁, l₁)
          → W)
      → let (c₂, inp) = place target bytes c₁ in
        Round P K W total c l
          (elim (digest al kernel globals h (last_read globals err n room (total + n)) c₂ inp l₁) [
            | none ↦ none
            | some (o, c', l') ↦ some (total + n, o, c', l')
          ])
  digested total n room err target bytes c c₁ l l₁ announces (ready, v, front)
        (buf, fd, self, log, reads) read count more fits fault asks =
      let (v₂, front₂, all, fresh, only) = place_lem target bytes c₁ v front fits in
      let (c₂, inp) = place target bytes c₁ in
      let ready₂ : Ready al c₂ l₁ =
        rw (ap (λ (x : Base). x.wq) only, ap (λ (x : Base). x.send) only) ready in
      let stop = last_read globals err n room (total + n) in
      let (o, c', l', e, outcome) =
        digest_lem al kernel globals h stop c₂ inp l₁ announces (ready₂, v₂, front₂) fresh in
      (
        total + n,
        o,
        c',
        l',
        rw e refl,
        elim outcome [
          | inl (closed, back, cause) ↦ inl (closed, back, fault cause)
          | inr (ready', v', fd', self', on, reads', ends) ↦
              let me : c₂.self ≡ c.self = ap (λ (x : Base). x.self) only ∙ self in
              inr (
                bytes,
                read,
                ready',
                v',
                fd' ∙ ap (λ (x : Base). x.fd) only ∙ fd,
                self' ∙ me,
                reads' ∙ reads,
                ap (λ k. total + k) count,
                λ w.
                    let (busy, budget) = last_read_lem globals err n room (total + n) (on w) in
                    (omega (arith, more busy, count), budget),
                elim ends [
                  | inl (back, marked, wish) ↦ inl (back, marked, asks wish)
                  | inr (front', kept) ↦ inr (
                    front',
                    ap (λ k. heard k l'.log ++ contents c'.recvbuf) (sym me)
                        ∙ kept
                        ∙ ap₂ (λ x y. x ++ y) (ap₂ heard me log)
                            (all ∙ ap (λ rb. contents rb ++ bytes) buf)
                        ∙ sym (append_assoc (heard c.self l.log) (contents c.recvbuf) bytes),
                  )
                ],
              )
        ],
      )

  -- The private buffer has room for what is read into it.
  room-fits :
      (target : Target) (c : Base) (l : LoopConn al.State H) (n : ℕ)
      → IsValid c.recvbuf
      → n ≤ room_of target c l
      → target ≡ use_private
      → c.recvbuf.w - c.recvbuf.r + n ≤ length c.recvbuf.buf
  unfolding room_of has
  room-fits use_shared c l n v fits own = absurd (cc)
  room-fits use_private c l n v fits own = omega (arith, v.in_buf, v.bounded)

  after_read_lem :
      {P : Bytes → Type 0} {K W : Type 0} (total : ℕ) (target : Target) (room : ℕ)
      (a : (ℤ × Errno) × Bytes × Base × LoopConn al.State H) (c : Base) (l : LoopConn al.State H)
      → Announces h
      → Answered al kernel globals h c l room a
      → (target ≡ use_private → c.recvbuf.w - c.recvbuf.r + length a.1 ≤ length c.recvbuf.buf)
      → (a.1 ≡ got kernel l.reads room → P a.1)
      → (bad_read (kernel.read l.reads room).0 ≡ true → K)
      → (WithBytes al kernel globals h (DigestFault al kernel globals h) target a → K)
      → (WithBytes al kernel globals h (DigestAsks al kernel globals h) target a → W)
      → Round P K W total c l (after_read al kernel globals h total target room a)
  unfolding after_read
  after_read_lem total target room ((r, err), bytes, c₁, l₁) c l announces
        (read, failed, count, fits, sound, same) inside gave lost fault asks =
      elim (Bool-cases (fails err || leb (count_of r) 0 && not (eagain err))) [
        | inl bad ↦
            let (c', l') = close_conn al kernel globals c₁ close_read_err l₁ in
            rw (after_read, bad)
              (
                total,
                returned,
                c',
                l',
                refl,
                inl (close_conn-fd al kernel globals c₁ close_read_err l₁, refl, lost (failed bad)),
              )
        | inr good ↦
            rw (after_read, good)
              (digested total (count_of r) room err target bytes c c₁ l l₁ announces sound same
                (gave read) count (λ busy. some_read busy good) (rw same.0 inside) fault asks)
      ]
    where
      some_read :
          eagain err ≡ false
          → (fails err || leb (count_of r) 0 && not (eagain err)) ≡ false
          → 0 < count_of r
      some_read busy good = elim (Bool-cases (fails err)) [
        | inl bad ↦ let good' = rw bad at good in absurd (cc)
        | inr fine ↦ let good' = rw (fine, busy) at good in ground arith
      ]

  -- The read of a round into the buffer that was chosen.
  read_into_lem :
      (total : ℕ) (target : Target) (c : Base) (l : LoopConn al.State H)
      → Announces h
      → Sound al c l
      → Round
          (λ bytes. bytes ≡ got kernel l.reads (room_of target c l))
          (ReadFault al kernel globals h target c l)
          (ReadAsks al kernel globals h target c l)
          total
          c
          l
          (read_into al kernel globals h total target c l)
  unfolding read_into conn_read
  read_into_lem total target c l announces sound =
      let room = room_of target c l in
      let (count, fits) = kernel.read_fits l.reads room in
      let a = conn_read kernel c room l in
      let known : Answered al kernel globals h c l room a =
        answered_lem al kernel globals h (kernel.read l.reads room) c l
          (record l { reads = l.reads + 1; read = add_int32 l.read 1 }) room sound (refl, refl) refl
          count fits in
      after_read_lem total target room a c l announces known
        (room-fits target c l (length a.1) sound.1 known.3) (λ read. read) read_failed with_bytes
        (λ wish. wish)

  -- A round of `processRead`.
  pub read_round_lem :
      (total : ℕ) (c : Base) (l : LoopConn al.State H)
      → Announces h
      → Sound al c l
      → Round
          (FromRead al kernel globals h c l)
          (RoundFault al kernel globals h c l)
          (RoundAsks al kernel globals h c l)
          total
          c
          l
          (read_round al kernel globals h total c l)
  unfolding read_round
  read_round_lem total c l announces sound =
      let (o, c₁, l₁, e, same) = read_target_lem al kernel globals h c l sound in
      chosen o c₁ l₁ e same
    where
      moved :
          (c₁ : Base) (l₁ : LoopConn al.State H) (c' : Base) (l' : LoopConn al.State H)
          (bytes : Bytes)
          → c₁.self ≡ c.self
          → contents c₁.recvbuf ≡ contents c.recvbuf
          → l₁.log ≡ l.log
          → heard c₁.self l'.log ++ contents c'.recvbuf
            ≡ (heard c₁.self l₁.log ++ contents c₁.recvbuf) ++ bytes
          → heard c.self l'.log ++ contents c'.recvbuf
            ≡ (heard c.self l.log ++ contents c.recvbuf) ++ bytes
      moved c₁ l₁ c' l' bytes self same log kept = rw (self, same, log) at kept

      chosen :
          (o : Outcome Target) (c₁ : Base) (l₁ : LoopConn al.State H)
          → read_target al kernel globals c l ≡ some (o, c₁, l₁)
          → SameBytes al kernel globals h c l o c₁ l₁
          → Round
              (FromRead al kernel globals h c l)
              (RoundFault al kernel globals h c l)
              (RoundAsks al kernel globals h c l)
              total
              c
              l
              (read_round al kernel globals h total c l)
      chosen returned c₁ l₁ e (closed, cause) =
          (total, returned, c₁, l₁, rw (read_round, e) refl, inl (closed, refl, not_doubled cause))
      chosen (went_on target) c₁ l₁ e (sound₁, same, fd, self, log, reads) =
          let (sum, o, c', l', e', outcome) = read_into_lem total target c₁ l₁ announces sound₁ in
          (
            sum,
            o,
            c',
            l',
            rw (read_round, e) e',
            elim outcome [
              | inl (closed, back, cause) ↦ inl (closed, back, with_target target c₁ l₁ e cause)
              | inr (bytes, read, ready', v', fd', self', more, count, on, ends) ↦ inr (
                bytes,
                (
                  target,
                  c₁,
                  l₁,
                  e,
                  subst (λ n. bytes ≡ got kernel n (room_of target c₁ l₁)) reads read,
                ),
                ready',
                v',
                fd' ∙ fd,
                self' ∙ self,
                more ∙ ap (λ n. n + 1) reads,
                count,
                on,
                elim ends [
                  | inl (back, marked, wish) ↦ inl (back, marked, (target, c₁, l₁, e, wish))
                  | inr (front', kept) ↦ inr (front', moved c₁ l₁ c' l' bytes self same log kept)
                ],
              )
            ],
          )
