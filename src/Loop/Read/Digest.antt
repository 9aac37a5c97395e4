-- ===== src/Loop/Read/Digest.antt =====
-- eventloop/loopConn.go: a round of `processRead`, from the bytes at hand on.
use connaxis.Prelude.{
  ℕ, ◌+◌, ◌≤◌, ◌≡◌, refl, sym, ap, ap₂, ◌∙◌, ◌⊎◌, inl, inr, Option, some, Bool, true, false, Bytes,
  List, [], ◌∷◌, ◌++◌, append_assoc, append-nil, ◌==◌, ℤ, pos, arith,
}
use connaxis.Prelude.Lists.{length}
use connaxis.Prelude.FdSets.{member}
use connaxis.Alloc.{Allocator}
use connaxis.Kernel.{Kernel}
use connaxis.Tuning.{Globals}
use connaxis.Ring.Valid.{IsValid, contents}
use connaxis.Ring.Grow.Fits.{AtFront}
use connaxis.WriteQueue.Flush.Sent.{offered}
use connaxis.Loop.State.{Base, LoopConn, Call, on_data, PktHandler, Outcome, returned, went_on}
use connaxis.Loop.Touch.{touch_conn, touch_conn-frame}
use connaxis.Loop.Send.Drain.{Ready}
use connaxis.Loop.Send.Interest.{heard}
use connaxis.Loop.Packets.{packet_loop, int_to_nat}
use connaxis.Loop.Packets.Consumed.{delivered, Sound, Left, Settled}
use connaxis.Loop.Packets.Delivered.{packet_loop_lem}
use connaxis.Loop.Read.{digest}
use connaxis.Loop.Read.Cause.{DigestFault, DigestAsks, touched, at_packet, after_all}
use connaxis.Loop.Read.Finish.{Closed, Goes, after_packets_lem}

heard-delivered :
    (self : ℕ) (ps : List Bytes) (log : List Call)
    → heard self (delivered self ps log) ≡ heard self log ++ offered ps
heard-delivered self [] log = sym (append-nil (heard self log))
heard-delivered self (p ∷ ps) log =
    let same : (self == self) ≡ true = ground arith in
    heard-delivered self ps (on_data self p ∷ log)
    ∙ rw same (append_assoc (heard self log) p (offered ps))

module _ {H : Type 0} (h : PktHandler H) where
  -- The handler announces at least the bytes at hand of an incomplete packet.
  abbrev pub Announces : Type 0
  Announces =
      (bytes : Bytes) (u : H) (expect : ℤ)
      → (h.parse_packet bytes u).0 ≡ (pos 0, expect)
      → length bytes ≤ int_to_nat expect

module _ (al : Allocator) (kernel : Kernel) (globals : Globals) {H : Type 0}
    (h : PktHandler H) where
  -- A connection that is still open after the bytes at hand: those that the handler was given, and behind
  -- them those kept, grew by all of them; or it is to close when its output has gone.
  abbrev pub Kept :
      Bool → Base → Bytes → LoopConn al.State H → Outcome Unit → Base → LoopConn al.State H → Type 0
  Kept stop c inp l o c' l' =
      Ready al c' l'
      × IsValid c'.recvbuf
      × (c'.fd ≡ c.fd)
      × (c'.self ≡ c.self)
      × ((o ≡ went_on tt) → stop ≡ false)
      × (l'.reads ≡ l.reads)
      × ((o ≡ returned)
            × (member c'.fd l'.close_on_drain ≡ true)
            × DigestAsks al kernel globals h c inp l
          ⊎ AtFront c'.recvbuf
            × (heard c.self l'.log ++ contents c'.recvbuf ≡ heard c.self l.log ++ inp))

module _ (al : Allocator) (kernel : Kernel) (globals : Globals) {H : Type 0}
    (h : PktHandler H) where
  abbrev pub DigestedBytes :
      Bool
      → Base
      → Bytes
      → LoopConn al.State H
      → Option (Outcome Unit × Base × LoopConn al.State H)
      → Type 0
  DigestedBytes stop c inp l out =
      (o : Outcome Unit) × (c' : Base) × (l' : LoopConn al.State H) × (out ≡ some (o, c', l'))
      × (Closed (DigestFault al kernel globals h c inp l) o c'
          ⊎ Kept al kernel globals h stop c inp l o c' l')

  -- Packets and then the end of the round.
  after_packets-Kept :
      (want stop : Bool) (c c₁ c' : Base) (inp : Bytes) (l l₁ l' : LoopConn al.State H)
      (o : Outcome Unit)
      → Announces h
      → Settled al kernel globals h
          (touched al kernel globals h c l)
          inp
          (touch_conn c l)
          (went_on want)
          c₁
          l₁
      → Goes al want stop c₁ l₁ o c' l'
      → Kept al kernel globals h stop c inp l o c' l'
  after_packets-Kept want stop c c₁ c' inp l l₁ l' o announces
        (ready, v, (ps, left, whole, log, ends), fd, self, reads, asks)
        (ready', buf, fd', self', same, asked, on, _, reads') =
      (
        ready',
        rw buf v,
        fd' ∙ fd,
        self' ∙ self,
        λ e. (on e).0,
        reads' ∙ reads ∙ untouched,
        settle o on ends,
      )
    where
      untouched : (touch_conn c l).reads ≡ l.reads
      untouched = ap (λ (x : LoopConn al.State H). x.reads) (touch_conn-frame c l)

      quiet : heard c.self (touch_conn c l).log ≡ heard c.self l.log
      quiet = ap (λ (x : LoopConn al.State H). heard c.self x.log) (touch_conn-frame c l)

      told : heard c.self l'.log ≡ heard c.self l.log ++ offered ps
      told =
          same c.self
          ∙ ap (heard c.self) log
          ∙ heard-delivered c.self ps (touch_conn c l).log
          ∙ ap (λ x. x ++ offered ps) quiet

      all :
          contents c₁.recvbuf ≡ left
          → heard c.self l'.log ++ contents c'.recvbuf ≡ heard c.self l.log ++ inp
      all e =
          ap₂ ◌++◌ told (ap contents buf ∙ e)
          ∙ append_assoc (heard c.self l.log) (offered ps) left
          ∙ ap (◌++◌ (heard c.self l.log)) whole

      returns : (o : Outcome Unit) → (o ≡ went_on tt → want ≡ false) → want ≡ true → o ≡ returned
      returns returned on e = refl
      returns (went_on tt) on e = let no = on refl in absurd (cc)

      settle :
          (o : Outcome Unit)
          → (o ≡ went_on tt → (stop ≡ false) × (want ≡ false))
          → ((want ≡ true) ⊎ Left al kernel globals h c₁ left)
          → (o ≡ returned)
              × (member c'.fd l'.close_on_drain ≡ true)
              × DigestAsks al kernel globals h c inp l
            ⊎ AtFront c'.recvbuf
              × (heard c.self l'.log ++ contents c'.recvbuf ≡ heard c.self l.log ++ inp)
      settle o on (inl wants) = inl (returns o (λ e. (on e).1) wants, asked wants, asks wants)
      settle o on (inr (inl (held, front))) = inr (rw buf front, all held)
      settle o on (inr (inr (_, (u, expect, parsed, short)))) =
          absurd (omega (arith, announces left u expect parsed))

  pub digest_lem :
      (stop : Bool) (c : Base) (inp : Bytes) (l : LoopConn al.State H)
      → Announces h
      → Sound al c l
      → (length inp ≡ 0 → contents c.recvbuf ≡ [])
      → DigestedBytes stop c inp l (digest al kernel globals h stop c inp l)
  unfolding digest
  digest_lem stop c inp l announces (ready, v, front) fresh =
      let l₁ = touch_conn c l in
      let c₁ = record c { last_recv = l.now_sec } in
      let frame = touch_conn-frame c l in
      let (o, c₂, l₂, e, settled) =
        packet_loop_lem al kernel globals h (length inp + 1) c₁ inp l₁
          (
            (ready.0, rw (ap (λ (x : LoopConn al.State H). x.pool) frame) ready.1, ready.2),
            v,
            front,
          )
          (omega arith) fresh in
      ended o c₂ l₂ e settled
    where
      ended :
          (o : Outcome Bool) (c₂ : Base) (l₂ : LoopConn al.State H)
          → packet_loop al kernel globals
              (length inp + 1)
              (record c { last_recv = l.now_sec })
              inp
              (touch_conn c l)
              h
            ≡ some (o, c₂, l₂)
          → Settled al kernel globals h
              (record c { last_recv = l.now_sec })
              inp
              (touch_conn c l)
              o
              c₂
              l₂
          → DigestedBytes stop c inp l (digest al kernel globals h stop c inp l)
      ended returned c₂ l₂ e (closed, cause) =
          (returned, c₂, l₂, rw (digest, e) refl, inl (closed, refl, at_packet cause))
      ended (went_on want) c₂ l₂ e settled =
          let (o, c', l', e', outcome) =
            after_packets_lem al kernel globals h want stop c₂ l₂ settled.0 in
          (
            o,
            c',
            l',
            rw (digest, e) e',
            elim outcome [
              | inl (closed, back, cause) ↦ inl (closed, back, after_all want c₂ l₂ e cause)
              | inr goes ↦
                  inr (after_packets-Kept want stop c c₂ c' inp l l₂ l' o announces settled goes)
            ],
          )
