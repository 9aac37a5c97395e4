-- ===== src/Loop/Packets/Delivered.antt =====
-- eventloop/loopConn.go: packets go to the handler one by one, until one is incomplete.
use connaxis.Prelude.{
  ℕ, zero, suc, ◌≤◌, ◌<◌, ◌≡◌, refl, ap, ◌∙◌, inl, inr, Option, none, some, Bool, true, false,
  Bool-cases, Bytes, [], ◌∷◌, ◌++◌, append_assoc, append-nil, take, drop, ◌==◌, if◌then◌else◌, ◌||◌,
  arith, take-append-drop, ==→eq,
}
use connaxis.Prelude.Lists.{length, length-drop, take-all}
use connaxis.Alloc.{Allocator}
use connaxis.Kernel.{Kernel}
use connaxis.Tuning.{Globals}
use connaxis.Ring.Valid.{contents}
use connaxis.Ring.Grow.{reset}
use connaxis.WriteQueue.Flush.{Errno}
use connaxis.WriteQueue.Flush.Sent.{offered}
use connaxis.Loop.State.{
  Base, LoopConn, on_data, PktHandler, Outcome, returned, went_on, close_mem_alloc_fail,
  close_send_err,
}
use connaxis.Loop.Send.{close_conn}
use connaxis.Loop.Send.Drain.{Ready, OnlySends}
use connaxis.Loop.Send.Emit.{emit_output_lem}
use connaxis.Loop.Send.Close.{close_conn-fd}
use connaxis.Loop.Packets.{
  Parsed, malformed, partial, complete, check_packet, close_and_return, after_emit, deliver,
  finish_packets, packet_loop,
}
use connaxis.Loop.Packets.Cause.{
  verdict, parsed_by, NotSent, rejected, no_room, not_sent, here, next_packet,
}
use connaxis.Loop.Packets.Consumed.{
  delivered, check_packet-complete, check_packet-partial, Sound, Settled, Digested, closed_Digested,
  keep_partial_lem,
}

module _ (al : Allocator) (kernel : Kernel) (globals : Globals) {H : Type 0}
    (h : PktHandler H) where
  -- A packet that was given to the handler: the connection is closed, or only sends, and the handler was
  -- called once.
  abbrev Gave :
      Base → Bytes → LoopConn al.State H → Outcome Bool → Base → LoopConn al.State H → Type 0
  Gave c packet l returned c' l' = (c'.fd ≡ 0) × NotSent al kernel globals h c packet l
  Gave c packet l (went_on want) c' l' =
      Sound al c' l'
      × (l'.log ≡ on_data c.self packet ∷ l.log)
      × (c'.fd ≡ c.fd)
      × (c'.self ≡ c.self)
      × (c'.recvbuf ≡ c.recvbuf)
      × (l'.reads ≡ l.reads)
      × (want ≡ true → (h.on_data packet l.user).0.1 ≡ true)

  deliver_lem :
      (c : Base) (packet : Bytes) (l : LoopConn al.State H)
      → Sound al c l
      → (o : Outcome Bool) × (c' : Base) × (l' : LoopConn al.State H) × (deliver al kernel globals c
            packet l h
          ≡ some (o, c', l'))
        × Gave c packet l o c' l'
  unfolding deliver after_emit close_and_return
  deliver_lem c packet l (ready, v, front) =
      let ((out, action), u) = h.on_data packet l.user in
      let l₁ = record l { user = u; log = on_data c.self packet ∷ l.log } in
      let (err, c', l', e, ready', _, _, _, same) =
        emit_output_lem al kernel globals c out l₁ ready in
      went action l₁ err c' l' _ e ready' same (refl, refl)
        (λ n f. (n, c', l', e ∙ ap (λ k. some (k, c', l')) f)) (λ wants. wants)
    where
      went :
          (action : Bool) (l₁ : LoopConn al.State H) (err : Errno) (c' : Base)
          (l' : LoopConn al.State H) (r : Option (Errno × Base × LoopConn al.State H))
          → r ≡ some (err, c', l')
          → Ready al c' l'
          → OnlySends al c l₁ c' l'
          → (l₁.log ≡ on_data c.self packet ∷ l.log) × (l₁.reads ≡ l.reads)
          → ((n : ℕ) → err ≡ some n → NotSent al kernel globals h c packet l)
          → (action ≡ true → (h.on_data packet l.user).0.1 ≡ true)
          → (o : Outcome Bool) × (c'' : Base) × (l'' : LoopConn al.State H) × (after_emit al kernel
                globals action r
              ≡ some (o, c'', l''))
            × Gave c packet l o c'' l''
      went action l₁ (some n) c' l' r e ready' same log cause asks =
          let reason = if n == 12 then close_mem_alloc_fail else close_send_err in
          let (c'', l'') = close_conn al kernel globals c' reason l' in
          (
            returned,
            c'',
            l'',
            rw (e, after_emit) refl,
            (close_conn-fd al kernel globals c' reason l', cause n refl),
          )
      went action l₁ none c' l' r e ready' same (log, reads) cause asks =
          let buf : c'.recvbuf ≡ c.recvbuf = ap (λ (x : Base). x.recvbuf) same.0 in
          (
            went_on action,
            c',
            l',
            rw (e, after_emit) refl,
            (
              (ready', rw buf v, rw buf front),
              ap (λ (x : LoopConn al.State H). x.log) same.1 ∙ log,
              ap (λ (x : Base). x.fd) same.0,
              ap (λ (x : Base). x.self) same.0,
              buf,
              ap (λ (x : LoopConn al.State H). x.reads) same.1 ∙ reads,
              asks,
            ),
          )

  -- A packet put before what the rest of the loop did.
  before :
      (c c' : Base) (inp : Bytes) (n : ℕ) (l l' : LoopConn al.State H) (o : Outcome Bool)
      (c'' : Base) (l'' : LoopConn al.State H) (last : Bool)
      → verdict al kernel globals h inp l ≡ complete n
      → deliver al kernel globals c (take n inp) (parsed_by al kernel globals h inp l) h
        ≡ some (went_on last, c', l')
      → Gave c (take n inp) (parsed_by al kernel globals h inp l) (went_on last) c' l'
      → Settled al kernel globals h c' (drop n inp) l' o c'' l''
      → Settled al kernel globals h c inp l o c'' l''
  before c c' inp n l l' returned c'' l'' last e d _ (closed, cause) =
      (closed, next_packet n last e d cause)
  before c c' inp n l l' (went_on want) c'' l'' last e d (_, log, fd, self, _, reads, _)
        (ready, valid, (ps, left, whole, log', kept), fd', self', reads', asks) =
      (
        ready,
        valid,
        (
          take n inp ∷ ps,
          left,
          append_assoc (take n inp) (offered ps) left
              ∙ ap (◌++◌ (take n inp)) whole
              ∙ take-append-drop n inp,
          log' ∙ ap (λ self. delivered self ps l'.log) self ∙ ap (delivered c.self ps) log,
          kept,
        ),
        fd' ∙ fd,
        self' ∙ self,
        reads' ∙ reads,
        λ w. next_packet n last e d (asks w),
      )

  -- The last packet of a round.
  finish_packets_lem :
      (c c' : Base) (inp : Bytes) (n : ℕ) (l l' : LoopConn al.State H) (want : Bool)
      → verdict al kernel globals h inp l ≡ complete n
      → Gave c (take n inp) (parsed_by al kernel globals h inp l) (went_on want) c' l'
      → (want || length (drop n inp) == 0) ≡ true
      → Digested al kernel globals h c inp l
          (finish_packets al kernel globals want (drop n inp) c' l')
  unfolding finish_packets reset
  finish_packets_lem c c' inp n l l' want e ((ready, v, front), log, fd, self, buf, reads, asks)
        last =
      let one : offered (take n inp ∷ []) ++ drop n inp ≡ inp =
        ap (λ x. x ++ drop n inp) (append-nil (take n inp)) ∙ take-append-drop n inp in
      elim (Bool-cases (length (drop n inp) == 0)) [
        | inl all ↦
            let no_bytes : [] ≡ drop n inp =
              take-all 0 (drop n inp) (omega (arith, ==→eq (length (drop n inp)) 0 all)) in
            (
              went_on want,
              record c' { recvbuf = record { buf = []; size = 0; r = 0; w = 0 } },
              record l' { pool = al.put c'.recvbuf.buf l'.pool },
              rw (finish_packets, all) refl,
              (
                (ready.0, al.put-IsValid c'.recvbuf.buf l'.pool ready.1, ready.2),
                record { in_buf = omega arith; ordered = omega arith; bounded = omega arith },
                (take n inp ∷ [], drop n inp, one, log, inr (inl (no_bytes, (refl, refl)))),
                fd,
                self,
                reads,
                λ w. here (n, e, asks w),
              ),
            )
        | inr more ↦ (
          went_on want,
          c',
          l',
          rw (finish_packets, more) refl,
          (
            ready,
            v,
            (take n inp ∷ [], drop n inp, one, log, inl (asked want last more)),
            fd,
            self,
            reads,
            λ w. here (n, e, asks w),
          ),
        )
      ]
    where
      asked :
          (want : Bool)
          → (want || length (drop n inp) == 0) ≡ true
          → (length (drop n inp) == 0) ≡ false
          → want ≡ true
      asked true _ _ = refl
      asked false last more = absurd (cc)

  -- What the rounds left of the loop do with any bytes.
  abbrev Ends : ℕ → Type 0
  Ends fuel =
      (c : Base) (inp : Bytes) (l : LoopConn al.State H)
      → Sound al c l
      → length inp < fuel
      → (length inp ≡ 0 → contents c.recvbuf ≡ [])
      → Digested al kernel globals h c inp l (packet_loop al kernel globals fuel c inp l h)

  -- A complete packet, and the loop after it.
  complete_lem :
      (fuel : ℕ) (c : Base) (inp : Bytes) (n : ℕ) (l : LoopConn al.State H)
      → Ends fuel
      → Sound al c l
      → length inp < suc fuel
      → (0 < n) × (n ≤ length inp)
      → check_packet l.pkt_size_limit (length inp) (h.parse_packet inp l.user).0 ≡ complete n
      → Digested al kernel globals h c inp l (packet_loop al kernel globals (suc fuel) c inp l h)
  unfolding packet_loop
  complete_lem fuel c inp n l more sound small (some_read, within) e =
      let (o, c', l', d, gave) = deliver_lem c (take n inp) l₁ sound in went o c' l' d gave
    where
      l₁ : LoopConn al.State H
      l₁ = record l { user = (h.parse_packet inp l.user).1 }

      ended :
          (want : Bool) → (want || length (drop n inp) == 0) ≡ false → length (drop n inp) ≡ 0 → ⊥
      ended true again none_left = absurd (cc)
      ended false again none_left = ground arith

      went :
          (o : Outcome Bool) (c' : Base) (l' : LoopConn al.State H)
          → deliver al kernel globals c (take n inp) l₁ h ≡ some (o, c', l')
          → Gave c (take n inp) l₁ o c' l'
          → Digested al kernel globals h c inp l
              (packet_loop al kernel globals (suc fuel) c inp l h)
      went returned c' l' d (closed, cause) =
          (returned, c', l', rw (packet_loop, e, d) refl, (closed, here (not_sent n e cause)))
      went (went_on want) c' l' d gave = elim (Bool-cases (want || length (drop n inp) == 0)) [
        | inl last ↦
            rw (packet_loop, e, d, last) (finish_packets_lem c c' inp n l l' want e gave last)
        | inr again ↦
            let (o₂, c₂, l₂, e₂, settled) =
              more c' (drop n inp) l' gave.0
                (omega (arith, length-drop n inp, some_read, within, small))
                (λ none_left. absurd (ended want again none_left)) in
            (
              o₂,
              c₂,
              l₂,
              rw (packet_loop, e, d, again) e₂,
              before c c' inp n l l' o₂ c₂ l₂ want e d gave settled,
            )
      ]

  step :
      (fuel : ℕ) (c : Base) (inp : Bytes) (l : LoopConn al.State H) (p : Parsed)
      → check_packet l.pkt_size_limit (length inp) (h.parse_packet inp l.user).0 ≡ p
      → Ends fuel
      → Sound al c l
      → length inp < suc fuel
      → (length inp ≡ 0 → contents c.recvbuf ≡ [])
      → Digested al kernel globals h c inp l (packet_loop al kernel globals (suc fuel) c inp l h)
  unfolding packet_loop
  step fuel c inp l (malformed reason) e more sound small fresh =
      rw (packet_loop, e)
        (closed_Digested al kernel globals h c c inp l
          (record l { user = (h.parse_packet inp l.user).1 }) reason (here (rejected reason e)))
  step fuel c inp l (partial expect) e more sound small fresh =
      rw (packet_loop, e)
        (keep_partial_lem al kernel globals h c inp expect l
          (record l { user = (h.parse_packet inp l.user).1 }) sound fresh l.user
          (check_packet-partial l.pkt_size_limit (length inp) expect (h.parse_packet inp l.user).0
            e)
          (refl, refl) (λ s full. no_room expect s e full))
  step fuel c inp l (complete n) e more sound small fresh =
      complete_lem fuel c inp n l more sound small
        (check_packet-complete l.pkt_size_limit (length inp) n (h.parse_packet inp l.user).0 e) e

  -- The inner loop of `processRead`, on bytes that a sound connection has just read: it ends without a
  -- panic after at most as many packets as there are bytes, whatever the handler answers. The connection is
  -- then closed, for a cause at one of the packets; or the bytes at hand are the packets that the handler was given, in order and once each,
  -- and those left, which are in the receive buffer unless the handler asked to close, or announced an
  -- incomplete packet of fewer bytes than were there and the pool had no buffer for them.
  pub packet_loop_lem :
      (fuel : ℕ) (c : Base) (inp : Bytes) (l : LoopConn al.State H)
      → Sound al c l
      → length inp < fuel
      → (length inp ≡ 0 → contents c.recvbuf ≡ [])
      → Digested al kernel globals h c inp l (packet_loop al kernel globals fuel c inp l h)
  packet_loop_lem zero c inp l sound small fresh = absurd (omega arith)
  packet_loop_lem (suc fuel) c inp l sound small fresh =
      step fuel c inp l (check_packet l.pkt_size_limit (length inp) (h.parse_packet inp l.user).0)
        refl (packet_loop_lem fuel) sound small fresh
