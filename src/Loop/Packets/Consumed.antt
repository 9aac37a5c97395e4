-- ===== src/Loop/Packets/Consumed.antt =====
-- eventloop/loopConn.go: the inner loop of `processRead` ends, and every byte at hand goes to the handler
-- in a packet or is kept for later.
use connaxis.Prelude.{
  ℕ, ◌-◌, ◌≤◌, ◌<◌, ◌≡◌, refl, ap, ◌∙◌, ◌⊎◌, inl, inr, Option, none, some, Bool, true, false,
  Bool-cases, Bytes, List, [], ◌∷◌, ◌++◌, ltb, leb, ◌==◌, ℤ, pos, negsuc, arith, ==→eq, leb→le,
  leb→lt,
}
use connaxis.Prelude.Lists.{length, take-all}
use connaxis.Alloc.{Allocator}
use connaxis.Kernel.{Kernel}
use connaxis.Tuning.{Globals}
use connaxis.Ring.{truncate}
use connaxis.Ring.Valid.{IsValid, contents}
use connaxis.Ring.Grow.{update}
use connaxis.Ring.Grow.Append.{write_lem}
use connaxis.Ring.Grow.Fits.{AtFront, write-fits}
use connaxis.WriteQueue.Flush.Sent.{offered}
use connaxis.Loop.State.{
  Base, LoopConn, Call, on_data, PktHandler, Outcome, returned, went_on, close_pkt_size_limit,
  CloseReason,
}
use connaxis.Loop.Send.{close_conn}
use connaxis.Loop.Send.Drain.{Ready}
use connaxis.Loop.Send.Close.{close_conn-fd}
use connaxis.Loop.Packets.Cause.{InPackets, here, Fault, Asks}
use connaxis.Loop.Packets.{
  exceeds, int_to_nat, partial, complete, check_packet, close_and_return, write_partial,
  keep_partial,
}

-- The log after packets went to the handler, one call for each.
abbrev pub delivered : ℕ → List Bytes → List Call → List Call
delivered self [] log = log
delivered self (p ∷ ps) log = delivered self ps (on_data self p ∷ log)

pub check_packet-complete :
    (limit avail n : ℕ) (answer : ℤ × ℤ)
    → check_packet limit avail answer ≡ complete n
    → (0 < n) × (n ≤ avail)
unfolding check_packet
check_packet-complete limit avail n (negsuc k, expect) e = absurd (cc)
check_packet-complete limit avail n (pos k, expect) e = elim (Bool-cases (exceeds expect limit)) [
  | inl large ↦ let e' = rw (large, check_packet) at e in absurd (cc)
  | inr small ↦ elim (Bool-cases (k == 0)) [
    | inl nothing ↦ let e' = rw (small, nothing, check_packet) at e in absurd (cc)
    | inr something ↦ elim (Bool-cases (ltb avail k)) [
      | inl over ↦ let e' = rw (small, something, over, check_packet) at e in absurd (cc)
      | inr fits ↦
          let e' = rw (small, something, fits, check_packet) at e in
          let same : k ≡ n = cc in rw (← same) (ground arith, ground arith)
    ]
  ]
]

pub check_packet-partial :
    (limit avail : ℕ) (expect : ℤ) (answer : ℤ × ℤ)
    → check_packet limit avail answer ≡ partial expect
    → answer ≡ (pos 0, expect)
unfolding check_packet
check_packet-partial limit avail expect (negsuc k, expect') e = absurd (cc)
check_packet-partial limit avail expect (pos k, expect') e =
    elim (Bool-cases (exceeds expect' limit)) [
      | inl large ↦ let e' = rw (large, check_packet) at e in absurd (cc)
      | inr small ↦ elim (Bool-cases (k == 0)) [
        | inl nothing ↦
            let e' = rw (small, nothing, check_packet) at e in
            let none_read = ==→eq k 0 nothing in
            let same : expect' ≡ expect = cc in rw (none_read, same)
        | inr something ↦ elim (Bool-cases (ltb avail k)) [
          | inl over ↦ let e' = rw (small, something, over, check_packet) at e in absurd (cc)
          | inr fits ↦ let e' = rw (small, something, fits, check_packet) at e in absurd (cc)
        ]
      ]
    ]

exceeds-le : (expect : ℤ) (n : ℕ) → exceeds expect n ≡ false → int_to_nat expect ≤ n
exceeds-le (pos e) n h = ground arith
exceeds-le (negsuc e) n h = omega arith

module _ (al : Allocator) {H : Type 0} where
  -- The connection can send, and its receive buffer is well formed, with its bytes at the front.
  abbrev pub Sound : Base → LoopConn al.State H → Type 0
  Sound c l = Ready al c l × IsValid c.recvbuf × AtFront c.recvbuf

module _ (al : Allocator) (kernel : Kernel) (globals : Globals) {H : Type 0}
    (h : PktHandler H) where
  -- The handler's last word on some bytes: an incomplete packet, of fewer bytes than are there.
  abbrev pub Unannounced : Bytes → Type 0
  Unannounced left =
      (u : H) × (expect : ℤ) × ((h.parse_packet left u).0 ≡ (pos 0, expect))
      × (int_to_nat expect < length left)

  -- Where the bytes of an incomplete packet are afterwards.
  abbrev pub Left : Base → Bytes → Type 0
  Left c left =
      (contents c.recvbuf ≡ left) × AtFront c.recvbuf
      ⊎ ((contents c.recvbuf ≡ left) ⊎ (contents c.recvbuf ≡ [])) × Unannounced left

  -- How the loop ends: the connection is closed; or all of the bytes went to the handler in packets, in
  -- order, up to those left, which are kept unless the handler asked to close.
  abbrev pub Settled :
      Base → Bytes → LoopConn al.State H → Outcome Bool → Base → LoopConn al.State H → Type 0
  Settled c inp l returned c' l' =
      (c'.fd ≡ 0) × InPackets al kernel globals h (Fault al kernel globals h) c inp l
  Settled c inp l (went_on want) c' l' =
      Ready al c' l'
      × IsValid c'.recvbuf
      × ((ps : List Bytes) × (left : Bytes) × (offered ps ++ left ≡ inp)
          × (l'.log ≡ delivered c.self ps l.log)
          × ((want ≡ true) ⊎ Left c' left))
      × (c'.fd ≡ c.fd)
      × (c'.self ≡ c.self)
      × (l'.reads ≡ l.reads)
      × (want ≡ true → InPackets al kernel globals h (Asks al kernel globals h) c inp l)

  abbrev pub Digested :
      Base
      → Bytes
      → LoopConn al.State H
      → Option (Outcome Bool × Base × LoopConn al.State H)
      → Type 0
  Digested c inp l out =
      (o : Outcome Bool) × (c' : Base) × (l' : LoopConn al.State H) × (out ≡ some (o, c', l'))
      × Settled c inp l o c' l'

  -- A stage that closes the connection.
  pub closed_Digested :
      (c₀ c : Base) (inp : Bytes) (l₀ l : LoopConn al.State H) (reason : CloseReason)
      → InPackets al kernel globals h (Fault al kernel globals h) c₀ inp l₀
      → Digested c₀ inp l₀ (close_and_return al kernel globals c reason l)
  unfolding close_and_return
  closed_Digested c₀ c inp l₀ l reason cause =
      let (c', l') = close_conn al kernel globals c reason l in
      (returned, c', l', refl, (close_conn-fd al kernel globals c reason l, cause))

  write_partial_lem :
      (c₀ c : Base) (inp : Bytes) (l₀ l : LoopConn al.State H) (expect : ℤ)
      → Sound al c l
      → 0 < length inp
      → (c.recvbuf.r ≡ 0) × (c.recvbuf.w ≡ 0)
      → int_to_nat expect ≤ c.recvbuf.size
      → (u : H) → (h.parse_packet inp u).0 ≡ (pos 0, expect)
      → (c.fd ≡ c₀.fd) × (c.self ≡ c₀.self)
      → (l.log ≡ l₀.log) × (l.reads ≡ l₀.reads)
      → Digested c₀ inp l₀ (write_partial al kernel globals c inp l)
  unfolding write_partial
  write_partial_lem c₀ c inp l₀ l expect (ready, v, front) some_left (r, w) fits u parsed same
        (log, reads) =
      let zero_held : c.recvbuf.w - c.recvbuf.r ≡ 0 = omega arith in
      let empty : contents c.recvbuf ≡ [] = rw zero_held refl in
      elim (Bool-cases (leb (length inp) c.recvbuf.size)) [
        | inl room ↦
            let (rb, e, v', all, start) =
              write-fits al c.recvbuf inp l.pool v some_left
                (omega (arith, leb→le (length inp) c.recvbuf.size room)) in
            (
              went_on false,
              record c { recvbuf = rb },
              record l { pool = l.pool },
              rw (write_partial, e) refl,
              (
                ready,
                v',
                ([], inp, refl, log, inr (inl (all ∙ ap (λ x. x ++ inp) empty, start front))),
                same.0,
                same.1,
                reads,
                λ bad. absurd (cc),
              ),
            )
        | inr short ↦
            let (code, rb, s, e, valid', v', done) =
              write_lem al c.recvbuf inp true l.pool v ready.1 some_left in
            (
              went_on false,
              record c { recvbuf = rb },
              record l { pool = s },
              rw (write_partial, e) refl,
              (
                (ready.0, valid', ready.2),
                v',
                (
                  [],
                  inp,
                  refl,
                  log,
                  inr (
                      inr (
                        elim done [
                          | inl (_, kept) ↦ inr (kept ∙ empty)
                          | inr (_, all) ↦ inl (all ∙ ap (λ x. x ++ inp) empty)
                        ],
                        (
                          u,
                          expect,
                          parsed,
                          omega (arith, leb→lt (length inp) c.recvbuf.size short),
                        ),
                      )),
                ),
                same.0,
                same.1,
                reads,
                λ bad. absurd (cc),
              ),
            )
      ]

  pub keep_partial_lem :
      (c : Base) (inp : Bytes) (expect : ℤ) (l₀ l : LoopConn al.State H)
      → Sound al c l
      → (length inp ≡ 0 → contents c.recvbuf ≡ [])
      → (u : H) → (h.parse_packet inp u).0 ≡ (pos 0, expect)
      → (l.log ≡ l₀.log) × (l.reads ≡ l₀.reads)
      → ((s : al.State)
          → al.get (int_to_nat expect) l.pool ≡ some (none, s)
          → Fault al kernel globals h c inp l₀)
      → Digested c inp l₀ (keep_partial al kernel globals c inp expect l)
  unfolding keep_partial update truncate
  keep_partial_lem c inp expect l₀ l (ready, v, front) fresh u parsed (log, reads) cause =
      elim (Bool-cases (length inp == 0)) [
        | inl nothing ↦
            let none_left = ==→eq (length inp) 0 nothing in
            let no_bytes : [] ≡ inp = take-all 0 inp (omega arith) in
            (
              went_on false,
              c,
              l,
              rw (keep_partial, nothing) refl,
              (
                ready,
                v,
                ([], inp, refl, log, inr (inl (fresh none_left ∙ no_bytes, front))),
                refl,
                refl,
                reads,
                λ bad. absurd (cc),
              ),
            )
        | inr something ↦ elim (Bool-cases (exceeds expect c.recvbuf.size)) [
          | inr within ↦
              let c₁ = record c { recvbuf = truncate c.recvbuf } in
              rw (keep_partial, something, within)
                (write_partial_lem c c₁ inp l₀ l expect
                  (
                    ready,
                    record { in_buf = v.in_buf; ordered = omega arith; bounded = omega arith },
                    (refl, front.1),
                  )
                  (ground arith) (refl, refl) (exceeds-le expect c.recvbuf.size within) u parsed
                  (refl, refl) (log, reads))
          | inl beyond ↦
              rw (keep_partial, something, beyond)
                (asked (ground arith) (al.get_lem (int_to_nat expect) l.pool ready.1))
        ]
      ]
    where
      asked :
          0 < length inp
          → ((o : Option Bytes) × (s : al.State) × (al.get (int_to_nat expect) l.pool ≡ some (o, s))
              × al.IsValid s
              × ((b : Bytes) → o ≡ some b → int_to_nat expect ≤ length b))
          → Digested c inp l₀ (elim (al.get (int_to_nat expect) l.pool) [
            | none ↦ none
            | some (none, s) ↦
                close_and_return al kernel globals c close_pkt_size_limit (record l { pool = s })
            | some (some buf, s) ↦
                let (rb, s') = update al c.recvbuf buf s in
                write_partial al kernel globals
                  (record c { recvbuf = rb })
                  inp
                  (record l { pool = s' })
          ])
      asked some_left (none, s, e, valid, _) = rw e (
          closed_Digested c c inp l₀ (record l { pool = s }) close_pkt_size_limit
            (here (cause s e)))
      asked some_left (some buf, s, e, valid, room) = rw e (
          write_partial_lem c
            (record c { recvbuf = record { buf = buf; size = length buf; r = 0; w = 0 } }) inp l₀
            (record l { pool = al.put c.recvbuf.buf s }) expect
            (
              (ready.0, al.put-IsValid c.recvbuf.buf s valid, ready.2),
              record { in_buf = omega arith; ordered = omega arith; bounded = omega arith },
              (refl, refl),
            )
            some_left (refl, refl) (room buf refl) u parsed (refl, refl) (log, reads))
