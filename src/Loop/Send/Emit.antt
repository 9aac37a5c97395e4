-- ===== src/Loop/Send/Emit.antt =====
-- eventloop/loopConn.go: `emitOutput` keeps the order of a connection's output.
use connaxis.Prelude.{
  ℕ, ◌+◌, ◌≤◌, ◌<◌, ◌^◌, ◌%◌, ◌≡◌, refl, sym, ap, ap₂, subst, ◌∙◌, ◌⊎◌, inl, inr, Option, none,
  some, true, Bool-cases, Bytes, [], ◌∷◌, ◌++◌, append-nil, take, drop, not, ◌||◌, false,
  if◌then◌else◌, ltb, ◌==◌, ℤ, pos, negsuc, arith, copy, take-append-drop, ==→eq,
}
use connaxis.Prelude.Lists.{length, length-take, take-all}
use connaxis.Prelude.Slices.{length-copy, take-copy}
use connaxis.Alloc.{Allocator}
use connaxis.Kernel.{Kernel, fails, enomem}
use connaxis.Tuning.{Globals}
use connaxis.WriteQueue.{enqueue}
use connaxis.WriteQueue.Enqueue.{enqueue_lem}
use connaxis.WriteQueue.Flush.{Errno}
use connaxis.WriteQueue.Flush.Sent.{count_of}
use connaxis.Loop.State.{Base, LoopConn}
use connaxis.Loop.Send.{
  enqueue_write, count_sent, conn_write, queue_output, after_write, emit_output, pending_write,
}
use connaxis.Loop.Send.Drain.{backlog, Ready, OnlySends, OnlySends-trans, nothing_waits}

module _ (al : Allocator) (kernel : Kernel) (globals : Globals) {H : Type 0} where
  -- The end of `emitOutput`: all of the bytes are behind the backlog, or none.
  abbrev Queued :
      Base → Bytes → LoopConn al.State H → Option (Errno × Base × LoopConn al.State H) → Type 0
  Queued c out l result =
      (err : Errno) × (c' : Base) × (l' : LoopConn al.State H) × (result ≡ some (err, c', l'))
      × Ready al c' l'
      × ((err ≡ none) × (backlog c' ≡ backlog c ++ out) ⊎ (err ≡ enomem) × (backlog c' ≡ backlog c))
      × (c'.send ≡ c.send)
      × OnlySends al c l c' l'

  queue_output_new :
      (c : Base) (out : Bytes) (l : LoopConn al.State H) (o : Option Bytes) (s : al.State)
      → al.get (length out) l.pool ≡ some (o, s)
      → al.IsValid s
      → ((b : Bytes) → o ≡ some b → length out ≤ length b)
      → Ready al c l
      → Queued c out l (queue_output al kernel globals c out l)
  unfolding queue_output enqueue_write
  queue_output_new c out l none s e valid room (v, _, small) = (
    enomem,
    c,
    record l { pool = s },
    rw (queue_output, e) refl,
    (v, valid, small),
    inr (refl, refl),
    refl,
    (refl, refl),
  )
  queue_output_new c out l (some owner) s e valid room (v, _, small) =
      let fits = room owner refl in
      let buf = copy owner out in
      let (v', valid', more, _) =
        enqueue_lem al globals.connection c.wq buf (length out) s v valid
          (omega (arith, length-copy owner out)) in
      let (q, s') = enqueue al globals.connection c.wq buf (length out) s in
      (
        none,
        record c { wq = q },
        record l { pool = s' },
        rw (queue_output, e) refl,
        (v', valid', small),
        inl (refl, more ∙ ap (◌++◌ (backlog c)) (take-copy owner out fits)),
        refl,
        (refl, refl),
      )

  queue_output_lem :
      (c : Base) (out : Bytes) (l : LoopConn al.State H)
      → Ready al c l
      → Queued c out l (queue_output al kernel globals c out l)
  queue_output_lem c out l ready =
      let (o, s, e, valid, room) = al.get_lem (length out) l.pool ready.1 in
      queue_output_new c out l o s e valid room ready

  -- The bytes that the kernel takes of `out` at once: those of its answer to the next write, which is asked
  -- for `out` alone, if the connection is open and nothing waits before it.
  pub sent_now : Base → Bytes → LoopConn al.State H → Bytes
  sent_now c out l =
      if length out == 0 || not (pending_write c == 0) || c.fd == 0
      then []
      else take (count_of (kernel.write l.writes (out ∷ [])).0) out

  -- What `emitOutput` of `out` does, where the kernel took `wire` of it: those bytes are counted, and they
  -- and then the backlog are the backlog of before and all of `out`. Bytes go out at once only where nothing
  -- was waiting. Where an error is reported the backlog is as it was.
  abbrev EmittedAs :
      Bytes
      → Base
      → Bytes
      → LoopConn al.State H
      → Option (Errno × Base × LoopConn al.State H)
      → Type 0
  EmittedAs wire c out l result =
      (err : Errno) × (c' : Base) × (l' : LoopConn al.State H) × (result ≡ some (err, c', l'))
      × Ready al c' l'
      × ((err ≡ none) × (wire ++ backlog c' ≡ backlog c ++ out)
          ⊎ (fails err ≡ true) × (backlog c' ≡ backlog c))
      × ((wire ≡ []) ⊎ (backlog c ≡ []))
      × (c'.send ≡ (c.send + length wire) % 2 ^ 32)
      × OnlySends al c l c' l'

  abbrev pub Emitted :
      Base → Bytes → LoopConn al.State H → Option (Errno × Base × LoopConn al.State H) → Type 0
  Emitted c out l result = EmittedAs (sent_now c out l) c out l result

  -- A connection after `Write` had an answer: its count is that of the bytes taken.
  abbrev Wrote :
      ℤ × Errno → Base → Bytes → LoopConn al.State H → Base → LoopConn al.State H → Type 0
  Wrote r c out l c₁ l₁ =
      Ready al c₁ l₁
      × (backlog c₁ ≡ [])
      × (c₁.send ≡ (c.send + count_of r.0) % 2 ^ 32)
      × (count_of r.0 ≤ length out)
      × ((e : ℕ) → r.1 ≡ some e → count_of r.0 ≡ 0)
      × OnlySends al c l c₁ l₁

  conn_write_lem :
      (c : Base) (out : Bytes) (l : LoopConn al.State H)
      → Ready al c l
      → backlog c ≡ []
      → let (r, c₁, l₁) = conn_write al kernel globals c out l in Wrote r c out l c₁ l₁
  unfolding conn_write count_sent
  conn_write_lem c out l ready empty = elim (Bool-cases (c.fd == 0)) [
    | inl closed ↦
        rw (closed, conn_write)
          (ready, empty, omega (arith, ready.2), omega arith, λ e f. refl, (refl, refl))
    | inr is_open ↦
        rw (is_open, conn_write)
          (counted (kernel.write l.writes (out ∷ [])) (λ n f. took n f)
            (kernel.write_fails l.writes (out ∷ [])))
  ]
    where
      took : (n : ℕ) → (kernel.write l.writes (out ∷ [])).0 ≡ pos n → n ≤ length out
      took n f =
          omega (arith, kernel.write_takes l.writes (out ∷ []) n f, ap length (append-nil out))

      counted :
          (r : ℤ × Errno)
          → ((n : ℕ) → r.0 ≡ pos n → n ≤ length out)
          → ((e : ℕ) → r.1 ≡ some e → count_of r.0 ≡ 0)
          → Wrote r c out l (count_sent r c) (record l { writes = l.writes + 1 })
      counted (negsuc n, err) within silent =
          (ready, empty, omega (arith, ready.2), omega arith, silent, (refl, refl))
      counted (pos n, err) within silent = elim (Bool-cases (ltb 0 n)) [
        | inl went ↦
            rw (went, count_sent)
              ((ready.0, ready.1, omega arith), empty, refl, within n refl, silent, (refl, refl))
        | inr nothing ↦
            rw (nothing, count_sent)
              (ready, empty, ground (arith, ready.2), within n refl, silent, (refl, refl))
      ]

  after_write_lem :
      (r : ℤ × Errno) (c : Base) (out : Bytes) (l : LoopConn al.State H) (c₁ : Base)
      (l₁ : LoopConn al.State H)
      → backlog c ≡ []
      → 0 < length out
      → Wrote r c out l c₁ l₁
      → EmittedAs (take (count_of r.0) out) c out l (after_write al kernel globals out (r, c₁, l₁))
  unfolding after_write
  after_write_lem (n, err) c out l c₁ l₁ empty h (ready, empty₁, sum, within, silent, same) =
      elim (Bool-cases (count_of n == length out)) [
        | inl all ↦
            let whole = ==→eq (count_of n) (length out) all in
            let everything : take (count_of n) out ≡ out =
              take-all (count_of n) out (omega arith) in
            (
              none,
              c₁,
              l₁,
              rw (after_write, all) refl,
              ready,
              inl (
                refl,
                ap₂ ◌++◌ everything empty₁ ∙ append-nil out ∙ ap (λ x. x ++ out) (sym empty),
              ),
              inr empty,
              omega (arith, sum, whole, length-take (count_of n) out),
              same,
            )
        | inr part ↦ elim (Bool-cases (fails err)) [
          | inl bad ↦
              let nothing = silenced err bad silent in
              (
                err,
                c₁,
                l₁,
                rw (after_write, part, bad) refl,
                ready,
                inr (bad, empty₁ ∙ sym empty),
                inr empty,
                omega (arith, sum, nothing, length-take (count_of n) out),
                same,
              )
          | inr fine ↦
              let (err₂, c₂, l₂, e₂, ready₂, done, kept, same₂) =
                queue_output_lem c₁ (drop (count_of n) out) l₁ ready in
              (
                err₂,
                c₂,
                l₂,
                rw (after_write, part, fine) e₂,
                ready₂,
                joined err₂ c₂ done,
                inr empty,
                omega (arith, kept, sum, length-take (count_of n) out),
                OnlySends-trans al c c₁ c₂ l l₁ l₂ same same₂,
              )
        ]
      ]
    where
      silenced :
          (err : Errno)
          → fails err ≡ true
          → ((e : ℕ) → err ≡ some e → count_of n ≡ 0)
          → count_of n ≡ 0
      silenced none bad silent = absurd (cc)
      silenced (some e) bad silent = silent e refl

      joined :
          (err₂ : Errno) (c₂ : Base)
          → ((err₂ ≡ none) × (backlog c₂ ≡ backlog c₁ ++ drop (count_of n) out)
              ⊎ (err₂ ≡ enomem) × (backlog c₂ ≡ backlog c₁))
          → (err₂ ≡ none) × (take (count_of n) out ++ backlog c₂ ≡ backlog c ++ out)
            ⊎ (fails err₂ ≡ true) × (backlog c₂ ≡ backlog c)
      joined err₂ c₂ (inl (f, all)) = inl (
        f,
        ap (◌++◌ (take (count_of n) out)) (all ∙ ap (λ x. x ++ drop (count_of n) out) empty₁)
            ∙ take-append-drop (count_of n) out
            ∙ ap (λ x. x ++ out) (sym empty),
      )
      joined err₂ c₂ (inr (f, all)) = inr (rw f refl, all ∙ empty₁ ∙ sym empty)

  sent_now-nothing :
      (c : Base) (out : Bytes) (l : LoopConn al.State H)
      → (length out == 0) ≡ true
      → sent_now c out l ≡ []
  unfolding sent_now
  sent_now-nothing c out l nothing = rw (sent_now, nothing) refl

  sent_now-waits :
      (c : Base) (out : Bytes) (l : LoopConn al.State H)
      → (length out == 0) ≡ false
      → (pending_write c == 0) ≡ false
      → sent_now c out l ≡ []
  unfolding sent_now
  sent_now-waits c out l something waits = rw (sent_now, something, waits) refl

  -- The answer of `Write` is that of the kernel to the output.
  offered_once :
      (c : Base) (out : Bytes) (l : LoopConn al.State H)
      → (length out == 0) ≡ false
      → (pending_write c == 0) ≡ true
      → take (count_of (conn_write al kernel globals c out l).0.0) out ≡ sent_now c out l
  unfolding conn_write sent_now
  offered_once c out l something free = elim (Bool-cases (c.fd == 0)) [
    | inl closed ↦ rw (conn_write, sent_now, something, free, closed) refl
    | inr is_open ↦ rw (conn_write, sent_now, something, free, is_open) refl
  ]

  -- `emitOutput` of a ready connection: without a panic, it keeps the order. The bytes that go to the kernel
  -- at once are those that it takes of the output in its next write, and none where bytes are waiting; they
  -- and then the new backlog are the old backlog and all of the output, or an error that is not EAGAIN is
  -- reported with the backlog as it was. The connection's count grows by the bytes that went, and nothing
  -- else of it changes.
  pub emit_output_lem :
      (c : Base) (out : Bytes) (l : LoopConn al.State H)
      → Ready al c l
      → Emitted c out l (emit_output al kernel globals c out l)
  unfolding emit_output
  emit_output_lem c out l ready = elim (Bool-cases (length out == 0)) [
    | inl nothing ↦
        rw (emit_output, sent_now-nothing c out l nothing, nothing)
          (
            none,
            c,
            l,
            refl,
            ready,
            inl (refl, sym (append-nil (backlog c)) ∙ ap (◌++◌ (backlog c)) (no_bytes nothing)),
            inl refl,
            omega (arith, ready.2),
            (refl, refl),
          )
    | inr something ↦ elim (Bool-cases (pending_write c == 0)) [
      | inl free ↦
          let empty = nothing_waits c ready.0 free in
          let (r, c₁, l₁) = conn_write al kernel globals c out l in
          rw (emit_output, something, free)
            (subst (λ w. EmittedAs w c out l (after_write al kernel globals out (r, c₁, l₁)))
              (offered_once c out l something free)
              (after_write_lem r c out l c₁ l₁ empty (ground arith)
                (conn_write_lem c out l ready empty)))
      | inr waits ↦
          let (err, c', l', e, ready', done, kept, same) = queue_output_lem c out l ready in
          rw (emit_output, sent_now-waits c out l something waits, something, waits)
            (
              err,
              c',
              l',
              e,
              ready',
              behind err c' done,
              inl refl,
              omega (arith, kept, ready.2),
              same,
            )
    ]
  ]
    where
      no_bytes : (length out == 0) ≡ true → [] ≡ out
      no_bytes e = take-all 0 out (omega (arith, ==→eq _ _ e))

      behind :
          (err : Errno) (c' : Base)
          → ((err ≡ none) × (backlog c' ≡ backlog c ++ out)
              ⊎ (err ≡ enomem) × (backlog c' ≡ backlog c))
          → (err ≡ none) × (backlog c' ≡ backlog c ++ out)
            ⊎ (fails err ≡ true) × (backlog c' ≡ backlog c)
      behind err c' (inl (f, all)) = inl (f, all)
      behind err c' (inr (f, all)) = inr (rw f refl, all)
