-- ===== src/Loop/Read/Reads.antt =====
-- eventloop/loopConn.go and connection/conn.go: the reads of `processRead`, and what one answers.
use connaxis.Prelude.{
  ℕ, ◌+◌, ◌≤◌, ◌≡◌, refl, sym, ap, ◌∙◌, inl, inr, some, true, false, not, Bool-cases, Bytes, [],
  ◌++◌, leb, ◌||◌, ◌&&◌, ℤ, Bool, if◌then◌else◌, arith,
}
use connaxis.Prelude.Lists.{length}
use connaxis.Alloc.{Allocator}
use connaxis.Kernel.{Kernel, fails, eagain}
use connaxis.Tuning.{Globals}
use connaxis.WriteQueue.Flush.{Errno}
use connaxis.WriteQueue.Flush.Sent.{count_of}
use connaxis.Loop.State.{Base, LoopConn, PktHandler, returned, went_on}
use connaxis.Loop.Packets.Consumed.{Sound}
use connaxis.Loop.Read.{Target, room_of, answered, read_target, read_round}
use connaxis.Loop.Read.Cause.{bad_read}

module _ (kernel : Kernel) where
  -- The bytes of the n-th read, into a buffer with some room. EAGAIN is a read of nothing.
  abbrev pub got : ℕ → ℕ → Bytes
  got n room = if eagain (kernel.read n room).0.1 then [] else (kernel.read n room).1

only_fails :
    (failed empty again other : Bool)
    → again ≡ true
    → (failed || empty && not again) ≡ true
    → (failed || other && not again) ≡ true
only_fails true empty again other e bad = refl
only_fails false true true other e bad = absurd (cc)
only_fails false false true other e bad = absurd (cc)
only_fails false empty false other e bad = absurd (cc)

module _ (al : Allocator) (kernel : Kernel) (globals : Globals) {H : Type 0}
    (h : PktHandler H) where
  -- The bytes of a round's read, into the buffer that the round chose.
  abbrev pub FromRead : Base → LoopConn al.State H → Bytes → Type 0
  FromRead c l bytes =
      (target : Target) × (c' : Base) × (l' : LoopConn al.State H) × (read_target al kernel globals
          c l
        ≡ some (went_on target, c', l'))
      × (bytes ≡ got kernel l.reads (room_of target c' l'))

  -- The bytes of the reads of all the rounds, each once and in order, from some bytes read before on.
  pub data FromReads
      : ℕ → Base → LoopConn al.State H → Base → LoopConn al.State H → Bytes → Type 0 where
    last_round :
        {total sum : ℕ} {c c' : Base} {l l' : LoopConn al.State H} (bytes : Bytes)
        → read_round al kernel globals h total c l ≡ some (sum, returned, c', l')
        → l'.reads ≡ l.reads + 1
        → FromRead c l bytes
        → FromReads total c l c' l' bytes
    more_rounds :
        {total sum : ℕ} {c c' c'' : Base} {l l' l'' : LoopConn al.State H} (front back : Bytes)
        → read_round al kernel globals h total c l ≡ some (sum, went_on tt, c', l')
        → l'.reads ≡ l.reads + 1
        → FromRead c l front
        → FromReads sum c' l' c'' l'' back
        → FromReads total c l c'' l'' (front ++ back)

  -- What is known of a read: nothing but the count of the connection has changed.
  abbrev pub Answered :
      Base → LoopConn al.State H → ℕ → (ℤ × Errno) × Bytes × Base × LoopConn al.State H → Type 0
  Answered c l room (r, bytes, c₁, l₁) =
      (bytes ≡ got kernel l.reads room)
      × (bad_read r ≡ true → bad_read (kernel.read l.reads room).0 ≡ true)
      × (count_of r.0 ≡ length bytes)
      × (length bytes ≤ room)
      × Sound al c₁ l₁
      × ((c₁.recvbuf ≡ c.recvbuf)
          × (c₁.fd ≡ c.fd)
          × (c₁.self ≡ c.self)
          × (l₁.log ≡ l.log)
          × (l₁.reads ≡ l.reads + 1))

  pub answered_lem :
      (a : (ℤ × Errno) × Bytes) (c : Base) (l₀ l : LoopConn al.State H) (room : ℕ)
      → Sound al c l
      → (l.log ≡ l₀.log) × (l.reads ≡ l₀.reads + 1)
      → kernel.read l₀.reads room ≡ a
      → length a.1 ≡ count_of a.0.0
      → length a.1 ≤ room
      → Answered c l₀ room (answered a c l)
  unfolding answered
  answered_lem ((n, err), bytes) c l₀ l room sound (log, reads) is count fits =
      elim (Bool-cases (eagain err)) [
        | inl again ↦
            rw (answered, again)
              (
                sym (read ∙ rw again refl),
                (λ bad.
                    failed
                      (only_fails (fails err) true (eagain err) (leb (count_of n) 0) again bad)),
                refl,
                omega arith,
                sound,
                (refl, refl, refl, log, reads),
              )
        | inr other ↦
            rw (answered, other)
              (
                sym (read ∙ rw other refl),
                failed,
                sym count,
                fits,
                sound,
                (refl, refl, refl, log, reads),
              )
      ]
    where
      read : got kernel l₀.reads room ≡ (if eagain err then [] else bytes)
      read = ap (λ (x : (ℤ × Errno) × Bytes). if eagain x.0.1 then [] else x.1) is

      failed : bad_read (n, err) ≡ true → bad_read (kernel.read l₀.reads room).0 ≡ true
      failed bad = ap (λ (x : (ℤ × Errno) × Bytes). bad_read x.0) is ∙ bad
