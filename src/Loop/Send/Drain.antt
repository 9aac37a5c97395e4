-- ===== src/Loop/Send/Drain.antt =====
-- eventloop/loopConn.go: `drainWrite` ends, sends the bytes of the queue in order, and stays within its
-- budget.
use connaxis.Prelude.{
  ℕ, zero, suc, ◌+◌, ◌-◌, ◌≤◌, ◌<◌, ◌^◌, ◌%◌, ◌≡◌, refl, sym, ap, ◌∙◌, inl, inr, Option, none, some,
  true, false, Bool-cases, Bytes, take, drop, ◌==◌, ℤ, pos, negsuc, arith, ◌++◌, [], ==→eq,
}
use connaxis.Prelude.Lists.{
  length, take-all, length-drop, drop-drop, drop-append_ge, length-append, length-take,
}
use connaxis.Alloc.{Allocator}
use connaxis.Kernel.{Kernel}
use connaxis.Tuning.{Globals}
use connaxis.WriteQueue.{pending}
use connaxis.WriteQueue.Valid.{IsValid, contents}
use connaxis.WriteQueue.Flush.{Errno}
use connaxis.WriteQueue.Flush.Sent.{count_of, offered, flushed, flushed_lem, flush_write_queue_lem}
use connaxis.WriteQueue.Flush.Fails.{flush_write_queue-Fails}
use connaxis.Loop.State.{Base, LoopConn, add_int32}
use connaxis.Loop.Send.{flush_n, round_done, drain_loop, drain_write, pending_write}

-- The bytes that a connection still has to send, oldest first.
abbrev pub backlog : Base → Bytes
backlog c = contents c.wq

abbrev plan : Globals → ℕ
plan globals = globals.event_loop.max_flush_bytes_per_event

pub pending_write-backlog : (c : Base) → IsValid c.wq → pending_write c ≡ length (backlog c)
unfolding pending_write pending
pending_write-backlog c v = v.counted

pub nothing_waits : (c : Base) → IsValid c.wq → (pending_write c == 0) ≡ true → backlog c ≡ []
nothing_waits c v e =
    let count : length (backlog c) ≤ 0 = omega (arith, pending_write-backlog c v, ==→eq _ _ e) in
    sym (take-all 0 (backlog c) count)

-- Behind a prefix of a list.
take-rest :
    (n : ℕ) (xs front back : Bytes)
    → xs ≡ take n front ++ back
    → n ≤ length front
    → (back ≡ drop n xs) × (n ≤ length xs)
take-rest n xs front back e h =
    let len = length-take n front in
    let count = length-append (take n front) back in
    rw e (
      sym (
          drop-append_ge n (take n front) back (omega arith)
          ∙ ap (λ k. drop k back) {x = n - length (take n front)} {y = 0} (omega arith)),
      omega arith,
    )

round_done-more :
    (n : ℤ) (total plan : ℕ)
    → round_done n total plan ≡ false
    → (0 < count_of n) × (0 < plan → total < plan)
unfolding round_done
round_done-more (negsuc n) total plan h = absurd (cc)
round_done-more (pos n) total plan h = (ground arith, λ m. ground arith)

module _ (al : Allocator) {H : Type 0} where
  -- The queue and the pool are valid, and the count of bytes sent is an int32.
  abbrev pub Ready : Base → LoopConn al.State H → Type 0
  Ready c l = IsValid c.wq × al.IsValid l.pool × (c.send < 2 ^ 32)

  -- Only the queue and the count of the connection changed, and the loop's pool and counts of calls.
  abbrev pub OnlySends : Base → LoopConn al.State H → Base → LoopConn al.State H → Type 0
  OnlySends c l c' l' =
      (c' ≡ record c { wq = c'.wq; send = c'.send })
      × (l' ≡ record l { pool = l'.pool; writes = l'.writes; write = l'.write })

  pub OnlySends-trans :
      (c c' c'' : Base) (l l' l'' : LoopConn al.State H)
      → OnlySends c l c' l'
      → OnlySends c' l' c'' l''
      → OnlySends c l c'' l''
  OnlySends-trans c c' c'' l l' l'' (f, g) (f', g') = (
    f' ∙ ap {A = Base} {B = Base} (λ x. record x { wq = c''.wq; send = c''.send }) f,
    g'
        ∙ ap {A = LoopConn al.State H} {B = LoopConn al.State H}
            (λ x. record x { pool = l''.pool; writes = l''.writes; write = l''.write }) g,
  )

module _ (al : Allocator) (kernel : Kernel) (globals : Globals) {H : Type 0} where
  -- A flush of a ready connection: what the result counts is off the front of the backlog.
  pub flush_n_lem :
      (c : Base) (plan : ℕ) (l : LoopConn al.State H)
      → Ready al c l
      → (r : ℤ × Errno) × (c' : Base) × (l' : LoopConn al.State H) × (flush_n al kernel globals c
            plan l
          ≡ some (r, c', l'))
        × Ready al c' l'
        × (backlog c' ≡ drop (count_of r.0) (backlog c))
        × (count_of r.0 ≤ length (backlog c))
        × (0 < plan → count_of r.0 ≤ plan)
        × ((e : ℕ) → r.1 ≡ some e → count_of r.0 ≡ 0)
        × (c'.send ≡ (c.send + count_of r.0) % 2 ^ 32)
        × OnlySends al c l c' l'
  unfolding flush_n
  flush_n_lem c plan l (v, valid, small) =
      let (r, q, send, s, e, valid', (v', split, within, sum)) =
        flush_write_queue_lem al (kernel.write l.writes) c.fd c.wq plan c.send l.pool
          (kernel.write_takes l.writes) v valid small in
      let (_, _, _, budget) = flushed_lem c.wq plan v in
      let (rest, fits) =
        take-rest (count_of r.0) (backlog c) (offered (flushed plan c.wq)) (contents q) split
          within in
      (
        r,
        record c { wq = q; send = send },
        record l { pool = s; writes = l.writes + 1 },
        rw (flush_n, e) refl,
        (v', valid', omega arith),
        rest,
        fits,
        λ m. omega (arith, budget m),
        flush_write_queue-Fails al (kernel.write l.writes) c.fd c.wq q plan c.send send l.pool s r
            (kernel.write_fails l.writes) e,
        sum,
        (refl, refl),
      )

  -- What a drain that has already sent `total` bytes does.
  abbrev pub Drained :
      ℕ → Base → LoopConn al.State H → Option ((ℕ × Errno) × Base × LoopConn al.State H) → Type 0
  Drained total c l out =
      (k : ℕ) × (err : Errno) × (c' : Base) × (l' : LoopConn al.State H) × (out
        ≡ some ((total + k, err), c', l'))
      × Ready al c' l'
      × (backlog c' ≡ drop k (backlog c))
      × (k ≤ length (backlog c))
      × (0 < (plan globals) → total < (plan globals) → total + k < (plan globals) + (plan globals))
      × (c'.send ≡ (c.send + k) % 2 ^ 32)
      × OnlySends al c l c' l'

  -- A round of the loop whose flush is given.
  drain_round :
      (fuel total : ℕ) (c : Base) (l : LoopConn al.State H) (r : ℤ × Errno) (c₁ : Base)
      (l₁ : LoopConn al.State H)
      → ((total : ℕ) (c : Base) (l : LoopConn al.State H)
          → Ready al c l
          → length (backlog c) < fuel
          → Drained total c l (drain_loop al kernel globals fuel (plan globals) total c l))
      → length (backlog c) < suc fuel
      → flush_n al kernel globals c (plan globals) (record l { write = add_int32 l.write 1 })
        ≡ some (r, c₁, l₁)
      → Ready al c₁ l₁
      → backlog c₁ ≡ drop (count_of r.0) (backlog c)
      → count_of r.0 ≤ length (backlog c)
      → (0 < (plan globals) → count_of r.0 ≤ (plan globals))
      → ((e : ℕ) → r.1 ≡ some e → count_of r.0 ≡ 0)
      → c₁.send ≡ (c.send + count_of r.0) % 2 ^ 32
      → OnlySends al c l c₁ l₁
      → Drained total c l (drain_loop al kernel globals (suc fuel) (plan globals) total c l)
  unfolding drain_loop
  drain_round fuel total c l (n, some errno) c₁ l₁ more h e ready₁ rest fits budget silent sum
        same =
      let nothing = silent errno refl in
      (
        0,
        some errno,
        c₁,
        l₁,
        rw (drain_loop, e) (ap (λ t. some ((t, some errno), c₁, l₁)) {x = total} (omega arith)),
        ready₁,
        rest ∙ ap (λ k. drop k (backlog c)) nothing,
        omega arith,
        λ m t. omega arith,
        omega (arith, sum),
        same,
      )
  drain_round fuel total c l (n, none) c₁ l₁ more h e ready₁ rest fits budget silent sum same =
      elim (Bool-cases (round_done n (total + count_of n) (plan globals))) [
        | inl stop ↦ (
          count_of n,
          none,
          c₁,
          l₁,
          rw (drain_loop, e, stop) refl,
          ready₁,
          rest,
          fits,
          λ m t. omega (arith, budget m),
          sum,
          same,
        )
        | inr on ↦
            let (some_sent, below) = round_done-more n (total + count_of n) (plan globals) on in
            let left : length (backlog c₁) ≡ length (backlog c) - count_of n =
              ap length rest ∙ length-drop (count_of n) (backlog c) in
            let (k, err, c₂, l₂, e₂, ready₂, rest₂, fits₂, budget₂, sum₂, same₂) =
              more (total + count_of n) c₁ l₁ ready₁ (omega arith) in
            (
              count_of n + k,
              err,
              c₂,
              l₂,
              rw (drain_loop, e, on)
                  (e₂
                    ∙ ap (λ t. some ((t, err), c₂, l₂)) {x = total + count_of n + k}
                        {y = total + (count_of n + k)} (omega arith)),
              ready₂,
              rest₂ ∙ ap (drop k) rest ∙ drop-drop k (count_of n) (backlog c),
              omega arith,
              λ m t. omega (arith, budget₂ m (below m)),
              omega (arith, sum, sum₂),
              OnlySends-trans al c c₁ c₂ l l₁ l₂ same same₂,
            )
      ]

  drain_loop_lem :
      (fuel total : ℕ) (c : Base) (l : LoopConn al.State H)
      → Ready al c l
      → length (backlog c) < fuel
      → Drained total c l (drain_loop al kernel globals fuel (plan globals) total c l)
  drain_loop_lem zero total c l ready h = absurd (omega arith)
  drain_loop_lem (suc fuel) total c l ready h =
      let (r, c₁, l₁, e, ready₁, rest, fits, budget, silent, sum, same) =
        flush_n_lem c (plan globals) (record l { write = add_int32 l.write 1 }) ready in
      drain_round fuel total c l r c₁ l₁ (drain_loop_lem fuel) h e ready₁ rest fits budget silent
        sum same

  -- `drainWrite` of a ready connection ends, without a panic, whatever the kernel answers: the first
  -- `total` bytes of the backlog are gone, in order, the others are kept, and nothing else of the
  -- connection changes but its count of bytes sent. With a positive budget fewer than twice its bytes go.
  pub drain_write_lem :
      (c : Base) (l : LoopConn al.State H)
      → Ready al c l
      → Drained 0 c l (drain_write al kernel globals c l)
  unfolding drain_write
  drain_write_lem c l ready = elim (Bool-cases (pending_write c == 0)) [
    | inl nothing ↦ (
      0,
      none,
      c,
      l,
      rw (drain_write, nothing) refl,
      ready,
      refl,
      omega arith,
      λ m t. omega arith,
      omega (arith, ready.2),
      (refl, refl),
    )
    | inr something ↦
        rw (drain_write, something)
          (drain_loop_lem (pending_write c + 1) 0 c l ready
            (omega (arith, pending_write-backlog c ready.0)))
  ]
