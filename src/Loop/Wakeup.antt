-- ===== src/Loop/Wakeup.antt =====
-- eventloop/loopConn.go: how goroutines that add work to a loop wake it. `AddCmd` and `AddClient` send to a
-- channel, swap `triggered`, and trigger the poller if they swapped it; `processCmd` takes from the channels,
-- stores 0, and then looks at them again, one after the other. Each atomic operation and each call of the
-- poller is a step, and the steps of any number of goroutines interleave.
use connaxis.Prelude.{
  ℕ, suc, ◌+◌, ◌<◌, ◌≤◌, ◌≡◌, refl, ap, ◌⊎◌, inl, inr, Bool, true, false, ltb, leb, ◌==◌,
  if◌then◌else◌, arith, Bool-cases,
}

-- Where the loop's goroutine is: in the poller, taking work, about to look at a channel, past a look that
-- found work, or past a swap and about to trigger.
pub data Phase : Type 0 where
  polling taking : Phase
  looking : ℕ → Phase
  found raised : Phase

-- What the goroutines share: the work in `cmdChan`, `cmdDialChan`, `acceptChan` and `cmdFlushSet`, numbered
-- from 0 as `processCmd` looks at them, the flag, the poller's wake-up event, and how many goroutines have
-- sent but not yet swapped, and how many have swapped but not yet triggered.
pub record Shared : Type 0 where
  pub queued : ℕ → ℕ
  pub triggered : Bool
  pub signal : Bool
  pub owing : ℕ
  pub raising : ℕ
  pub phase : Phase

-- A piece of work more in a channel, and another number in it.
abbrev pub add_work : ℕ → (ℕ → ℕ) → ℕ → ℕ
add_work ch queued k = if k == ch then queued k + 1 else queued k

abbrev pub set_work : ℕ → ℕ → (ℕ → ℕ) → ℕ → ℕ
set_work ch n queued k = if k == ch then n else queued k

-- `atomic.CompareAndSwapInt32(&l.triggered, 0, 1)` of a goroutine, which is to trigger if it swapped.
pub swap : Shared → Shared
swap s = if s.triggered then s else record s { triggered = true; raising = s.raising + 1 }

-- One of the tests of `processCmd` after the store, in their order; behind the last it is done.
pub look : ℕ → Shared → Shared
look k s =
    if ltb 0 (s.queued k)
    then record s { phase = found }
    else (if leb 3 k then record s { phase = polling } else record s { phase = looking (k + 1) })

-- The swap of `processCmd`, where it found work.
pub claim : Shared → Shared
claim s =
    if s.triggered
    then record s { phase = polling }
    else record s { triggered = true; phase = raised }

pub data Step : Shared → Shared → Type 0 where
  -- A goroutine sends to one of the three channels.
  send :
      (s : Shared) (ch : ℕ)
      → ch < 3
      → Step s (record s { queued = add_work ch s.queued; owing = s.owing + 1 })
  -- One that has sent swaps, and one that has swapped triggers.
  swapped : (s : Shared) (n : ℕ) → s.owing ≡ suc n → Step s (swap (record s { owing = n }))
  triggers :
      (s : Shared) (n : ℕ) → s.raising ≡ suc n → Step s (record s { raising = n; signal = true })
  -- The poller returns, for the wake-up event or for another reason.
  woken : (s : Shared) → s.phase ≡ polling → Step s (record s { signal = false; phase = taking })
  disturbed : (s : Shared) → s.phase ≡ polling → Step s (record s { phase = taking })
  -- The loop takes a piece of work, or marks a connection to be flushed.
  take_one :
      (s : Shared) (ch n : ℕ)
      → s.phase ≡ taking
      → s.queued ch ≡ suc n
      → Step s (record s { queued = set_work ch n s.queued })
  mark : (s : Shared) → s.phase ≡ taking → Step s (record s { queued = add_work 3 s.queued })
  -- The loop stores 0, with or without work left over the budget, and looks again.
  store_zero :
      (s : Shared) → s.phase ≡ taking → Step s (record s { triggered = false; phase = looking 0 })
  looked : (s : Shared) (k : ℕ) → s.phase ≡ looking k → Step s (look k s)
  claimed : (s : Shared) → s.phase ≡ found → Step s (claim s)
  triggered_itself :
      (s : Shared) → s.phase ≡ raised → Step s (record s { signal = true; phase = polling })

-- A loop before any work.
abbrev pub fresh : Shared
fresh = record {
  queued = λ ch. 0;
  triggered = false;
  signal = false;
  owing = 0;
  raising = 0;
  phase = polling;
}

pub data Reachable : Shared → Type 0 where
  begun : Reachable fresh
  more : {s s' : Shared} → Reachable s → Step s s' → Reachable s'

-- The wake-up event is there, or a goroutine is still to swap, or still to trigger.
abbrev pub Covered : Shared → Type 0
Covered s = (s.signal ≡ true) ⊎ (0 < s.owing) ⊎ (0 < s.raising)

-- Work that waits while the loop polls will be seen.
abbrev pub NotLost : Shared → Type 0
NotLost s = s.phase ≡ polling → (ch : ℕ) → ch < 4 → 0 < s.queued ch → Covered s

-- A set flag has its event, or somebody who is still to trigger.
abbrev Armed : Shared → Type 0
Armed s = s.triggered ≡ true → (s.signal ≡ true) ⊎ (0 < s.raising) ⊎ (s.phase ≡ raised)

-- How many of the channels the loop has found empty since it stored 0.
abbrev seen : Phase → ℕ
seen polling = 4
seen taking = 0
seen (looking k) = k
seen found = 0
seen raised = 0

-- Work that came to a channel after the look is covered.
abbrev Watched : Shared → Type 0
Watched s = (ch : ℕ) → ch < seen s.phase → 0 < s.queued ch → Covered s

abbrev Safe : Shared → Type 0
Safe s = (s.phase ≡ taking) ⊎ Armed s × Watched s

swap-Safe :
    (s : Shared) (n : ℕ)
    → Armed s
    → Watched s
    → s.owing ≡ suc n
    → Safe (swap (record s { owing = n }))
unfolding swap
swap-Safe s n armed watched e = elim (Bool-cases s.triggered) [
  | inl set ↦ rw (set, swap) (inr ((λ f. armed set), λ ch within work. covered set ch within))
  | inr clear ↦
      rw (clear, swap)
        (inr ((λ f. inr (inl (omega arith))), λ ch within work. inr (inr (omega arith))))
]
  where
    covered : s.triggered ≡ true → (ch : ℕ) → ch < seen s.phase → Covered (record s { owing = n })
    covered set ch within = elim (armed set) [
      | inl on ↦ inl on
      | inr (inl some_raise) ↦ inr (inr some_raise)
      | inr (inr self) ↦ let none_seen : seen s.phase ≡ 0 = ap seen self in absurd (omega arith)
    ]

look-Safe : (s : Shared) (k : ℕ) → s.phase ≡ looking k → Armed s → Watched s → Safe (look k s)
unfolding look
look-Safe s k e armed watched = elim (Bool-cases (ltb 0 (s.queued k))) [
  | inl work ↦ rw (work, look) (inr (still found, λ ch bad. absurd (omega arith)))
  | inr nothing ↦ elim (Bool-cases (leb 3 k)) [
    | inl last ↦
        rw (nothing, last, look)
          (inr (still polling, λ ch within. earlier nothing ch (ground arith)))
    | inr again ↦
        rw (nothing, again, look)
          (inr (still (looking (k + 1)), λ ch within. earlier nothing ch (omega arith)))
  ]
]
  where
    still : (p : Phase) → Armed (record s { phase = p })
    still p set = elim (armed set) [
      | inl on ↦ inl on
      | inr (inl some_raise) ↦ inr (inl some_raise)
      | inr (inr self) ↦ absurd (cc)
    ]

    earlier : ltb 0 (s.queued k) ≡ false → (ch : ℕ) → ch ≤ k → 0 < s.queued ch → Covered s
    earlier nothing ch within work = elim (Bool-cases (ltb ch k)) [
      | inl before ↦ let upto : seen s.phase ≡ k = ap seen e in watched ch (ground arith) work
      | inr here ↦
          let same : ch ≡ k = ground arith in
          let empty : s.queued ch ≡ s.queued k = ap s.queued same in absurd (ground arith)
    ]

claim-Safe : (s : Shared) → s.phase ≡ found → Armed s → Safe (claim s)
unfolding claim
claim-Safe s e armed = elim (Bool-cases s.triggered) [
  | inl set ↦
      let event : (s.signal ≡ true) ⊎ (0 < s.raising) = elim (armed set) [
        | inl on ↦ inl on
        | inr (inl some_raise) ↦ inr some_raise
        | inr (inr self) ↦ absurd (cc)
      ] in
      rw (set, claim)
        (inr (
          (λ f. elim event [ inl on ↦ inl on | inr r ↦ inr (inl r) ]),
          λ ch within work. elim event [ inl on ↦ inl on | inr r ↦ inr (inr r) ],
        ))
  | inr clear ↦ rw (clear, claim) (inr ((λ f. inr (inr refl)), λ ch bad. absurd (omega arith)))
]

Step-Safe : {s s' : Shared} → Step s s' → Safe s → Safe s'
unfolding swap
Step-Safe (send s ch low) (inl busy) = inl busy
Step-Safe (send s ch low) (inr (armed, watched)) =
    inr (armed, λ k within work. inr (inl (omega arith)))
Step-Safe (swapped s n e) (inl busy) = elim (Bool-cases s.triggered) [
  | inl set ↦ rw (set, swap) (inl busy)
  | inr clear ↦ rw (clear, swap) (inl busy)
]
Step-Safe (swapped s n e) (inr (armed, watched)) = swap-Safe s n armed watched e
Step-Safe (triggers s n e) (inl busy) = inl busy
Step-Safe (triggers s n e) (inr _) = inr ((λ f. inl refl), λ k within work. inl refl)
Step-Safe (woken s e) a = inl refl
Step-Safe (disturbed s e) a = inl refl
Step-Safe (take_one s ch n e f) a = inl e
Step-Safe (mark s e) a = inl e
Step-Safe (store_zero s e) a = inr ((λ bad. absurd (cc)), λ k bad. absurd (omega arith))
Step-Safe (looked s k e) (inl busy) = absurd (cc)
Step-Safe (looked s k e) (inr (armed, watched)) = look-Safe s k e armed watched
Step-Safe (claimed s e) (inl busy) = absurd (cc)
Step-Safe (claimed s e) (inr (armed, watched)) = claim-Safe s e armed
Step-Safe (triggered_itself s e) a = inr ((λ f. inl refl), λ k within work. inl refl)

Reachable-Safe : {s : Shared} → Reachable s → Safe s
Reachable-Safe begun = inr ((λ e. absurd (cc)), λ k within work. absurd (omega arith))
Reachable-Safe (more r t) = Step-Safe t (Reachable-Safe r)

-- No wake-up is lost: in every state that the steps of any goroutines reach, if the loop is in its poller
-- while work waits in one of the three channels or a connection is marked to be flushed, then the poller's
-- wake-up event is there, or a goroutine that has sent is still to swap the flag, or one that has swapped it
-- is still to trigger the poller.
pub Reachable-NotLost : {s : Shared} → Reachable s → NotLost s
Reachable-NotLost {s} r p ch low work = elim (Reachable-Safe r) [
  | inl busy ↦ absurd (cc)
  | inr (armed, watched) ↦ let all : seen s.phase ≡ 4 = ap seen p in watched ch (omega arith) work
]
