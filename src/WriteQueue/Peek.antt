-- ===== src/WriteQueue/Peek.antt =====
-- connection/writequeue.go: `peek` shows the front of the queue, `clear` drops all of it.
use connaxis.Prelude.{
  suc, ◌<◌, ◌≡◌, refl, ◌⊎◌, inl, inr, List, [], ◌∷◌, ◌++◌, some, Bytes, false, Bool-cases, leb,
  ◌==◌, ==→eq, arith,
}
use connaxis.Prelude.Lists.{length, drop}
use connaxis.Alloc.{Allocator}
use connaxis.WriteQueue.{WriteEntry, WriteQueue, unsent, peek, pending, reset_empty, put_all, clear}
use connaxis.WriteQueue.Valid.{stream, contents, IsValid}
use connaxis.WriteQueue.Coalesce.{length-unsent}
use connaxis.WriteQueue.Front.{front}

-- `peek` of a valid queue does not panic, and returns a prefix of its bytes, which is empty only if
-- nothing is pending.
pub peek_lem :
    (q : WriteQueue)
    → IsValid q
    → (p : Bytes) × (rest : Bytes) × (peek q ≡ some p)
      × (contents q ≡ p ++ rest)
      × ((pending q ≡ 0) ⊎ (0 < length p))
unfolding peek pending
peek_lem q v = elim (Bool-cases (q.bytes == 0)) [
  | inl empty ↦ ([], contents q, rw (empty, peek) refl, refl, inl (==→eq _ _ empty))
  | inr full ↦
      let f = front q v (ground arith) in
      let found = f.found in
      let len = length-unsent f.item f.live in
      let some_left : leb f.item.size f.item.off ≡ false = ground (arith, f.live.0) in
      (
        unsent f.item,
        stream (drop (suc q.head) q.items),
        rw (full, found, some_left, peek) refl,
        f.split,
        inr (omega (arith, f.live.0)),
      )
]

module _ (al : Allocator) where
  open al use {State}

  put_all-IsValid :
      (items : List WriteEntry) (s : State) → al.IsValid s → al.IsValid (put_all al items s)
  unfolding put_all
  put_all-IsValid [] s v = v
  put_all-IsValid (item ∷ rest) s v =
      put_all-IsValid rest (al.put item.owner s) (al.put-IsValid item.owner s v)

  -- `clear` of any queue leaves a valid one without bytes, and the allocator valid.
  pub clear_lem :
      (q : WriteQueue) (s : State)
      → al.IsValid s
      → let (q', s') = clear al q s in
        IsValid q' × al.IsValid s' × (contents q' ≡ []) × (pending q' ≡ 0)
  unfolding clear reset_empty pending
  clear_lem q s v = (
    record { live = tt; counted = refl; placed = inr (refl, refl) },
    put_all-IsValid (drop q.head q.items) s v,
    refl,
    refl,
  )
