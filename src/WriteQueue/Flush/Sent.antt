-- ===== src/WriteQueue/Flush/Sent.antt =====
-- connection/flush.go: what one flush sends and what it leaves in the queue.
use connaxis.Prelude.{
  ℕ, zero, suc, ◌+◌, ◌-◌, ◌%◌, ◌^◌, ◌≤◌, ◌<◌, ◌≡◌, refl, sym, ap, ap₂, ◌∙◌, ◌⊎◌, inl, inr, List, [],
  ◌∷◌, ◌++◌, append_assoc, none, some, Bytes, true, false, Bool-cases, ltb, leb, ◌==◌, ◌&&◌, arith,
  ℤ, pos, negsuc, take-append-drop, append-nil,
}
use connaxis.Prelude.Lists.{length, take, drop, length-append, length-take, take-append_le}
use connaxis.Alloc.{Allocator}
use connaxis.WriteQueue.{WriteEntry, WriteQueue, unsent}
use connaxis.WriteQueue.Valid.{AllLive, stream, contents, IsValid}
use connaxis.WriteQueue.Coalesce.{length-unsent}
use connaxis.WriteQueue.Consume.{consume_lem}
use connaxis.WriteQueue.Flush.{
  Errno, ebadf, is_eagain, max_writev_iovecs, cut, gather, writev, settle, sent, flush_write_queue,
}

-- All the bytes that the buffers hold, in order.
abbrev pub offered : List Bytes → Bytes
offered [] = []
offered (b ∷ bs) = b ++ offered bs

-- `&b[0]` needs a byte in each buffer.
abbrev pub AllFilled : List Bytes → Type 0
AllFilled [] = Unit {0}
AllFilled (b ∷ bs) = (0 < length b) × AllFilled bs

-- A cut is a prefix, not empty, and inside of the budget.
cut_lem :
    (max_bytes remaining : ℕ) (b : Bytes)
    → 0 < length b
    → ltb 0 max_bytes && remaining == 0 ≡ false
    → (tail : Bytes) × (b ≡ cut max_bytes remaining b ++ tail)
      × (0 < length (cut max_bytes remaining b))
      × (0 < max_bytes → length (cut max_bytes remaining b) ≤ remaining)
      × ((tail ≡ []) ⊎ (remaining - length (cut max_bytes remaining b) ≡ 0) × (0 < max_bytes))
unfolding cut
cut_lem max_bytes remaining b h budget =
    elim (Bool-cases (ltb 0 max_bytes && ltb remaining (length b))) [
      | inl over ↦
          let len = length-take remaining b in
          rw (over, cut)
            (
              drop remaining b,
              sym (take-append-drop remaining b),
              ground arith,
              λ _. omega (arith),
              inr (ground arith, ground arith),
            )
      | inr whole ↦ rw (whole, cut) ([], sym (append-nil b), h, λ e. ground arith, inl refl)
    ]

-- With the budget spent nothing more is offered.
gather_spent :
    (slots max_bytes remaining : ℕ) (es : List WriteEntry)
    → AllLive es
    → 0 < max_bytes
    → remaining ≡ 0
    → gather slots max_bytes remaining es ≡ []
unfolding gather
gather_spent slots max_bytes remaining [] v h spent = refl
gather_spent zero max_bytes remaining (item ∷ es) v h spent = refl
gather_spent (suc slots) max_bytes remaining (item ∷ es) v h spent =
    let full : leb item.size item.off ≡ false = ground (arith, v.0.0) in
    let over : ltb 0 max_bytes && remaining == 0 ≡ true = ground arith in
    rw (full, over, gather) refl

-- The buffers hold a prefix of the bytes, each has one, there are no more of them than slots, and no
-- more bytes than the budget.
abbrev pub Gathered : ℕ → ℕ → ℕ → List WriteEntry → List Bytes → Type 0
Gathered slots max_bytes remaining es g =
    ((rest : Bytes) × (stream es ≡ offered g ++ rest))
    × AllFilled g
    × (length g ≤ slots)
    × (0 < max_bytes → length (offered g) ≤ remaining)

gather_lem :
    (slots max_bytes remaining : ℕ) (es : List WriteEntry)
    → AllLive es
    → Gathered slots max_bytes remaining es (gather slots max_bytes remaining es)
unfolding gather
gather_lem slots max_bytes remaining [] v = (([], refl), tt, omega arith, λ _. omega arith)
gather_lem zero max_bytes remaining (item ∷ es) v =
    ((stream (item ∷ es), refl), tt, omega arith, λ _. omega arith)
gather_lem (suc slots) max_bytes remaining (item ∷ es) v =
    elim (Bool-cases (ltb 0 max_bytes && remaining == 0)) [
      | inl over ↦
          rw (full, over, gather) ((stream (item ∷ es), refl), tt, omega arith, λ _. omega arith)
      | inr budget ↦
          let len = length-unsent item v.0 in
          let (tail, split, filled, within, ends) =
            cut_lem max_bytes remaining (unsent item) (omega (arith, v.0.0)) budget in
          let b = cut max_bytes remaining (unsent item) in
          let left = remaining - length b in
          let ((rest, whole), others, slots', within') = gather_lem slots max_bytes left es v.1 in
          rw (full, budget, gather)
            (
              joined b tail split ends (rest, whole),
              (filled, others),
              omega arith,
              λ m. omega (
                arith,
                within m,
                within' m,
                length-append b (offered (gather slots max_bytes left es)),
              ),
            )
    ]
  where
    full : leb item.size item.off ≡ false
    full = ground (arith, v.0.0)

    joined :
        (b tail : Bytes)
        → unsent item ≡ b ++ tail
        → ((tail ≡ []) ⊎ (remaining - length b ≡ 0) × (0 < max_bytes))
        → ((rest : Bytes) × (stream es
              ≡ offered (gather slots max_bytes (remaining - length b) es) ++ rest))
        → (rest : Bytes) × (unsent item ++ stream es
            ≡ (b ++ offered (gather slots max_bytes (remaining - length b) es)) ++ rest)
    joined b tail split (inl none_left) (rest, whole) = (
      rest,
      ap₂ (λ x y. x ++ y) (split ∙ ap (◌++◌ b) none_left ∙ append-nil b) whole
          ∙ sym (append_assoc b (offered (gather slots max_bytes (remaining - length b) es)) rest),
    )
    joined b tail split (inr (spent, m)) _ =
        let empty = gather_spent slots max_bytes (remaining - length b) es v.1 m spent in
        (
          tail ++ stream es,
          ap (λ x. x ++ stream es) split
              ∙ append_assoc b tail (stream es)
              ∙ ap (λ x. x ++ (tail ++ stream es)) (sym (append-nil b))
              ∙ ap (λ g. (b ++ offered g) ++ (tail ++ stream es)) (sym empty),
        )

-- writev takes at most what it is offered.
abbrev pub TakesPrefix : (List Bytes → ℤ × Errno) → Type 0
TakesPrefix syscall = (bs : List Bytes) (n : ℕ) → (syscall bs).0 ≡ pos n → n ≤ length (offered bs)

-- The bytes that a result counts as sent.
abbrev pub count_of : ℤ → ℕ
count_of (pos n) = n
count_of (negsuc n) = 0

-- The buffers that a flush offers.
abbrev pub flushed : ℕ → WriteQueue → List Bytes
flushed max_bytes q = gather max_writev_iovecs max_bytes max_bytes (drop q.head q.items)

-- The bytes counted are off the front of the queue, and in the connection's count.
abbrev pub Flushed : WriteQueue → ℕ → ℕ → ℤ → WriteQueue → ℕ → Type 0
Flushed q max_bytes send n q' send' =
    IsValid q'
    × (contents q ≡ take (count_of n) (offered (flushed max_bytes q)) ++ contents q')
    × (count_of n ≤ length (offered (flushed max_bytes q)))
    × (send' ≡ (send + count_of n) % 2 ^ 32)

-- The buffers that a flush of a valid queue offers hold a prefix of its bytes, in order; none of them
-- is empty, there are at most 64, and with a limit they hold no more bytes than it.
pub flushed_lem :
    (q : WriteQueue) (max_bytes : ℕ)
    → IsValid q
    → Gathered max_writev_iovecs max_bytes max_bytes (drop q.head q.items) (flushed max_bytes q)
flushed_lem q max_bytes v =
    gather_lem max_writev_iovecs max_bytes max_bytes (drop q.head q.items) v.live

settle-le : (r : ℤ × Errno) (m : ℕ) → ((n : ℕ) → r.0 ≡ pos n → n ≤ m) → count_of (settle r).0 ≤ m
unfolding settle
settle-le (pos n, err) m h = h n refl
settle-le (negsuc n, err) m h = elim (Bool-cases (is_eagain err)) [
  | inl again ↦ rw (again, settle) (omega arith)
  | inr other ↦ rw (other, settle) (omega arith)
]

writev-le :
    (syscall : List Bytes → ℤ × Errno) (bs : List Bytes)
    → TakesPrefix syscall
    → (n : ℕ) → (writev syscall bs).0 ≡ pos n
    → n ≤ length (offered bs)
unfolding writev
writev-le syscall [] h n e = let zero_n : n ≡ 0 = cc in omega arith
writev-le syscall (b ∷ bs) h n e = h (b ∷ bs) n e

module _ (al : Allocator) where
  open al use {State}

  unsent_lem :
      (q : WriteQueue) (max_bytes send : ℕ) (n : ℤ)
      → IsValid q
      → send < 2 ^ 32
      → count_of n ≡ 0
      → Flushed q max_bytes send n q send
  unsent_lem q max_bytes send n v h e = rw e (v, refl, omega arith, omega arith)

  sent_lem :
      (r : ℤ × Errno) (q : WriteQueue) (max_bytes send : ℕ) (s : State)
      → IsValid q
      → al.IsValid s
      → send < 2 ^ 32
      → count_of r.0 ≤ length (offered (flushed max_bytes q))
      → (q' : WriteQueue) × (send' : ℕ) × (s' : State) × (sent al r q send s
          ≡ some (r, q', send', s'))
        × al.IsValid s'
        × Flushed q max_bytes send r.0 q' send'
  unfolding sent
  sent_lem (negsuc n, err) q max_bytes send s v valid h within =
      (q, send, s, refl, valid, unsent_lem q max_bytes send (negsuc n) v h refl)
  sent_lem (pos zero, err) q max_bytes send s v valid h within =
      (q, send, s, refl, valid, unsent_lem q max_bytes send (pos 0) v h refl)
  sent_lem (pos (suc n), err) q max_bytes send s v valid h within =
      let (q', s', e, v', valid', all, count) = consume_lem al q (suc n) s v valid in
      let o = offered (flushed max_bytes q) in
      let ((rest, whole), _, _, _) = flushed_lem q max_bytes v in
      (
        q',
        (send + suc n) % 2 ^ 32,
        s',
        rw (e, sent) refl,
        valid',
        (
          v',
          sym (take-append-drop (suc n) (contents q))
              ∙ ap₂ (λ x y. x ++ y) (ap (take (suc n)) whole ∙ take-append_le (suc n) o rest within)
                  (sym all),
          within,
          refl,
        ),
      )

  -- `flushWriteQueue` on a valid queue does not panic, if the kernel counts no more bytes than it is
  -- offered and the connection's count is below 2^32. The bytes that the result counts, the first of
  -- those offered, are off the front of the queue, which stays valid, and are added to the
  -- connection's count modulo 2^32; an error or a closed descriptor counts as none.
  pub flush_write_queue_lem :
      (syscall : List Bytes → ℤ × Errno) (fd : ℕ) (q : WriteQueue) (max_bytes send : ℕ) (s : State)
      → TakesPrefix syscall
      → IsValid q
      → al.IsValid s
      → send < 2 ^ 32
      → (r : ℤ × Errno) × (q' : WriteQueue) × (send' : ℕ) × (s' : State) × (flush_write_queue al
            syscall fd q max_bytes send s
          ≡ some (r, q', send', s'))
        × al.IsValid s'
        × Flushed q max_bytes send r.0 q' send'
  unfolding flush_write_queue
  flush_write_queue_lem syscall fd q max_bytes send s kernel v valid h =
      elim (Bool-cases (fd == 0)) [
        | inl closed ↦ (
          (pos 0, ebadf),
          q,
          send,
          s,
          rw (closed, flush_write_queue) refl,
          valid,
          unsent_lem q max_bytes send (pos 0) v h refl,
        )
        | inr is_open ↦ elim (Bool-cases (q.bytes == 0)) [
          | inl empty ↦ (
            (pos 0, none),
            q,
            send,
            s,
            rw (is_open, empty, flush_write_queue) refl,
            valid,
            unsent_lem q max_bytes send (pos 0) v h refl,
          )
          | inr full ↦
              let r = settle (writev syscall (flushed max_bytes q)) in
              let (q', send', s', e, valid', done) = sent_lem r q max_bytes send s v valid h (
                settle-le (writev syscall (flushed max_bytes q)) _
                  (writev-le syscall (flushed max_bytes q) kernel)) in
              (r, q', send', s', rw (is_open, full, flush_write_queue) e, valid', done)
        ]
      ]
