-- ===== src/WriteQueue/Flush/Fails.antt =====
-- connection/flush.go: a flush that reports an errno has sent nothing.
use connaxis.Prelude.{
  ℕ, zero, suc, ◌≡◌, refl, inl, inr, List, [], ◌∷◌, some, Bytes, Bool-cases, Option-cases, ◌==◌, ℤ,
  pos, negsuc,
}
use connaxis.Prelude.Lists.{drop}
use connaxis.Alloc.{Allocator}
use connaxis.WriteQueue.{WriteQueue, consume}
use connaxis.WriteQueue.Flush.{
  Errno, is_eagain, max_writev_iovecs, gather, writev, settle, sent, flush_write_queue,
}
use connaxis.WriteQueue.Flush.Sent.{count_of}

-- An errno comes without bytes.
abbrev pub Fails : ℤ × Errno → Type 0
Fails r = (e : ℕ) → r.1 ≡ some e → count_of r.0 ≡ 0

settle-Fails : (r : ℤ × Errno) → Fails r → Fails (settle r)
unfolding settle
settle-Fails (pos n, err) h e f = h e f
settle-Fails (negsuc n, err) h e f = elim (Bool-cases (is_eagain err)) [
  | inl again ↦ rw (again, settle) refl
  | inr other ↦ rw (other, settle) refl
]

writev-Fails :
    (syscall : List Bytes → ℤ × Errno) (bs : List Bytes)
    → ((bs : List Bytes) → Fails (syscall bs))
    → Fails (writev syscall bs)
unfolding writev
writev-Fails syscall [] h e f = refl
writev-Fails syscall (b ∷ bs) h e f = h (b ∷ bs) e f

module _ (al : Allocator) where
  open al use {State}

  sent-result :
      (r r' : ℤ × Errno) (q q' : WriteQueue) (send send' : ℕ) (s s' : State)
      → sent al r q send s ≡ some (r', q', send', s')
      → r ≡ r'
  unfolding sent
  sent-result (negsuc n, err) r' q q' send send' s s' e = cc
  sent-result (pos zero, err) r' q q' send send' s s' e = cc
  sent-result (pos (suc n), err) r' q q' send send' s s' e =
      elim (Option-cases (consume al q (suc n) s)) [
        | inl bad ↦ let e' = rw (sent, bad) at e in absurd (cc)
        | inr ((q'', s''), good) ↦ let e' = rw (sent, good) at e in cc
      ]

  -- Where the system call never counts bytes beside an errno, no more does `flushWriteQueue`.
  pub flush_write_queue-Fails :
      (syscall : List Bytes → ℤ × Errno) (fd : ℕ) (q q' : WriteQueue) (max_bytes send send' : ℕ)
      (s s' : State) (r : ℤ × Errno)
      → ((bs : List Bytes) → Fails (syscall bs))
      → flush_write_queue al syscall fd q max_bytes send s ≡ some (r, q', send', s')
      → Fails r
  unfolding flush_write_queue
  flush_write_queue-Fails syscall fd q q' max_bytes send send' s s' r h e =
      elim (Bool-cases (fd == 0)) [
        | inl closed ↦
            let e' = rw (closed, flush_write_queue) at e in
            λ errno f. let n : r.0 ≡ pos 0 = cc in rw n refl
        | inr is_open ↦ elim (Bool-cases (q.bytes == 0)) [
          | inl empty ↦
              let e' = rw (is_open, empty, flush_write_queue) at e in
              λ errno f. let n : r.0 ≡ pos 0 = cc in rw n refl
          | inr full ↦
              let e' = rw (is_open, full, flush_write_queue) at e in
              let bs = gather max_writev_iovecs max_bytes max_bytes (drop q.head q.items) in
              let same = sent-result (settle (writev syscall bs)) r q q' send send' s s' e' in
              rw (← same) (settle-Fails (writev syscall bs) (writev-Fails syscall bs h))
        ]
      ]
