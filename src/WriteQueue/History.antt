-- ===== src/WriteQueue/History.antt =====
-- connection/writequeue.go and connection/flush.go: what a connection does to its write queue over its
-- life, and that it neither loses, repeats nor reorders bytes.
use connaxis.Prelude.{
  ℕ, ◌≤◌, ◌<◌, ◌^◌, ◌≡◌, refl, sym, ap, ◌∙◌, inr, List, [], ◌++◌, append_assoc, some, Bytes, ℤ,
  subst,
}
use connaxis.Prelude.Lists.{length, take}
use connaxis.Alloc.{Allocator}
use connaxis.Tuning.{Connection}
use connaxis.WriteQueue.{WriteQueue, enqueue}
use connaxis.WriteQueue.Valid.{contents, IsValid}
use connaxis.WriteQueue.Enqueue.{enqueue_lem}
use connaxis.WriteQueue.Flush.{Errno, flush_write_queue}
use connaxis.WriteQueue.Flush.Sent.{TakesPrefix, count_of, offered, flushed, flush_write_queue_lem}

module _ (al : Allocator) (knobs : Connection) where
  open al use {State}

  -- The queue and the allocator after any calls of `enqueue` and `flushWriteQueue`, with the bytes that
  -- were put in and the bytes that went to the socket.
  pub data History : WriteQueue → State → Bytes → Bytes → Type 0 where
    opened :
        (s : State) → al.IsValid s → History (record { items = []; head = 0; bytes = 0 }) s [] []
    enqueued :
        {q : WriteQueue} {s : State} {given gone : Bytes}
        → History q s given gone
        → (owner : Bytes) (size : ℕ) → size ≤ length owner
        → History
            (enqueue al knobs q owner size s).0
            (enqueue al knobs q owner size s).1
            (given ++ take size owner)
            gone
    sent :
        {q q' : WriteQueue} {s s' : State} {given gone : Bytes}
        → History q s given gone
        → (syscall : List Bytes → ℤ × Errno) (fd max_bytes send send' : ℕ) (r : ℤ × Errno)
        → TakesPrefix syscall
        → send < 2 ^ 32
        → flush_write_queue al syscall fd q max_bytes send s ≡ some (r, q', send', s')
        → History q' s' given (gone ++ take (count_of r.0) (offered (flushed max_bytes q)))

  -- After any such history the bytes that went to the socket, and behind them those in the queue, are
  -- the bytes that were put in, in order; queue and allocator are valid.
  pub History-contents :
      {q : WriteQueue} {s : State} {given gone : Bytes}
      → History q s given gone
      → IsValid q × al.IsValid s × (gone ++ contents q ≡ given)
  History-contents (opened s v) =
      (record { live = tt; counted = refl; placed = inr (refl, refl) }, v, refl)
  History-contents (enqueued {q} {s} {given} {gone} h owner size fits) =
      let (v, valid, all) = History-contents h in
      let (v', valid', more, _) = enqueue_lem al knobs q owner size s v valid fits in
      (
        v',
        valid',
        ap (◌++◌ gone) more
            ∙ sym (append_assoc gone (contents q) (take size owner))
            ∙ ap (λ x. x ++ take size owner) all,
      )
  History-contents
        (sent {q} {q'} {s} {s'} {given} {gone} h syscall fd max_bytes send send' r kernel small e) =
      let (v, valid, all) = History-contents h in
      let (r', q'', send'', s'', e', valid', (v', sum, _, _)) =
        flush_write_queue_lem al syscall fd q max_bytes send s kernel v valid small in
      let same : Path ((ℤ × Errno) × WriteQueue × ℕ × State) (r', q'', send'', s'')
          (r, q', send', s') =
        cc in
      let (v'', valid'', sum') =
        subst
          (λ (o : (ℤ × Errno) × WriteQueue × ℕ × State).
            IsValid o.1
            × al.IsValid o.3
            × (contents q ≡ take (count_of o.0.0) (offered (flushed max_bytes q)) ++ contents o.1))
          same (v', valid', sum) in
      (
        v'',
        valid'',
        append_assoc gone (take (count_of r.0) (offered (flushed max_bytes q))) (contents q')
            ∙ ap (◌++◌ gone) (sym sum')
            ∙ all,
      )
