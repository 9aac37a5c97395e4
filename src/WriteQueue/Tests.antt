-- ===== src/WriteQueue/Tests.antt =====
-- connection/writequeue.go and connection/flush.go: a queue at small inputs, with buffers of four bytes.
use connaxis.Prelude.{
  ℕ, ◌+◌, ◌-◌, ◌≡◌, refl, inl, List, [], ◌∷◌, none, some, Bytes, ℤ, pos, min, arith, subst,
}
use connaxis.Prelude.Lists.{length, drop}
use connaxis.Ring.Tests.{eight}
use connaxis.Tuning.{Connection}
use connaxis.WriteQueue.{WriteQueue, enqueue, consume, pending}
use connaxis.WriteQueue.Valid.{contents, IsValid}
use connaxis.WriteQueue.Enqueue.{enqueue_lem}
use connaxis.WriteQueue.Consume.{consume_lem}
use connaxis.WriteQueue.Flush.{Errno, gather, flush_write_queue, max_writev_iovecs}
use connaxis.WriteQueue.Flush.Sent.{
  TakesPrefix, offered, flushed, Gathered, Flushed, flushed_lem, flush_write_queue_lem,
}
use connaxis.WriteQueue.History.{History, opened, enqueued, sent, History-contents}

abbrev small : Connection
small = record {
  write_queue_coalesce_max_bytes = 8;
  write_queue_compact_max_bytes = 8;
  write_queue_shrink_cap = 0;
}

-- The bytes 6 and 7 in one entry, and 8 in another, behind a free place.
abbrev sample : WriteQueue
sample = record {
  items =
      (record { owner = []; size = 0; off = 0 })
      ∷ (record { owner = 5 ∷ 6 ∷ 7 ∷ []; size = 3; off = 1 })
      ∷ (record { owner = 9 ∷ 8 ∷ 0 ∷ []; size = 2; off = 1 })
      ∷ [];
  head = 1;
  bytes = 3;
}

sample-IsValid : IsValid sample
sample-IsValid = record {
  live = ((omega arith, omega arith), ((omega arith, omega arith), tt));
  counted = refl;
  placed = inl (omega arith);
}

contents-sample : contents sample ≡ 6 ∷ 7 ∷ 8 ∷ []
contents-sample = refl

-- The two bytes fit only once the tail has moved to the front of its buffer.
enqueue_lem_example :
    let (q', s') = enqueue eight small sample (1 ∷ 2 ∷ 3 ∷ []) 2 tt in
    IsValid q'
    × Unit {0}
    × (contents q' ≡ 6 ∷ 7 ∷ 8 ∷ 1 ∷ 2 ∷ [])
    × (pending q' ≡ pending sample + 2)
enqueue_lem_example =
    enqueue_lem eight small sample (1 ∷ 2 ∷ 3 ∷ []) 2 tt sample-IsValid tt (omega arith)

consume_lem_example :
    (q' : WriteQueue) × (s' : Unit {0}) × (consume eight sample 2 tt ≡ some (q', s'))
    × IsValid q'
    × Unit {0}
    × (contents q' ≡ 8 ∷ [])
    × (pending q' ≡ pending sample - 2)
consume_lem_example = consume_lem eight sample 2 tt sample-IsValid tt

flushed_lem_example : Gathered max_writev_iovecs 2 2 (drop 1 sample.items) (flushed 2 sample)
flushed_lem_example = flushed_lem sample 2 sample-IsValid

-- A socket that takes three bytes at a time.
abbrev three : List Bytes → ℤ × Errno
three bs = (pos (min 3 (length (offered bs))), none)

three-TakesPrefix : TakesPrefix three
three-TakesPrefix bs n e = let same : min 3 (length (offered bs)) ≡ n = cc in omega arith

flush_write_queue_lem_example :
    (r : ℤ × Errno) × (q' : WriteQueue) × (send' : ℕ) × (s' : Unit {0}) × (flush_write_queue eight
        three 7 sample 0 5 tt
      ≡ some (r, q', send', s'))
    × Unit {0}
    × Flushed sample 0 5 r.0 q' send'
flush_write_queue_lem_example =
    flush_write_queue_lem eight three 7 sample 0 5 tt three-TakesPrefix sample-IsValid tt
      (omega arith)

-- Four bytes in, three of them out.
abbrev fed : WriteQueue
fed = record {
  items = (record { owner = 1 ∷ 2 ∷ 3 ∷ 4 ∷ []; size = 4; off = 0 }) ∷ [];
  head = 0;
  bytes = 4;
}

abbrev left : WriteQueue
left = record fed {
  items = (record { owner = 1 ∷ 2 ∷ 3 ∷ 4 ∷ []; size = 4; off = 3 }) ∷ [];
  bytes = 1;
}

fed_once :
    enqueue eight small (record { items = []; head = 0; bytes = 0 }) (1 ∷ 2 ∷ 3 ∷ 4 ∷ []) 4 tt
    ≡ (fed, tt)
unfolding enqueue
fed_once = refl

sent_once : flush_write_queue eight three 7 fed 0 0 tt ≡ some ((pos 3, none), left, 3, tt)
unfolding flush_write_queue consume
sent_once = refl

fed-History : History eight small fed tt (1 ∷ 2 ∷ 3 ∷ 4 ∷ []) []
fed-History =
    subst (λ (o : WriteQueue × Unit {0}). History eight small o.0 o.1 (1 ∷ 2 ∷ 3 ∷ 4 ∷ []) [])
      fed_once (enqueued (opened tt tt) (1 ∷ 2 ∷ 3 ∷ 4 ∷ []) 4 (omega arith))

left-History : History eight small left tt (1 ∷ 2 ∷ 3 ∷ 4 ∷ []) (1 ∷ 2 ∷ 3 ∷ [])
unfolding gather
left-History =
    sent fed-History three 7 0 0 3 (pos 3, none) three-TakesPrefix (omega arith) sent_once

History-contents_example :
    IsValid left × Unit {0} × (1 ∷ 2 ∷ 3 ∷ contents left ≡ 1 ∷ 2 ∷ 3 ∷ 4 ∷ [])
History-contents_example = History-contents eight small left-History
