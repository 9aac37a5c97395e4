-- ===== src/WriteQueue/Enqueue.antt =====
-- connection/writequeue.go: `enqueue` puts the bytes behind those of the queue, in a buffer of their
-- own or in the rest of the last one.
use connaxis.Prelude.{
  ℕ, ◌+◌, ◌≤◌, ◌<◌, ◌≡◌, refl, sym, ap, ap₂, ◌∙◌, inl, inr, List, [], ◌∷◌, ◌++◌, append-nil, Bytes,
  slice, Bool, true, false, Bool-cases, ltb, leb, ◌==◌, ◌&&◌, if◌then◌else◌, ==→eq, arith,
}
use connaxis.Prelude.Lists.{length, take, drop, length-append, length-take, drop-append_le}
use connaxis.Prelude.Slices.{slice-zero}
use connaxis.Alloc.{Allocator}
use connaxis.Tuning.{Connection}
use connaxis.WriteQueue.{WriteEntry, WriteQueue, try_coalesce, accept, enqueue, pending}
use connaxis.WriteQueue.Valid.{AllLive, stream, contents, IsValid, stream-append, AllLive-append}
use connaxis.WriteQueue.Coalesce.{coalesce_last_lem, drop-coalesce_last}

-- Items whose live part is given make a valid queue of the bytes.
requeue :
    (q : WriteQueue) (items live : List WriteEntry) (p : Bytes) (size : ℕ)
    → IsValid q
    → drop q.head items ≡ live
    → AllLive live
    → stream live ≡ contents q ++ p
    → length p ≡ size
    → q.head < length items
    → IsValid (record q { items = items; bytes = q.bytes + size })
      × (stream (drop q.head items) ≡ contents q ++ p)
requeue q items live p size v e good bytes len inside =
    let all : stream (drop q.head items) ≡ contents q ++ p = rw e bytes in
    let all_length : length (stream (drop q.head items)) ≡ length (contents q ++ p) =
      ap length all in
    let count : q.bytes ≡ length (contents q) = v.counted in
    (
      record {
        live = rw e good;
        counted = omega (arith, all_length, count, length-append (contents q) p);
        placed = inl inside;
      },
      all,
    )

pub head-le : (q : WriteQueue) → IsValid q → q.head ≤ length q.items
head-le q v = elim v.placed [ inl inside ↦ omega arith | inr (_, start) ↦ omega arith ]

-- What `try_coalesce` leaves of the items, seen from the head on.
abbrev Tried : WriteQueue → Bytes → List WriteEntry × Bool → Type 0
Tried q p (items, done) =
    AllLive (drop q.head items)
    × (length items ≡ length q.items)
    × (stream (drop q.head items) ≡ (if done then contents q ++ p else contents q))
    × (done ≡ true → q.head < length items)

try_coalesce_lem :
    (knobs : Connection) (q : WriteQueue) (owner : Bytes) (size : ℕ)
    → IsValid q
    → 0 < size
    → size ≤ length owner
    → Tried q (take size owner) (try_coalesce knobs q owner size)
unfolding try_coalesce
try_coalesce_lem knobs q owner size v h fits = elim (Bool-cases small) [
  | inr large ↦ rw (large, try_coalesce) (v.live, refl, refl, λ e. cc)
  | inl tries ↦
      let inside = in_items tries in
      let (d, f, l) = drop-coalesce_last knobs q.head q.items owner size inside in
      let (good, _, bytes) =
        coalesce_last_lem knobs (drop q.head q.items) owner size v.live h fits in
      rw (tries, try_coalesce, d, f) (good, l, bytes, λ _. rw l inside)
]
  where
    small : Bool
    small =
        ltb 0 knobs.write_queue_coalesce_max_bytes
        && leb size knobs.write_queue_coalesce_max_bytes
        && ltb 0 (length q.items)

    in_items : small ≡ true → q.head < length q.items
    in_items e = elim v.placed [
      | inl inside ↦ inside
      | inr (empty, _) ↦ let nothing = ap length empty in absurd (ground arith)
    ]

module _ (al : Allocator) where
  open al use {State}

  -- The two ends of `enqueue`, after the tail was tried.
  stored :
      (knobs : Connection) (q : WriteQueue) (owner : Bytes) (size : ℕ) (s : State)
      (tried : List WriteEntry × Bool)
      → IsValid q
      → al.IsValid s
      → 0 < size
      → size ≤ length owner
      → Tried q (take size owner) tried
      → let (q', s') = accept al q owner size tried s in
        IsValid q'
        × al.IsValid s'
        × (contents q' ≡ contents q ++ take size owner)
        × (q'.bytes ≡ q.bytes + size)
  unfolding accept
  stored knobs q owner size s (items, true) v valid h fits (good, len, bytes, inside) =
      let (v', all) =
        requeue q items (drop q.head items) (take size owner) size v refl good bytes
          (omega (arith, length-take size owner)) (inside refl) in
      (v', al.put-IsValid owner s valid, all, refl)
  stored knobs q owner size s (items, false) v valid h fits (good, len, bytes, _) =
      let own : WriteEntry = record { owner = owner; size = size; off = 0 } in
      let own_live : AllLive (own ∷ []) = ((h, fits), tt) in
      let inside : q.head ≤ length items = rw len (head-le q v) in
      let all : stream (drop q.head items ++ own ∷ []) ≡ contents q ++ take size owner =
        stream-append (drop q.head items) (own ∷ [])
        ∙ ap₂ (λ a b. a ++ b) bytes (append-nil (slice owner 0 size) ∙ slice-zero owner size) in
      let (v', all') =
        requeue q (items ++ own ∷ []) (drop q.head items ++ own ∷ []) (take size owner) size v
          (drop-append_le q.head items (own ∷ []) inside)
          (AllLive-append (drop q.head items) (own ∷ []) good own_live) all
          (omega (arith, length-take size owner))
          (omega (arith, inside, length-append items (own ∷ []))) in
      (v', valid, all', refl)

  -- `enqueue` of the first `size` bytes of a buffer that has as many, into a valid queue: the queue and
  -- the allocator stay valid, the bytes stand behind those that it had, and `pending` grows by `size`.
  pub enqueue_lem :
      (knobs : Connection) (q : WriteQueue) (owner : Bytes) (size : ℕ) (s : State)
      → IsValid q
      → al.IsValid s
      → size ≤ length owner
      → let (q', s') = enqueue al knobs q owner size s in
        IsValid q'
        × al.IsValid s'
        × (contents q' ≡ contents q ++ take size owner)
        × (pending q' ≡ pending q + size)
  unfolding enqueue pending
  enqueue_lem knobs q owner size s v valid fits = elim (Bool-cases (size == 0)) [
    | inl nothing ↦
        let zero_size = ==→eq _ _ nothing in
        rw (nothing, enqueue)
          (
            v,
            al.put-IsValid owner s valid,
            rw zero_size (sym (append-nil (contents q))),
            omega arith,
          )
    | inr something ↦
        rw (something, enqueue)
          (stored knobs q owner size s (try_coalesce knobs q owner size) v valid (ground arith) fits
            (try_coalesce_lem knobs q owner size v (ground arith) fits))
  ]
