-- ===== src/WriteQueue/Consume.antt =====
-- connection/writequeue.go: `consume` takes the bytes that were sent off the front of the queue and
-- gives the buffers that are done back to the allocator.
use connaxis.Prelude.{
  ℕ, zero, suc, ◌+◌, ◌-◌, ◌≤◌, ◌<◌, ◌≡◌, refl, sym, ap, ◌∙◌, inl, inr, [], ◌∷◌, ◌++◌, append-nil,
  some, Bool, true, false, Bool-cases, ltb, leb, ◌==◌, ◌&&◌, ◌||◌, if◌then◌else◌, leb→le, leb→lt,
  ltb→lt, ltb→le, ==→eq, arith,
}
use connaxis.Prelude.Lists.{
  length, drop, get_elem?, set, length-append, length-drop, length-set, drop-all, drop-append_le,
  drop-append_ge, drop-set, drop-set_after,
}
use connaxis.Alloc.{Allocator}
use connaxis.WriteQueue.{
  WriteEntry, WriteQueue, blank, unsent, pending, reset_empty, consume_loop, shift_items, consume,
}
use connaxis.WriteQueue.Valid.{stream, contents, IsValid, held}
use connaxis.WriteQueue.Coalesce.{length-unsent}
use connaxis.WriteQueue.Enqueue.{head-le}
use connaxis.WriteQueue.Front.{Front, front, unsent-drop, shift_items_lem, cap_lem}

module _ (al : Allocator) where
  open al use {State}

  -- The queue has lost its first `n` bytes.
  abbrev Consumed : WriteQueue → ℕ → WriteQueue → State → Type 0
  Consumed q n q' s' =
      IsValid q' × al.IsValid s' × (contents q' ≡ drop n (contents q)) × (q'.bytes ≡ q.bytes - n)

  part_lem :
      (q : WriteQueue) (n : ℕ) (s : State) (v : IsValid q) (f : Front q)
      → al.IsValid s
      → n < f.item.size - f.item.off
      → Consumed q n
          (record q {
            items = set q.items q.head (record f.item { off = f.item.off + n });
            bytes = q.bytes - n;
          })
          s
  part_lem q n s v f valid small =
      let item : WriteEntry = record f.item { off = f.item.off + n } in
      let rest = drop (suc q.head) q.items in
      let inside = f.inside in
      let count : length (drop n (contents q)) ≡ q.bytes - n =
        omega (arith, length-drop n (contents q), v.counted) in
      let fits = length-unsent f.item f.live in
      let cut : stream (item ∷ rest) ≡ drop n (contents q) =
        ap (λ x. x ++ stream rest) (unsent-drop f.item n)
        ∙ sym (drop-append_le n (unsent f.item) (stream rest) (omega arith))
        ∙ ap (drop n) (sym f.split) in
      let (v', all) =
        held (record q { items = set q.items q.head item; bytes = q.bytes - n }) (item ∷ rest)
          (drop n (contents q)) (drop-set q.items q.head item inside)
          ((omega arith, f.live.1), f.others) cut (sym count)
          (omega (arith, inside, length-set q.items q.head item)) in
      (v', valid, all, refl)

  last_lem :
      (q : WriteQueue) (n : ℕ) (s : State) (v : IsValid q) (f : Front q)
      → al.IsValid s
      → n ≤ q.bytes
      → f.item.size - f.item.off ≤ n
      → length q.items ≤ q.head + 1
      → Consumed q n (record q { items = []; head = 0; bytes = 0 }) s
  last_lem q n s v f valid h whole last =
      let none_left : stream (drop (suc q.head) q.items) ≡ [] =
        ap stream (drop-all (suc q.head) q.items (omega arith)) in
      let count : q.bytes ≡ length (contents q) = v.counted in
      let all : length (contents q) ≡ length (unsent f.item) =
        ap length (f.split ∙ ap (◌++◌ (unsent f.item)) none_left ∙ append-nil (unsent f.item)) in
      let fits = length-unsent f.item f.live in
      (
        record { live = tt; counted = refl; placed = inr (refl, refl) },
        valid,
        sym (drop-all n (contents q) (omega arith)),
        omega arith,
      )

  abbrev dropped : WriteQueue → WriteEntry → WriteQueue
  dropped q item = record q {
    items = set q.items q.head blank;
    bytes = q.bytes - (item.size - item.off);
    head = q.head + 1;
  }

  dropped_lem :
      (q : WriteQueue) (v : IsValid q) (f : Front q)
      → q.head + 1 < length q.items
      → IsValid (dropped q f.item)
        × (contents (dropped q f.item) ≡ stream (drop (suc q.head) q.items))
  dropped_lem q v f more =
      let rest = drop (suc q.head) q.items in
      let fits = length-unsent f.item f.live in
      let both : length (contents q) ≡ length (unsent f.item ++ stream rest) = ap length f.split in
      let count : q.bytes ≡ length (contents q) = v.counted in
      held (dropped q f.item) rest (stream rest)
        (ap (λ k. drop k (set q.items q.head blank)) {y = suc q.head} (omega arith)
          ∙ drop-set_after q.items q.head blank)
        f.others refl (omega (arith, both, count, length-append (unsent f.item) (stream rest)))
        (omega (arith, more, length-set q.items q.head blank))

  -- A step of the loop that empties the first entry loses that entry's bytes.
  step_lem :
      (q : WriteQueue) (n : ℕ) (v : IsValid q) (f : Front q) (q' : WriteQueue) (s' : State)
      → f.item.size - f.item.off ≤ n
      → contents (dropped q f.item) ≡ stream (drop (suc q.head) q.items)
      → Consumed (dropped q f.item) (n - (f.item.size - f.item.off)) q' s'
      → Consumed q n q' s'
  step_lem q n v f q' s' whole rest (v', valid, all, count) =
      let fits = length-unsent f.item f.live in
      let remain = f.item.size - f.item.off in
      (
        v',
        valid,
        all
            ∙ ap (drop (n - remain)) rest
            ∙ ap (λ k. drop k (stream (drop (suc q.head) q.items))) (omega arith)
            ∙ sym (
                drop-append_ge n (unsent f.item) (stream (drop (suc q.head) q.items)) (omega arith))
            ∙ ap (drop n) (sym f.split),
        omega arith,
      )

  -- The loop ends, and the queue has lost its first `n` bytes.
  abbrev LoopConsumes : ℕ → WriteQueue → ℕ → State → Type 0
  LoopConsumes fuel q n s =
      (q' : WriteQueue) × (done : Bool) × (s' : State) × (consume_loop al fuel q n s
        ≡ some (q', done, s'))
      × Consumed q n q' s'

  -- One pass of the loop, by what the next passes do.
  pass_lem :
      (fuel : ℕ) (q : WriteQueue) (n : ℕ) (s : State) (f : Front q)
      → IsValid q
      → al.IsValid s
      → n ≤ q.bytes
      → ltb 0 n && ltb 0 q.bytes ≡ true
      → (q.head + 1 < length q.items
          → f.item.size - f.item.off ≤ n
          → IsValid (dropped q f.item)
          → LoopConsumes fuel
              (dropped q f.item)
              (n - (f.item.size - f.item.off))
              (al.put f.item.owner s))
      → LoopConsumes (suc fuel) q n s
  unfolding consume_loop reset_empty
  pass_lem fuel q n s f v valid h go next = elim (Bool-cases (ltb n remain)) [
    | inl small ↦ (
      record q {
        items = set q.items q.head (record f.item { off = f.item.off + n });
        bytes = q.bytes - n;
      },
      true,
      s,
      rw (go, found, small, consume_loop) refl,
      part_lem q n s v f valid (ltb→lt _ _ small),
    )
    | inr whole ↦ elim (Bool-cases (leb (length (set q.items q.head blank)) (q.head + 1))) [
      | inl last ↦ (
        record q { items = []; head = 0; bytes = 0 },
        true,
        al.put f.item.owner s,
        rw (go, found, whole, last, consume_loop) refl,
        last_lem q n (al.put f.item.owner s) v f (al.put-IsValid f.item.owner s valid) h
            (ltb→le _ _ whole) (omega (arith, leb→le _ _ last, len)),
      )
      | inr more ↦
          let inside : q.head + 1 < length q.items = omega (arith, len, leb→lt _ _ more) in
          let (v', rest) = dropped_lem q v f inside in
          let (q', done, s', e, c) = next inside (ltb→le _ _ whole) v' in
          (
            q',
            done,
            s',
            rw (go, found, whole, more, consume_loop) e,
            step_lem q n v f q' s' (ltb→le _ _ whole) rest c,
          )
    ]
  ]
    where
      remain : ℕ
      remain = f.item.size - f.item.off

      found : get_elem? q.items q.head ≡ some f.item
      found = f.found

      len : length (set q.items q.head blank) ≡ length q.items
      len = length-set q.items q.head blank

  consume_loop_lem :
      (fuel : ℕ) (q : WriteQueue) (n : ℕ) (s : State)
      → IsValid q
      → al.IsValid s
      → n ≤ q.bytes
      → length q.items < fuel + q.head
      → LoopConsumes fuel q n s
  unfolding consume_loop
  consume_loop_lem zero q n s v valid h enough = absurd (omega (arith, head-le q v))
  consume_loop_lem (suc fuel) q n s v valid h enough =
      elim (Bool-cases (ltb 0 n && ltb 0 q.bytes)) [
        | inr stop ↦
            let none_left : n ≡ 0 = ground arith in
            (
              q,
              false,
              s,
              rw (stop, consume_loop) refl,
              (v, valid, ap (λ k. drop k (contents q)) (sym none_left), omega arith),
            )
        | inl go ↦
            let f = front q v (ground arith) in
            let len = length-set q.items q.head blank in
            pass_lem fuel q n s f v valid h go (λ _ whole v'.
              consume_loop_lem fuel (dropped q f.item) (n - (f.item.size - f.item.off))
                (al.put f.item.owner s) v' (al.put-IsValid f.item.owner s valid) (omega arith)
                (omega (arith, len)))
      ]

  -- `consume` of a valid queue ends and does not panic; the queue stays valid and has lost its first
  -- `n` bytes, or all of them where there are not so many, and `pending` has gone down with them.
  pub consume_lem :
      (q : WriteQueue) (n : ℕ) (s : State)
      → IsValid q
      → al.IsValid s
      → (q' : WriteQueue) × (s' : State) × (consume al q n s ≡ some (q', s'))
        × IsValid q'
        × al.IsValid s'
        × (contents q' ≡ drop n (contents q))
        × (pending q' ≡ pending q - n)
  unfolding consume pending
  consume_lem q n s v valid = elim (Bool-cases (n == 0 || q.bytes == 0)) [
    | inl nothing ↦
        let count : q.bytes ≡ length (contents q) = v.counted in
        (q, s, rw (nothing, consume) refl, v, valid, same nothing, ground arith)
    | inr something ↦
        let m = if ltb q.bytes n then q.bytes else n in
        let (h, d, b) = cap_lem q n v in
        let (q', done, s', e, c) =
          consume_loop_lem (length q.items + 1) q m s v valid h (omega arith) in
        ends m q' done s' something e c d b
  ]
    where
      same : (n == 0 || q.bytes == 0 ≡ true) → contents q ≡ drop n (contents q)
      same nothing = elim (Bool-cases (n == 0)) [
        | inl zero_n ↦ ap (λ k. drop k (contents q)) (sym (==→eq _ _ zero_n))
        | inr some_n ↦
            let count : q.bytes ≡ length (contents q) = v.counted in
            let empty : q.bytes ≡ 0 = ground arith in
            drop-all 0 (contents q) (omega arith) ∙ sym (drop-all n (contents q) (omega arith))
      ]

      ends :
          (m : ℕ) (q' : WriteQueue) (done : Bool) (s' : State)
          → (n == 0 || q.bytes == 0 ≡ false)
          → (consume_loop al (length q.items + 1) q (if ltb q.bytes n then q.bytes else n) s
              ≡ some (q', done, s'))
          → Consumed q m q' s'
          → (drop m (contents q) ≡ drop n (contents q))
          → (q.bytes - m ≡ q.bytes - n)
          → (q'' : WriteQueue) × (s'' : State) × (consume al q n s ≡ some (q'', s''))
            × IsValid q''
            × al.IsValid s''
            × (contents q'' ≡ drop n (contents q))
            × (pending q'' ≡ pending q - n)
      ends m q' true s' go e (v', valid', all, count) d b =
          (q', s', rw (go, e, consume) refl, v', valid', all ∙ d, count ∙ b)
      ends m q' false s' go e (v', valid', all, count) d b =
          let (v'', kept, bytes) = shift_items_lem q' v' in
          (
            shift_items q',
            s',
            rw (go, e, consume) refl,
            v'',
            valid',
            kept ∙ all ∙ d,
            bytes ∙ count ∙ b,
          )
