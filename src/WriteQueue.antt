-- ===== src/WriteQueue.antt =====
-- connection/writequeue.go: the queue of buffers that a connection still has to send. `none` is a
-- run-time panic. Whether `resetEmpty` keeps the array of `items` for reuse does not show, so the
-- array's capacity is not kept.
pub mod Valid
pub mod Coalesce
pub mod Enqueue
pub mod Front
pub mod Consume
pub mod Flush
pub mod Peek
pub mod History
pub mod Tests
use connaxis.Prelude.{
  ℕ, zero, suc, ◌+◌, ◌-◌, ◌*◌, Bool, true, false, ◌&&◌, ◌||◌, Option, none, some, List, [], ◌∷◌,
  ◌++◌, Bytes, slice, copy, copy_at, ltb, leb, ◌==◌, if◌then◌else◌, min,
}
use connaxis.Prelude.Lists.{length, take, drop, get_elem?, set}
use connaxis.Alloc.{Allocator}
use connaxis.Tuning.{Connection}

pub record WriteEntry : Type 0 where
  pub owner : Bytes
  pub size : ℕ
  pub off : ℕ

pub record WriteQueue : Type 0 where
  pub items : List WriteEntry
  pub head : ℕ
  pub bytes : ℕ

-- The entry that `consume` and `clear` leave behind.
abbrev pub blank : WriteEntry
blank = record { owner = []; size = 0; off = 0 }

unfoldable pub pending : WriteQueue → ℕ
pending q = q.bytes

-- `resetEmpty`
pub reset_empty : WriteQueue → WriteQueue
reset_empty q = record q { items = []; head = 0; bytes = 0 }

-- The bytes of an entry that are still to be sent.
abbrev pub unsent : WriteEntry → Bytes
unsent e = slice e.owner e.off e.size

-- `peek`; a nil slice is the empty one.
pub peek : WriteQueue → Option Bytes
peek q = if q.bytes == 0 then some [] else (elim (get_elem? q.items q.head) [
  | none ↦ none
  | some item ↦ some (if leb item.size item.off then [] else unsent item)
])

-- The bytes go into the rest of the tail's buffer, if they fit.
pub put_tail : WriteEntry → Bytes → ℕ → WriteEntry × Bool
put_tail tail owner size =
    if leb size (length tail.owner - tail.size)
    then (
      record tail {
        owner = copy_at tail.owner tail.size (slice owner 0 size);
        size = tail.size + size;
      },
      true,
    )
    else (tail, false)

module _ (knobs : Connection) where
  open knobs use {write_queue_coalesce_max_bytes, write_queue_compact_max_bytes}

  -- There is room in the tail's buffer, but not behind its bytes, and the move is cheap.
  pub needs_compact : WriteEntry → ℕ → Bool
  needs_compact tail size =
      let avail = length tail.owner - tail.size + tail.off in
      leb size avail
      && ltb 0 tail.off
      && ltb (length tail.owner - tail.size) size
      && leb (tail.size - tail.off) write_queue_compact_max_bytes

  -- The move of the tail's bytes to the front of its buffer, where `enqueue` makes it.
  pub compact_tail : WriteEntry → ℕ → WriteEntry
  unfolding needs_compact
  compact_tail tail size =
      if needs_compact tail size
      then record tail {
        owner = copy tail.owner (unsent tail);
        size = tail.size - tail.off;
        off = 0;
      }
      else tail

  -- The tail after `enqueue` tried to put the bytes into it, and whether it did.
  pub coalesce : WriteEntry → Bytes → ℕ → WriteEntry × Bool
  unfolding compact_tail put_tail
  coalesce tail owner size = put_tail (compact_tail tail size) owner size

  -- The same at the last of the items.
  pub coalesce_last : List WriteEntry → Bytes → ℕ → List WriteEntry × Bool
  unfolding coalesce
  coalesce_last [] owner size = ([], false)
  coalesce_last (tail ∷ []) owner size =
      let (tail', done) = coalesce tail owner size in (tail' ∷ [], done)
  coalesce_last (item ∷ next ∷ rest) owner size =
      let (items, done) = coalesce_last (next ∷ rest) owner size in (item ∷ items, done)

  -- The items after a small buffer was tried at the last of them, and whether that took it.
  pub try_coalesce : WriteQueue → Bytes → ℕ → List WriteEntry × Bool
  unfolding coalesce_last
  try_coalesce q owner size =
      if ltb 0 write_queue_coalesce_max_bytes
        && leb size write_queue_coalesce_max_bytes
        && ltb 0 (length q.items)
      then coalesce_last q.items owner size
      else (q.items, false)

-- The last lines of `consume`: the items move to the front of the array.
pub shift_items : WriteQueue → WriteQueue
shift_items q =
    if ltb 0 q.head && leb (length q.items) (q.head * 2)
    then record q {
      items = take (length q.items - q.head) (copy q.items (drop q.head q.items));
      head = 0;
    }
    else q

module _ (al : Allocator) where
  open al use {State, put}

  -- The end of `enqueue`, after the tail was tried.
  pub accept : WriteQueue → Bytes → ℕ → List WriteEntry × Bool → State → WriteQueue × State
  accept q owner size (items, true) s =
      (record q { items = items; bytes = q.bytes + size }, put owner s)
  accept q owner size (items, false) s = (
    record q {
      items = items ++ (record { owner = owner; size = size; off = 0 }) ∷ [];
      bytes = q.bytes + size;
    },
    s,
  )

  -- `enqueue(owner, size)`; `owner[:size]` is in range where size is at most len(owner).
  pub enqueue : Connection → WriteQueue → Bytes → ℕ → State → WriteQueue × State
  unfolding try_coalesce accept
  enqueue knobs q owner size s =
      if size == 0
      then (q, put owner s)
      else accept q owner size (try_coalesce knobs q owner size) s

  -- The loop of `consume`: the queue, and whether the loop returned from the function. `fuel` is
  -- above the number of the items left.
  pub consume_loop : ℕ → WriteQueue → ℕ → State → Option (WriteQueue × Bool × State)
  unfolding reset_empty
  consume_loop zero q n s = none
  consume_loop (suc fuel) q n s =
      if ltb 0 n && ltb 0 q.bytes
      then (elim (get_elem? q.items q.head) [
        | none ↦ none
        | some item ↦
            let remain = item.size - item.off in
            let dropped = record q {
              items = set q.items q.head blank;
              bytes = q.bytes - remain;
              head = q.head + 1;
            } in
            let rest = consume_loop fuel dropped (n - remain) (put item.owner s) in
            if ltb n remain
            then some (
              record q {
                items = set q.items q.head (record item { off = item.off + n });
                bytes = q.bytes - n;
              },
              true,
              s,
            )
            else (if leb (length dropped.items) dropped.head
                then some (reset_empty dropped, true, put item.owner s)
                else rest)
      ])
      else some (q, false, s)

  -- `consume(n)`
  pub consume : WriteQueue → ℕ → State → Option (WriteQueue × State)
  unfolding consume_loop shift_items
  consume q n s =
      if n == 0 || q.bytes == 0
      then some (q, s)
      else (elim (consume_loop (length q.items + 1) q (if ltb q.bytes n then q.bytes else n) s) [
        | none ↦ none
        | some (q', true, s') ↦ some (q', s')
        | some (q', false, s') ↦ some (shift_items q', s')
      ])

  -- The buffers that `clear` gives back, from the head on.
  pub put_all : List WriteEntry → State → State
  put_all [] s = s
  put_all (item ∷ rest) s = put_all rest (put item.owner s)

  -- `clear`
  pub clear : WriteQueue → State → WriteQueue × State
  unfolding put_all reset_empty
  clear q s = (reset_empty q, put_all (drop q.head q.items) s)
