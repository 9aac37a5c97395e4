-- ===== src/WriteQueue/Front.antt =====
-- connection/writequeue.go: the first entry of a queue, and the parts of `consume` around its loop.
use connaxis.Prelude.{
  ℕ, suc, ◌+◌, ◌-◌, ◌*◌, ◌≤◌, ◌<◌, ◌≡◌, refl, sym, ap, ap₂, ◌∙◌, inl, inr, ◌∷◌, ◌++◌, some, copy,
  Bool-cases, ltb, leb, ◌&&◌, if◌then◌else◌, ltb→lt, ltb→le, arith,
}
use connaxis.Prelude.Lists.{
  length, take, drop, get_elem?, length-drop, drop-all, drop-take, drop-drop, drop-get_elem?,
}
use connaxis.Prelude.Slices.{take-copy}
use connaxis.WriteQueue.{WriteEntry, WriteQueue, unsent, shift_items}
use connaxis.WriteQueue.Valid.{Live, AllLive, stream, contents, IsValid, held}

-- The first live entry, where there are bytes to send.
pub record Front (q : WriteQueue) : Type 0 where
  pub item : WriteEntry
  pub found : get_elem? q.items q.head ≡ some item
  pub inside : q.head < length q.items
  pub live : Live item
  pub others : AllLive (drop (suc q.head) q.items)
  pub split : contents q ≡ unsent item ++ stream (drop (suc q.head) q.items)

pub front : (q : WriteQueue) → IsValid q → 0 < q.bytes → Front q
front q v h = elim v.placed [
  | inr (empty, start) ↦
      let count = v.counted in
      let none_left : length (contents q) ≡ 0 =
        ap₂ (λ es k. length (stream (drop k es))) empty start in
      absurd (omega arith)
  | inl inside ↦
      let (item, found, split) = drop-get_elem? q.items q.head inside in
      let live : AllLive (item ∷ drop (suc q.head) q.items) = rw split at v.live in
      record {
        item = item;
        found = found;
        inside = inside;
        live = live.0;
        others = live.1;
        split = ap stream split;
      }
]

-- Bytes off the front of an entry.
pub unsent-drop :
    (e : WriteEntry) (n : ℕ) → unsent (record e { off = e.off + n }) ≡ drop n (unsent e)
unsent-drop e n =
    ap₂ take (omega arith) (sym (drop-drop n e.off e.owner))
    ∙ sym (drop-take n (e.size - e.off) (drop e.off e.owner))

-- The move to the front of the array keeps the bytes.
pub shift_items_lem :
    (q : WriteQueue)
    → IsValid q
    → IsValid (shift_items q)
      × (contents (shift_items q) ≡ contents q)
      × ((shift_items q).bytes ≡ q.bytes)
unfolding shift_items
shift_items_lem q v = elim (Bool-cases (ltb 0 q.head && leb (length q.items) (q.head * 2))) [
  | inr stays ↦ rw (stays, shift_items) (v, refl, refl)
  | inl moves ↦
      let left = drop q.head q.items in
      let inside : q.head < length q.items = elim v.placed [
        | inl inside ↦ inside
        | inr (_, start) ↦ absurd (ground arith)
      ] in
      let size = length-drop q.head q.items in
      let moved : take (length q.items - q.head) (copy q.items left) ≡ left =
        ap (λ k. take k (copy q.items left)) (sym size) ∙ take-copy q.items left (omega arith) in
      let (v', all) =
        held (record q { items = left; head = 0 }) left (contents q) refl v.live refl v.counted
          (omega arith) in
      rw (moves, shift_items, moved) (v', all, refl)
]

-- The bytes that `consume` is asked for, no more than there are.
pub cap_lem :
    (q : WriteQueue) (n : ℕ)
    → IsValid q
    → let m = if ltb q.bytes n then q.bytes else n in
      (m ≤ q.bytes) × (drop m (contents q) ≡ drop n (contents q)) × (q.bytes - m ≡ q.bytes - n)
cap_lem q n v = elim (Bool-cases (ltb q.bytes n)) [
  | inr less ↦ rw less (ltb→le _ _ less, refl, refl)
  | inl more ↦
      let count : q.bytes ≡ length (contents q) = v.counted in
      let above = ltb→lt _ _ more in
      rw more (
        omega arith,
        drop-all q.bytes (contents q) (omega arith) ∙ sym (drop-all n (contents q) (omega arith)),
        omega arith,
      )
]
