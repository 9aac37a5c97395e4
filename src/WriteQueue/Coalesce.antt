-- ===== src/WriteQueue/Coalesce.antt =====
-- connection/writequeue.go: how `enqueue` puts bytes into the rest of the last buffer.
use connaxis.Prelude.{
  ℕ, zero, suc, ◌+◌, ◌-◌, ◌≤◌, ◌<◌, ◌≡◌, refl, sym, ap, ◌∙◌, inl, inr, List, [], ◌∷◌, ◌++◌,
  append_assoc, append-nil, Bytes, slice, copy, copy_at, Bool, true, false, Bool-cases, leb,
  if◌then◌else◌, leb→le, arith,
}
use connaxis.Prelude.Lists.{
  length, take, drop, length-take, length-drop, take-all, take-append_le, take-append_ge,
  drop-append_le, drop-take,
}
use connaxis.Prelude.Slices.{
  length-copy, length-copy_at, take-copy, copy-eq-append, length-slice, slice-zero,
}
use connaxis.Tuning.{Connection}
use connaxis.WriteQueue.{
  WriteEntry, unsent, put_tail, needs_compact, compact_tail, coalesce, coalesce_last,
}
use connaxis.WriteQueue.Valid.{Live, AllLive, stream}

pub length-unsent : (e : WriteEntry) → Live e → length (unsent e) ≡ e.size - e.off
length-unsent e v = length-slice e.owner e.off e.size (omega arith) v.1

-- Bytes put right behind those of an entry.
unsent-copy_at :
    (owner p : Bytes) (size off : ℕ)
    → off ≤ size
    → size + length p ≤ length owner
    → slice (copy_at owner size p) off (size + length p) ≡ slice owner off size ++ p
unfolding copy_at
unsent-copy_at owner p size off h room =
    rw
      (
        copy-eq-append (drop size owner) p (omega (arith, length-drop size owner)),
        drop-append_le off (take size owner) (p ++ drop (length p) (drop size owner))
            (omega (arith, held)),
        drop-take off size owner,
      )
      (take-append_ge _ front _ (omega (arith, front_length))
        ∙ ap (◌++◌ front) (
            ap (λ k. take k (p ++ drop (length p) (drop size owner))) {y = length p}
              (omega (arith, front_length))
            ∙ take-append_le (length p) p _ (omega arith)
            ∙ take-all (length p) p (omega arith)))
  where
    front : Bytes
    front = take (size - off) (drop off owner)

    front_length : length front ≡ size - off
    front_length = omega (arith, length-take (size - off) (drop off owner), length-drop off owner)

    held : length (take size owner) ≡ size
    held = omega (arith, length-take size owner)

behind_all :
    (done : Bool) (a x p : Bytes)
    → a ++ (if done then x ++ p else x) ≡ (if done then (a ++ x) ++ p else a ++ x)
behind_all true a x p = sym (append_assoc a x p)
behind_all false a x p = refl

-- The tail keeps its bytes, with the new ones behind them if it took them.
abbrev Coalesced : WriteEntry → Bytes → WriteEntry × Bool → Type 0
Coalesced tail p (tail', done) =
    Live tail' × (unsent tail' ≡ (if done then unsent tail ++ p else unsent tail))

put_tail_lem :
    (tail : WriteEntry) (owner : Bytes) (size : ℕ)
    → Live tail
    → 0 < size
    → size ≤ length owner
    → Coalesced tail (take size owner) (put_tail tail owner size)
unfolding put_tail
put_tail_lem tail owner size v h fits =
    elim (Bool-cases (leb size (length tail.owner - tail.size))) [
      | inr full ↦ rw (full, put_tail) (v, refl)
      | inl room ↦
          let p = slice owner 0 size in
          let size_of : length p ≡ size =
            omega (arith, length-slice owner 0 size (omega arith) fits) in
          let fits' = leb→le _ _ room in
          rw (room, put_tail)
            (
              (omega arith, omega (arith, length-copy_at tail.owner tail.size p)),
              ap (λ k. slice (copy_at tail.owner tail.size p) tail.off (tail.size + k))
                    (sym size_of)
                  ∙ unsent-copy_at tail.owner p tail.size tail.off (omega arith) (omega arith)
                  ∙ ap (◌++◌ (unsent tail)) (slice-zero owner size),
            )
    ]

module _ (knobs : Connection) where
  compact_tail_lem :
      (tail : WriteEntry) (size : ℕ)
      → Live tail
      → Live (compact_tail knobs tail size) × (unsent (compact_tail knobs tail size) ≡ unsent tail)
  unfolding compact_tail
  compact_tail_lem tail size v = elim (Bool-cases (needs_compact knobs tail size)) [
    | inr stays ↦ rw (stays, compact_tail) (v, refl)
    | inl moves ↦
        let size_of = length-unsent tail v in
        rw (moves, compact_tail)
          (
            (omega arith, omega (arith, length-copy tail.owner (unsent tail))),
            slice-zero (copy tail.owner (unsent tail)) (tail.size - tail.off)
                ∙ ap (λ k. take k (copy tail.owner (unsent tail))) (sym size_of)
                ∙ take-copy tail.owner (unsent tail) (omega arith),
          )
  ]

  coalesce_lem :
      (tail : WriteEntry) (owner : Bytes) (size : ℕ)
      → Live tail
      → 0 < size
      → size ≤ length owner
      → Coalesced tail (take size owner) (coalesce knobs tail owner size)
  unfolding coalesce
  coalesce_lem tail owner size v h fits =
      let (v', same) = compact_tail_lem tail size v in
      rw same at (put_tail_lem (compact_tail knobs tail size) owner size v' h fits)

  -- The same for the last of the items.
  abbrev pub CoalescedLast : List WriteEntry → Bytes → List WriteEntry × Bool → Type 0
  CoalescedLast items p (items', done) =
      AllLive items'
      × (length items' ≡ length items)
      × (stream items' ≡ (if done then stream items ++ p else stream items))

  pub coalesce_last_lem :
      (items : List WriteEntry) (owner : Bytes) (size : ℕ)
      → AllLive items
      → 0 < size
      → size ≤ length owner
      → CoalescedLast items (take size owner) (coalesce_last knobs items owner size)
  unfolding coalesce_last
  coalesce_last_lem [] owner size v h fits = (tt, refl, refl)
  coalesce_last_lem (tail ∷ []) owner size v h fits =
      let (v', bytes) = coalesce_lem tail owner size v.0 h fits in
      ((v', tt), refl, simp append-nil bytes)
  coalesce_last_lem (item ∷ next ∷ rest) owner size v h fits =
      let (v', len, bytes) = coalesce_last_lem (next ∷ rest) owner size v.1 h fits in
      (
        (v.0, v'),
        ap suc len,
        ap (◌++◌ (unsent item)) bytes
            ∙ behind_all (coalesce_last knobs (next ∷ rest) owner size).1 (unsent item)
                (stream (next ∷ rest)) (take size owner),
      )

  -- Only the last item changes, so the items before the head do not matter.
  pub drop-coalesce_last :
      (h : ℕ) (items : List WriteEntry) (owner : Bytes) (size : ℕ)
      → h < length items
      → (drop h (coalesce_last knobs items owner size).0
          ≡ (coalesce_last knobs (drop h items) owner size).0)
        × ((coalesce_last knobs items owner size).1
            ≡ (coalesce_last knobs (drop h items) owner size).1)
        × (length (coalesce_last knobs items owner size).0 ≡ length items)
  unfolding coalesce_last
  drop-coalesce_last h [] owner size lt = absurd (omega arith)
  drop-coalesce_last zero (item ∷ []) owner size lt = (refl, refl, refl)
  drop-coalesce_last (suc h) (item ∷ []) owner size lt = absurd (omega arith)
  drop-coalesce_last zero (item ∷ next ∷ rest) owner size lt =
      (refl, refl, ap suc (drop-coalesce_last zero (next ∷ rest) owner size (omega arith)).2)
  drop-coalesce_last (suc h) (item ∷ next ∷ rest) owner size lt =
      let (d, f, l) = drop-coalesce_last h (next ∷ rest) owner size (omega arith) in
      (d, f, ap suc l)
