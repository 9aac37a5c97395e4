-- ===== src/TimeWheel/Slots.antt =====
-- timer/timewheel.go: well-formed wheels, and what one call does to the slots.
use native.Mathlib.Nat.{mod-add-mod, mod-lt}
use connaxis.Prelude.{
  ℕ, ◌+◌, ◌*◌, ◌/◌, ◌%◌, ◌^◌, ◌≤◌, ◌<◌, ◌≡◌, refl, sym, ap, ◌∙◌, inl, inr, true, Option-cases, some,
  List, [], ◌∷◌, lt→ltb, ge→ltb, arith, pos,
}
use connaxis.Prelude.Lists.{length, get_elem?, set, length-set, drop-get_elem?, get_elem?-set_same}
use connaxis.TimeWheel.Signed.{int_add, int_mod, int_div, as_int32}
use connaxis.TimeWheel.{
  Timer, TimeWheel, slot_at, with_slot, remove, insert, on_time_out, target, forget, put_timer,
  add_expiring, add_timer,
}

-- A wheel as `NewTimeWheel` makes it, before its position leaves the positive int32.
pub record IsValid (tw : TimeWheel) : Type 0 where
  pub interval_pos : 0 < tw.interval
  pub some_slots : 0 < tw.slot_num
  pub sized : length tw.slots ≡ tw.slot_num
  pub early : tw.current_pos < 2 ^ 31

pub slot_at-found :
    (tw : TimeWheel) (i : ℕ)
    → i < length tw.slots
    → (ts : List Timer) × (slot_at tw (pos i) ≡ some (i, ts)) × (get_elem? tw.slots i ≡ some ts)
unfolding slot_at
slot_at-found tw i h =
    let (ts, found, _) = drop-get_elem? tw.slots i h in (ts, rw (found, slot_at) refl, found)

-- The slot of the current position.
pub now :
    (tw : TimeWheel)
    → IsValid tw
    → int_mod (as_int32 tw.current_pos) tw.slot_num ≡ pos (tw.current_pos % tw.slot_num)
unfolding as_int32 int_mod
now tw v = let early = lt→ltb _ _ v.early in rw early refl

-- `OnTimeOut` starts the timers of the current slot, empties it and moves on; no other slot changes.
pub on_time_out_lem :
    (tw : TimeWheel)
    → IsValid tw
    → tw.current_pos + 1 < 2 ^ 31
    → (ts : List Timer) × (tw' : TimeWheel) × (on_time_out tw ≡ some (ts, tw'))
      × (get_elem? tw.slots (tw.current_pos % tw.slot_num) ≡ some ts)
      × IsValid tw'
      × (tw'.current_pos ≡ tw.current_pos + 1)
      × (tw'.slot_num ≡ tw.slot_num)
      × (tw'.slots ≡ set tw.slots (tw.current_pos % tw.slot_num) [])
unfolding on_time_out
on_time_out_lem tw v h =
    let here = now tw v in
    let i = tw.current_pos % tw.slot_num in
    let (ts, at_slot, found) =
      slot_at-found tw i (omega (arith, v.sized, mod-lt tw.current_pos v.some_slots)) in
    let next : (tw.current_pos + 1) % 2 ^ 32 ≡ tw.current_pos + 1 = omega arith in
    (
      ts,
      record (with_slot tw i []) { current_pos = (tw.current_pos + 1) % 2 ^ 32 },
      rw (here, at_slot, on_time_out) refl,
      found,
      record {
        interval_pos = v.interval_pos;
        some_slots = v.some_slots;
        sized = length-set tw.slots i [] ∙ v.sized;
        early = omega arith;
      },
      next,
      refl,
      refl,
    )

-- A wheel with the same settings and position.
abbrev pub Alike : TimeWheel → TimeWheel → Type 0
Alike tw tw' =
    (tw'.interval ≡ tw.interval) × (tw'.slot_num ≡ tw.slot_num) × (tw'.current_pos ≡ tw.current_pos)

with_slot-IsValid :
    (tw : TimeWheel) (i : ℕ) (ts : List Timer) → IsValid tw → IsValid (with_slot tw i ts)
with_slot-IsValid tw i ts v = record {
  interval_pos = v.interval_pos;
  some_slots = v.some_slots;
  sized = length-set tw.slots i ts ∙ v.sized;
  early = v.early;
}

forget-IsValid :
    (tw : TimeWheel) (t : Timer) → IsValid tw → IsValid (forget tw t) × Alike tw (forget tw t)
unfolding forget
forget-IsValid tw t v = elim (Option-cases (slot_at tw t.slot)) [
  | inl nowhere ↦ rw (nowhere, forget) (v, (refl, refl, refl))
  | inr ((i, ts), found) ↦
      rw (found, forget) (with_slot-IsValid tw i (remove t.id ts) v, (refl, refl, refl))
]

target_lem :
    (tw : TimeWheel) (e : ℕ)
    → IsValid tw
    → target tw (pos e) ≡ pos ((tw.current_pos + e / tw.interval) % tw.slot_num)
unfolding target int_add int_mod int_div
target_lem tw e v =
    let here = now tw v in
    rw (here, target) (ap pos (mod-add-mod tw.current_pos tw.slot_num (e / tw.interval)))

-- The timer is in a slot of the wheel, at its front.
abbrev pub Placed : TimeWheel → Timer → ℕ → TimeWheel → Timer → Type 0
Placed tw t i tw' t' =
    IsValid tw'
    × Alike tw tw'
    × (t' ≡ record t { slot = pos i })
    × ((rest : List Timer) × (get_elem? tw'.slots i ≡ some (t' ∷ rest)))

put_timer_lem :
    (tw : TimeWheel) (t : Timer) (e : ℕ)
    → IsValid tw
    → t.expriate ≡ pos e
    → let i = (tw.current_pos + e / tw.interval) % tw.slot_num in
      (tw' : TimeWheel) × (t' : Timer) × (put_timer tw t ≡ some (tw', t')) × Placed tw t i tw' t'
unfolding put_timer insert
put_timer_lem tw t e v expires =
    let i = (tw.current_pos + e / tw.interval) % tw.slot_num in
    let small : i < length tw.slots =
      omega (arith, v.sized, mod-lt (tw.current_pos + e / tw.interval) v.some_slots) in
    let goal = ap (target tw) expires ∙ target_lem tw e v in
    let (ts, at_slot, found) = slot_at-found tw i small in
    let t' : Timer = record t { slot = pos i } in
    (
      with_slot tw i (insert t' ts),
      t',
      rw (goal, at_slot, put_timer) refl,
      (
        with_slot-IsValid tw i (insert t' ts) v,
        (refl, refl, refl),
        refl,
        (remove t'.id ts, get_elem?-set_same tw.slots i (insert t' ts) small),
      ),
    )

add_timer-put_timer :
    (tw tw' : TimeWheel) (t t' : Timer) (e : ℕ)
    → t.expriate ≡ pos e
    → e ≤ tw.interval * tw.slot_num
    → put_timer (forget tw t) t ≡ some (tw', t')
    → add_timer tw t ≡ some (true, tw', t')
unfolding add_timer add_expiring
add_timer-put_timer tw tw' t t' e expires fits added =
    let within = ge→ltb (tw.interval * tw.slot_num) e fits in
    ap (add_expiring tw t) expires ∙ rw (within, added, add_expiring) refl

-- `AddTimer` of an expiry of at most one turn puts the timer into the slot that the wheel reaches after
-- expiry / interval ticks, counted round the wheel.
pub add_timer_lem :
    (tw : TimeWheel) (t : Timer) (e : ℕ)
    → IsValid tw
    → t.expriate ≡ pos e
    → e ≤ tw.interval * tw.slot_num
    → let i = (tw.current_pos + e / tw.interval) % tw.slot_num in
      (tw' : TimeWheel) × (t' : Timer) × (add_timer tw t ≡ some (true, tw', t'))
      × Placed tw t i tw' t'
add_timer_lem tw t e v expires fits =
    let (v1, (same_interval, same_slots, same_pos)) = forget-IsValid tw t v in
    let (tw', t', added, (v', (i', n', p'), named, (rest, there))) =
      put_timer_lem (forget tw t) t e v1 expires in
    let here : ((forget tw t).current_pos + e / (forget tw t).interval) % (forget tw t).slot_num
        ≡ (tw.current_pos + e / tw.interval) % tw.slot_num =
      rw (same_interval, same_slots, same_pos) refl in
    (
      tw',
      t',
      add_timer-put_timer tw tw' t t' e expires fits added,
      (
        v',
        (i' ∙ same_interval, n' ∙ same_slots, p' ∙ same_pos),
        named ∙ ap (λ i. record t { slot = pos i }) here,
        (rest, sym (ap (get_elem? tw'.slots) here) ∙ there),
      ),
    )
