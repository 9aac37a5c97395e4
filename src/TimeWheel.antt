-- ===== src/TimeWheel.antt =====
-- timer/timewheel.go: the time wheel. A map from ids to timers is the list of its timers; a timer keeps
-- the slot that `SetSlot` gave it. `none` is a panic. `currentPos` is an int32 that wraps; intervals
-- and expiries are int64 whose product with the slots does not overflow.
pub mod Signed
pub mod Slots
pub mod Ticks
pub mod Tests
use connaxis.Prelude.{
  ℕ, zero, suc, ◌+◌, ◌-◌, ◌*◌, ◌/◌, ◌%◌, ◌^◌, Bool, true, false, Option, none, some, List, [], ◌∷◌,
  ltb, leb, ◌==◌, if◌then◌else◌, ℤ, pos, negsuc,
}
use connaxis.Prelude.Lists.{length, get_elem?, set, replicate}
use connaxis.TimeWheel.Signed.{int_add, int_mod, int_div, as_int32, same_int}

-- What the wheel reads of an `ITimer`.
pub record Timer : Type 0 where
  pub id : ℕ
  pub expriate : ℤ
  pub slot : ℤ

pub record TimeWheel : Type 0 where
  pub interval : ℕ
  pub slot_num : ℕ
  pub slots : List (List Timer)
  pub current_pos : ℕ

-- `NewTimeWheel`, for arguments that are not negative; none is nil.
pub new_time_wheel : ℕ → ℕ → Option TimeWheel
new_time_wheel interval slot_num =
    if interval == 0
    then none
    else if slot_num == 0
    then none
    else some (record {
      interval = interval;
      slot_num = slot_num;
      slots = replicate slot_num [];
      current_pos = 0;
    })

-- `delete(m.container, id)`
pub remove : ℕ → List Timer → List Timer
remove id [] = []
remove id (t ∷ ts) = let rest = remove id ts in if t.id == id then rest else t ∷ rest

-- `m.container[t.GetID()] = t`
pub insert : Timer → List Timer → List Timer
unfolding remove
insert t ts = t ∷ remove t.id ts

pub has_id : ℕ → List Timer → Bool
has_id id [] = false
has_id id (t ∷ ts) = if t.id == id then true else has_id id ts

-- `tw.slots[i]`
pub slot_at : TimeWheel → ℤ → Option (ℕ × List Timer)
slot_at tw (negsuc i) = none
slot_at tw (pos i) = elim (get_elem? tw.slots i) [ none ↦ none | some ts ↦ some (i, ts) ]

-- The change of one container.
abbrev pub with_slot : TimeWheel → ℕ → List Timer → TimeWheel
with_slot tw i ts = record tw { slots = set tw.slots i ts }

-- `OnTimeOut`: the timers whose `OnTimeOut` is started, and the wheel.
pub on_time_out : TimeWheel → Option (List Timer × TimeWheel)
unfolding slot_at
on_time_out tw = elim (slot_at tw (int_mod (as_int32 tw.current_pos) tw.slot_num)) [
  | none ↦ none
  | some (i, ts) ↦
      some (ts, record (with_slot tw i []) { current_pos = (tw.current_pos + 1) % 2 ^ 32 })
]

-- The slot for a timer that expires after `expriate`.
pub target : TimeWheel → ℤ → ℤ
target tw expriate =
    int_mod (int_add (int_mod (as_int32 tw.current_pos) tw.slot_num) (int_div expriate tw.interval))
      tw.slot_num

-- The removal of a timer from the slot that it was in, if that is one.
pub forget : TimeWheel → Timer → TimeWheel
unfolding slot_at remove
forget tw t = elim (slot_at tw t.slot) [
  | none ↦ tw
  | some (i, ts) ↦ with_slot tw i (remove t.id ts)
]

-- The end of `AddTimer`.
pub put_timer : TimeWheel → Timer → Option (TimeWheel × Timer)
unfolding slot_at insert target
put_timer tw t = elim (slot_at tw (target tw t.expriate)) [
  | none ↦ none
  | some (i, ts) ↦ let t' = record t { slot = pos i } in some (with_slot tw i (insert t' ts), t')
]

-- `AddTimer` with the expiry that the timer gave.
pub add_expiring : TimeWheel → Timer → ℤ → Option (Bool × TimeWheel × Timer)
unfolding forget put_timer
add_expiring tw t (negsuc n) = some (false, tw, t)
add_expiring tw t (pos n) =
    if ltb (tw.interval * tw.slot_num) n
    then some (false, tw, t)
    else (elim (put_timer (forget tw t) t) [ none ↦ none | some (tw', t') ↦ some (true, tw', t') ])

-- `AddTimer`: whether it added the timer, the wheel, and the timer.
pub add_timer : TimeWheel → Timer → Option (Bool × TimeWheel × Timer)
unfolding add_expiring
add_timer tw t = add_expiring tw t t.expriate

-- `DelTimer`
pub del_timer : TimeWheel → Timer → Option TimeWheel
unfolding slot_at remove
del_timer tw t = elim (slot_at tw t.slot) [
  | none ↦ none
  | some (i, ts) ↦ some (with_slot tw i (remove t.id ts))
]

-- `DelTimerByID`
pub del_timer_by_id : TimeWheel → ℤ → ℕ → Option (Bool × TimeWheel)
unfolding slot_at remove has_id
del_timer_by_id tw (negsuc i) id = none
del_timer_by_id tw (pos i) id =
    if leb tw.slot_num i then some (false, tw) else (elim (slot_at tw (pos i)) [
      | none ↦ none
      | some (i', ts) ↦
          if has_id id ts then some (true, with_slot tw i' (remove id ts)) else some (false, tw)
    ])

-- `RefreshTimer`
pub refresh_timer : TimeWheel → Timer → Option (Bool × TimeWheel × Timer)
unfolding add_timer del_timer target same_int
refresh_timer tw t =
    if same_int t.slot (negsuc 0)
    then (elim (add_timer tw t) [ none ↦ none | some (_, tw', t') ↦ some (true, tw', t') ])
    else if same_int (target tw t.expriate) t.slot
    then some (true, tw, t)
    else (elim (del_timer tw t) [
      | none ↦ none
      | some tw' ↦ (elim (add_timer tw' t) [
        | none ↦ none
        | some (_, tw'', t') ↦ some (true, tw'', t')
      ])
    ])
