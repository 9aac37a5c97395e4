-- ===== src/TimeWheel/Ticks.antt =====
-- timer/timewheel.go: when a timer is fired.
use native.Mathlib.Nat.{lt_of_mul-lt-mul_right, div-mul-le_self, mul-div_cancel_left, add-mod_right}
use connaxis.Prelude.{
  ℕ, zero, suc, ◌+◌, ◌-◌, ◌*◌, ◌/◌, ◌%◌, ◌^◌, ◌≤◌, ◌<◌, ◌≡◌, refl, sym, ap, ◌∙◌, true, Option, none,
  some, List, [], ◌∷◌, arith, pos, negsuc, ge→ltb,
}
use connaxis.Prelude.Lists.{get_elem?, get_elem?-set_other}
use connaxis.Prelude.Modulo.{mod-apart}
use connaxis.TimeWheel.Signed.{as_int32, int_mod, negated}
use connaxis.TimeWheel.{Timer, TimeWheel, slot_at, on_time_out, add_timer}
use connaxis.TimeWheel.Slots.{IsValid, on_time_out_lem, add_timer_lem}

-- The wheel after some ticks.
pub ticks : ℕ → TimeWheel → Option TimeWheel
ticks zero tw = some tw
ticks (suc k) tw = elim (on_time_out tw) [ none ↦ none | some (_, tw') ↦ ticks k tw' ]

-- A slot that lies ahead stays as it is until the wheel comes to it.
ticks-keep :
    (k : ℕ) (tw : TimeWheel) (ts : List Timer)
    → IsValid tw
    → k < tw.slot_num
    → tw.current_pos + k < 2 ^ 31
    → get_elem? tw.slots ((tw.current_pos + k) % tw.slot_num) ≡ some ts
    → (tw' : TimeWheel) × (ticks k tw ≡ some tw')
      × IsValid tw'
      × (tw'.current_pos ≡ tw.current_pos + k)
      × (tw'.slot_num ≡ tw.slot_num)
      × (get_elem? tw'.slots (tw'.current_pos % tw'.slot_num) ≡ some ts)
unfolding ticks
ticks-keep zero tw ts v ahead early there = (
  tw,
  refl,
  v,
  omega arith,
  refl,
  ap (λ p. get_elem? tw.slots (p % tw.slot_num)) {x = tw.current_pos} {y = tw.current_pos + 0}
        (omega arith)
      ∙ there,
)
ticks-keep (suc k) tw ts v ahead early there =
    let (fired, tw1, e, _, v1, moved, same, slots) = on_time_out_lem tw v (omega arith) in
    let apart = mod-apart tw.current_pos (suc k) tw.slot_num (omega arith) ahead in
    let there1 : get_elem? tw1.slots ((tw1.current_pos + k) % tw1.slot_num) ≡ some ts =
      ap (λ p. get_elem? tw1.slots (p % tw1.slot_num)) {x = tw1.current_pos + k}
        {y = tw.current_pos + suc k} (omega arith)
      ∙ ap (λ n. get_elem? tw1.slots ((tw.current_pos + suc k) % n)) same
      ∙ ap (λ s. get_elem? s ((tw.current_pos + suc k) % tw.slot_num)) slots
      ∙ get_elem?-set_other tw.slots (tw.current_pos % tw.slot_num)
          ((tw.current_pos + suc k) % tw.slot_num) [] (λ e. apart (sym e))
      ∙ there in
    let (tw2, e2, v2, moved2, same2, there2) =
      ticks-keep k tw1 ts v1 (omega arith) (omega arith) there1 in
    (tw2, rw (e, ticks) e2, v2, omega arith, same2 ∙ same, there2)

-- A timer whose expiry is below one turn of a well-formed wheel is added, and it is among the timers
-- that the tick after expiry / interval further ticks starts; none of those ticks panics, as long as
-- the position stays a positive int32.
pub add_timer-on_time_out :
    (tw : TimeWheel) (t : Timer) (e : ℕ)
    → IsValid tw
    → t.expriate ≡ pos e
    → e < tw.interval * tw.slot_num
    → tw.current_pos + e / tw.interval + 1 < 2 ^ 31
    → (tw1 tw2 tw3 : TimeWheel) × (t' : Timer) × (rest : List Timer) × (add_timer tw t
        ≡ some (true, tw1, t'))
      × (ticks (e / tw.interval) tw1 ≡ some tw2)
      × (on_time_out tw2 ≡ some (t' ∷ rest, tw3))
      × (t'.id ≡ t.id)
add_timer-on_time_out tw t e v expires short early =
    let (tw1, t', added, (v1, (i1, n1, p1), named, (rest, there))) =
      add_timer_lem tw t e v expires (omega arith) in
    let q = e / tw.interval in
    let within : q < tw.slot_num =
      lt_of_mul-lt-mul_right tw.interval (grind (arith, div-mul-le_self e tw.interval, short)) in
    let place : (tw1.current_pos + q) % tw1.slot_num ≡ (tw.current_pos + q) % tw.slot_num =
      rw (n1, p1) refl in
    let (tw2, ran, v2, p2, n2, there2) =
      ticks-keep q tw1 (t' ∷ rest) v1 (omega (arith, n1)) (omega (arith, p1))
        (ap (get_elem? tw1.slots) place ∙ there) in
    let (fired, tw3, e3, found, _, _, _, _) = on_time_out_lem tw2 v2 (omega (arith, p1)) in
    let same : fired ≡ t' ∷ rest = cc in
    (
      tw1,
      tw2,
      tw3,
      t',
      rest,
      added,
      ran,
      e3 ∙ ap (λ f. some (f, tw3)) same,
      ap (λ (x : Timer). x.id) named,
    )

-- A timer whose expiry is exactly one turn is added too, but into the current slot: the very next tick
-- starts it, one turn early.
pub add_timer-full_turn :
    (tw : TimeWheel) (t : Timer)
    → IsValid tw
    → t.expriate ≡ pos (tw.interval * tw.slot_num)
    → tw.current_pos + 1 < 2 ^ 31
    → (tw1 tw2 : TimeWheel) × (t' : Timer) × (rest : List Timer) × (add_timer tw t
        ≡ some (true, tw1, t'))
      × (on_time_out tw1 ≡ some (t' ∷ rest, tw2))
      × (t'.id ≡ t.id)
add_timer-full_turn tw t v expires early =
    let e = tw.interval * tw.slot_num in
    let (tw1, t', added, (v1, (i1, n1, p1), named, (rest, there))) =
      add_timer_lem tw t e v expires (omega arith) in
    let (fired, tw2, e2, found, _, _, _, _) = on_time_out_lem tw1 v1 (omega (arith, p1)) in
    let here : (tw.current_pos + e / tw.interval) % tw.slot_num ≡ tw1.current_pos % tw1.slot_num =
      ap (λ q. (tw.current_pos + q) % tw.slot_num) (mul-div_cancel_left tw.slot_num v.interval_pos)
      ∙ add-mod_right tw.current_pos tw.slot_num
      ∙ rw (n1, p1) refl in
    let there' = sym (ap (get_elem? tw1.slots) here) ∙ there in
    let same : fired ≡ t' ∷ rest = cc in
    (tw1, tw2, t', rest, added, e2 ∙ ap (λ f. some (f, tw2)) same, ap (λ (x : Timer). x.id) named)

negated-pos : (k : ℕ) → 0 < k → (m : ℕ) × (negated k ≡ negsuc m)
unfolding negated
negated-pos zero h = absurd (omega arith)
negated-pos (suc m) h = (m, refl)

-- Once the position has wrapped to a negative int32 that is not a multiple of the slots, a tick
-- panics: the index of the slot is negative.
pub on_time_out-negative :
    (tw : TimeWheel)
    → 2 ^ 31 ≤ tw.current_pos
    → tw.current_pos < 2 ^ 32
    → 0 < (2 ^ 32 - tw.current_pos) % tw.slot_num
    → on_time_out tw ≡ none
unfolding on_time_out as_int32 int_mod slot_at
on_time_out-negative tw wrapped small odd =
    let late = ge→ltb tw.current_pos (2 ^ 31) wrapped in
    let left : 2 ^ 32 - 1 - tw.current_pos + 1 ≡ 2 ^ 32 - tw.current_pos = omega arith in
    let (m, below) = negated-pos ((2 ^ 32 - 1 - tw.current_pos + 1) % tw.slot_num) (rw left odd) in
    rw (late, as_int32, below, on_time_out) refl
