-- ===== src/TimeWheel/Tests.antt =====
-- timer/timewheel.go: a wheel of three slots of ten.
use connaxis.Prelude.{ℕ, ◌≡◌, refl, none, some, List, [], ◌∷◌, pos, negsuc, true, arith}
use connaxis.TimeWheel.{Timer, TimeWheel, add_timer, on_time_out}
use connaxis.TimeWheel.Slots.{IsValid, Placed, add_timer_lem}
use connaxis.TimeWheel.Ticks.{
  ticks, add_timer-on_time_out, add_timer-full_turn, on_time_out-negative,
}

-- After seven ticks, with a timer in a slot of its own.
abbrev older : Timer
older = record { id = 4; expriate = pos 5; slot = pos 2 }

abbrev wheel : TimeWheel
wheel = record { interval = 10; slot_num = 3; slots = [] ∷ [] ∷ (older ∷ []) ∷ []; current_pos = 7 }

wheel-IsValid : IsValid wheel
wheel-IsValid = record {
  interval_pos = omega arith;
  some_slots = omega arith;
  sized = refl;
  early = omega arith;
}

abbrev fresh : ℕ → Timer
fresh e = record { id = 9; expriate = pos e; slot = negsuc 0 }

add_timer_lem_example :
    (tw' : TimeWheel) × (t' : Timer) × (add_timer wheel (fresh 15) ≡ some (true, tw', t'))
    × Placed wheel (fresh 15) 2 tw' t'
add_timer_lem_example = add_timer_lem wheel (fresh 15) 15 wheel-IsValid refl (omega arith)

add_timer-on_time_out_example :
    (tw1 tw2 tw3 : TimeWheel) × (t' : Timer) × (rest : List Timer) × (add_timer wheel (fresh 25)
      ≡ some (true, tw1, t'))
    × (ticks 2 tw1 ≡ some tw2)
    × (on_time_out tw2 ≡ some (t' ∷ rest, tw3))
    × (t'.id ≡ 9)
add_timer-on_time_out_example =
    add_timer-on_time_out wheel (fresh 25) 25 wheel-IsValid refl (omega arith) (omega arith)

add_timer-full_turn_example :
    (tw1 tw2 : TimeWheel) × (t' : Timer) × (rest : List Timer) × (add_timer wheel (fresh 30)
      ≡ some (true, tw1, t'))
    × (on_time_out tw1 ≡ some (t' ∷ rest, tw2))
    × (t'.id ≡ 9)
add_timer-full_turn_example = add_timer-full_turn wheel (fresh 30) wheel-IsValid refl (omega arith)

abbrev worn : TimeWheel
worn = record wheel { current_pos = 2147483648 }

on_time_out-negative_example : on_time_out worn ≡ none
on_time_out-negative_example = on_time_out-negative worn (omega arith) (omega arith) (omega arith)
