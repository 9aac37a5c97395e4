-- ===== src/Prelude/Modulo.antt =====
-- Indices reduced by a size, and how they move.
use Prim.Native.Nat.{ℕ, ◌+◌, ◌-◌, ◌%◌, ◌≤◌, ◌<◌}
use mathlib.Core.Path.{◌≡◌, sym, ◌∙◌}
use mathlib.Core.Logic.{inl, inr}
use native.Mathlib.Nat.{mod-add-mod, mod-eq_of_lt, mod-eq-sub-mod, mod-lt}
use native.Mathlib.Omega.{arith}
use connaxis.Prelude.Tests.{ltb, ltb→lt, ltb→le, Bool-cases}

-- Indices a step of at most the size apart, reduced.
module _ (a d s : ℕ) (small : d ≤ s) (pos : 0 < s) where
  pub mod-step : a % s + d < s → (a + d) % s ≡ a % s + d
  mod-step h = sym (mod-add-mod a s d) ∙ mod-eq_of_lt h

  pub mod-step_round : s ≤ a % s + d → (a + d) % s ≡ a % s + d - s
  mod-step_round h =
      sym (mod-add-mod a s d)
      ∙ mod-eq-sub-mod {n = a % s + d} {m = s} h
      ∙ mod-eq_of_lt (omega (arith, mod-lt a pos))

-- Two indices less than a turn apart are different.
pub mod-apart : (a d s : ℕ) → 0 < d → d < s → (a + d) % s ≡ a % s → ⊥
mod-apart a d s some_way less e = elim (Bool-cases (ltb (a % s + d) s)) [
  | inl short ↦
      let step = mod-step a d s (omega arith) (omega arith) (ltb→lt _ _ short) in
      absurd (omega arith)
  | inr round ↦
      let step = mod-step_round a d s (omega arith) (omega arith) (ltb→le _ _ round) in
      absurd (omega (arith, ltb→le _ _ round))
]
