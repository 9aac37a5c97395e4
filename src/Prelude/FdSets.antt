-- ===== src/Prelude/FdSets.antt =====
-- Sets of file descriptors, as Go's map[int]bool: lists without an order that matters.
use Prim.Native.Nat.{ℕ}
use mathlib.Core.Path.{◌≡◌, refl}
use mathlib.Core.Logic.{inl, inr}
use mathlib.Core.Bool.{Bool, false, not, ◌&&◌, ◌||◌}
use mathlib.Core.List.{List, [], ◌∷◌}
use native.Mathlib.Omega.{arith}
use connaxis.Prelude.Tests.{◌==◌, if◌then◌else◌, Bool-cases, ==→eq}

-- Whether `_, ok := m[fd]` reports the key.
abbrev pub member : ℕ → List ℕ → Bool
member fd [] = false
member fd (x ∷ xs) = (x == fd) || member fd xs

-- `m[fd] = true`
abbrev pub insert_fd : ℕ → List ℕ → List ℕ
insert_fd fd xs = if member fd xs then xs else fd ∷ xs

-- `delete(m, fd)`
abbrev pub delete_fd : ℕ → List ℕ → List ℕ
delete_fd fd [] = []
delete_fd fd (x ∷ xs) = let rest = delete_fd fd xs in if x == fd then rest else x ∷ rest

pub member-insert_fd :
    (fd other : ℕ) (xs : List ℕ) → member other (insert_fd fd xs) ≡ (fd == other) || member other xs
member-insert_fd fd other xs = elim (Bool-cases (member fd xs)) [
  | inr new ↦ rw new refl
  | inl old ↦ elim (Bool-cases (fd == other)) [
    | inr apart ↦ rw (old, apart) refl
    | inl same ↦ rw (old, same) (rw (← ==→eq fd other same) old)
  ]
]

pub member-delete_fd :
    (fd other : ℕ) (xs : List ℕ)
    → member other (delete_fd fd xs) ≡ not (fd == other) && member other xs
member-delete_fd fd other [] = ground arith
member-delete_fd fd other (x ∷ xs) = ground (arith, member-delete_fd fd other xs)
