-- ===== src/Loop/Touch/Checkers.antt =====
-- eventloop/loopConn.go: `touchMap` as a map, and what a close does to it.
use connaxis.Prelude.{
  ℕ, ◌≡◌, ◌≢◌, refl, sym, ◌∙◌, inl, inr, none, List, [], ◌∷◌, Bool-cases, ==→eq, ◌==◌,
}
use connaxis.Loop.State.{Base, LoopConn, ConnChecker}
use connaxis.Loop.Touch.{checker_of, delete_checker, forget_touch, checks_idle}

pub checker_of-deleted :
    (id : ℕ) (ts : List (ℕ × ConnChecker)) → checker_of id (delete_checker id ts) ≡ none
unfolding checker_of delete_checker
checker_of-deleted id [] = refl
checker_of-deleted id ((k, t) ∷ ts) = elim (Bool-cases (k == id)) [
  | inl same ↦ rw (same, delete_checker) (checker_of-deleted id ts)
  | inr other ↦ rw (other, delete_checker, checker_of, other) (checker_of-deleted id ts)
]

pub checker_of-other :
    (id other : ℕ) (ts : List (ℕ × ConnChecker))
    → other ≢ id
    → checker_of other (delete_checker id ts) ≡ checker_of other ts
unfolding checker_of delete_checker
checker_of-other id other [] apart = refl
checker_of-other id other ((k, t) ∷ ts) apart = elim (Bool-cases (k == id)) [
  | inl same ↦ elim (Bool-cases (k == other)) [
    | inl both ↦ absurd (apart (sym (==→eq k other both) ∙ ==→eq k id same))
    | inr ne ↦ rw (same, ne, delete_checker, checker_of) (checker_of-other id other ts apart)
  ]
  | inr ne ↦ elim (Bool-cases (k == other)) [
    | inl both ↦ rw (ne, both, delete_checker, checker_of) refl
    | inr ne' ↦ rw (ne, ne', delete_checker, checker_of) (checker_of-other id other ts apart)
  ]
]

module _ {S H : Type 0} where
  -- A connection without an entry is in no list.
  pub forget_touch_lem :
      (c : Base) (l : LoopConn S H)
      → checker_of c.id l.touch_map ≡ none
      → (forget_touch c l).check_list ≡ l.check_list
  unfolding forget_touch
  forget_touch_lem c l missing = elim (Bool-cases (checks_idle l)) [
    | inl checks ↦ rw (checks, missing, forget_touch) refl
    | inr never ↦ rw (never, forget_touch) refl
  ]

  pub forget_touch-other :
      (c : Base) (other : ℕ) (l : LoopConn S H)
      → other ≢ c.id
      → checker_of other (forget_touch c l).touch_map ≡ checker_of other l.touch_map
  unfolding forget_touch
  forget_touch-other c other l apart = elim (Bool-cases (checks_idle l)) [
    | inl checks ↦ rw (checks, forget_touch) (checker_of-other c.id other l.touch_map apart)
    | inr never ↦ rw (never, forget_touch) refl
  ]
