-- ===== src/Loop/Touch.antt =====
-- eventloop/loopConn.go: when each connection was last heard of: `touchMap`, and `checkList` with the
-- connection that was silent for longest at the front.
pub mod Checkers
pub mod Order
use connaxis.Prelude.{
  Option-cases, Bool, ◌≡◌, refl, inl, inr, Bool-cases, ℕ, not, ◌&&◌, Option, none, some, List, [],
  ◌∷◌, ◌++◌, ltb, ◌==◌, if◌then◌else◌,
}
use connaxis.Loop.State.{Base, LoopConn, Element, ConnChecker}

-- `checkList.Remove(elem)`
unfoldable pub remove_elem : ℕ → List Element → List Element
remove_elem mark [] = []
remove_elem mark (e ∷ es) =
    let rest = remove_elem mark es in if e.mark == mark then rest else e ∷ rest

-- `touchMap[id]`
unfoldable pub checker_of : ℕ → List (ℕ × ConnChecker) → Option ConnChecker
checker_of id [] = none
checker_of id ((k, t) ∷ ts) = let rest = checker_of id ts in if k == id then some t else rest

-- `delete(touchMap, id)`
unfoldable pub delete_checker : ℕ → List (ℕ × ConnChecker) → List (ℕ × ConnChecker)
delete_checker id [] = []
delete_checker id ((k, t) ∷ ts) =
    let rest = delete_checker id ts in if k == id then rest else (k, t) ∷ rest

pub find_elem : ℕ → List Element → Option Element
find_elem mark [] = none
find_elem mark (e ∷ es) = let rest = find_elem mark es in if e.mark == mark then some e else rest

-- `checkList.MoveToBack(elem)`
unfoldable pub move_to_back : ℕ → List Element → List Element
unfolding find_elem
move_to_back mark es = elim (find_elem mark es) [
  | none ↦ es
  | some e ↦ remove_elem mark es ++ e ∷ []
]

module _ {S H : Type 0} where
  -- Whether idle connections are checked.
  unfoldable pub checks_idle : LoopConn S H → Bool
  checks_idle l = ltb 0 l.check_interval && ltb 0 l.idle_limit

  -- The part of `closeConn` that forgets when the connection was last heard of.
  unfoldable pub forget_touch : Base → LoopConn S H → LoopConn S H
  unfolding checker_of remove_elem delete_checker checks_idle
  forget_touch c l = record l {
    check_list =
        if checks_idle l
        then (elim (checker_of c.id l.touch_map) [
          | none ↦ l.check_list
          | some t ↦ remove_elem t.elem_mark l.check_list
        ])
        else l.check_list;
    touch_map = if checks_idle l then delete_checker c.id l.touch_map else l.touch_map;
  }

  -- A read sets the time, only where idle connections are checked, and not for those that were dialled.
  unfoldable pub touch_conn : Base → LoopConn S H → LoopConn S H
  unfolding move_to_back
  touch_conn c l =
      if checks_idle l && not c.client
      then (elim (checker_of c.id l.touch_map) [
        | none ↦ l
        | some t ↦ record l {
          touch_map = (c.id, record t { touch = l.now_sec }) ∷ delete_checker c.id l.touch_map;
          check_list = move_to_back t.elem_mark l.check_list;
        }
      ])
      else l

  -- Only the list and the map.
  pub touch_conn-frame :
      (c : Base) (l : LoopConn S H)
      → touch_conn c l ≡ record l {
        check_list = (touch_conn c l).check_list;
        touch_map = (touch_conn c l).touch_map;
      }
  unfolding touch_conn
  touch_conn-frame c l = elim (Bool-cases (checks_idle l && not c.client)) [
    | inr never ↦ rw (never, touch_conn) refl
    | inl watches ↦ elim (Option-cases (checker_of c.id l.touch_map)) [
      | inl missing ↦ rw (watches, missing, touch_conn) refl
      | inr (t, found) ↦ rw (watches, found, touch_conn) refl
    ]
  ]
