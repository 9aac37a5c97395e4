-- ===== src/Loop/Conns/Watch.antt =====
-- eventloop/loopConn.go: a connection that is attached goes to the end of `checkList`, which stays in order.
use connaxis.Prelude.{
  ◌+◌, ◌≡◌, refl, sym, ap, subst, ◌∙◌, true, false, some, List, [], ◌∷◌, ◌++◌, arith,
}
use connaxis.Prelude.Lists.{get_elem?}
use connaxis.Loop.State.{Base, LoopConn}
use connaxis.Loop.Touch.{delete_checker, checks_idle}
use connaxis.Loop.Touch.Order.{
  Kept, Apart, All-and, All-snoc, InOrder-snoc, elems-append, checker_of-put, checker_of-kept,
}
use connaxis.Loop.Turn.Idle.{Watched, All, elems, Behind, Holds}
use connaxis.Loop.Conns.{watch}

module _ {S H : Type 0} (l : LoopConn S H) (c : Base) where
  -- The entry that `attachClient` makes.
  entry : Watched
  entry = record {
    elem = record { mark = l.next_mark; conn = c.self };
    base = c;
    checker = record { touch = l.now_sec; elem_mark = l.next_mark };
  }

  watched : LoopConn S H
  watched = record l {
    touch_map = (c.id, entry.checker) ∷ delete_checker c.id l.touch_map;
    check_list = l.check_list ++ entry.elem ∷ [];
    next_mark = l.next_mark + 1;
  }

  -- A new connection with a new identity, and a new element.
  watch-Kept :
      (xs : List Watched)
      → checks_idle l ≡ true
      → c.client ≡ false
      → get_elem? l.conns c.self ≡ some c
      → Kept l xs
      → All (Apart entry) xs
      → Kept (watch c l) (xs ++ entry ∷ [])
  unfolding Kept watched watch entry elems
  watch-Kept xs checks dialled there (list, order, holds, own) apart =
      let after : watch c l ≡ watched = rw (checks, dialled, watch) refl in
      subst (λ v. Kept v (xs ++ entry ∷ [])) (sym after)
        (
          ap (λ es. es ++ entry.elem ∷ []) list ∙ sym (elems-append xs (entry ∷ [])),
          InOrder-snoc xs entry order (
              All-and (Apart entry) _ (λ y. Behind y entry)
                (λ y a o. ((λ e. a.0 (sym e)), (λ e. a.1 (sym e)), (λ e. a.2 (sym e)), o.1)) xs
                apart own),
          All-snoc _ xs entry
              (All-and (Apart entry) (Holds l) (Holds watched)
                (λ y a h.
                  (h.0, h.1, checker_of-kept c.id y.base.id entry.checker l.touch_map a.1 ∙ h.2))
                xs apart holds)
              (there, refl, checker_of-put c.id entry.checker l.touch_map),
          All-snoc _ xs entry own (refl, omega arith),
        )
