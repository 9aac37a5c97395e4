-- ===== src/Loop/Touch/Order.antt =====
-- eventloop/loopConn.go: a read moves its connection to the end of `checkList`, which stays in order.
use connaxis.Prelude.{
  ℕ, ◌≤◌, ◌≡◌, ◌≢◌, refl, sym, ap, ap₂, subst, ◌∙◌, inl, inr, true, false, some, List, [], ◌∷◌,
  ◌++◌, Bool-cases, ==→eq, ◌==◌, arith,
}
use connaxis.Loop.State.{Base, LoopConn, ConnChecker}
use connaxis.Loop.Touch.{
  checker_of, delete_checker, find_elem, remove_elem, move_to_back, checks_idle, touch_conn,
}
use connaxis.Loop.Touch.Checkers.{checker_of-other}
use connaxis.Loop.Turn.Idle.{Watched, All, elems, Behind, InOrder, All-map, Holds}

-- Two entries of the list are of different connections.
abbrev pub Apart : Watched → Watched → Type 0
Apart x y = (y.elem.conn ≢ x.elem.conn) × (y.base.id ≢ x.base.id) × (y.elem.mark ≢ x.elem.mark)

All-remove :
    (P : Watched → Type 0) (pre : List Watched) (x : Watched) (post : List Watched)
    → All P (pre ++ x ∷ post)
    → P x × All P (pre ++ post)
unfolding All
All-remove P [] x post (p, ps) = (p, ps)
All-remove P (y ∷ pre) x post (p, ps) = let (q, qs) = All-remove P pre x post ps in (q, (p, qs))

pub All-snoc :
    (P : Watched → Type 0) (xs : List Watched) (x : Watched) → All P xs → P x → All P (xs ++ x ∷ [])
unfolding All
All-snoc P [] x ps p = (p, tt)
All-snoc P (y ∷ xs) x (q, ps) p = (q, All-snoc P xs x ps p)

pub All-and :
    (P Q R : Watched → Type 0) (f : (x : Watched) → P x → Q x → R x) (xs : List Watched)
    → All P xs
    → All Q xs
    → All R xs
unfolding All
All-and P Q R f [] ps qs = tt
All-and P Q R f (x ∷ xs) (p, ps) (q, qs) = (f x p q, All-and P Q R f xs ps qs)

InOrder-remove :
    (pre : List Watched) (x : Watched) (post : List Watched)
    → InOrder (pre ++ x ∷ post)
    → InOrder (pre ++ post) × All (Apart x) (pre ++ post)
unfolding InOrder All
InOrder-remove [] x post (behind, order) =
    (order, All-map (Behind x) (Apart x) (λ y b. (b.0, b.1, b.2)) post behind)
InOrder-remove (y ∷ pre) x post (behind, order) =
    let (b, bs) = All-remove (Behind y) pre x post behind in
    let (order', apart) = InOrder-remove pre x post order in
    ((bs, order'), (((λ e. b.0 (sym e)), (λ e. b.1 (sym e)), (λ e. b.2 (sym e))), apart))

pub InOrder-snoc :
    (xs : List Watched) (x : Watched)
    → InOrder xs
    → All (λ y. Behind y x) xs
    → InOrder (xs ++ x ∷ [])
unfolding InOrder All
InOrder-snoc [] x order behind = (tt, tt)
InOrder-snoc (y ∷ xs) x (bs, order) (b, behind) =
    (All-snoc (Behind y) xs x bs b, InOrder-snoc xs x order behind)

pub elems-append : (xs ys : List Watched) → elems (xs ++ ys) ≡ elems xs ++ elems ys
unfolding elems
elems-append [] ys = refl
elems-append (x ∷ xs) ys = ap (◌∷◌ x.elem) (elems-append xs ys)

-- The list without an element of another mark.
remove_elem-absent :
    (x : Watched) (ys : List Watched)
    → All (Apart x) ys
    → remove_elem x.elem.mark (elems ys) ≡ elems ys
unfolding remove_elem elems All
remove_elem-absent x [] apart = refl
remove_elem-absent x (y ∷ ys) ((_, _, mark), apart) =
    elim (Bool-cases (y.elem.mark == x.elem.mark)) [
      | inl same ↦ absurd (mark (==→eq y.elem.mark x.elem.mark same))
      | inr other ↦ rw (other, remove_elem) (ap (◌∷◌ y.elem) (remove_elem-absent x ys apart))
    ]

-- And without the one at a place.
remove_elem-at :
    (pre : List Watched) (x : Watched) (post : List Watched)
    → All (Apart x) (pre ++ post)
    → remove_elem x.elem.mark (elems (pre ++ x ∷ post)) ≡ elems (pre ++ post)
unfolding remove_elem elems All
remove_elem-at [] x post apart = elim (Bool-cases (x.elem.mark == x.elem.mark)) [
  | inl same ↦ rw (same, remove_elem) (remove_elem-absent x post apart)
  | inr bad ↦ absurd (ground arith)
]
remove_elem-at (y ∷ pre) x post ((_, _, mark), apart) =
    elim (Bool-cases (y.elem.mark == x.elem.mark)) [
      | inl same ↦ absurd (mark (==→eq y.elem.mark x.elem.mark same))
      | inr other ↦ rw (other, remove_elem) (ap (◌∷◌ y.elem) (remove_elem-at pre x post apart))
    ]

find_elem-at :
    (pre : List Watched) (x : Watched) (post : List Watched)
    → All (Apart x) (pre ++ post)
    → find_elem x.elem.mark (elems (pre ++ x ∷ post)) ≡ some x.elem
unfolding find_elem elems All
find_elem-at [] x post apart = elim (Bool-cases (x.elem.mark == x.elem.mark)) [
  | inl same ↦ rw (same, find_elem) refl
  | inr bad ↦ absurd (ground arith)
]
find_elem-at (y ∷ pre) x post ((_, _, mark), apart) =
    elim (Bool-cases (y.elem.mark == x.elem.mark)) [
      | inl same ↦ absurd (mark (==→eq y.elem.mark x.elem.mark same))
      | inr other ↦ rw (other, find_elem) (find_elem-at pre x post apart)
    ]

-- Moving the element of an entry to the back.
move_to_back-elems :
    (pre : List Watched) (x x' : Watched) (post : List Watched)
    → x'.elem ≡ x.elem
    → All (Apart x) (pre ++ post)
    → move_to_back x.elem.mark (elems (pre ++ x ∷ post)) ≡ elems ((pre ++ post) ++ x' ∷ [])
unfolding move_to_back elems
move_to_back-elems pre x x' post same apart =
    rw (move_to_back, find_elem-at pre x post apart)
      (ap (λ es. es ++ x.elem ∷ []) (remove_elem-at pre x post apart)
        ∙ ap (λ e. elems (pre ++ post) ++ e ∷ []) (sym same)
        ∙ sym (elems-append (pre ++ post) (x' ∷ [])))

pub checker_of-put :
    (id : ℕ) (t : ConnChecker) (ts : List (ℕ × ConnChecker))
    → checker_of id ((id, t) ∷ delete_checker id ts) ≡ some t
unfolding checker_of
checker_of-put id t ts = elim (Bool-cases (id == id)) [
  | inl same ↦ rw (same, checker_of) refl
  | inr bad ↦ absurd (ground arith)
]

pub checker_of-kept :
    (id other : ℕ) (t : ConnChecker) (ts : List (ℕ × ConnChecker))
    → other ≢ id
    → checker_of other ((id, t) ∷ delete_checker id ts) ≡ checker_of other ts
unfolding checker_of
checker_of-kept id other t ts apart = elim (Bool-cases (id == other)) [
  | inl same ↦ absurd (apart (sym (==→eq id other same)))
  | inr ne ↦ rw (ne, checker_of) (checker_of-other id other ts apart)
]

-- The list is that of the entries, in order; the loop has an entry for each, none from the future.
unfoldable pub Kept : {S H : Type 0} → LoopConn S H → List Watched → Type 0
Kept l xs =
    (l.check_list ≡ elems xs)
    × InOrder xs
    × All (Holds l) xs
    × All (λ x. (x.checker.elem_mark ≡ x.elem.mark) × (x.checker.touch ≤ l.now_sec)) xs

-- The entry of a connection that was heard of now.
abbrev pub touched : ℕ → Watched → Watched
touched now x = record x { checker = record x.checker { touch = now } }

module _ {S H : Type 0} (l : LoopConn S H) where
  -- The loop after a read, with the entry that it found.
  moved : ℕ → ConnChecker → LoopConn S H
  moved id t = record l {
    touch_map = (id, record t { touch = l.now_sec }) ∷ delete_checker id l.touch_map;
    check_list = move_to_back t.elem_mark l.check_list;
  }

  touch_conn-moved :
      (c : Base) (t : ConnChecker)
      → checks_idle l ≡ true
      → c.client ≡ false
      → checker_of c.id l.touch_map ≡ some t
      → touch_conn c l ≡ moved c.id t
  unfolding touch_conn moved
  touch_conn-moved c t checks dialled found = rw (checks, dialled, found, touch_conn) refl

  moved-Holds :
      (x y : Watched) (t : ConnChecker) → Apart x y → Holds l y → Holds (moved x.base.id t) y
  unfolding moved
  moved-Holds x y t (_, id, _) (there, self, seen) = (
    there,
    self,
    checker_of-kept x.base.id y.base.id (record t { touch = l.now_sec }) l.touch_map id ∙ seen,
  )

  -- A read of a connection on the list, where idle connections are checked and it was not dialled, moves
  -- it to the end with the time of the read, and the list stays in the order in which its connections were
  -- last heard of.
  pub touch_conn-Kept :
      (pre : List Watched) (x : Watched) (post : List Watched) (c : Base)
      → c.id ≡ x.base.id
      → checks_idle l ≡ true
      → c.client ≡ false
      → Kept l (pre ++ x ∷ post)
      → Kept (touch_conn c l) ((pre ++ post) ++ touched l.now_sec x ∷ [])
  unfolding Kept moved
  touch_conn-Kept pre x post c id checks dialled (list, order, holds, own) =
      let ((there, self, seen), holds') = All-remove _ pre x post holds in
      let ((mark, past), own') = All-remove _ pre x post own in
      let (order', apart) = InOrder-remove pre x post order in
      let after =
        touch_conn-moved c x.checker checks dialled (ap (λ k. checker_of k l.touch_map) id ∙ seen)
        ∙ ap (λ k. moved k x.checker) id in
      subst (λ v. Kept v ((pre ++ post) ++ touched l.now_sec x ∷ [])) (sym after)
        (
          ap₂ move_to_back mark list
              ∙ move_to_back-elems pre x (touched l.now_sec x) post refl apart,
          InOrder-snoc (pre ++ post) (touched l.now_sec x) order' (
              All-and (Apart x) _ (λ y. Behind y (touched l.now_sec x))
                (λ y a o. ((λ e. a.0 (sym e)), (λ e. a.1 (sym e)), (λ e. a.2 (sym e)), o.1))
                (pre ++ post) apart own'),
          All-snoc _ (pre ++ post) (touched l.now_sec x)
              (All-and (Apart x) (Holds l) (Holds (moved x.base.id x.checker))
                (λ y. moved-Holds x y x.checker) (pre ++ post) apart holds')
              (there, self, checker_of-put x.base.id _ l.touch_map),
          All-snoc _ (pre ++ post) (touched l.now_sec x) own' (mark, omega arith),
        )
