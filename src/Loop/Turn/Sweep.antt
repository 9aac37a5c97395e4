-- ===== src/Loop/Turn/Sweep.antt =====
-- eventloop/loopConn.go: `onIdle` closes the connections that were silent for too long, and no others.
use connaxis.Prelude.{
  ℕ, ◌-◌, ◌≤◌, ◌<◌, ◌≡◌, ◌≢◌, refl, sym, ap, subst, ◌∙◌, ◌⊎◌, inl, inr, Bool, true, false, not,
  some, List, [], ◌∷◌, ◌++◌, Bool-cases, ltb, leb, ◌==◌, ◌&&◌, arith,
}
use connaxis.Prelude.Lists.{get_elem?, set, get_elem?-set_same, get_elem?-set_other}
use connaxis.Alloc.{Allocator}
use connaxis.Kernel.{Kernel}
use connaxis.Tuning.{Globals}
use connaxis.Loop.State.{Base, LoopConn, Element}
use connaxis.Loop.Touch.Order.{Kept}
use connaxis.Loop.Turn.{idle_loop, on_idle}
use connaxis.Loop.Turn.Idle.{
  Watched, All, elems, Behind, InOrder, All-map, apart_from, get_elem?-bound, Holds, close_idle,
  close_idle-clock, close_idle-conns, close_idle-Holds,
}

module _ {S H : Type 0} where
  -- An entry that was silent for longer than the limit, and one that was not.
  abbrev pub Overdue : LoopConn S H → LoopConn S H → Watched → Type 0
  Overdue l l' x =
      (l.idle_limit < l.now_sec - x.checker.touch)
      × ((c' : Base) × (get_elem? l'.conns x.elem.conn ≡ some c') × (c'.fd ≡ 0))

  abbrev pub Recent : LoopConn S H → LoopConn S H → Watched → Type 0
  Recent l l' x = (l.now_sec - x.checker.touch ≤ l.idle_limit) × Holds l' x

  -- The list is cut in two: what was overdue is closed and off the list, the rest is recent and as it was.
  abbrev pub Swept : LoopConn S H → List Watched → LoopConn S H → Type 0
  Swept l xs l' =
      (gone : List Watched) × (rest : List Watched) × (xs ≡ gone ++ rest)
      × (l'.check_list ≡ elems rest)
      × All (Overdue l l') gone
      × All (Recent l l') rest

  abbrev Untouched : LoopConn S H → List Watched → LoopConn S H → Type 0
  Untouched l xs l' =
      (k : ℕ) → All (λ x. x.elem.conn ≢ k) xs → get_elem? l'.conns k ≡ get_elem? l.conns k

  -- Whether the idle connections are looked at now.
  abbrev pub due : LoopConn S H → Bool
  due l =
      not (l.last_check == 0)
      && (ltb 0 l.check_interval && leb l.check_interval (l.now_sec - l.last_check))
      && ltb 0 l.idle_limit

module _ (al : Allocator) (kernel : Kernel) (globals : Globals) {H : Type 0} where
  -- Where the front is recent the rest is.
  rest-Recent :
      (x : Watched) (xs : List Watched) (l : LoopConn al.State H)
      → l.now_sec - x.checker.touch ≤ l.idle_limit
      → All (Behind x) xs
      → All (Holds l) xs
      → All (Recent l l) xs
  unfolding All
  rest-Recent x [] l recent behind holds = tt
  rest-Recent x (y ∷ ys) l recent ((_, _, _, later), behind) (there, holds) =
      ((omega arith, there), rest-Recent x ys l recent behind holds)

  rest-Holds :
      (x : Watched) (xs : List Watched) (es : List Element) (l : LoopConn al.State H)
      → x.base.self ≡ x.elem.conn
      → All (Behind x) xs
      → All (Holds l) xs
      → All (Holds (close_idle al kernel globals x es l)) xs
  unfolding All
  rest-Holds x [] es l own behind holds = tt
  rest-Holds x (y ∷ ys) es l own (later, behind) (there, holds) = (
    close_idle-Holds al kernel globals x y es l own later there,
    rest-Holds x ys es l own behind holds,
  )

  -- What a round does is kept by the later ones, whose clock is the same.
  gone_first :
      (x : Watched) (xs : List Watched) (l l' : LoopConn al.State H)
      → Overdue l l' x
      → Swept (close_idle al kernel globals x (elems xs) l) xs l'
      → Swept l (x ∷ xs) l'
  unfolding All
  gone_first x xs l l' first (gone, rest, cut, list, over, recent) =
      let (_, now, limit) = close_idle-clock al kernel globals x (elems xs) l in
      (
        x ∷ gone,
        rest,
        ap (◌∷◌ x) cut,
        list,
        (
          first,
          All-map (Overdue (close_idle al kernel globals x (elems xs) l) l') (Overdue l l')
              (λ y o. (omega (arith, o.0, now, limit), o.1)) gone over,
        ),
        All-map (Recent (close_idle al kernel globals x (elems xs) l) l') (Recent l l')
            (λ y r. (omega (arith, r.0, now, limit), r.1)) rest recent,
      )

  closes_then :
      (x : Watched) (xs : List Watched) (l l' : LoopConn al.State H)
      → Holds l x
      → l.idle_limit < l.now_sec - x.checker.touch
      → All (Behind x) xs
      → Swept (close_idle al kernel globals x (elems xs) l) xs l'
      → Untouched (close_idle al kernel globals x (elems xs) l) xs l'
      → Swept l (x ∷ xs) l' × Untouched l (x ∷ xs) l'
  unfolding All
  closes_then x xs l l' (there, own, seen) over behind swept others =
      let (c', closed, conns) = close_idle-conns al kernel globals x (elems xs) l in
      (
        gone_first x xs l l'
            (
              over,
              (
                c',
                others x.elem.conn (apart_from x xs behind)
                    ∙ ap (λ k. get_elem? k x.elem.conn) conns
                    ∙ ap (λ k. get_elem? (set l.conns k c') x.elem.conn) own
                    ∙ get_elem?-set_same l.conns x.elem.conn c'
                        (get_elem?-bound l.conns x.elem.conn x.base there),
                closed,
              ),
            )
            swept,
        λ k (apart, rest).
            others k rest
            ∙ ap (λ v. get_elem? v k) conns
            ∙ get_elem?-set_other l.conns x.base.self k c' (λ e. apart (sym own ∙ e)),
      )

  idle_loop_lem :
      (xs : List Watched) (l : LoopConn al.State H)
      → l.check_list ≡ elems xs
      → InOrder xs
      → All (Holds l) xs
      → let l' = idle_loop al kernel globals (elems xs) l in Swept l xs l' × Untouched l xs l'
  unfolding idle_loop elems InOrder All close_idle
  idle_loop_lem [] l list order holds = (([], [], refl, list, tt, tt), λ k apart. refl)
  idle_loop_lem (x ∷ xs) l list (behind, order) ((there, own, seen), holds) =
      elim (Bool-cases (ltb l.idle_limit (l.now_sec - x.checker.touch))) [
        | inr recent ↦
            rw (idle_loop, there, seen, recent)
              (let r : l.now_sec - x.checker.touch ≤ l.idle_limit = ground arith in
                (
                  (
                    [],
                    x ∷ xs,
                    refl,
                    list,
                    tt,
                    ((r, (there, own, seen)), rest-Recent x xs l r behind holds),
                  ),
                  λ k apart. refl,
                ))
        | inl over ↦
            let (list', _, _) = close_idle-clock al kernel globals x (elems xs) l in
            let (swept, others) =
              idle_loop_lem xs (close_idle al kernel globals x (elems xs) l) list' order
                (rest-Holds x xs (elems xs) l own behind holds) in
            rw (idle_loop, there, seen, over)
              (closes_then x xs l
                (idle_loop al kernel globals (elems xs)
                  (close_idle al kernel globals x (elems xs) l))
                (there, own, seen) (ground arith) behind swept others)
      ]

  -- `onIdle`, where `checkList` is kept in the order in which its connections were last heard of: if a check is
  -- due, the connections that were silent for longer than the limit are closed and off the list, and all of
  -- those that stay on it were not, and are as they were; if none is due, nothing is closed.
  pub on_idle_lem :
      (xs : List Watched) (l : LoopConn al.State H)
      → Kept l xs
      → let l' = on_idle al kernel globals l in
        (due l ≡ true) × Swept l xs l'
        ⊎ (due l ≡ false) × (l'.conns ≡ l.conns) × (l'.check_list ≡ l.check_list)
  unfolding on_idle Kept
  on_idle_lem xs l (list, order, holds, _) = elim (Bool-cases (l.last_check == 0)) [
    | inl first ↦ rw (on_idle, first) (inr (refl, refl, refl))
    | inr checked ↦
        elim (Bool-cases
          (ltb 0 l.check_interval && leb l.check_interval (l.now_sec - l.last_check))) [
            | inr early ↦ rw (on_idle, checked, early) (inr (refl, refl, refl))
            | inl passed ↦ elim (Bool-cases (ltb 0 l.idle_limit)) [
              | inr never ↦ rw (on_idle, checked, passed, never) (inr (refl, refl, refl))
              | inl limited ↦
                  let l₁ : LoopConn al.State H = record l { last_check = l.now_sec } in
                  rw (on_idle, checked, passed, limited)
                    (inl (
                      refl,
                      subst (λ es. Swept l xs (idle_loop al kernel globals es l₁)) (sym list)
                          (idle_loop_lem xs l₁ list order holds).0,
                    ))
            ]
          ]
  ]
