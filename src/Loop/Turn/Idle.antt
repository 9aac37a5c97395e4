-- ===== src/Loop/Turn/Idle.antt =====
-- eventloop/loopConn.go: a round of the loop of `onIdle`, and what it keeps.
use connaxis.Prelude.{
  ℕ, zero, suc, ◌≤◌, ◌<◌, ◌≡◌, ◌≢◌, sym, ap, ◌∙◌, inl, inr, some, List, [], ◌∷◌, arith,
}
use connaxis.Prelude.Lists.{length, get_elem?, set, get_elem?-set_other}
use connaxis.Alloc.{Allocator}
use connaxis.Kernel.{Kernel}
use connaxis.Tuning.{Globals}
use connaxis.Loop.State.{Base, LoopConn, Element, ConnChecker, close_by_anti_idle}
use connaxis.Loop.Touch.{checker_of, delete_checker}
use connaxis.Loop.Touch.Checkers.{
  checker_of-deleted, checker_of-other, forget_touch_lem, forget_touch-other,
}
use connaxis.Loop.Send.{close_conn}
use connaxis.Loop.Send.Close.{close_conn-others, close_conn-self, close_conn-fd, close_conn-clock}
use connaxis.Loop.Conns.{keep}

-- An element of `checkList` with its connection and when that was last heard of.
pub record Watched : Type 0 where
  pub elem : Element
  pub base : Base
  pub checker : ConnChecker

unfoldable pub All {ℓ} : {A : Type ℓ} → (A → Type 0) → List A → Type 0
All P [] = Unit
All P (x ∷ xs) = P x × All P xs

unfoldable pub elems : List Watched → List Element
elems [] = []
elems (x ∷ xs) = x.elem ∷ elems xs

-- Another connection with another element, which was heard of no earlier.
abbrev pub Behind : Watched → Watched → Type 0
Behind x y =
    (y.elem.conn ≢ x.elem.conn)
    × (y.base.id ≢ x.base.id)
    × (y.elem.mark ≢ x.elem.mark)
    × (x.checker.touch ≤ y.checker.touch)

-- The list is in the order in which its connections were last heard of.
unfoldable pub InOrder : List Watched → Type 0
unfolding All
InOrder [] = Unit
InOrder (x ∷ xs) = All (Behind x) xs × InOrder xs

pub All-map :
    {A : Type 0} (P Q : A → Type 0) (f : (x : A) → P x → Q x) (xs : List A) → All P xs → All Q xs
unfolding All
All-map P Q f [] h = tt
All-map P Q f (x ∷ xs) (p, ps) = (f x p, All-map P Q f xs ps)

pub apart_from :
    (x : Watched) (xs : List Watched) → All (Behind x) xs → All (λ y. y.elem.conn ≢ x.elem.conn) xs
apart_from x xs = All-map (Behind x) (λ y. y.elem.conn ≢ x.elem.conn) (λ y b. b.0) xs

pub get_elem?-bound :
    {A : Type 0} (xs : List A) (i : ℕ) (x : A) → get_elem? xs i ≡ some x → i < length xs
get_elem?-bound [] i x e = absurd (cc)
get_elem?-bound (y ∷ ys) zero x e = omega arith
get_elem?-bound (y ∷ ys) (suc i) x e = omega (arith, get_elem?-bound ys i x e)

-- What the loop knows of an entry.
abbrev pub Holds : {S H : Type 0} → LoopConn S H → Watched → Type 0
Holds l x =
    (get_elem? l.conns x.elem.conn ≡ some x.base)
    × (x.base.self ≡ x.elem.conn)
    × (checker_of x.base.id l.touch_map ≡ some x.checker)

module _ (al : Allocator) (kernel : Kernel) (globals : Globals) {H : Type 0} where
  -- A round of the loop: the connection at the front is closed.
  unfoldable pub close_idle : Watched → List Element → LoopConn al.State H → LoopConn al.State H
  close_idle x es l = keep (
      close_conn al kernel globals x.base close_by_anti_idle
        (record l { check_list = es; touch_map = delete_checker x.base.id l.touch_map }))

  -- The loop before that close.
  removed : Watched → List Element → LoopConn al.State H → LoopConn al.State H
  removed x es l = record l { check_list = es; touch_map = delete_checker x.base.id l.touch_map }

  -- The list and the clock stay.
  pub close_idle-clock :
      (x : Watched) (es : List Element) (l : LoopConn al.State H)
      → ((close_idle x es l).check_list ≡ es)
        × ((close_idle x es l).now_sec ≡ l.now_sec)
        × ((close_idle x es l).idle_limit ≡ l.idle_limit)
  unfolding close_idle keep removed
  close_idle-clock x es l =
      let (now, limit, kept) =
        close_conn-clock al kernel globals x.base close_by_anti_idle (removed x es l) in
      elim kept [
        | inl (list, _) ↦ (list, now, limit)
        | inr (list, _) ↦ (
          list
              ∙ forget_touch_lem x.base (removed x es l) (checker_of-deleted x.base.id l.touch_map),
          now,
          limit,
        )
      ]

  -- Only the object of the connection changes.
  pub close_idle-conns :
      (x : Watched) (es : List Element) (l : LoopConn al.State H)
      → (c' : Base) × (c'.fd ≡ 0) × ((close_idle x es l).conns ≡ set l.conns x.base.self c')
  unfolding close_idle keep removed
  close_idle-conns x es l =
      let (c', l') = close_conn al kernel globals x.base close_by_anti_idle (removed x es l) in
      let (_, _, _, conns) =
        close_conn-others al kernel globals x.base close_by_anti_idle (removed x es l) in
      (
        c',
        close_conn-fd al kernel globals x.base close_by_anti_idle (removed x es l),
        ap (λ k. set k c'.self c') conns
            ∙ ap (λ k. set l.conns k c')
                (close_conn-self al kernel globals x.base close_by_anti_idle (removed x es l)),
      )

  close_idle-checker :
      (x y : Watched) (es : List Element) (l : LoopConn al.State H)
      → y.base.id ≢ x.base.id
      → checker_of y.base.id (close_idle x es l).touch_map ≡ checker_of y.base.id l.touch_map
  unfolding close_idle keep removed
  close_idle-checker x y es l apart =
      let (_, _, kept) =
        close_conn-clock al kernel globals x.base close_by_anti_idle (removed x es l) in
      elim kept [
        | inl (_, map) ↦
            ap (checker_of y.base.id) map ∙ checker_of-other x.base.id y.base.id l.touch_map apart
        | inr (_, map) ↦
            ap (checker_of y.base.id) map
            ∙ forget_touch-other x.base y.base.id (removed x es l) apart
            ∙ checker_of-other x.base.id y.base.id l.touch_map apart
      ]

  -- The entries behind it are as they were.
  pub close_idle-Holds :
      (x y : Watched) (es : List Element) (l : LoopConn al.State H)
      → x.base.self ≡ x.elem.conn
      → Behind x y
      → Holds l y
      → Holds (close_idle x es l) y
  close_idle-Holds x y es l own (conn, id, _, _) (there, self, seen) =
      let (c', _, conns) = close_idle-conns x es l in
      (
        ap (λ k. get_elem? k y.elem.conn) conns
            ∙ get_elem?-set_other l.conns x.base.self y.elem.conn c' (λ e. conn (sym e ∙ own))
            ∙ there,
        self,
        close_idle-checker x y es l id ∙ seen,
      )
