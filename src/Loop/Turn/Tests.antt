-- ===== src/Loop/Turn/Tests.antt =====
-- eventloop/loopConn.go: a loop with two connections, of which one was silent for too long.
use connaxis.Prelude.{◌≡◌, refl, ◌⊎◌, [], ◌∷◌, arith, true, false}
use connaxis.Ring.Tests.{eight}
use connaxis.Loop.State.{LoopConn}
use connaxis.Loop.Touch.{checker_of, checks_idle, touch_conn}
use connaxis.Loop.Touch.Order.{Kept, touched, touch_conn-Kept}
use connaxis.Loop.Turn.{on_idle}
use connaxis.Loop.Turn.Idle.{Watched, elems, All, InOrder}
use connaxis.Loop.Turn.Sweep.{due, Swept, on_idle_lem}
use connaxis.Loop.Tests.{knobs, kernel, conn, loop}

abbrev silent : Watched
silent = record {
  elem = record { mark = 1; conn = 0 };
  base = conn;
  checker = record { touch = 3; elem_mark = 1 };
}

abbrev heard : Watched
heard = record {
  elem = record { mark = 2; conn = 1 };
  base = record conn { self = 1; fd = 8; id = 6 };
  checker = record { touch = 95; elem_mark = 2 };
}

abbrev watching : LoopConn (Unit {0}) (Unit {0})
watching = record loop {
  now_sec = 100;
  last_check = 90;
  check_interval = 10;
  idle_limit = 60;
  conns = silent.base ∷ heard.base ∷ [];
  check_list = silent.elem ∷ heard.elem ∷ [];
  touch_map = (5, silent.checker) ∷ (6, heard.checker) ∷ [];
}

watching-Kept : Kept watching (silent ∷ heard ∷ [])
unfolding Kept elems InOrder All checker_of
watching-Kept = (
  refl,
  (
    (((λ e. omega (arith, e)), (λ e. omega (arith, e)), (λ e. omega (arith, e)), omega arith), tt),
    (tt, tt),
  ),
  ((refl, refl, refl), ((refl, refl, refl), tt)),
  ((refl, omega arith), ((refl, omega arith), tt)),
)

on_idle_lem_example :
    let l' = on_idle eight kernel knobs watching in
    (due watching ≡ true) × Swept watching (silent ∷ heard ∷ []) l'
    ⊎ (due watching ≡ false) × (l'.conns ≡ watching.conns) × (l'.check_list ≡ watching.check_list)
on_idle_lem_example = on_idle_lem eight kernel knobs (silent ∷ heard ∷ []) watching watching-Kept

-- A read of the one that was silent.
watching-checks : checks_idle watching ≡ true
unfolding checks_idle
watching-checks = refl

touch_conn-Kept_example : Kept (touch_conn conn watching) (heard ∷ touched 100 silent ∷ [])
touch_conn-Kept_example =
    touch_conn-Kept watching [] silent (heard ∷ []) conn refl watching-checks refl watching-Kept
