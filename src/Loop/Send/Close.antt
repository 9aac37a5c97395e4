-- ===== src/Loop/Send/Close.antt =====
-- eventloop/loopConn.go: `closeConn` leaves no trace of the connection in the loop.
use connaxis.Prelude.{
  ℕ, ◌<◌, ◌≡◌, refl, ◌⊎◌, inl, inr, not, some, [], ◌∷◌, false, Bool-cases, ==→eq, ◌==◌, ◌&&◌, pos,
  arith,
}
use connaxis.Prelude.FdSets.{member, member-delete_fd}
use connaxis.Alloc.{Allocator}
use connaxis.Kernel.{Kernel}
use connaxis.Tuning.{Globals}
use connaxis.FdTable.{fd_table_clear}
use connaxis.WriteQueue.Peek.{clear_lem}
use connaxis.Loop.State.{Base, LoopConn, CloseReason, del, on_closed, dec_int32}
use connaxis.Loop.Touch.{forget_touch}
use connaxis.Loop.Send.{conn_close, close_conn}
use connaxis.Loop.Send.Drain.{backlog, Ready}

module _ (al : Allocator) (kernel : Kernel) (globals : Globals) {H : Type 0} where
  -- `closeConn` of an open connection: it is closed with nothing to send, its descriptor is in none of
  -- the loop's three sets, whose other members stay, the table drops it if it held it, the loop counts
  -- one connection less, and the poller and then the handler are told once.
  pub close_conn_lem :
      (c : Base) (reason : CloseReason) (l : LoopConn al.State H)
      → Ready al c l
      → 0 < c.fd
      → let (c', l') = close_conn al kernel globals c reason l in
        (c'.fd ≡ 0)
        × (backlog c' ≡ [])
        × Ready al c' l'
        × (l'.table ≡ fd_table_clear (pos c.fd) (some c.self) l.table)
        × (l'.log ≡ on_closed c.self reason ∷ del c.fd ∷ l.log)
        × (l'.count ≡ dec_int32 l.count)
        × ((fd : ℕ)
            → (member fd l'.write_fds ≡ not (c.fd == fd) && member fd l.write_fds)
              × (member fd l'.close_on_drain ≡ not (c.fd == fd) && member fd l.close_on_drain)
              × (member fd l'.cmd_flush_set ≡ not (c.fd == fd) && member fd l.cmd_flush_set))
  unfolding close_conn conn_close forget_touch
  close_conn_lem c reason l ready h =
      let is_open : (c.fd == 0) ≡ false = ground arith in
      let (v, valid, nothing, _) = clear_lem al c.wq l.pool ready.1 in
      rw (is_open, close_conn)
        (
          refl,
          nothing,
          (v, valid, ready.2),
          refl,
          refl,
          refl,
          λ fd. (
            member-delete_fd c.fd fd l.write_fds,
            member-delete_fd c.fd fd l.close_on_drain,
            member-delete_fd c.fd fd l.cmd_flush_set,
          ),
        )

  -- A closed connection is left alone, so that the handler hears of a close once.
  pub close_conn_closed :
      (c : Base) (reason again : CloseReason) (l : LoopConn al.State H)
      → let (c', l') = close_conn al kernel globals c reason l in
        close_conn al kernel globals c' again l' ≡ (c', l')
  unfolding close_conn conn_close
  close_conn_closed c reason again l = elim (Bool-cases (c.fd == 0)) [
    | inl closed ↦ rw (closed, close_conn) (rw (closed, close_conn) refl)
    | inr is_open ↦ rw (is_open, close_conn) refl
  ]

  pub close_conn-fd :
      (c : Base) (reason : CloseReason) (l : LoopConn al.State H)
      → (close_conn al kernel globals c reason l).0.fd ≡ 0
  unfolding close_conn conn_close
  close_conn-fd c reason l = elim (Bool-cases (c.fd == 0)) [
    | inl closed ↦ rw (closed, close_conn) (==→eq c.fd 0 closed)
    | inr is_open ↦ rw (is_open, close_conn) refl
  ]

  -- The channels, the counts of commands and the connection objects are not for `closeConn` to change.
  pub close_conn-others :
      (c : Base) (reason : CloseReason) (l : LoopConn al.State H)
      → let l' = (close_conn al kernel globals c reason l).1 in
        (l'.cmd_chan ≡ l.cmd_chan)
        × (l'.cmd_dial_chan ≡ l.cmd_dial_chan)
        × (l'.cmdconsume ≡ l.cmdconsume)
        × (l'.conns ≡ l.conns)
  unfolding close_conn conn_close forget_touch
  close_conn-others c reason l = elim (Bool-cases (c.fd == 0)) [
    | inl closed ↦ rw (closed, close_conn) (refl, refl, refl, refl)
    | inr is_open ↦ rw (is_open, close_conn) (refl, refl, refl, refl)
  ]

  -- The clock stays, and of the idle connections only this one may be forgotten.
  pub close_conn-clock :
      (c : Base) (reason : CloseReason) (l : LoopConn al.State H)
      → let l' = (close_conn al kernel globals c reason l).1 in
        (l'.now_sec ≡ l.now_sec)
        × (l'.idle_limit ≡ l.idle_limit)
        × ((l'.check_list ≡ l.check_list) × (l'.touch_map ≡ l.touch_map)
            ⊎ (l'.check_list ≡ (forget_touch c l).check_list)
              × (l'.touch_map ≡ (forget_touch c l).touch_map))
  unfolding close_conn conn_close forget_touch
  close_conn-clock c reason l = elim (Bool-cases (c.fd == 0)) [
    | inl closed ↦ rw (closed, close_conn) (refl, refl, inl (refl, refl))
    | inr is_open ↦ rw (is_open, close_conn) (refl, refl, inr (refl, refl))
  ]

  pub close_conn-self :
      (c : Base) (reason : CloseReason) (l : LoopConn al.State H)
      → (close_conn al kernel globals c reason l).0.self ≡ c.self
  unfolding close_conn conn_close
  close_conn-self c reason l = elim (Bool-cases (c.fd == 0)) [
    | inl closed ↦ rw (closed, close_conn) refl
    | inr is_open ↦ rw (is_open, close_conn) refl
  ]
