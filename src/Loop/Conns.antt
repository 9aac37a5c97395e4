-- ===== src/Loop/Conns.antt =====
-- eventloop/loopAccept.go, eventloop/loopUtil.go and eventloop/loopConn.go: how a loop finds, numbers and
-- attaches its connections.
pub mod Watch
use connaxis.Prelude.{
  ℕ, ◌+◌, ◌*◌, ◌%◌, ◌^◌, Bool, true, false, not, ◌&&◌, Option, none, some, [], ◌∷◌, ◌++◌, ltb, ◌==◌,
  if◌then◌else◌, pos,
}
use Prim.Native.Nat.{bit_or}
use connaxis.Prelude.Lists.{length, get_elem?, set}
use connaxis.Alloc.{Allocator}
use connaxis.Kernel.{Kernel}
use connaxis.Tuning.{Globals}
use connaxis.FdTable.{fd_table_get, fd_table_set}
use connaxis.WriteQueue.Flush.{Errno}
use connaxis.Loop.State.{
  Base, LoopConn, close_by_dup_accept, close_by_accept, on_connected, add_read, trigger, add_int32,
}
use connaxis.Loop.Touch.{checks_idle, delete_checker}
use connaxis.Loop.Send.{close_conn, conn_close}

module _ {S H : Type 0} where
  -- The connection object that a number stands for, if the loop owns it.
  pub own_conn : ℕ → LoopConn S H → Option Base
  own_conn self l = elim (get_elem? l.conns self) [
    | none ↦ none
    | some c ↦ if c.loop_id == l.idx then some c else none
  ]

  -- `connByFD`
  unfoldable pub conn_by_fd : ℕ → LoopConn S H → Option Base
  unfolding own_conn
  conn_by_fd fd l = elim (fd_table_get (pos fd) l.table) [
    | none ↦ none
    | some self ↦ own_conn self l
  ]

  -- The object after a call that changed it.
  unfoldable pub keep : Base × LoopConn S H → LoopConn S H
  keep (c, l) = record l { conns = set l.conns c.self c }

  -- `atomic.CompareAndSwapInt32(&l.triggered, 0, 1)` with `poll.Trigger(CmdUser)`.
  pub wake : LoopConn S H → LoopConn S H
  wake l = if l.triggered then l else record l { triggered = true; log = trigger 1 ∷ l.log }

  -- `AddClient`: whether the channel had room.
  pub add_client : Base → LoopConn S H → Bool × LoopConn S H
  unfolding wake
  add_client c l =
      if ltb (length l.accept_chan) l.chan_size
      then (true, wake (record l { accept_chan = l.accept_chan ++ c.self ∷ [] }))
      else (false, l)

  -- The end of `attachClient`: the connection is watched from now on, unless it was dialled.
  pub watch : Base → LoopConn S H → LoopConn S H
  watch c l =
      if checks_idle l && not c.client
      then record l {
        touch_map =
            (c.id, record { touch = l.now_sec; elem_mark = l.next_mark })
            ∷ delete_checker c.id l.touch_map;
        check_list = l.check_list ++ (record { mark = l.next_mark; conn = c.self }) ∷ [];
        next_mark = l.next_mark + 1;
      }
      else l

-- `buildSimpleID`; `fd` and `lpid` are below 2^64.
pub build_simple_id : ℕ → ℕ → ℕ → ℕ
build_simple_id seq fd lpid = bit_or (bit_or (seq * 2 ^ 32 % 2 ^ 64) (fd * 2 ^ 16 % 2 ^ 64)) lpid

module _ (al : Allocator) (kernel : Kernel) (globals : Globals) {H : Type 0} where
  -- `attachClient` of the connections before it on the descriptor.
  evict : Base → LoopConn al.State H → LoopConn al.State H
  unfolding conn_by_fd keep
  evict c l = elim (conn_by_fd c.fd l) [
    | none ↦ l
    | some prev ↦ keep (close_conn al kernel globals prev close_by_dup_accept l)
  ]

  -- `postAccept` of a plain connection, and what `attachClient` does with its error.
  after_accept : Errno → Base → LoopConn al.State H → Bool × LoopConn al.State H
  unfolding keep watch
  after_accept (some e) c l = (false, keep (close_conn al kernel globals c close_by_accept l))
  after_accept none c l = (true, watch c (keep (c, l)))

  post_accept : Base → LoopConn al.State H → Bool × LoopConn al.State H
  unfolding after_accept
  post_accept c l =
      after_accept (kernel.add_read c.fd) c
        (record l { log = add_read c.fd ∷ on_connected c.self ∷ l.log })

  after_store : Base → Bool → LoopConn al.State H → Bool × LoopConn al.State H
  unfolding post_accept keep
  after_store c false l = (false, keep (conn_close al kernel globals c l))
  after_store c true l = post_accept c (record l {
    count = add_int32 l.count 1;
    dcount = if c.client then add_int32 l.dcount 1 else l.dcount;
  })

  -- `attachClient`
  pub attach_client : Base → LoopConn al.State H → Bool × LoopConn al.State H
  unfolding evict after_store
  attach_client c l =
      let l₁ = evict c l in
      let c₁ = record c { loop_id = l₁.idx } in
      let (ok, table) = fd_table_set (pos c₁.fd) (some c₁.self) l₁.table in
      after_store c₁ ok (record l₁ { table = table })
