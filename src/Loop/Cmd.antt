-- ===== src/Loop/Cmd.antt =====
-- eventloop/loop.go and eventloop/loopConn.go: commands from other goroutines, and what a loop does when it
-- is woken. A command is a value: the pool of `CmdData` objects does not show.
pub mod Consume
pub mod Frame
use connaxis.Prelude.{
  ℕ, zero, suc, ◌+◌, Bool, true, false, not, ◌&&◌, ◌||◌, Option, none, some, List, [], ◌∷◌, ◌++◌,
  Bytes, copy, ltb, leb, ◌==◌, if◌then◌else◌,
}
use connaxis.Prelude.Lists.{length}
use connaxis.Prelude.FdSets.{insert_fd, delete_fd}
use connaxis.Alloc.{Allocator}
use connaxis.Kernel.{Kernel, fails}
use connaxis.Tuning.{Globals}
use connaxis.WriteQueue.Flush.{Errno}
use connaxis.Loop.State.{Base, LoopConn, CmdData, close_by_close_cmd, add_int32}
use connaxis.Loop.Touch.{checker_of, delete_checker}
use connaxis.Loop.Send.{enqueue_write, close_conn, drain_write, update_write_fd}
use connaxis.Loop.Read.{too_much}
use connaxis.Loop.Conns.{own_conn, conn_by_fd, keep, wake, attach_client}

-- `CMD_DATA` and `CMD_CLOSE`
abbrev pub cmd_data : ℕ
cmd_data = 1

abbrev pub cmd_close : ℕ
cmd_close = 2

-- The results of `AddCmd`: nil, "alloc fail", "chan full".
pub data Added : Type 0 where
  added alloc_fail chan_full : Added

module _ (al : Allocator) {H : Type 0} where
  -- `CmdData.reset`: the buffer goes back.
  pub reset_cmd : CmdData → LoopConn al.State H → LoopConn al.State H
  reset_cmd cmd l = elim cmd.data_buf [
    | none ↦ l
    | some buf ↦ record l { pool = al.put buf l.pool }
  ]

  -- The send of `AddCmd` to one of the two channels.
  send_cmd : Bool → CmdData → LoopConn al.State H → Added × LoopConn al.State H
  unfolding reset_cmd
  send_cmd dial cmd l =
      let ch = if dial then l.cmd_dial_chan else l.cmd_chan in
      if ltb (length ch) l.chan_size
      then (
        added,
        wake (record l {
          cmd_chan = if dial then l.cmd_chan else l.cmd_chan ++ cmd ∷ [];
          cmd_dial_chan = if dial then l.cmd_dial_chan ++ cmd ∷ [] else l.cmd_dial_chan;
          recvcmd = add_int32 l.recvcmd 1;
        }),
      )
      else (chan_full, reset_cmd cmd (record l { cmdfail = add_int32 l.cmdfail 1 }))

  -- `AddCmd`: none is a panic of the pool.
  pub add_cmd :
      ℕ → ℕ → Bool → ℕ → Bytes → LoopConn al.State H → Option (Added × LoopConn al.State H)
  unfolding send_cmd
  add_cmd cmd fd dial id bytes l =
      if length bytes == 0
      then some
          (send_cmd dial (record { cmd = cmd; fd = fd; id = id; data_buf = none; size = 0 }) l)
      else (elim (al.get (length bytes) l.pool) [
        | none ↦ none
        | some (none, s) ↦ some (alloc_fail, record l { pool = s })
        | some (some owner, s) ↦ some (
            send_cmd dial
              (record {
                cmd = cmd;
                fd = fd;
                id = id;
                data_buf = some (copy owner bytes);
                size = length bytes;
              })
              (record l { pool = s }))
      ])

module _ (al : Allocator) (kernel : Kernel) (globals : Globals) {H : Type 0} where
  -- The connection is dropped if it has too much waiting, and counted where it was dialled.
  pub drop_slow : Base → LoopConn al.State H → Option (Base × LoopConn al.State H)
  drop_slow c l = elim (too_much c l) [
    | none ↦ none
    | some reason ↦ some (
        close_conn al kernel globals c reason
          (record l { cmddrop = if c.client then add_int32 l.cmddrop 1 else l.cmddrop }))
  ]

  pub keep_or_drop : Base → LoopConn al.State H → LoopConn al.State H
  unfolding drop_slow
  keep_or_drop c l = elim (drop_slow c l) [ none ↦ keep (c, l) | some dropped ↦ keep dropped ]

  -- A data command: its bytes go behind those that the connection has waiting. A size without data, which
  -- `AddCmd` never sends, is left out.
  pub consume_data : CmdData → Base → LoopConn al.State H → LoopConn al.State H
  unfolding reset_cmd keep_or_drop
  consume_data cmd c l =
      if not (c.id == cmd.id) || cmd.size == 0 || c.fd == 0
      then reset_cmd al cmd l
      else (elim cmd.data_buf [
        | none ↦ l
        | some buf ↦
            let (c', l') = enqueue_write al kernel globals c buf cmd.size l in
            keep_or_drop c' (record l' { cmd_flush_set = insert_fd c'.fd l'.cmd_flush_set })
      ])

  -- `consumeCmd`
  pub consume_cmd : CmdData → LoopConn al.State H → LoopConn al.State H
  unfolding consume_data reset_cmd
  consume_cmd cmd l =
      let l₁ = record l { cmdconsume = add_int32 l.cmdconsume 1 } in
      elim (conn_by_fd cmd.fd l₁) [
        | none ↦ reset_cmd al cmd l₁
        | some c ↦
            if cmd.cmd == cmd_data
            then consume_data cmd c l₁
            else (if cmd.cmd == cmd_close
                then reset_cmd al cmd (keep (close_conn al kernel globals c close_by_close_cmd l₁))
                else reset_cmd al cmd l₁)
      ]
