-- ===== src/Loop/Turn.antt =====
-- eventloop/loopConn.go: `processCmd`, what a loop does when it is woken: new connections, commands, and the
-- output that the commands left. The outer none is a run-time panic.
pub mod Order
pub mod Idle
pub mod Sweep
pub mod Tests
use connaxis.Prelude.{
  ℕ, zero, suc, ◌+◌, ◌-◌, Bool, true, false, not, ◌&&◌, ◌||◌, Option, none, some, List, [], ◌∷◌,
  ltb, leb, ◌==◌, if◌then◌else◌,
}
use connaxis.Prelude.Lists.{length, get_elem?}
use connaxis.Prelude.FdSets.{delete_fd}
use connaxis.Alloc.{Allocator}
use connaxis.Kernel.{Kernel, fails}
use connaxis.Tuning.{Globals}
use connaxis.FdTable.{fd_table_range}
use connaxis.WriteQueue.Flush.{Errno}
use connaxis.Loop.State.{
  Base, LoopConn, CmdData, Element, ConnChecker, close_send_err, close_by_anti_idle, close_shutdown,
}
use connaxis.Loop.Touch.{checker_of, delete_checker}
use connaxis.Loop.Send.{close_conn, drain_write, update_write_fd}
use connaxis.Loop.Conns.{own_conn, conn_by_fd, keep, wake, attach_client}
use connaxis.Loop.Cmd.{consume_cmd, drop_slow}

-- Whether a budget is there and used up.
abbrev pub spent : ℕ → ℕ → Bool
spent budget used = ltb 0 budget && leb budget used

-- `EventNone`, `EventStop` and `EventIdle`
abbrev pub event_stop : ℕ
event_stop = 255

abbrev pub event_idle : ℕ
event_idle = 254

-- `LoopID()` of an object.
loop_id_of : List Base → ℕ → ℕ
loop_id_of conns self = elim (get_elem? conns self) [ none ↦ 0 | some c ↦ c.loop_id ]

module _ {S H : Type 0} where
  -- The channel of the loop, or of the dialler, and the loop with another one.
  abbrev pub chan_of : Bool → LoopConn S H → List CmdData
  chan_of dial l = if dial then l.cmd_dial_chan else l.cmd_chan

  pub with_chan : Bool → List CmdData → LoopConn S H → LoopConn S H
  with_chan true ch l = record l { cmd_dial_chan = ch }
  with_chan false ch l = record l { cmd_chan = ch }

module _ (al : Allocator) (kernel : Kernel) (globals : Globals) {H : Type 0} where
  -- The three receive loops of `processCmd`: each takes what is in its channel, oldest first, within the
  -- budget. `fuel` is above the channel's length.
  accept_loop : ℕ → ℕ → LoopConn al.State H → LoopConn al.State H
  accept_loop zero accepted l = l
  accept_loop (suc fuel) accepted l =
      if spent globals.event_loop.max_accept_per_event accepted then l else (elim l.accept_chan [
        | [] ↦ l
        | self ∷ rest ↦ elim (get_elem? l.conns self) [
          | none ↦ accept_loop fuel (accepted + 1) (record l { accept_chan = rest })
          | some c ↦
              accept_loop fuel (accepted + 1)
                (attach_client al kernel globals c (record l { accept_chan = rest })).1
        ]
      ])

  pub cmd_loop : Bool → ℕ → ℕ → LoopConn al.State H → LoopConn al.State H
  unfolding with_chan
  cmd_loop dial zero consumed l = l
  cmd_loop dial (suc fuel) consumed l = elim (spent globals.event_loop.max_cmd_per_event consumed) [
    | true ↦ l
    | false ↦ elim (chan_of dial l) [
      | [] ↦ l
      | cmd ∷ rest ↦
          cmd_loop dial fuel (consumed + 1)
            (consume_cmd al kernel globals cmd (with_chan dial rest l))
    ]
  ]

  -- A connection of `cmdFlushSet`: whether it counts against the budget, and the loop.
  flush_conn : Base → LoopConn al.State H → Option (Bool × LoopConn al.State H)
  flush_conn c l = elim (drain_write al kernel globals c l) [
    | none ↦ none
    | some ((n, err), c', l') ↦
        if fails err
        then some (false, keep (close_conn al kernel globals c' close_send_err l'))
        else (elim (drop_slow al kernel globals c' l') [
          | some dropped ↦ some (false, keep dropped)
          | none ↦ some (true, keep (c', update_write_fd c' l'))
        ])
  ]

  -- The loop over `cmdFlushSet`, whose keys are given in the order of the range.
  pub flush_loop : ℕ → List ℕ → LoopConn al.State H → Option (LoopConn al.State H)
  unfolding flush_conn
  flush_loop flushed [] l = some l
  flush_loop flushed (fd ∷ fds) l =
      elim (spent globals.event_loop.max_cmd_flush_conns_per_event flushed) [
        | true ↦ some l
        | false ↦
            let l₁ : LoopConn al.State H = record l {
              cmd_flush_set = delete_fd fd l.cmd_flush_set;
            } in
            elim (conn_by_fd fd l₁) [
              | none ↦ flush_loop flushed fds l₁
              | some c ↦ elim (c.fd == 0) [
                | true ↦ flush_loop flushed fds l₁
                | false ↦ elim (flush_conn c l₁) [
                  | none ↦ none
                  | some (counts, l₂) ↦ flush_loop (if counts then flushed + 1 else flushed) fds l₂
                ]
              ]
            ]
      ]

  -- The end of `processCmd`: the loop may be triggered again, and is where something is left to do.
  pub rearm : LoopConn al.State H → LoopConn al.State H
  rearm l =
      let l₁ : LoopConn al.State H = record l { triggered = false } in
      if ltb 0 (length l.cmd_chan)
        || ltb 0 (length l.cmd_dial_chan)
        || ltb 0 (length l.accept_chan)
        || ltb 0 (length l.cmd_flush_set)
      then wake l₁
      else l₁

  -- The loop of `onIdle` over `checkList`, from the front.
  pub idle_loop : List Element → LoopConn al.State H → LoopConn al.State H
  idle_loop [] l = l
  idle_loop (e ∷ es) l = elim (get_elem? l.conns e.conn) [
    | none ↦ l
    | some c ↦ elim (checker_of c.id l.touch_map) [
      | none ↦ l
      | some t ↦ elim (ltb l.idle_limit (l.now_sec - t.touch)) [
        | false ↦ l
        | true ↦ idle_loop es (
            keep (
              close_conn al kernel globals c close_by_anti_idle
                (record l { check_list = es; touch_map = delete_checker c.id l.touch_map })))
      ]
    ]
  ]

  -- `onIdle`
  pub on_idle : LoopConn al.State H → LoopConn al.State H
  unfolding idle_loop
  on_idle l =
      if l.last_check == 0
      then record l { last_check = l.now_sec }
      else (if ltb 0 l.check_interval && leb l.check_interval (l.now_sec - l.last_check)
          then (let l₁ : LoopConn al.State H = record l { last_check = l.now_sec } in
              if ltb 0 l.idle_limit then idle_loop l₁.check_list l₁ else l₁)
          else l)

  -- The connections that `shutdown` closes, each with its descriptor.
  close_all : List (ℕ × ℕ) → LoopConn al.State H → LoopConn al.State H
  close_all [] l = l
  close_all ((fd, self) ∷ rest) l = elim (get_elem? l.conns self) [
    | none ↦ close_all rest l
    | some c ↦ close_all rest (keep (close_conn al kernel globals c close_shutdown l))
  ]

  -- `shutdown`, of the connections; the listeners are outside.
  pub shutdown : LoopConn al.State H → LoopConn al.State H
  unfolding close_all loop_id_of
  shutdown l = close_all (fd_table_range (loop_id_of l.conns) l.idx l.table) l

  -- The four phases of `processCmd`.
  pub turn : LoopConn al.State H → Option (LoopConn al.State H)
  unfolding accept_loop cmd_loop flush_loop rearm
  turn l =
      let l₁ = accept_loop (length l.accept_chan + 1) 0 l in
      let l₂ = cmd_loop false (length l₁.cmd_chan + 1) 0 l₁ in
      let l₃ = cmd_loop true (length l₂.cmd_dial_chan + 1) 0 l₂ in
      elim (flush_loop 0 l₃.cmd_flush_set l₃) [ none ↦ none | some l₄ ↦ some (rearm l₄) ]

  -- `processCmd`
  pub process_cmd : ℕ → LoopConn al.State H → Option (LoopConn al.State H)
  unfolding turn on_idle shutdown
  process_cmd ev l =
      if ev == event_stop
      then some (shutdown l)
      else (if ev == event_idle then turn (on_idle l) else turn l)
