-- ===== src/Loop/State.antt =====
-- connection/base.go and eventloop/loopConn.go: the state of a plain connection, of an event loop and
-- of what they share: the table of descriptors, the pool, the handler.
use connaxis.Prelude.{ℕ, Option, ◌+◌, ◌-◌, ◌%◌, ◌^◌, Bool, List, Bytes, ℤ}
use connaxis.FdTable.{FdTable}
use connaxis.Ring.{RingBuffer}
use connaxis.WriteQueue.{WriteQueue}

-- `Base` of a plain `Conn`. `self` stands for the object's identity, fd 0 is a closed connection.
pub record Base : Type 0 where
  pub self : ℕ
  pub fd : ℕ
  pub id : ℕ
  pub loop_id : ℕ
  pub client : Bool
  pub recvbuf : RingBuffer
  pub recv : ℕ
  pub send : ℕ
  pub last_recv : ℕ
  pub wq : WriteQueue

-- The errors that `closeConn` gives to the handler.
pub data CloseReason : Type 0 where
  close_epoll_err close_send_err close_read_err close_pkt_size_limit : CloseReason
  close_pkt_parse_err close_mem_alloc_fail close_by_user_land close_by_anti_idle : CloseReason
  close_by_accept close_by_dup_accept close_by_close_cmd close_by_slow_reader : CloseReason
  close_shutdown : CloseReason

-- What the loop calls outside, newest first in its log: the poller and the handler.
pub data Call : Type 0 where
  add_read mod_read mod_read_write del trigger : ℕ → Call
  on_connected : ℕ → Call
  on_data : ℕ → Bytes → Call
  on_closed : ℕ → CloseReason → Call

-- `CmdData`
pub record CmdData : Type 0 where
  pub cmd : ℕ
  pub fd : ℕ
  pub id : ℕ
  pub data_buf : Option Bytes
  pub size : ℕ

-- An element of `checkList`: `mark` tells elements apart.
pub record Element : Type 0 where
  pub mark : ℕ
  pub conn : ℕ

-- `connChecker`
pub record ConnChecker : Type 0 where
  pub touch : ℕ
  pub elem_mark : ℕ

-- `LoopConn`, and the world that it works in: the descriptor table, the connection objects, the pool, the
-- handler's own state, and how often it has read and written. Of the shared receive buffer only the
-- length is kept, since each read fills the part of it that is used.
pub record LoopConn (S H : Type 0) : Type 0 where
  pub idx : ℕ
  pub shared : ℕ
  pub write_fds : List ℕ
  pub close_on_drain : List ℕ
  pub cmd_flush_set : List ℕ
  pub count : ℕ
  pub dcount : ℕ
  pub cmd_chan : List CmdData
  pub cmd_dial_chan : List CmdData
  pub accept_chan : List ℕ
  pub chan_size : ℕ
  pub pkt_size_limit : ℕ
  pub cli_sbuf_limit : ℕ
  pub triggered : Bool
  pub write : ℕ
  pub read : ℕ
  pub recvcmd : ℕ
  pub cmdconsume : ℕ
  pub cmddrop : ℕ
  pub cmdfail : ℕ
  pub last_check : ℕ
  pub check_interval : ℕ
  pub idle_limit : ℕ
  pub check_list : List Element
  pub next_mark : ℕ
  pub touch_map : List (ℕ × ConnChecker)
  pub now_sec : ℕ
  pub table : FdTable
  pub conns : List Base
  pub pool : S
  pub user : H
  pub writes : ℕ
  pub reads : ℕ
  pub log : List Call

-- `atomic.AddInt32(&x, n)`, as a number below 2^32.
abbrev pub add_int32 : ℕ → ℕ → ℕ
add_int32 x n = (x + n) % 2 ^ 32

-- `atomic.AddInt32(&x, -1)`
abbrev pub dec_int32 : ℕ → ℕ
dec_int32 x = (x + (2 ^ 32 - 1)) % 2 ^ 32

-- `IPktHandler`, with a state of its own. `parse_packet` gives the length and the expected size of the
-- packet at the front of the bytes, `on_data` the output and whether to close.
pub record PktHandler (H : Type 0) : Type 0 where
  pub parse_packet : Bytes → H → (ℤ × ℤ) × H
  pub on_data : Bytes → H → (Bytes × Bool) × H

-- What a stage of `processRead` comes to: a return, or the next stage.
pub data Outcome (A : Type 0) : Type 0 where
  returned : Outcome A
  went_on : A → Outcome A
