-- ===== src/Loop/Run.antt =====
-- eventloop/loopConn.go: what a loop does with an event of its poller, and its statistics.
use Prim.Native.Nat.{bit_and}
use connaxis.Prelude.{
  ℕ, ◌+◌, ◌-◌, ◌%◌, ◌^◌, Bool, not, ◌||◌, Option, none, some, ltb, ◌==◌, if◌then◌else◌,
}
use connaxis.Alloc.{Allocator}
use connaxis.Kernel.{Kernel}
use connaxis.Tuning.{Globals}
use connaxis.Loop.State.{Base, LoopConn, PktHandler, close_epoll_err}
use connaxis.Loop.Send.{close_conn, process_send, pending_write}
use connaxis.Loop.Read.{process_read}
use connaxis.Loop.Conns.{conn_by_fd, keep}
use connaxis.Loop.Turn.{process_cmd}

-- `EventRead`, `EventWrite` and `EventErr`
abbrev pub event_read : ℕ
event_read = 1

abbrev pub event_write : ℕ
event_write = 2

abbrev pub event_err : ℕ
event_err = 128

-- `events&flag != 0`
pub has_event : ℕ → ℕ → Bool
has_event events flag = not (bit_and events flag == 0)

-- `atomic.AddInt32(&x, -val)` after `val := atomic.LoadInt32(&x)`, where others may have counted on: what
-- is left in the counter.
pub sub_int32 : ℕ → ℕ → ℕ
sub_int32 x val = (x + (2 ^ 32 - val)) % 2 ^ 32

-- `GetSend` and `GetRecv`: the count, and what is left of it.
pub get_count : Bool → ℕ → ℕ × ℕ
unfolding sub_int32
get_count reset val = (val, if reset then sub_int32 val val else val)

-- What `Stat` does to the counters of calls.
pub stat : {S H : Type 0} → LoopConn S H → LoopConn S H
unfolding sub_int32
stat l = record l {
  write = sub_int32 l.write l.write;
  read = sub_int32 l.read l.read;
  recvcmd = sub_int32 l.recvcmd l.recvcmd;
  cmdconsume = sub_int32 l.cmdconsume l.cmdconsume;
  cmddrop = sub_int32 l.cmddrop l.cmddrop;
  cmdfail = sub_int32 l.cmdfail l.cmdfail;
}

module _ (al : Allocator) (kernel : Kernel) (globals : Globals) {H : Type 0}
    (h : PktHandler H) where
  -- The soft write after a read.
  send_again : Base → LoopConn al.State H → Option (LoopConn al.State H)
  send_again c l =
      if c.fd == 0
      then some (keep (c, l))
      else (if ltb 0 (pending_write c)
          then (elim (process_send al kernel globals c l) [ none ↦ none | some r ↦ some (keep r) ])
          else some (keep (c, l)))

  -- The read after the first write; `fuel` rounds of `processRead`.
  then_read : ℕ → ℕ → Base → LoopConn al.State H → Option (LoopConn al.State H)
  unfolding send_again has_event
  then_read fuel events c l =
      if has_event events event_read
      then (elim (process_read al kernel globals h fuel c l) [
        | none ↦ none
        | some (c', l') ↦ send_again c' l'
      ])
      else some (keep (c, l))

  -- The callback of `Run` for a connection: writes come before reads.
  pub on_conn_event : ℕ → ℕ → Base → LoopConn al.State H → Option (LoopConn al.State H)
  unfolding then_read has_event
  on_conn_event fuel events c l =
      if has_event events event_err
      then some (keep (close_conn al kernel globals c close_epoll_err l))
      else (if has_event events event_write || ltb 0 (pending_write c)
          then (elim (process_send al kernel globals c l) [
            | none ↦ none
            | some (c', l') ↦
                if c'.fd == 0 then some (keep (c', l')) else then_read fuel events c' l'
          ])
          else then_read fuel events c l)

  -- The callback of `Run`; descriptors of listeners are outside.
  pub on_event : ℕ → ℕ → ℕ → LoopConn al.State H → Option (LoopConn al.State H)
  unfolding on_conn_event
  on_event fuel fd events l =
      if fd == 0
      then process_cmd al kernel globals events l
      else (elim (conn_by_fd fd l) [ none ↦ some l | some c ↦ on_conn_event fuel events c l ])
