-- ===== src/Loop/Tests.antt =====
-- connection/conn.go and eventloop/loopConn.go: an event loop at small inputs, with a pool of buffers of
-- eight bytes, a kernel that takes three bytes of each write and has three bytes to read, and a handler
-- whose packets have two bytes.
use connaxis.Prelude.{
  ℕ, zero, suc, ◌≤◌, ◌≡◌, refl, ◌⊎◌, inl, inr, none, some, true, false, not, ◌&&◌, Bytes, List, [],
  ◌∷◌, take, length, replicate, ltb, ◌==◌, if◌then◌else◌, ℤ, pos, negsuc, arith, min,
}
use connaxis.Prelude.Lists.{length-take}
use connaxis.Kernel.{Kernel}
use connaxis.Tuning.{Globals, initial}
use connaxis.Ring.{new_ring_buffer}
use connaxis.Ring.Tests.{eight}
use connaxis.WriteQueue.{WriteQueue}
use connaxis.WriteQueue.Flush.{Errno}
use connaxis.WriteQueue.Flush.Sent.{count_of, offered, TakesPrefix}
use connaxis.Loop.State.{Base, LoopConn, CmdData, PktHandler}
use connaxis.FdTable.{fd_table_clear, fd_table_get}
use connaxis.Prelude.FdSets.{member}
use connaxis.Loop.State.{close_epoll_err, on_closed, del, dec_int32}
use connaxis.Loop.Send.{drain_write, emit_output, close_conn, update_write_fd, pending_write}
use connaxis.Loop.Send.Drain.{Ready, Drained, backlog, drain_write_lem}
use connaxis.Loop.Send.Emit.{Emitted, emit_output_lem}
use connaxis.Loop.Send.Close.{close_conn_lem}
use connaxis.Loop.Send.Interest.{InStep, update_write_fd_lem}
use connaxis.Loop.Packets.{packet_loop}
use connaxis.Loop.Packets.Consumed.{Sound, Digested}
use connaxis.Loop.Packets.Delivered.{packet_loop_lem}
use connaxis.Loop.Read.Limits.{OverLimit}
use connaxis.Loop.Cmd.{consume_cmd}
use connaxis.Loop.Cmd.Consume.{object, consume_cmd_lem, consume_cmd_stale, consume_cmd_close}
use connaxis.Loop.Turn.{cmd_loop}
use connaxis.Loop.Turn.Order.{Taken, cmd_loop_lem}
use connaxis.Loop.Conns.{conn_by_fd}
use connaxis.Loop.Wakeup.{add_work, fresh, send, NotLost, begun, more, Reachable-NotLost}

abbrev pub knobs : Globals
knobs = record initial { event_loop = record initial.event_loop { max_read_bytes_per_event = 4 } }

abbrev pub takes_three : ℕ → List Bytes → ℤ × Errno
takes_three n bs = (pos (min 3 (length (offered bs))), none)

-- The first read finds three bytes, later ones nothing.
abbrev pub reads_three : ℕ → ℕ → (ℤ × Errno) × Bytes
reads_three zero len = ((pos (min len 3), none), take len (1 ∷ 2 ∷ 3 ∷ []))
reads_three (suc n) len = ((negsuc 0, some 11), [])

pub reads_three_fits :
    (n len : ℕ)
    → (length (reads_three n len).1 ≡ count_of (reads_three n len).0.0)
      × (length (reads_three n len).1 ≤ len)
reads_three_fits zero len =
    let three : Bytes = 1 ∷ 2 ∷ 3 ∷ [] in
    (length-take len three, omega (arith, length-take len three))
reads_three_fits (suc n) len = (refl, omega arith)

pub takes_three_lem : (n : ℕ) → TakesPrefix (takes_three n)
takes_three_lem n bs k e = let same : min 3 (length (offered bs)) ≡ k = cc in omega arith

pub never_fails :
    (n : ℕ) (bs : List Bytes) (e : ℕ)
    → (takes_three n bs).1 ≡ some e
    → count_of (takes_three n bs).0 ≡ 0
never_fails n bs e f = absurd (cc)

abbrev pub kernel : Kernel
kernel = record {
  write = takes_three;
  read = reads_three;
  add_read = λ fd. none;
  write_takes = takes_three_lem;
  write_fails = never_fails;
  read_fits = reads_three_fits;
}

-- Packets of two bytes, which are sent back.
abbrev echo : PktHandler (Unit {0})
echo = record {
  parse_packet = λ bytes u. ((if ltb (length bytes) 2 then pos 0 else pos 2, pos 2), u);
  on_data = λ packet u. ((packet, false), u);
}

abbrev pub empty_queue : WriteQueue
empty_queue = record { items = []; head = 0; bytes = 0 }

abbrev pub conn : Base
conn = record {
  self = 0;
  fd = 7;
  id = 5;
  loop_id = 0;
  client = false;
  recvbuf = new_ring_buffer;
  recv = 0;
  send = 0;
  last_recv = 0;
  wq = empty_queue;
}

abbrev waiting : Base
waiting = record conn {
  wq = record {
    items = (record { owner = 1 ∷ 2 ∷ 3 ∷ 4 ∷ []; size = 4; off = 0 }) ∷ [];
    head = 0;
    bytes = 4;
  };
}

abbrev pub loop : LoopConn (Unit {0}) (Unit {0})
loop = record {
  idx = 0;
  shared = 8;
  write_fds = [];
  close_on_drain = [];
  cmd_flush_set = [];
  count = 1;
  dcount = 0;
  cmd_chan = [];
  cmd_dial_chan = [];
  accept_chan = [];
  chan_size = 4;
  pkt_size_limit = 16;
  cli_sbuf_limit = 32;
  triggered = false;
  write = 0;
  read = 0;
  recvcmd = 0;
  cmdconsume = 0;
  cmddrop = 0;
  cmdfail = 0;
  last_check = 0;
  check_interval = 0;
  idle_limit = 0;
  check_list = [];
  next_mark = 0;
  touch_map = [];
  now_sec = 1;
  table = replicate 8 (some 0);
  conns = conn ∷ [];
  pool = tt;
  user = tt;
  writes = 0;
  reads = 0;
  log = [];
}

waiting-Ready : Ready eight waiting loop
waiting-Ready = (
  record { live = ((omega arith, omega arith), tt); counted = refl; placed = inl (omega arith) },
  tt,
  omega arith,
)

conn-Ready : Ready eight conn loop
conn-Ready = (record { live = tt; counted = refl; placed = inr (refl, refl) }, tt, omega arith)

conn-Sound : Sound eight conn loop
conn-Sound = (
  conn-Ready,
  record { in_buf = omega arith; ordered = omega arith; bounded = omega arith },
  (refl, refl),
)

drain_write_lem_example :
    Drained eight kernel knobs 0 waiting loop (drain_write eight kernel knobs waiting loop)
drain_write_lem_example = drain_write_lem eight kernel knobs waiting loop waiting-Ready

emit_output_lem_example :
    Emitted eight kernel knobs conn
      (9 ∷ 8 ∷ 7 ∷ 6 ∷ [])
      loop
      (emit_output eight kernel knobs conn (9 ∷ 8 ∷ 7 ∷ 6 ∷ []) loop)
emit_output_lem_example =
    emit_output_lem eight kernel knobs conn (9 ∷ 8 ∷ 7 ∷ 6 ∷ []) loop conn-Ready

-- Two bytes, which the kernel takes at once, and a flush with nothing to send.
abbrev sent_two : Base
sent_two = record conn { send = 2 }

abbrev written : LoopConn (Unit {0}) (Unit {0})
written = record loop { writes = 1 }

update_write_fd_lem_example :
    let l' = update_write_fd waiting loop in
    InStep l'
    × ((fd : ℕ)
        → member fd l'.write_fds
          ≡ (if 7 == fd then ltb 0 (pending_write waiting) else member fd []))
update_write_fd_lem_example = update_write_fd_lem waiting loop (λ fd. refl) (omega arith)

close_conn_lem_example :
    let (c', l') = close_conn eight kernel knobs waiting close_epoll_err loop in
    (c'.fd ≡ 0)
    × (backlog c' ≡ [])
    × Ready eight c' l'
    × (l'.table ≡ fd_table_clear (pos 7) (some 0) loop.table)
    × (l'.log ≡ on_closed 0 close_epoll_err ∷ del 7 ∷ [])
    × (l'.count ≡ dec_int32 1)
    × ((fd : ℕ)
        → (member fd l'.write_fds ≡ not (7 == fd) && member fd [])
          × (member fd l'.close_on_drain ≡ not (7 == fd) && member fd [])
          × (member fd l'.cmd_flush_set ≡ not (7 == fd) && member fd []))
close_conn_lem_example =
    close_conn_lem eight kernel knobs waiting close_epoll_err loop waiting-Ready (omega arith)

packet_loop_lem_example :
    Digested eight kernel knobs echo conn
      (1 ∷ 2 ∷ 3 ∷ [])
      loop
      (packet_loop eight kernel knobs 4 conn (1 ∷ 2 ∷ 3 ∷ []) loop echo)
packet_loop_lem_example =
    packet_loop_lem eight kernel knobs echo 4 conn (1 ∷ 2 ∷ 3 ∷ []) loop conn-Sound (omega arith)
      (λ e. refl)

-- Commands for the connection, and for one that had its descriptor before.
abbrev put : CmdData
put = record { cmd = 1; fd = 7; id = 5; data_buf = some (6 ∷ 5 ∷ 4 ∷ []); size = 2 }

abbrev stale : CmdData
stale = record put { id = 4 }

abbrev close_stale : CmdData
close_stale = record put { cmd = 2; id = 4 }

abbrev counted : LoopConn (Unit {0}) (Unit {0})
counted = record loop { cmdconsume = 1 }

found : conn_by_fd 7 counted ≡ some conn
unfolding conn_by_fd fd_table_get
found = refl

consume_cmd_lem_example :
    let l' = consume_cmd eight kernel knobs put loop in
    (c' : Base) × (object eight 0 l' ≡ some c')
    × ((c'.fd ≡ 0) × OverLimit false 32 2
        ⊎ (OverLimit false 32 2 → ⊥)
          × (c'.fd ≡ 7)
          × (backlog c' ≡ 6 ∷ 5 ∷ [])
          × (member 7 l'.cmd_flush_set ≡ true))
consume_cmd_lem_example =
    consume_cmd_lem eight kernel knobs put conn (6 ∷ 5 ∷ 4 ∷ []) loop conn-Ready refl found refl
      (omega arith) refl (omega arith, omega arith) (omega arith)

consume_cmd_stale_example : (consume_cmd eight kernel knobs stale loop).conns ≡ conn ∷ []
consume_cmd_stale_example =
    consume_cmd_stale eight kernel knobs stale conn loop refl found (λ e. omega arith)

consume_cmd_close_example :
    let l' = consume_cmd eight kernel knobs close_stale loop in
    (c' : Base) × (object eight 0 l' ≡ some c') × (c'.fd ≡ 0)
consume_cmd_close_example =
    consume_cmd_close eight kernel knobs close_stale conn loop refl found (omega arith)

abbrev commanded : LoopConn (Unit {0}) (Unit {0})
commanded = record loop { cmd_chan = put ∷ stale ∷ [] }

cmd_loop_lem_example :
    Taken eight kernel knobs false 0 commanded (cmd_loop eight kernel knobs false 3 0 commanded)
cmd_loop_lem_example =
    cmd_loop_lem eight kernel knobs false 3 0 commanded (omega arith) (omega arith)

-- A goroutine has sent to a loop that polls, and has not swapped yet.
Reachable-NotLost_example : NotLost (record fresh { queued = add_work 0 fresh.queued; owing = 1 })
Reachable-NotLost_example = Reachable-NotLost (more begun (send fresh 0 (omega arith)))
