-- ===== src/Loop/Send.antt =====
-- connection/conn.go and eventloop/loopConn.go: how a loop sends the output of a connection. The outer
-- none is a run-time panic or a loop that ran out of fuel.
pub mod Drain
pub mod Emit
pub mod Refine
pub mod Close
pub mod Interest
use connaxis.Prelude.{
  ℕ, zero, suc, ◌+◌, ◌-◌, ◌≤◌, Bool, true, false, not, ◌&&◌, ◌||◌, Option, none, some, List, [],
  ◌∷◌, Bytes, copy, ltb, leb, ◌==◌, if◌then◌else◌, ℤ, pos, negsuc,
}
use connaxis.Prelude.Lists.{length, drop}
use connaxis.Prelude.FdSets.{member, insert_fd, delete_fd}
use connaxis.Alloc.{Allocator}
use connaxis.Kernel.{Kernel, fails, enomem}
use connaxis.Tuning.{Globals}
use connaxis.FdTable.{fd_table_clear}
use connaxis.WriteQueue.{WriteQueue, enqueue, clear, pending}
use connaxis.WriteQueue.Flush.{Errno, ebadf, flush_write_queue}
use connaxis.WriteQueue.Flush.Sent.{count_of}
use connaxis.Loop.Touch.{forget_touch}
use connaxis.Loop.State.{
  Base, LoopConn, CloseReason, close_send_err, close_by_user_land, mod_read, mod_read_write, del,
  on_closed, Element, ConnChecker, add_int32, dec_int32,
}

-- `PendingWrite`
pub pending_write : Base → ℕ
unfolding pending
pending_write c = pending c.wq

-- What `Write` does with the answer.
count_sent : ℤ × Errno → Base → Base
count_sent (pos n, err) c = if ltb 0 n then record c { send = add_int32 c.send n } else c
count_sent (negsuc n, err) c = c

-- The test at the end of a round of `drainWrite`.
round_done : ℤ → ℕ → ℕ → Bool
round_done (negsuc n) total plan = true
round_done (pos n) total plan = n == 0 || (leb plan total && ltb 0 plan)

module _ {S H : Type 0} where
  pub set_interest : ℕ → Bool → LoopConn S H → LoopConn S H
  set_interest fd true l =
      if member fd l.write_fds
      then l
      else record l { write_fds = insert_fd fd l.write_fds; log = mod_read_write fd ∷ l.log }
  set_interest fd false l =
      if member fd l.write_fds
      then record l { write_fds = delete_fd fd l.write_fds; log = mod_read fd ∷ l.log }
      else l

  -- `updateWriteFd`
  pub update_write_fd : Base → LoopConn S H → LoopConn S H
  unfolding set_interest pending_write
  update_write_fd c l = if c.fd == 0 then l else set_interest c.fd (ltb 0 (pending_write c)) l

module _ (al : Allocator) (kernel : Kernel) (globals : Globals) {H : Type 0} where
  -- `EnqueueWrite`
  unfoldable pub enqueue_write : Base → Bytes → ℕ → LoopConn al.State H → Base × LoopConn al.State H
  enqueue_write c buf size l =
      let (q, s) = enqueue al globals.connection c.wq buf size l.pool in
      (record c { wq = q }, record l { pool = s })

  -- `Conn.Write`
  pub conn_write : Base → Bytes → LoopConn al.State H → (ℤ × Errno) × Base × LoopConn al.State H
  unfolding count_sent
  conn_write c b l = if c.fd == 0 then ((pos 0, ebadf), c, l) else (
    kernel.write l.writes (b ∷ []),
    count_sent (kernel.write l.writes (b ∷ [])) c,
    record l { writes = l.writes + 1 },
  )

  -- `Conn.FlushN`
  pub flush_n : Base → ℕ → LoopConn al.State H → Option ((ℤ × Errno) × Base × LoopConn al.State H)
  flush_n c max_bytes l =
      elim (flush_write_queue al (kernel.write l.writes) c.fd c.wq max_bytes c.send l.pool) [
        | none ↦ none
        | some (r, q, send, s) ↦
            some (r, record c { wq = q; send = send }, record l { pool = s; writes = l.writes + 1 })
      ]

  -- `Conn.Close`; the callback is not set by the loop.
  pub conn_close : Base → LoopConn al.State H → Base × LoopConn al.State H
  conn_close c l =
      let (q, s) = clear al c.wq l.pool in (record c { wq = q; fd = 0 }, record l { pool = s })

  -- `closeConn`
  pub close_conn : Base → CloseReason → LoopConn al.State H → Base × LoopConn al.State H
  unfolding conn_close
  close_conn c reason l =
      if c.fd == 0
      then (c, l)
      else (let l' = forget_touch c l in
          let (c', l'') = conn_close c (record l' {
            close_on_drain = delete_fd c.fd l'.close_on_drain;
            count = dec_int32 l'.count;
            dcount = if c.client then dec_int32 l'.dcount else l'.dcount;
            write_fds = delete_fd c.fd l'.write_fds;
            cmd_flush_set = delete_fd c.fd l'.cmd_flush_set;
            table = fd_table_clear (pos c.fd) (some c.self) l'.table;
            log = del c.fd ∷ l'.log;
          }) in
          (c', record l'' { log = on_closed c.self reason ∷ l''.log }))

  -- The loop of `drainWrite`.
  pub drain_loop :
      ℕ → ℕ → ℕ → Base → LoopConn al.State H → Option ((ℕ × Errno) × Base × LoopConn al.State H)
  unfolding flush_n round_done
  drain_loop zero plan total c l = none
  drain_loop (suc fuel) plan total c l =
      elim (flush_n c plan (record l { write = add_int32 l.write 1 })) [
        | none ↦ none
        | some ((n, some e), c', l') ↦ some ((total, some e), c', l')
        | some ((n, none), c', l') ↦ elim (round_done n (total + count_of n) plan) [
          | true ↦ some ((total + count_of n, none), c', l')
          | false ↦ drain_loop fuel plan (total + count_of n) c' l'
        ]
      ]

  -- `drainWrite`: each round but the last sends a byte.
  unfoldable pub drain_write :
      Base → LoopConn al.State H → Option ((ℕ × Errno) × Base × LoopConn al.State H)
  unfolding drain_loop pending_write
  drain_write c l =
      if pending_write c == 0
      then some ((0, none), c, l)
      else drain_loop (pending_write c + 1) globals.event_loop.max_flush_bytes_per_event 0 c l

  -- The end of `emitOutput`: the bytes go into a buffer of the pool and behind the queue.
  pub queue_output :
      Base → Bytes → LoopConn al.State H → Option (Errno × Base × LoopConn al.State H)
  unfolding enqueue_write
  queue_output c out l = elim (al.get (length out) l.pool) [
    | none ↦ none
    | some (none, s) ↦ some (enomem, c, record l { pool = s })
    | some (some owner, s) ↦
        let (c', l') = enqueue_write c (copy owner out) (length out) (record l { pool = s }) in
        some (none, c', l')
  ]

  -- What `emitOutput` does with the answer of `Write`.
  pub after_write :
      Bytes → (ℤ × Errno) × Base × LoopConn al.State H → Option (Errno × Base × LoopConn al.State H)
  unfolding queue_output
  after_write out ((n, err), c, l) =
      if count_of n == length out
      then some (none, c, l)
      else (if fails err then some (err, c, l) else queue_output c (drop (count_of n) out) l)

  -- `emitOutput`
  unfoldable pub emit_output :
      Base → Bytes → LoopConn al.State H → Option (Errno × Base × LoopConn al.State H)
  unfolding conn_write after_write queue_output pending_write
  emit_output c out l =
      if length out == 0
      then some (none, c, l)
      else (if pending_write c == 0
          then after_write out (conn_write c out l)
          else queue_output c out l)

  -- The end of `processSend`.
  after_drain : (ℕ × Errno) × Base × LoopConn al.State H → Base × LoopConn al.State H
  unfolding close_conn update_write_fd pending_write
  after_drain ((n, err), c, l) =
      if fails err
      then close_conn c close_send_err l
      else (if pending_write c == 0 && member c.fd l.close_on_drain
          then close_conn c close_by_user_land l
          else (c, update_write_fd c l))

  -- `processSend`
  pub process_send : Base → LoopConn al.State H → Option (Base × LoopConn al.State H)
  unfolding drain_write after_drain
  process_send c l = elim (drain_write c l) [ none ↦ none | some r ↦ some (after_drain r) ]
