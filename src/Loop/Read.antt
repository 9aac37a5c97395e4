-- ===== src/Loop/Read.antt =====
-- eventloop/loopConn.go: how a loop reads a connection and gives its packets to the handler. The outer
-- none is a run-time panic or a loop that ran out of fuel.
pub mod Finish
pub mod Limits
pub mod Cause
pub mod Digest
pub mod Choice
pub mod Place
pub mod Reads
pub mod Rounds
pub mod Stream
use connaxis.Prelude.{
  ℕ, zero, suc, ◌+◌, ◌-◌, ◌*◌, Bool, true, false, not, ◌&&◌, ◌||◌, Option, none, some, List, [],
  ◌∷◌, ◌++◌, Bytes, copy, copy_at, ltb, leb, ◌==◌, if◌then◌else◌, ℤ, pos, negsuc,
}
use connaxis.Prelude.Lists.{length, take, drop}
use connaxis.Prelude.FdSets.{insert_fd}
use connaxis.Alloc.{Allocator}
use connaxis.Kernel.{Kernel, fails, eagain}
use connaxis.Tuning.{Globals}
use connaxis.Ring.{RingBuffer, has, free, forward, op_write, truncate}
use connaxis.Ring.Grow.{align_bytes, update, reset, write}
use connaxis.WriteQueue.Flush.{Errno}
use connaxis.WriteQueue.Flush.Sent.{count_of}
use connaxis.Loop.State.{
  Base, LoopConn, CloseReason, close_send_err, close_read_err, close_pkt_size_limit,
  close_pkt_parse_err, close_mem_alloc_fail, close_by_user_land, close_by_slow_reader, on_data,
  Element, ConnChecker, add_int32, PktHandler, Outcome, returned, went_on,
}
use connaxis.Loop.Packets.{packet_loop, close_and_return}
use connaxis.Loop.Send.{close_conn, emit_output, drain_write, update_write_fd, pending_write}
use connaxis.Loop.Touch.{touch_conn}

-- `RingBufferGuardByteSize`
abbrev pub ring_buffer_guard_byte_size : ℕ
ring_buffer_guard_byte_size = 8 * 1024 * 1024

-- The buffer that a round reads into: the shared one, or the connection's own.
pub data Target : Type 0 where
  use_shared use_private : Target

-- Where the bytes of a read end up: the private buffer, and all of the bytes at hand.
pub place : Target → Bytes → Base → Base × Bytes
place use_shared bytes c = (c, take (has c.recvbuf) c.recvbuf.buf ++ bytes)
place use_private bytes c =
    let buf = copy_at c.recvbuf.buf (has c.recvbuf) bytes in
    (record c { recvbuf = record c.recvbuf { buf = buf } }, take (has c.recvbuf + length bytes) buf)

-- Whether a read of `n` bytes is the last of this event: EAGAIN, a short read, or the budget.
pub last_read : Globals → Errno → ℕ → ℕ → ℕ → Bool
last_read globals err n room total =
    eagain err
    || (not (eagain err) && ltb 0 n && ltb n room)
    || (ltb 0 globals.event_loop.max_read_bytes_per_event
        && leb globals.event_loop.max_read_bytes_per_event total)

module _ {S H : Type 0} where
  -- The tests on what a connection has waiting, which `processRead`, `processCmd` and `consumeCmd` share:
  -- the reason to drop the connection. Its type is TYPE_CONN.
  pub too_much : Base → LoopConn S H → Option CloseReason
  too_much c l =
      if c.client
      then (if leb ring_buffer_guard_byte_size (pending_write c) then some close_send_err else none)
      else (if ltb l.cli_sbuf_limit (pending_write c) then some close_by_slow_reader else none)

  -- What `Conn.Read` does with the answer: EAGAIN is a read of nothing.
  pub answered :
      (ℤ × Errno) × Bytes → Base → LoopConn S H → (ℤ × Errno) × Bytes × Base × LoopConn S H
  answered ((n, err), bytes) c l = if eagain err then ((pos 0, err), [], c, l) else (
    (n, err),
    bytes,
    record c { recv = if ltb 0 (count_of n) then add_int32 c.recv (count_of n) else c.recv },
    l,
  )

  -- `Conn.Read` into a buffer of a length: the bytes it put there.
  pub conn_read : Kernel → Base → ℕ → LoopConn S H → (ℤ × Errno) × Bytes × Base × LoopConn S H
  unfolding answered
  conn_read kernel c len l =
      answered (kernel.read l.reads len) c
        (record l { reads = l.reads + 1; read = add_int32 l.read 1 })

  -- The room behind the `left` bytes that the buffer starts with.
  pub room_of : Target → Base → LoopConn S H → ℕ
  room_of use_shared c l = l.shared - has c.recvbuf
  room_of use_private c l = length c.recvbuf.buf - has c.recvbuf

module _ (al : Allocator) (kernel : Kernel) (globals : Globals) {H : Type 0} where
  -- A private buffer that is full: one of twice its capacity takes its bytes.
  pub double_buf : Base → LoopConn al.State H → Option (Outcome Unit × Base × LoopConn al.State H)
  double_buf c l = elim (al.get (c.recvbuf.size * 2) l.pool) [
    | none ↦ none
    | some (none, s) ↦
        close_and_return al kernel globals c close_pkt_size_limit (record l { pool = s })
    | some (some buf, s) ↦ elim (align_bytes al c.recvbuf s) [
      | none ↦ none
      | some (rb, s') ↦
          let (rb', s'') = update al rb (copy buf rb.buf) s' in
          let (_, rb'') = forward rb' (length rb.buf) op_write in
          some (went_on tt, record c { recvbuf = rb'' }, record l { pool = s'' })
    ]
  ]

  -- The choice of the buffer that the round reads into.
  pub read_target :
      Base → LoopConn al.State H → Option (Outcome Target × Base × LoopConn al.State H)
  unfolding double_buf
  read_target c l =
      if has c.recvbuf == 0
      then some (went_on use_shared, c, l)
      else (if ltb (c.recvbuf.size - has c.recvbuf) (l.shared - has c.recvbuf)
          then (elim (align_bytes al c.recvbuf l.pool) [
            | none ↦ none
            | some (rb, s) ↦
                if ltb (length rb.buf) (has c.recvbuf)
                then none
                else some (went_on use_shared, record c { recvbuf = rb }, record l { pool = s })
          ])
          else (elim (if free c.recvbuf == 0 then double_buf c l else some (went_on tt, c, l)) [
            | none ↦ none
            | some (returned, c', l') ↦ some (returned, c', l')
            | some (went_on _, c', l') ↦ elim (align_bytes al c'.recvbuf l'.pool) [
              | none ↦ none
              | some (rb, s) ↦
                  if ltb (length rb.buf) (has c.recvbuf)
                  then none
                  else some
                      (went_on use_private, record c' { recvbuf = rb }, record l' { pool = s })
            ]
          ]))

  -- The end of a round: whether the loop goes on.
  pub after_limits : Bool → Base → LoopConn al.State H → Outcome Unit × Base × LoopConn al.State H
  after_limits true c l = (returned, c, update_write_fd c l)
  after_limits false c l = (went_on tt, c, l)

  -- A round after its packets: `drainWrite`, the close that the handler asked for, the limits.
  pub after_packets :
      Bool → Bool → Base → LoopConn al.State H → Option (Outcome Unit × Base × LoopConn al.State H)
  unfolding too_much after_limits
  after_packets want stop c l = elim (drain_write al kernel globals c l) [
    | none ↦ none
    | some ((n, err), c', l') ↦
        if fails err
        then close_and_return al kernel globals c' close_send_err l'
        else (if want
            then (if ltb 0 (pending_write c')
                then some (
                  returned,
                  c',
                  update_write_fd c'
                      (record l' { close_on_drain = insert_fd c'.fd l'.close_on_drain }),
                )
                else close_and_return al kernel globals c' close_by_user_land l')
            else (elim (too_much c' l') [
              | some reason ↦ close_and_return al kernel globals c' reason l'
              | none ↦ some (after_limits stop c' l')
            ]))
  ]

  -- A round with `n` bytes read, and all of the bytes at hand.
  pub digest :
      PktHandler H
      → Bool
      → Base
      → Bytes
      → LoopConn al.State H
      → Option (Outcome Unit × Base × LoopConn al.State H)
  unfolding after_packets
  digest h stop c inp l =
      let l₁ = touch_conn c l in
      let c₁ = record c { last_recv = l.now_sec } in
      elim (packet_loop al kernel globals (length inp + 1) c₁ inp l₁ h) [
        | none ↦ none
        | some (returned, c', l') ↦ some (returned, c', l')
        | some (went_on want, c', l') ↦ after_packets want stop c' l'
      ]

  -- What a round does with the read: `room` is the length of the buffer that it was given.
  pub after_read :
      PktHandler H
      → ℕ
      → Target
      → ℕ
      → (ℤ × Errno) × Bytes × Base × LoopConn al.State H
      → Option (ℕ × Outcome Unit × Base × LoopConn al.State H)
  unfolding place digest last_read
  after_read h total target room ((r, err), bytes, c, l) =
      if fails err || (leb (count_of r) 0 && not (eagain err))
      then (let (c', l') = close_conn al kernel globals c close_read_err l in
          some (total, returned, c', l'))
      else (let (c', inp) = place target bytes c in
          elim (digest h (last_read globals err (count_of r) room (total + count_of r)) c' inp l) [
            | none ↦ none
            | some (o, c'', l') ↦ some (total + count_of r, o, c'', l')
          ])

  -- The read of a round, into the buffer that was chosen, and what follows.
  pub read_into :
      PktHandler H
      → ℕ
      → Target
      → Base
      → LoopConn al.State H
      → Option (ℕ × Outcome Unit × Base × LoopConn al.State H)
  unfolding conn_read room_of after_read
  read_into h total target c l =
      after_read h total target (room_of target c l) (conn_read kernel c (room_of target c l) l)

  -- A round of `processRead`; `total` bytes were read before.
  pub read_round :
      PktHandler H
      → ℕ
      → Base
      → LoopConn al.State H
      → Option (ℕ × Outcome Unit × Base × LoopConn al.State H)
  unfolding read_target read_into
  read_round h total c l = elim (read_target c l) [
    | none ↦ none
    | some (returned, c', l') ↦ some (total, returned, c', l')
    | some (went_on target, c', l') ↦ read_into h total target c' l'
  ]

  pub read_loop :
      PktHandler H → ℕ → ℕ → Base → LoopConn al.State H → Option (Base × LoopConn al.State H)
  unfolding read_round
  read_loop h zero total c l = none
  read_loop h (suc fuel) total c l = elim (read_round h total c l) [
    | none ↦ none
    | some (sum, returned, c', l') ↦ some (c', l')
    | some (sum, went_on _, c', l') ↦ read_loop h fuel sum c' l'
  ]

  -- `processRead`, of at most `fuel` rounds.
  pub process_read :
      PktHandler H → ℕ → Base → LoopConn al.State H → Option (Base × LoopConn al.State H)
  unfolding read_loop
  process_read h fuel c l = read_loop h fuel 0 c l
