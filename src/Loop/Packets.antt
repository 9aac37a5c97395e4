-- ===== src/Loop/Packets.antt =====
-- eventloop/loopConn.go: the inner loop of `processRead`, which cuts packets off the bytes that were read
-- and gives them to the handler.
pub mod Cause
pub mod Consumed
pub mod Delivered
use connaxis.Prelude.{
  ℕ, zero, suc, ◌+◌, ◌-◌, Bool, true, false, ◌||◌, Option, none, some, List, [], ◌∷◌, ◌++◌, Bytes,
  ltb, leb, ◌==◌, if◌then◌else◌, ℤ, pos, negsuc,
}
use connaxis.Prelude.Lists.{length, take, drop}
use connaxis.Alloc.{Allocator}
use connaxis.Kernel.{Kernel}
use connaxis.Tuning.{Globals}
use connaxis.Ring.{truncate}
use connaxis.Ring.Grow.{update, reset, write}
use connaxis.WriteQueue.Flush.{Errno}
use connaxis.Loop.State.{
  Base, LoopConn, CloseReason, close_send_err, close_pkt_size_limit, close_pkt_parse_err,
  close_mem_alloc_fail, on_data, PktHandler, Outcome, returned, went_on,
}
use connaxis.Loop.Send.{close_conn, emit_output}

-- `expect > n`
abbrev pub exceeds : ℤ → ℕ → Bool
exceeds (pos e) n = ltb n e
exceeds (negsuc e) n = false

abbrev pub int_to_nat : ℤ → ℕ
int_to_nat (pos n) = n
int_to_nat (negsuc n) = 0

-- What `ParsePacket` says of the bytes at hand, after the checks of its result.
pub data Parsed : Type 0 where
  malformed : CloseReason → Parsed
  partial : ℤ → Parsed
  complete : ℕ → Parsed

-- The checks, with the limit on packets and the number of the bytes at hand.
pub check_packet : ℕ → ℕ → ℤ × ℤ → Parsed
check_packet limit avail (negsuc n, expect) = malformed close_pkt_parse_err
check_packet limit avail (pos n, expect) =
    if exceeds expect limit
    then malformed close_pkt_size_limit
    else (if n == 0
        then partial expect
        else (if ltb avail n then malformed close_pkt_parse_err else complete n))

module _ (al : Allocator) (kernel : Kernel) (globals : Globals) {H : Type 0} where
  -- A stage that closes the connection and returns.
  unfoldable pub close_and_return :
      {A : Type 0}
      → Base
      → CloseReason
      → LoopConn al.State H
      → Option (Outcome A × Base × LoopConn al.State H)
  close_and_return c reason l =
      let (c', l') = close_conn al kernel globals c reason l in some (returned, c', l')

  -- `Recvbuf().Write(&in, left, true)`, whose result the loop does not look at.
  write_partial :
      Base → Bytes → LoopConn al.State H → Option (Outcome Bool × Base × LoopConn al.State H)
  write_partial c inp l = elim (write al c.recvbuf inp (length inp) true l.pool) [
    | none ↦ none
    | some (_, rb, s) ↦ some (went_on false, record c { recvbuf = rb }, record l { pool = s })
  ]

  -- The bytes of an incomplete packet go into the receive buffer.
  pub keep_partial :
      Base → Bytes → ℤ → LoopConn al.State H → Option (Outcome Bool × Base × LoopConn al.State H)
  unfolding close_and_return write_partial
  keep_partial c inp expect l =
      if length inp == 0
      then some (went_on false, c, l)
      else (if exceeds expect c.recvbuf.size
          then (elim (al.get (int_to_nat expect) l.pool) [
            | none ↦ none
            | some (none, s) ↦ close_and_return c close_pkt_size_limit (record l { pool = s })
            | some (some buf, s) ↦
                let (rb, s') = update al c.recvbuf buf s in
                write_partial (record c { recvbuf = rb }) inp (record l { pool = s' })
          ])
          else write_partial (record c { recvbuf = truncate c.recvbuf }) inp l)

  -- What follows `emitOutput` of a packet's output.
  after_emit :
      Bool
      → Option (Errno × Base × LoopConn al.State H)
      → Option (Outcome Bool × Base × LoopConn al.State H)
  unfolding close_and_return
  after_emit action none = none
  after_emit action (some (none, c, l)) = some (went_on action, c, l)
  after_emit action (some (some e, c, l)) =
      close_and_return c (if e == 12 then close_mem_alloc_fail else close_send_err) l

  -- A complete packet goes to the handler, and the handler's output to the connection.
  pub deliver :
      Base
      → Bytes
      → LoopConn al.State H
      → PktHandler H
      → Option (Outcome Bool × Base × LoopConn al.State H)
  unfolding after_emit
  deliver c packet l h =
      let ((out, action), u) = h.on_data packet l.user in
      after_emit action (
        emit_output al kernel globals c out
          (record l { user = u; log = on_data c.self packet ∷ l.log }))

  -- The end of a round of the loop that does not go on: with nothing left the buffer is given back.
  finish_packets :
      Bool → Bytes → Base → LoopConn al.State H → Option (Outcome Bool × Base × LoopConn al.State H)
  finish_packets want inp c l =
      if length inp == 0
      then (let (rb, s) = reset al c.recvbuf l.pool in
          some (went_on want, record c { recvbuf = rb }, record l { pool = s }))
      else some (went_on want, c, l)

  -- The inner loop of `processRead`: whether the handler asked to close. Each packet has a byte.
  pub packet_loop :
      ℕ
      → Base
      → Bytes
      → LoopConn al.State H
      → PktHandler H
      → Option (Outcome Bool × Base × LoopConn al.State H)
  unfolding keep_partial deliver finish_packets check_packet close_and_return
  packet_loop zero c inp l h = none
  packet_loop (suc fuel) c inp l h =
      let (answer, u) = h.parse_packet inp l.user in
      let l₁ : LoopConn al.State H = record l { user = u } in
      elim (check_packet l.pkt_size_limit (length inp) answer) [
        | malformed reason ↦ close_and_return c reason l₁
        | partial expect ↦ keep_partial c inp expect l₁
        | complete n ↦ elim (deliver c (take n inp) l₁ h) [
          | none ↦ none
          | some (returned, c', l') ↦ some (returned, c', l')
          | some (went_on want, c', l') ↦ elim (want || length (drop n inp) == 0) [
            | true ↦ finish_packets want (drop n inp) c' l'
            | false ↦ packet_loop fuel c' (drop n inp) l' h
          ]
        ]
      ]
