-- ===== src/Loop/Packets/Cause.antt =====
-- eventloop/loopConn.go: where the loop over the packets of a read returns early, or is asked to close.
use connaxis.Prelude.{ℕ, ℤ, ◌≡◌, Bool, true, none, some, Bytes, ◌∷◌, take, drop}
use connaxis.Prelude.Lists.{length}
use connaxis.Alloc.{Allocator}
use connaxis.Kernel.{Kernel}
use connaxis.Tuning.{Globals}
use connaxis.Loop.State.{Base, LoopConn, CloseReason, on_data, PktHandler, went_on}
use connaxis.Loop.Send.{emit_output}
use connaxis.Loop.Packets.{Parsed, malformed, partial, complete, check_packet, deliver, int_to_nat}

module _ (al : Allocator) (kernel : Kernel) (globals : Globals) {H : Type 0}
    (h : PktHandler H) where
  -- What the handler says of the bytes at hand, after the checks, and its state then.
  abbrev pub verdict : Bytes → LoopConn al.State H → Parsed
  verdict inp l = check_packet l.pkt_size_limit (length inp) (h.parse_packet inp l.user).0

  abbrev pub parsed_by : Bytes → LoopConn al.State H → LoopConn al.State H
  parsed_by inp l = record l { user = (h.parse_packet inp l.user).1 }

  -- The handler's output for a packet cannot be sent.
  abbrev pub NotSent : Base → Bytes → LoopConn al.State H → Type 0
  NotSent c packet l =
      let ((out, action), u) = h.on_data packet l.user in
      (errno : ℕ) × (c' : Base) × (l' : LoopConn al.State H) × (emit_output al kernel globals c out
          (record l { user = u; log = on_data c.self packet ∷ l.log })
        ≡ some (some errno, c', l'))

  -- The loop closes the connection at the bytes at hand: what the handler says of them does not hold, the
  -- pool has no buffer of the size that it announces, or the output for their packet cannot be sent.
  pub data Fault : Base → Bytes → LoopConn al.State H → Type 0 where
    rejected :
        {c : Base} {inp : Bytes} {l : LoopConn al.State H} (reason : CloseReason)
        → verdict inp l ≡ malformed reason
        → Fault c inp l
    no_room :
        {c : Base} {inp : Bytes} {l : LoopConn al.State H} (expect : ℤ) (s : al.State)
        → verdict inp l ≡ partial expect
        → al.get (int_to_nat expect) l.pool ≡ some (none, s)
        → Fault c inp l
    not_sent :
        {c : Base} {inp : Bytes} {l : LoopConn al.State H} (n : ℕ)
        → verdict inp l ≡ complete n
        → NotSent c (take n inp) (parsed_by inp l)
        → Fault c inp l

  -- The handler asks to close at the packet in front of the bytes at hand.
  abbrev pub Asks : Base → Bytes → LoopConn al.State H → Type 0
  Asks c inp l =
      (n : ℕ) × (verdict inp l ≡ complete n)
      × ((h.on_data (take n inp) (parsed_by inp l).user).0.1 ≡ true)

  -- Something that is so at one of the packets of the loop, as the loop comes to it.
  pub data InPackets (K : Base → Bytes → LoopConn al.State H → Type 0)
      : Base → Bytes → LoopConn al.State H → Type 0 where
    here : {c : Base} {inp : Bytes} {l : LoopConn al.State H} → K c inp l → InPackets K c inp l
    next_packet :
        {c c' : Base} {inp : Bytes} {l l' : LoopConn al.State H} (n : ℕ) (want : Bool)
        → verdict inp l ≡ complete n
        → deliver al kernel globals c (take n inp) (parsed_by inp l) h ≡ some (went_on want, c', l')
        → InPackets K c' (drop n inp) l'
        → InPackets K c inp l
