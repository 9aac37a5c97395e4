-- ===== src/Loop/Read/Cause.antt =====
-- eventloop/loopConn.go: where `processRead` closes a connection, or is asked to.
use connaxis.Prelude.{
  ℕ, ℤ, ◌+◌, ◌-◌, ◌*◌, ◌<◌, ◌≡◌, Bool, true, false, not, ◌||◌, ◌&&◌, none, some, Bytes, leb,
}
use connaxis.Prelude.Lists.{length}
use connaxis.Alloc.{Allocator}
use connaxis.Kernel.{Kernel, fails, eagain}
use connaxis.Tuning.{Globals}
use connaxis.WriteQueue.Flush.{Errno}
use connaxis.WriteQueue.Flush.Sent.{count_of}
use connaxis.Loop.State.{Base, LoopConn, PktHandler, went_on}
use connaxis.Loop.Touch.{touch_conn}
use connaxis.Loop.Send.{drain_write}
use connaxis.Loop.Send.Drain.{backlog}
use connaxis.Loop.Packets.{packet_loop}
use connaxis.Loop.Packets.Cause.{Fault, Asks, InPackets}
use connaxis.Loop.Read.{Target, place, room_of, conn_read, read_target, read_round}
use connaxis.Loop.Read.Limits.{OverLimit}

-- The first test of `processRead` after a read.
abbrev pub bad_read : ℤ × Errno → Bool
bad_read (n, err) = fails err || leb (count_of n) 0 && not (eagain err)

module _ (al : Allocator) (kernel : Kernel) (globals : Globals) {H : Type 0}
    (h : PktHandler H) where
  -- After the packets, with the handler's wish to close: the backlog cannot be sent, the handler wishes it,
  -- or what waits after `drainWrite` is over the limit.
  pub data EndFault : Bool → Base → LoopConn al.State H → Type 0 where
    not_drained :
        {want : Bool} {c : Base} {l : LoopConn al.State H} (n : ℕ) (err : Errno) (c' : Base)
        (l' : LoopConn al.State H)
        → drain_write al kernel globals c l ≡ some ((n, err), c', l')
        → fails err ≡ true
        → EndFault want c l
    wanted : {c : Base} {l : LoopConn al.State H} → EndFault true c l
    over_limit :
        {c : Base} {l : LoopConn al.State H} (r : ℕ × Errno) (c' : Base) (l' : LoopConn al.State H)
        → drain_write al kernel globals c l ≡ some (r, c', l')
        → OverLimit c'.client l'.cli_sbuf_limit (length (backlog c'))
        → EndFault false c l

  abbrev pub touched : Base → LoopConn al.State H → Base
  touched c l = record c { last_recv = l.now_sec }

  -- From the bytes at hand on: at one of the packets, or after them.
  pub data DigestFault : Base → Bytes → LoopConn al.State H → Type 0 where
    at_packet :
        {c : Base} {inp : Bytes} {l : LoopConn al.State H}
        → InPackets al kernel globals h
            (Fault al kernel globals h)
            (touched c l)
            inp
            (touch_conn c l)
        → DigestFault c inp l
    after_all :
        {c : Base} {inp : Bytes} {l : LoopConn al.State H} (want : Bool) (c' : Base)
        (l' : LoopConn al.State H)
        → packet_loop al kernel globals (length inp + 1) (touched c l) inp (touch_conn c l) h
          ≡ some (went_on want, c', l')
        → EndFault want c' l'
        → DigestFault c inp l

  abbrev pub DigestAsks : Base → Bytes → LoopConn al.State H → Type 0
  DigestAsks c inp l =
      InPackets al kernel globals h (Asks al kernel globals h) (touched c l) inp (touch_conn c l)

  -- What is so of the bytes at hand after a read that answered.
  abbrev pub WithBytes :
      (Base → Bytes → LoopConn al.State H → Type 0)
      → Target
      → (ℤ × Errno) × Bytes × Base × LoopConn al.State H
      → Type 0
  WithBytes K target (r, bytes, c, l) = let (c', inp) = place target bytes c in K c' inp l

  -- From the read on: it fails or finds the end, or something follows with its bytes.
  pub data ReadFault : Target → Base → LoopConn al.State H → Type 0 where
    read_failed :
        {target : Target} {c : Base} {l : LoopConn al.State H}
        → bad_read (kernel.read l.reads (room_of target c l)).0 ≡ true
        → ReadFault target c l
    with_bytes :
        {target : Target} {c : Base} {l : LoopConn al.State H}
        → WithBytes DigestFault target (conn_read kernel c (room_of target c l) l)
        → ReadFault target c l

  abbrev pub ReadAsks : Target → Base → LoopConn al.State H → Type 0
  ReadAsks target c l = WithBytes DigestAsks target (conn_read kernel c (room_of target c l) l)

  -- The receive buffer is full, and the pool has none of twice its size.
  abbrev pub NotDoubled : Base → LoopConn al.State H → Type 0
  NotDoubled c l =
      (0 < c.recvbuf.size)
      × (c.recvbuf.w - c.recvbuf.r ≡ c.recvbuf.size)
      × ((s : al.State) × (al.get (c.recvbuf.size * 2) l.pool ≡ some (none, s)))

  -- In a round: at the choice of the buffer, or from its read on.
  pub data RoundFault : Base → LoopConn al.State H → Type 0 where
    not_doubled : {c : Base} {l : LoopConn al.State H} → NotDoubled c l → RoundFault c l
    with_target :
        {c : Base} {l : LoopConn al.State H} (target : Target) (c' : Base)
        (l' : LoopConn al.State H)
        → read_target al kernel globals c l ≡ some (went_on target, c', l')
        → ReadFault target c' l'
        → RoundFault c l

  abbrev pub RoundAsks : Base → LoopConn al.State H → Type 0
  RoundAsks c l =
      (target : Target) × (c' : Base) × (l' : LoopConn al.State H) × (read_target al kernel globals
          c l
        ≡ some (went_on target, c', l'))
      × ReadAsks target c' l'

  -- Something that is so in one of the rounds, as `processRead` comes to it after the bytes read before.
  pub data InRounds (K : Base → LoopConn al.State H → Type 0)
      : ℕ → Base → LoopConn al.State H → Type 0 where
    this_round : {total : ℕ} {c : Base} {l : LoopConn al.State H} → K c l → InRounds K total c l
    next_round :
        {total sum : ℕ} {c c' : Base} {l l' : LoopConn al.State H}
        → read_round al kernel globals h total c l ≡ some (sum, went_on tt, c', l')
        → InRounds K sum c' l'
        → InRounds K total c l

  -- The run comes to a round that closes the connection, and to one in which the handler asks for it.
  abbrev pub Cause : ℕ → Base → LoopConn al.State H → Type 0
  Cause = InRounds RoundFault

  abbrev pub Asked : ℕ → Base → LoopConn al.State H → Type 0
  Asked = InRounds RoundAsks
