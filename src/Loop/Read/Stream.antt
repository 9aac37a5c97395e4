-- ===== src/Loop/Read/Stream.antt =====
-- eventloop/loopConn.go: `processRead` ends, and gives the handler the stream of the bytes that were read.
use connaxis.Prelude.{ℕ, ◌≡◌, ◌⊎◌, true, Bytes, ◌++◌}
use connaxis.Prelude.FdSets.{member}
use connaxis.Alloc.{Allocator}
use connaxis.Kernel.{Kernel}
use connaxis.Tuning.{Globals}
use connaxis.Ring.Valid.{IsValid, contents}
use connaxis.Ring.Grow.Fits.{AtFront}
use connaxis.Loop.State.{Base, LoopConn, PktHandler}
use connaxis.Loop.Send.Drain.{Ready}
use connaxis.Loop.Send.Interest.{heard}
use connaxis.Loop.Read.Cause.{Cause, Asked}
use connaxis.Loop.Read.Reads.{FromReads}
use connaxis.Loop.Read.Rounds.{Read}

module _ (al : Allocator) (kernel : Kernel) (globals : Globals) {H : Type 0}
    (h : PktHandler H) where
  -- What `processRead` leaves of a connection that was read. It is open: the bytes that the handler was given
  -- of it, and behind them those that wait in its receive buffer, grew by the bytes of all the reads that
  -- were made, each once and in order. Or it is closed, and the run came to a cause; or it came to a packet at
  -- which the handler asked to close, and the connection is to close when its output has gone.
  abbrev pub Streamed : ℕ → Base → LoopConn al.State H → Base → LoopConn al.State H → Type 0
  Streamed total c l c' l' =
      (c'.fd ≡ 0) × Cause al kernel globals h total c l
      ⊎ (member c'.fd l'.close_on_drain ≡ true) × Asked al kernel globals h total c l
      ⊎ Ready al c' l'
        × IsValid c'.recvbuf
        × AtFront c'.recvbuf
        × ((bytes : Bytes) × FromReads al kernel globals h total c l c' l' bytes
            × (heard c.self l'.log ++ contents c'.recvbuf
                ≡ (heard c.self l.log ++ contents c.recvbuf) ++ bytes))
