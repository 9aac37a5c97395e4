-- ===== src/Loop/Send/Refine.antt =====
-- eventloop/loopConn.go: what a client of a connection may rely on. Its output is a byte stream:
-- `emitOutput` and `drainWrite` refine it.
use connaxis.Prelude.{
  ℕ, ◌+◌, ◌^◌, ◌%◌, ◌≡◌, refl, sym, ap, ◌∙◌, none, some, Bytes, [], ◌++◌, append-nil, append_assoc,
  take, arith,
}
use connaxis.Prelude.Lists.{length, length-append}
use connaxis.Alloc.{Allocator}
use connaxis.Kernel.{Kernel}
use connaxis.Tuning.{Globals}
use connaxis.WriteQueue.Flush.{Errno}
use connaxis.Loop.State.{Base, LoopConn}
use connaxis.Loop.Send.{emit_output, drain_write}
use connaxis.Loop.Send.Drain.{backlog, Ready}
use connaxis.Loop.Send.Emit.{sent_now}

-- The abstract stream: what went to the socket, and what was accepted and waits.
pub record Stream : Type 0 where
  pub wire : Bytes
  pub waiting : Bytes

-- Its moves, with the bytes that each accepts.
pub data Moves : Stream → Bytes → Stream → Type 0 where
  rest : {s : Stream} → Moves s [] s
  accept :
      {s : Stream} {given : Bytes} {s' : Stream}
      → Moves s given s'
      → (out : Bytes)
      → Moves s (given ++ out) (record { wire = s'.wire; waiting = s'.waiting ++ out })
  transmit :
      {s : Stream} {given : Bytes} {s' : Stream}
      → Moves s given s'
      → (front back : Bytes) → s'.waiting ≡ front ++ back
      → Moves s given (record { wire = s'.wire ++ front; waiting = back })

-- A stream neither loses, repeats nor reorders: this is what the moves are for.
Moves-stream :
    {s : Stream} {given : Bytes} {s' : Stream}
    → Moves s given s'
    → s'.wire ++ s'.waiting ≡ (s.wire ++ s.waiting) ++ given
Moves-stream {s} rest = sym (append-nil (s.wire ++ s.waiting))
Moves-stream {s} (accept {given = given} {s' = s'} m out) =
    sym (append_assoc s'.wire s'.waiting out)
    ∙ ap (λ x. x ++ out) (Moves-stream m)
    ∙ append_assoc (s.wire ++ s.waiting) given out
Moves-stream {s} (transmit {s' = s'} m front back e) =
    append_assoc s'.wire front back ∙ ap (◌++◌ s'.wire) (sym e) ∙ Moves-stream m

module _ (al : Allocator) (kernel : Kernel) (globals : Globals) {H : Type 0} where
  -- A connection's output calls, with the bytes that they were given and those that went to the kernel. Where
  -- `emitOutput` reports an error it has taken what the kernel took, no more. `drainWrite` returns how many
  -- bytes of the backlog went.
  pub data Runs
      : Base → LoopConn al.State H → Bytes → Bytes → Base → LoopConn al.State H → Type 0 where
    start : {c : Base} {l : LoopConn al.State H} → Runs c l [] [] c l
    emitted :
        {c c' c'' : Base} {l l' l'' : LoopConn al.State H} {given wire : Bytes}
        → Runs c l given wire c' l'
        → (out : Bytes) → emit_output al kernel globals c' out l' ≡ some (none, c'', l'')
        → Runs c l (given ++ out) (wire ++ sent_now al kernel globals c' out l') c'' l''
    refused :
        {c c' c'' : Base} {l l' l'' : LoopConn al.State H} {given wire : Bytes}
        → Runs c l given wire c' l'
        → (out : Bytes) → (errno : ℕ)
        → emit_output al kernel globals c' out l' ≡ some (some errno, c'', l'')
        → Runs c l
            (given ++ sent_now al kernel globals c' out l')
            (wire ++ sent_now al kernel globals c' out l')
            c''
            l''
    drained :
        {c c' c'' : Base} {l l' l'' : LoopConn al.State H} {given wire : Bytes}
        → Runs c l given wire c' l'
        → (r : ℕ × Errno) → drain_write al kernel globals c' l' ≡ some (r, c'', l'')
        → Runs c l given (wire ++ take r.0 (backlog c')) c'' l''

  -- The connection implements the stream: it holds what waits, and counts what went.
  abbrev pub Implements : Base → LoopConn al.State H → Stream → Type 0
  Implements c l s = Ready al c l × (backlog c ≡ s.waiting) × (c.send ≡ length s.wire % 2 ^ 32)

  -- Moves that put the same bytes on the wire and reach what a connection implements.
  abbrev pub Simulated : Stream → Bytes → Bytes → Base → LoopConn al.State H → Type 0
  Simulated s given wire c l =
      (s' : Stream) × Moves s given s' × (s'.wire ≡ s.wire ++ wire) × Implements c l s'

  -- A move that accepts bytes and puts a front of all that waits on the wire.
  moved :
      {s : Stream} {given : Bytes} (c c' : Base) (l' : LoopConn al.State H) (wire out front : Bytes)
      (s' : Stream)
      → Moves s given s'
      → s'.wire ≡ s.wire ++ wire
      → backlog c ≡ s'.waiting
      → c.send ≡ length s'.wire % 2 ^ 32
      → backlog c ++ out ≡ front ++ backlog c'
      → c'.send ≡ (c.send + length front) % 2 ^ 32
      → Ready al c' l'
      → Simulated s (given ++ out) (wire ++ front) c' l'
  moved {s} c c' l' wire out front s' m on waits sum cut sum' ready = (
    record { wire = s'.wire ++ front; waiting = backlog c' },
    transmit (accept m out) front (backlog c') (ap (λ x. x ++ out) (sym waits) ∙ cut),
    ap (λ x. x ++ front) on ∙ append_assoc s.wire wire front,
    (ready, refl, omega (arith, sum, sum', length-append s'.wire front)),
  )
