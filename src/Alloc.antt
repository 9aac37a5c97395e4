-- ===== src/Alloc.antt =====
-- What pool.GAlloctor promises its clients (the ring buffer, the write queue, the WebSocket message
-- buffer): the operations of pool/pool.go with their laws. `Pool.Valid` fills this interface.
use connaxis.Prelude.{ℕ, ◌≤◌, ◌≡◌, Option, some, Bytes}
use connaxis.Prelude.Lists.{length}

pub record Allocator : Type 1 where
  pub State : Type 0
  -- `Get`: none is a run-time panic, some (none, s) a nil slice.
  pub get : ℕ → State → Option (Option Bytes × State)
  -- `Put`
  pub put : Bytes → State → State
  pub IsValid : State → Type 0
  -- A valid allocator does not panic, stays valid, and a buffer it hands out is long enough.
  pub get_lem :
      (n : ℕ) (s : State)
      → IsValid s
      → (o : Option Bytes) × (s' : State) × (get n s ≡ some (o, s'))
        × IsValid s'
        × ((b : Bytes) → o ≡ some b → n ≤ length b)
  pub put-IsValid : (b : Bytes) (s : State) → IsValid s → IsValid (put b s)
