-- ===== src/Pool.antt =====
-- pool/pool.go: the size-classed byte allocator `BytesAlloctor` over one sync.Pool for each class.
-- A sync.Pool may hand out any buffer that it holds, or make a new one; which one it is comes from
-- the schedule `picks` of the state, so that every behaviour of the library is a value of `picks`.
pub mod Target
pub mod Valid
pub mod Reuse
pub mod Tests
use Prim.Native.Nat.{bit_and}
use connaxis.Prelude.{
  ℕ, zero, suc, ◌+◌, ◌-◌, ◌*◌, ◌^◌, Bool, true, false, not, ◌&&◌, ◌||◌, Option, none, some, List,
  [], ◌∷◌, Bytes, ltb, leb, ◌==◌, if◌then◌else◌,
}
use connaxis.Prelude.Lists.{length, replicate}

-- `allocorMap` maps a size to the buffers that its sync.Pool holds.
pub record BytesAlloctor : Type 0 where
  pub step : ℕ
  pub rank : ℕ
  pub max : ℕ
  pub allocor_map : ℕ → Option (List Bytes)
  pub picks : List ℕ

-- `allocorMap.Store(size, p)`
pub store : ℕ → List Bytes → (ℕ → Option (List Bytes)) → ℕ → Option (List Bytes)
store size bufs m k = if k == size then some bufs else m k

-- The loop of `initialize`, with `n` rounds left at index `i`. The state's `max` is the loop's.
-- `(1 << i) * step` does not wrap below rank 53.
pub initialize_from : ℕ → ℕ → BytesAlloctor → BytesAlloctor
initialize_from zero i a = a
initialize_from (suc n) i a =
    initialize_from n (i + 1)
      (record a { allocor_map = store (2 ^ i * a.step) [] a.allocor_map; max = 2 ^ i * a.step })

-- `initialize`; none is wrapper.Fatalf.
pub initialize : BytesAlloctor → Option BytesAlloctor
unfolding initialize_from store
initialize a =
    if not (bit_and a.step (a.step - 1) == 0) then none else some (initialize_from a.rank 0 a)

-- `Setup`, the body of once.Do
pub setup : ℕ → List ℕ → Option BytesAlloctor
unfolding initialize
setup rank picks =
    initialize
      (record { step = 1024; rank = rank; max = 0; allocor_map = λ k. none; picks = picks })

-- The search loop of `Get`: `target` is the variable that it leaves, `n` the rounds left.
pub search_class : ℕ → ℕ → ℕ → ℕ → ℕ → ℕ
search_class zero i step size target = target
search_class (suc n) i step size target =
    let next = search_class n (i + 1) step size (2 ^ i * step) in
    if leb size (2 ^ i * step) then 2 ^ i * step else next

pub target_size : BytesAlloctor → ℕ → ℕ
target_size a size =
    if ltb a.step size
    then (if bit_and size (size - 1) == 0 then size else search_class a.rank 0 a.step size a.step)
    else a.step

-- The buffer at an index, and the others.
pub pick_at : ℕ → List Bytes → Option (Bytes × List Bytes)
pick_at i [] = none
pick_at zero (b ∷ bs) = some (b, bs)
pick_at (suc i) (b ∷ bs) = elim (pick_at i bs) [ none ↦ none | some (c, cs) ↦ some (c, b ∷ cs) ]

-- `sync.Pool.Get` with `New: make([]byte, size)`: the buffer that the schedule picks, else a new one.
pub pool_get : List ℕ → ℕ → List Bytes → Bytes × List Bytes
pool_get [] size bufs = (replicate size 0, bufs)
pool_get (i ∷ picks) size bufs = elim (pick_at i bufs) [
  | none ↦ (replicate size 0, bufs)
  | some (b, bs) ↦ (b, bs)
]

pub next_picks : List ℕ → List ℕ
next_picks [] = []
next_picks (i ∷ picks) = picks

-- `Get`: none is the panic of a missing class, some (none, a) the nil slice.
pub get : ℕ → BytesAlloctor → Option (Option Bytes × BytesAlloctor)
get size a = if ltb a.max size then some (none, a) else (elim (a.allocor_map (target_size a size)) [
  | none ↦ none
  | some bufs ↦
      let (b, rest) = pool_get a.picks (target_size a size) bufs in
      some (
        some b,
        record a {
          allocor_map = store (target_size a size) rest a.allocor_map;
          picks = next_picks a.picks;
        },
      )
])

-- The condition on which `Put` gives up the buffer to the garbage collector.
pub is_dropped : ℕ → BytesAlloctor → Bool
is_dropped size a =
    (ltb a.max size && ltb size a.step) || not (bit_and size (size - 1) == 0) || size == 0

-- `Put`
pub put : Bytes → BytesAlloctor → BytesAlloctor
put buf a = if is_dropped (length buf) a then a else (elim (a.allocor_map (length buf)) [
  | none ↦ a
  | some bufs ↦ record a { allocor_map = store (length buf) (buf ∷ bufs) a.allocor_map }
])
