-- ===== src/Ring/Tests.antt =====
-- ringbuffer/ringbuffer.go: the ring at small inputs, with buffers of eight bytes.
use connaxis.Prelude.{
  ℕ, ◌≤◌, ◌≡◌, refl, ◌⊎◌, inl, inr, Option, none, some, [], ◌∷◌, Bytes, ltb, if◌then◌else◌, arith,
  true, Bool-cases, ltb→le, pos,
}
use connaxis.Prelude.Lists.{length, replicate, get_or}
use connaxis.Alloc.{Allocator}
use connaxis.Ring.{RingBuffer, read}
use connaxis.Ring.Valid.{IsValid, contents}
use connaxis.Ring.Access.{read_lem}
use connaxis.Ring.Grow.{write, peek_write}
use connaxis.Ring.Grow.Append.{Written, write_lem}
use connaxis.Ring.Grow.Peek.{Offered, Withheld, peek_write_lem}
use connaxis.Ring.Grow.Overrun.{write_overrun}

-- An allocator of eight bytes, or nothing.
abbrev pub eight_get : ℕ → Unit {0} → Option (Option Bytes × Unit {0})
eight_get n s = some (if ltb 8 n then none else some (replicate 8 0), s)

pub eight_get_lem :
    (n : ℕ) (s : Unit {0})
    → Unit {0}
    → (o : Option Bytes) × (s' : Unit {0}) × (eight_get n s ≡ some (o, s'))
      × Unit {0}
      × ((b : Bytes) → o ≡ some b → n ≤ length b)
eight_get_lem n s v = elim (Bool-cases (ltb 8 n)) [
  | inl large ↦ (none, s, rw large, tt, λ b e. absurd (cc))
  | inr small ↦ (
    some (replicate 8 0),
    s,
    rw small,
    tt,
    λ b e. let same : replicate 8 0 ≡ b = cc in rw (← same) (ltb→le 8 n small),
  )
]

abbrev pub eight : Allocator
eight = record {
  State = Unit {0};
  get = eight_get;
  put = λ b s. s;
  IsValid = λ s. Unit {0};
  get_lem = eight_get_lem;
  put-IsValid = λ b s v. tt;
}

-- The bytes 8, 9 and 7, round the end of a buffer of four.
abbrev pub wrapped : RingBuffer
wrapped = record { buf = 7 ∷ 0 ∷ 8 ∷ 9 ∷ []; size = 4; r = 2; w = 5 }

pub wrapped-IsValid : IsValid wrapped
wrapped-IsValid = omega arith

contents-wrapped : contents wrapped ≡ 8 ∷ 9 ∷ 7 ∷ []
contents-wrapped = refl

read_lem_example :
    (rb' : RingBuffer) × (read wrapped (0 ∷ 0 ∷ 0 ∷ 0 ∷ 5 ∷ []) 4 true
      ≡ some (pos 3, 8 ∷ 9 ∷ 7 ∷ 0 ∷ 5 ∷ [], rb'))
    × IsValid rb'
    × (contents rb' ≡ [])
read_lem_example =
    read_lem wrapped (0 ∷ 0 ∷ 0 ∷ 0 ∷ 5 ∷ []) 4 true wrapped-IsValid (omega arith) (omega arith)

write_lem_example :
    Written eight wrapped (1 ∷ 2 ∷ []) true (write eight wrapped (1 ∷ 2 ∷ []) 2 true tt)
write_lem_example = write_lem eight wrapped (1 ∷ 2 ∷ []) true tt wrapped-IsValid tt (omega arith)

peek_write_lem_example :
    Offered eight wrapped 3 (peek_write eight wrapped 3 tt)
    ⊎ Withheld eight wrapped (peek_write eight wrapped 3 tt)
peek_write_lem_example = peek_write_lem eight wrapped 3 tt wrapped-IsValid tt (omega arith)

-- One byte is written, the next one of the slice lands on the oldest byte, 8.
write_overrun_example :
    (rb' : RingBuffer) × (write eight wrapped (1 ∷ 2 ∷ []) 1 true tt ≡ some (pos 1, rb', tt))
    × (get_or (contents rb') 0 0 ≡ 2)
write_overrun_example =
    write_overrun eight wrapped (1 ∷ 2 ∷ []) 1 tt wrapped-IsValid (omega arith) (omega arith) refl
      (omega arith)
