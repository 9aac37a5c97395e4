-- ===== src/Ring/Grow/Tests.antt =====
-- ringbuffer/ringbuffer.go: a run of `Write` that needs a larger buffer.
use connaxis.Prelude.{◌≡◌, refl, some, [], ◌∷◌, true, pos, copy, copy_at}
use connaxis.Ring.{copy_out, put_bytes}
use connaxis.Ring.Grow.{write}
use connaxis.Ring.Tests.{eight, wrapped}

-- A write that does not fit moves the bytes into a buffer of eight.
write_grows :
    write eight wrapped (1 ∷ 2 ∷ []) 2 true tt
    ≡ some (pos 2, record { buf = 8 ∷ 9 ∷ 7 ∷ 1 ∷ 2 ∷ 0 ∷ 0 ∷ 0 ∷ []; size = 8; r = 0; w = 5 }, tt)
unfolding write put_bytes copy_out copy copy_at
write_grows = refl
