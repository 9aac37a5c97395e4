-- ===== src/Websocket/Endian.antt =====
-- The part of Go's encoding/binary that websocket/frame.go uses: numbers as bytes, the highest first.
use connaxis.Prelude.{
  ℕ, zero, suc, ◌+◌, ◌*◌, ◌/◌, ◌%◌, ◌^◌, ◌<◌, ◌≡◌, refl, [], ◌∷◌, ◌++◌, Bytes, arith,
}
use connaxis.Prelude.Lists.{length, length-append}
use native.Mathlib.Nat.{pow-suc}

-- `BigEndian.PutUint`: the lowest `k` bytes of a number.
unfoldable pub put_uint : ℕ → ℕ → Bytes
put_uint zero n = []
put_uint (suc k) n = put_uint k (n / 256) ++ n % 256 ∷ []

-- `BigEndian.Uint`, behind bytes that were read before.
unfoldable pub uint_from : ℕ → Bytes → ℕ
uint_from acc [] = acc
uint_from acc (b ∷ bs) = uint_from (acc * 256 + b) bs

abbrev pub uint : Bytes → ℕ
uint bs = uint_from 0 bs

uint_from-append :
    (acc b : ℕ) (bs : Bytes) → uint_from acc (bs ++ b ∷ []) ≡ uint_from acc bs * 256 + b
unfolding uint_from
uint_from-append acc b [] = refl
uint_from-append acc b (c ∷ bs) = uint_from-append (acc * 256 + c) b bs

pub length-put_uint : (k n : ℕ) → length (put_uint k n) ≡ k
unfolding put_uint
length-put_uint zero n = refl
length-put_uint (suc k) n =
    omega (arith, length-append (put_uint k (n / 256)) (n % 256 ∷ []), length-put_uint k (n / 256))

-- A number that fits is read back.
pub uint-put_uint : (k n : ℕ) → n < 256 ^ k → uint (put_uint k n) ≡ n
unfolding put_uint uint_from
uint-put_uint zero n h = omega arith
uint-put_uint (suc k) n h =
    let fits : n / 256 < 256 ^ k = omega (arith, pow-suc 256 k) in
    omega
      (arith, uint_from-append 0 (n % 256) (put_uint k (n / 256)), uint-put_uint k (n / 256) fits)
