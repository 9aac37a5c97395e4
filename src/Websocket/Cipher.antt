-- ===== src/Websocket/Cipher.antt =====
-- websocket/cipher.go: the masking of a payload, eight bytes at a time. `bit_xor` is `^`.
pub mod Xor
pub mod Whole
use connaxis.Prelude.{ℕ, zero, suc, ◌+◌, ◌-◌, ◌/◌, ◌%◌, Bytes, ltb, if◌then◌else◌}
use connaxis.Prelude.Lists.{length, get_or, set}
use Prim.Native.Nat.{bit_xor}

-- `mask[i]`, at an index below four.
pub mask_at : ℕ × ℕ × ℕ × ℕ → ℕ → ℕ
mask_at (a, b, c, d) zero = a
mask_at (a, b, c, d) (suc zero) = b
mask_at (a, b, c, d) (suc (suc zero)) = c
mask_at (a, b, c, d) (suc (suc (suc i))) = d

-- `payload[i] ^= k`
pub xor_at : Bytes → ℕ → ℕ → Bytes
xor_at payload i k = set payload i (bit_xor (get_or payload i 0) k)

-- The loops that mask byte by byte: `n` bytes from `i` on.
pub xor_bytes : ℕ × ℕ × ℕ × ℕ → ℕ → ℕ → ℕ → Bytes → Bytes
unfolding mask_at xor_at
xor_bytes mask offset i zero payload = payload
xor_bytes mask offset i (suc n) payload =
    xor_bytes mask offset (i + 1) n (xor_at payload i (mask_at mask ((offset + i) % 4)))

-- `*v = *v ^ m2`: the bytes of the word at `i`, from its byte `j` on.
pub xor_word : ℕ × ℕ × ℕ × ℕ → ℕ → ℕ → ℕ → Bytes → Bytes
unfolding mask_at xor_at
xor_word mask i j zero payload = payload
xor_word mask i j (suc n) payload =
    xor_word mask i (j + 1) n (xor_at payload (i + j) (mask_at mask (j % 4)))

-- The loop over words: in memory the word `m2` is the mask twice, on any byte order, and the xor of
-- two words is that of their bytes.
pub xor_words : ℕ × ℕ × ℕ × ℕ → ℕ → ℕ → Bytes → Bytes
unfolding xor_word
xor_words mask i zero payload = payload
xor_words mask i (suc n) payload = xor_words mask (i + 8) n (xor_word mask i 0 8 payload)

-- `remain`
pub remain : ℕ → ℕ
remain zero = 0
remain (suc zero) = 3
remain (suc (suc zero)) = 2
remain (suc (suc (suc mpos))) = 1

-- `cipher`, for an offset that is not negative.
unfoldable pub cipher : Bytes → ℕ × ℕ × ℕ × ℕ → ℕ → Bytes
unfolding xor_bytes xor_words remain
cipher payload mask offset =
    let n = length payload in
    if ltb n 8
    then xor_bytes mask offset 0 n payload
    else (let mpos = offset % 4 in
        let ln = remain mpos in
        let rn = (n - ln) % 8 in
        let fronted = xor_bytes mask mpos 0 ln payload in
        let ended = xor_bytes mask mpos (n - rn) rn fronted in
        xor_words mask ln ((n - ln - rn) / 8) ended)
