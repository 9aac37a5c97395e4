-- ===== src/Websocket/Utf8.antt =====
-- The part of Go's unicode/utf8 that websocket/frame.go uses, and `scanUTF8Prefix`.
pub mod Scan
use connaxis.Prelude.{
  ℕ, zero, suc, ◌+◌, ◌*◌, ◌/◌, ◌%◌, ◌^◌, ◌&&◌, ◌||◌, Bool, true, false, not, Option, none, some,
  List, [], ◌∷◌, Bytes, ltb, leb, ◌==◌, if◌then◌else◌,
}
use connaxis.Prelude.Lists.{length, get_or, drop}

-- What a first byte says: the size of the character, 1 for none, and the range of its second byte.
pub lead : ℕ → ℕ × ℕ × ℕ
lead b =
    if ltb b 194
    then (1, 128, 191)
    else if ltb b 224
    then (2, 128, 191)
    else if b == 224
    then (3, 160, 191)
    else if b == 237
    then (3, 128, 159)
    else if ltb b 240
    then (3, 128, 191)
    else if b == 240
    then (4, 144, 191)
    else if ltb b 244
    then (4, 128, 191)
    else if b == 244
    then (4, 128, 143)
    else (1, 128, 191)

pub within : ℕ → ℕ → ℕ → Bool
within lo hi b = leb lo b && leb b hi

-- The size that `DecodeRune` gives for bytes that are not empty.
pub decode_size : Bytes → ℕ
unfolding lead within
decode_size bs =
    let (n, lo, hi) = lead (get_or bs 0 0) in
    if ltb (length bs) n || leb n 1
    then 1
    else if not (within lo hi (get_or bs 1 0))
    then 1
    else if leb n 2
    then 2
    else if not (within 128 191 (get_or bs 2 0))
    then 1
    else if leb n 3
    then 3
    else if within 128 191 (get_or bs 3 0)
    then 4
    else 1

-- `FullRune` of bytes that are not empty.
pub full_rune : Bytes → Bool
unfolding lead within
full_rune bs =
    let (n, lo, hi) = lead (get_or bs 0 0) in
    leb n (length bs)
    || ltb 1 (length bs) && not (within lo hi (get_or bs 1 0))
    || ltb 2 (length bs) && not (within 128 191 (get_or bs 2 0))

-- `Valid`, with fuel for each byte.
pub valid_from : ℕ → Bytes → Bool
unfolding decode_size
valid_from fuel [] = true
valid_from zero (b ∷ bs) = false
valid_from (suc fuel) (b ∷ bs) = elim (ltb b 128) [
  | true ↦ valid_from fuel bs
  | false ↦ (elim (leb (decode_size (b ∷ bs)) 1) [
    | true ↦ false
    | false ↦ valid_from fuel (drop (decode_size (b ∷ bs)) (b ∷ bs))
  ])
]

pub valid_utf8 : Bytes → Bool
unfolding valid_from
valid_utf8 bs = valid_from (length bs) bs

-- The loop of `scanUTF8Prefix`, at the bytes left: how many it checked, whether that was all, and
-- whether they may be the start of valid text.
pub scan_from : ℕ → Bytes → ℕ × Bool × Bool
unfolding decode_size full_rune
scan_from fuel [] = (0, true, true)
scan_from zero (b ∷ bs) = (0, false, false)
scan_from (suc fuel) (b ∷ bs) = elim (ltb b 128) [
  | true ↦ let (n, complete, ok) = scan_from fuel bs in (1 + n, complete, ok)
  | false ↦ (elim (decode_size (b ∷ bs) == 1) [
    | true ↦ (0, false, not (full_rune (b ∷ bs)))
    | false ↦
        let (n, complete, ok) = scan_from fuel (drop (decode_size (b ∷ bs)) (b ∷ bs)) in
        (decode_size (b ∷ bs) + n, complete, ok)
  ])
]

-- `scanUTF8Prefix`
pub scan_utf8_prefix : Bytes → ℕ × Bool × Bool
unfolding scan_from
scan_utf8_prefix bs = scan_from (length bs) bs
