-- ===== src/Websocket/Utf8/Scan.antt =====
-- websocket/frame.go: `scanUTF8Prefix` does not check more bytes than there are.
use connaxis.Prelude.{
  ℕ, zero, suc, ◌≤◌, ◌<◌, ◌≡◌, inl, inr, ◌||◌, Bool, false, Bool-cases, [], ◌∷◌, Bytes, ltb, leb,
  ◌==◌, if◌then◌else◌, arith,
}
use connaxis.Prelude.Lists.{length, get_or, drop, length-drop}
use connaxis.Websocket.Utf8.{lead, decode_size, scan_from, scan_utf8_prefix}

-- The size of a character, by what the tests on its bytes say.
sized_le :
    (k n : ℕ) (a b c d e f : Bool)
    → 0 < k
    → (a ≡ false → n ≤ k)
    → (a ≡ false → 1 < n)
    → (c ≡ false → 2 < n)
    → (e ≡ false → 3 < n)
    → (if a
        then 1
        else if b
        then 1
        else if c
        then 2
        else if d
        then 1
        else if e
        then 3
        else if f
        then 4
        else 1)
      ≤ k
sized_le k n a b c d e f h p q r s = ground arith

decode_size-le : (bs : Bytes) → 0 < length bs → decode_size bs ≤ length bs
unfolding decode_size
decode_size-le bs h =
    let n = (lead (get_or bs 0 0)).0 in
    sized_le (length bs) n (ltb (length bs) n || leb n 1) _ (leb n 2) _ (leb n 3) _ h
      (λ e. ground arith) (λ e. ground arith) (λ e. ground arith) (λ e. ground arith)

scan_from-le : (fuel : ℕ) (bs : Bytes) → (scan_from fuel bs).0 ≤ length bs
unfolding scan_from
scan_from-le fuel [] = omega arith
scan_from-le zero (b ∷ bs) = omega arith
scan_from-le (suc fuel) (b ∷ bs) = elim (Bool-cases (ltb b 128)) [
  | inl ascii ↦ rw (ascii, scan_from) (omega (arith, scan_from-le fuel bs))
  | inr more ↦ elim (Bool-cases (decode_size (b ∷ bs) == 1)) [
    | inl bad ↦ rw (more, bad, scan_from) (omega arith)
    | inr good ↦
        let size = decode_size (b ∷ bs) in
        let rest = drop size (b ∷ bs) in
        rw (more, good, scan_from)
          (omega (
            arith,
            scan_from-le fuel rest,
            length-drop size (b ∷ bs),
            decode_size-le (b ∷ bs) (omega arith),
          ))
  ]
]

pub scan_utf8_prefix-le : (bs : Bytes) → (scan_utf8_prefix bs).0 ≤ length bs
unfolding scan_utf8_prefix
scan_utf8_prefix-le bs = scan_from-le (length bs) bs
