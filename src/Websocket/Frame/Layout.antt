-- ===== src/Websocket/Frame/Layout.antt =====
-- websocket/frame.go: the bytes of a frame that `buildFrame` makes.
use connaxis.Prelude.{
  ℕ, zero, suc, ◌+◌, ◌%◌, ◌^◌, ◌≤◌, ◌<◌, ◌≡◌, refl, sym, ap, ap₂, ◌∙◌, inl, inr, true, false,
  Bool-cases, some, [], ◌∷◌, ◌++◌, Bytes, copy, copy_at, ltb, leb, if◌then◌else◌, leb→le, arith,
}
use connaxis.Prelude.Lists.{
  length, take, drop, replicate, length-replicate, take-append_le, take-all, drop-append_ge,
}
use connaxis.Prelude.Slices.{copy-exact}
use connaxis.Websocket.Endian.{put_uint}
use connaxis.Websocket.Frame.{
  Header, pkt_header_size, calc_pkt_size, first_byte, write_length, write_mask, write_header,
  build_frame,
}

-- How a size is written: in the second byte, in two bytes behind it, or in eight.
pub data SizeClass (n : ℕ) : Type 0 where
  tiny : (leb n 125 ≡ true) → (ltb 125 n ≡ false) → (ltb 65535 n ≡ false) → SizeClass n
  middle : (leb n 125 ≡ false) → (leb n 65535 ≡ true) → (ltb 125 n ≡ true) → SizeClass n
  large : (leb n 125 ≡ false) → (leb n 65535 ≡ false) → (ltb 65535 n ≡ true) → SizeClass n

pub size_class : (n : ℕ) → SizeClass n
size_class n = elim (Bool-cases (leb n 125)) [
  | inl small ↦ tiny small (ground arith) (ground arith)
  | inr big ↦ elim (Bool-cases (leb n 65535)) [
    | inl fits ↦ middle big fits (ground arith)
    | inr huge ↦ large big huge (ground arith)
  ]
]

-- The extended length of RFC 6455, and the code for it in the second byte.
abbrev pub extended : ℕ → Bytes
extended n = if leb n 125 then [] else if leb n 65535 then put_uint 2 n else put_uint 8 n

abbrev pub length_code : ℕ → ℕ
length_code n = if leb n 125 then n else if leb n 65535 then 126 else 127

abbrev pub mask_bytes : Header → Bytes
mask_bytes h = let (a, b, c, d) = h.mask in if h.masked then a ∷ b ∷ c ∷ d ∷ [] else []

-- The header as the protocol lays it out.
abbrev pub header_bytes : Header → Bytes
header_bytes h =
    first_byte h
    ∷ (length_code h.size + (if h.masked then 128 else 0))
    ∷ (extended h.size ++ mask_bytes h)

nothing_left : (rest : Bytes) → take {A = ℕ} (length rest) [] ≡ []
nothing_left rest = take-all (length rest) [] (omega arith)

-- `writeHeader` writes that header over the front of its buffer.
write_header_lem :
    (h : Header) (rest : Bytes)
    → SizeClass h.size
    → write_header h (pkt_header_size h) (replicate (pkt_header_size h) 0 ++ rest)
      ≡ header_bytes h ++ rest
unfolding write_header pkt_header_size write_length write_mask put_uint copy_at copy
write_header_lem h rest (tiny a b c) =
    let same : h.size % 256 ≡ h.size = omega (arith, leb→le _ _ a) in
    elim (Bool-cases h.masked) [
      | inl masked ↦ rw (a, b, c, masked, same) refl
      | inr plain ↦ rw (a, b, c, plain, same) (ap (λ k. first_byte h ∷ k ∷ rest) (omega arith))
    ]
write_header_lem h rest (middle a b c) =
    let same : h.size % 2 ^ 16 ≡ h.size = omega (arith, leb→le _ _ b) in
    elim (Bool-cases h.masked) [
      | inl masked ↦ rw (a, b, c, masked, same) refl
      | inr plain ↦ rw (a, b, c, plain, same, nothing_left rest) refl
    ]
write_header_lem h rest (large a b c) =
    let over : ltb 125 h.size ≡ true = ground arith in
    elim (Bool-cases h.masked) [
      | inl masked ↦ rw (a, b, c, masked, over) refl
      | inr plain ↦ rw (a, b, c, plain, over, nothing_left rest) refl
    ]

pub length-header_bytes : (h : Header) → length (header_bytes h) ≡ pkt_header_size h
unfolding pkt_header_size put_uint
length-header_bytes h = elim (size_class h.size) [
  | tiny a b c ↦ elim (Bool-cases h.masked) [
    | inl masked ↦ rw (a, b, c, masked) refl
    | inr plain ↦ rw (a, b, c, plain) refl
  ]
  | middle a b c ↦ elim (Bool-cases h.masked) [
    | inl masked ↦ rw (a, b, c, masked) refl
    | inr plain ↦ rw (a, b, c, plain) refl
  ]
  | large a b c ↦
      let over : ltb 125 h.size ≡ true = ground arith in
      elim (Bool-cases h.masked) [
        | inl masked ↦ rw (a, b, c, masked, over) refl
        | inr plain ↦ rw (a, b, c, plain, over) refl
      ]
]

replicate_add : (m n : ℕ) → replicate {A = ℕ} (m + n) 0 ≡ replicate m 0 ++ replicate n 0
replicate_add zero n = ap (λ k. replicate k 0) {x = 0 + n} (omega arith)
replicate_add (suc m) n =
    ap (λ k. replicate k 0) {x = suc m + n} {y = suc (m + n)} (omega arith)
    ∙ ap (◌∷◌ 0) (replicate_add m n)

-- A copy right behind a front that is as long as the bytes behind it.
copy_at-behind :
    (front back p : Bytes)
    → length p ≡ length back
    → copy_at (front ++ back) (length front) p ≡ front ++ p
unfolding copy_at
copy_at-behind front back p h =
    ap₂ (λ x y. x ++ copy y p)
      (take-append_le (length front) front back (omega arith)
        ∙ take-all (length front) front (omega arith))
      (drop-append_ge (length front) front back (omega arith)
        ∙ ap (λ k. drop k back) {y = 0} (omega arith))
    ∙ ap (◌++◌ front) (copy-exact back p h)

-- `buildFrame` of a payload whose length the header gives, if the frame's size fits an `int`: the
-- frame is the header that the protocol lays out, and behind it the payload.
pub build_frame_lem :
    (h : Header) (pl : Bytes)
    → length pl ≡ h.size
    → pkt_header_size h + h.size < 2 ^ 63
    → build_frame h pl ≡ some (header_bytes h ++ pl)
unfolding build_frame calc_pkt_size
build_frame_lem h pl len fits =
    let small : leb (2 ^ 63) (pkt_header_size h + h.size) ≡ false = ground arith in
    let start : write_header h (pkt_header_size h) (replicate (pkt_header_size h + h.size) 0)
        ≡ header_bytes h ++ replicate h.size 0 =
      ap (write_header h (pkt_header_size h)) (replicate_add (pkt_header_size h) h.size)
      ∙ write_header_lem h (replicate h.size 0) (size_class h.size) in
    rw (small, build_frame)
      (ap some (
        ap (λ b. copy_at b (pkt_header_size h) pl) start
        ∙ ap (λ k. copy_at (header_bytes h ++ replicate h.size 0) k pl)
            (sym (length-header_bytes h))
        ∙ copy_at-behind (header_bytes h) (replicate h.size 0) pl
            (len ∙ sym (length-replicate h.size 0))))

-- A final, unmasked frame with at most 125 bytes.
pub build_frame-short :
    (op : ℕ) (pl : Bytes)
    → op < 16
    → length pl ≤ 125
    → build_frame
        (record {
          fin = true;
          rsv = 0;
          op_code = op;
          masked = false;
          mask = (0, 0, 0, 0);
          size = length pl;
        })
        pl
      ≡ some ((op + 128) ∷ length pl ∷ pl)
unfolding first_byte pkt_header_size
build_frame-short op pl small short =
    let h : Header = record {
      fin = true;
      rsv = 0;
      op_code = op;
      masked = false;
      mask = (0, 0, 0, 0);
      size = length pl;
    } in
    let fits : leb (length pl) 125 ≡ true = ground arith in
    let size : pkt_header_size h + length pl < 2 ^ 63 = ground arith in
    build_frame_lem h pl refl size
    ∙ rw fits (
        ap (λ a. some (a ∷ (length pl + 0) ∷ pl)) {x = first_byte h} {y = op + 128} (omega arith)
        ∙ ap (λ b. some ((op + 128) ∷ b ∷ pl)) {y = length pl} (omega arith))
