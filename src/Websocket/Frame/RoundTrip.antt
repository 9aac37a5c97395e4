-- ===== src/Websocket/Frame/RoundTrip.antt =====
-- websocket/frame.go: `parseFrame` on the frames that `buildFrame` makes.
use connaxis.Prelude.{
  ℕ, ◌+◌, ◌/◌, ◌%◌, ◌^◌, ◌≤◌, ◌<◌, ◌≡◌, refl, sym, ap, ◌∙◌, inl, inr, ◌&&◌, true, false, Bool-cases,
  some, ◌++◌, append_assoc, Bytes, ltb, leb, ◌==◌, if◌then◌else◌, leb→le, arith, pos, subst,
}
use connaxis.Prelude.Lists.{length, get_or, drop, length-append, drop-append_ge}
use connaxis.Websocket.Endian.{put_uint, uint_from, uint-put_uint}
use connaxis.Websocket.Frame.{
  Header, is_masked, calc_header_size, payload_length, int_sum, parse_frame, pkt_header_size,
  build_frame,
}
use connaxis.Websocket.Frame.Layout.{
  tiny, middle, large, size_class, header_bytes, length-header_bytes, build_frame_lem, length_code,
}

-- The second byte of a frame's header.
abbrev second_byte : Header → ℕ
second_byte h = length_code h.size + (if h.masked then 128 else 0)

-- A size below 126 in the second byte, with and without the mask bit.
tiny_facts :
    (n : ℕ)
    → n ≤ 125
    → (n < 126)
      × (((n + 128) / 128 % 2 == 1) ≡ true)
      × (((n + 0) / 128 % 2 == 1) ≡ false)
      × ((n + 128) % 128 ≡ n)
      × ((n + 0) % 128 ≡ n)
      × ((n == 126) ≡ false)
      × ((n == 127) ≡ false)
tiny_facts n h =
    (omega arith, ground arith, ground arith, omega arith, omega arith, ground arith, ground arith)

calc_header_size-second_byte : (h : Header) → calc_header_size (second_byte h) ≡ pkt_header_size h
unfolding calc_header_size is_masked pkt_header_size
calc_header_size-second_byte h = elim (size_class h.size) [
  | tiny a b c ↦
      let (is_small, flag, no_flag, low, low', e, e') = tiny_facts h.size (leb→le _ _ a) in
      elim (Bool-cases h.masked) [
        | inl masked ↦ rw (a, b, c, masked, flag, low, e, e') refl
        | inr plain ↦ rw (a, b, c, plain, no_flag, low', e, e') refl
      ]
  | middle a b c ↦ elim (Bool-cases h.masked) [
    | inl masked ↦ rw (a, b, c, masked) refl
    | inr plain ↦ rw (a, b, c, plain) refl
  ]
  | large a b c ↦
      let over : ltb 125 h.size ≡ true = ground arith in
      elim (Bool-cases h.masked) [
        | inl masked ↦ rw (a, b, c, masked, over) refl
        | inr plain ↦ rw (a, b, c, plain, over) refl
      ]
]

-- The length that a built header announces.
payload_length-header_bytes :
    (h : Header) (rest : Bytes) → h.size < 2 ^ 63 → payload_length (header_bytes h ++ rest) ≡ h.size
unfolding payload_length put_uint uint_from
payload_length-header_bytes h rest fits = elim (size_class h.size) [
  | tiny a b c ↦
      let (is_small, flag, no_flag, low, low', e, e') = tiny_facts h.size (leb→le _ _ a) in
      elim (Bool-cases h.masked) [
        | inl masked ↦ rw (a, masked, low, e, e') refl
        | inr plain ↦ rw (a, plain, low', e, e') refl
      ]
  | middle a b c ↦
      let read_back = uint-put_uint 2 h.size (omega (arith, leb→le _ _ b)) in
      elim (Bool-cases h.masked) [
        | inl masked ↦ rw (a, b, masked) read_back
        | inr plain ↦ rw (a, b, plain) read_back
      ]
  | large a b c ↦
      let read_back = uint-put_uint 8 h.size (omega arith) in
      elim (Bool-cases h.masked) [
        | inl masked ↦ rw (a, b, masked) read_back
        | inr plain ↦ rw (a, b, plain) read_back
      ]
]

is_masked-second_byte : (h : Header) → is_masked (second_byte h) ≡ h.masked
unfolding is_masked
is_masked-second_byte h = elim (size_class h.size) [
  | tiny a b c ↦
      let (is_small, flag, no_flag, _, _, _, _) = tiny_facts h.size (leb→le _ _ a) in
      elim (Bool-cases h.masked) [
        | inl masked ↦ rw (a, masked, flag) refl
        | inr plain ↦ rw (a, plain, no_flag) refl
      ]
  | middle a b c ↦ elim (Bool-cases h.masked) [
    | inl masked ↦ rw (a, b, masked) refl
    | inr plain ↦ rw (a, b, plain) refl
  ]
  | large a b c ↦ elim (Bool-cases h.masked) [
    | inl masked ↦ rw (a, b, masked) refl
    | inr plain ↦ rw (a, b, plain) refl
  ]
]

calc_header_size-ge : (b : ℕ) → 2 ≤ calc_header_size b
unfolding calc_header_size
calc_header_size-ge b = omega arith

-- A frame that is all there, by what its header says.
parse_complete :
    (limit : ℕ) (bs : Bytes) (k n : ℕ)
    → calc_header_size (get_or bs 1 0) ≡ k
    → payload_length bs ≡ n
    → n + k ≤ length bs
    → n + k < 2 ^ 63
    → (ltb 0 limit && ltb limit n) ≡ false
    → parse_frame limit bs ≡ (pos (n + k), pos (n + k))
unfolding parse_frame int_sum
parse_complete limit bs k n header payload whole fits within =
    let above = calc_header_size-ge (get_or bs 1 0) in
    let long : ltb (length bs) 2 ≡ false = ground arith in
    let long' : ltb (length bs) k ≡ false = ground arith in
    let small : leb (2 ^ 63) n ≡ false = ground arith in
    let sum : ltb (n + k) (2 ^ 63) ≡ true = ground arith in
    let all : ltb (length bs) (n + k) ≡ false = ground arith in
    rw (long, header, long', payload, small, within, sum, all, parse_frame) refl

-- `parseFrame` of a frame of `buildFrame`, whatever follows it, gives the frame's length twice, if the
-- payload is within the limit and the frame's size fits an `int`. The payload stands behind the header
-- whose size `calcHeaderSize` reads from the second byte.
pub parse_frame-build_frame :
    (limit : ℕ) (h : Header) (pl more : Bytes)
    → length pl ≡ h.size
    → pkt_header_size h + h.size < 2 ^ 63
    → (ltb 0 limit && ltb limit h.size) ≡ false
    → (frame : Bytes) × (build_frame h pl ≡ some frame)
      × (parse_frame limit (frame ++ more) ≡ (pos (length frame), pos (length frame)))
      × (drop (calc_header_size (get_or frame 1 0)) frame ≡ pl)
      × (is_masked (get_or frame 1 0) ≡ h.masked)
parse_frame-build_frame limit h pl more len fits within =
    let frame = header_bytes h ++ pl in
    let header = calc_header_size-second_byte h in
    let size = length-append (header_bytes h) pl in
    let total : h.size + pkt_header_size h ≡ length frame =
      omega (arith, size, length-header_bytes h, len) in
    let all : length (frame ++ more) ≡ length frame + length more = length-append frame more in
    let payload : payload_length (frame ++ more) ≡ h.size =
      ap payload_length (append_assoc (header_bytes h) pl more)
      ∙ payload_length-header_bytes h (pl ++ more) (omega arith) in
    (
      frame,
      build_frame_lem h pl len fits,
      subst (λ t. parse_frame limit (frame ++ more) ≡ (pos t, pos t)) total
          (parse_complete limit (frame ++ more) (pkt_header_size h) h.size header payload
            (omega (arith, all, total)) (omega arith) within),
      ap (λ k. drop k frame) (header ∙ sym (length-header_bytes h))
          ∙ drop-append_ge (length (header_bytes h)) (header_bytes h) pl (omega arith)
          ∙ ap (λ k. drop k pl) {y = 0} (omega arith),
      is_masked-second_byte h,
    )
