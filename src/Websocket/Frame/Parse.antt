-- ===== src/Websocket/Frame/Parse.antt =====
-- websocket/frame.go: what `parseFrame` can say of any bytes.
use connaxis.Prelude.{
  ℕ, ◌+◌, ◌^◌, ◌≤◌, ◌<◌, ◌≡◌, refl, ◌⊎◌, inl, inr, ◌&&◌, ◌||◌, Bool-cases, Bytes, ltb, leb,
  if◌then◌else◌, ℤ, pos, negsuc, ltb→lt, ltb→le, arith,
}
use connaxis.Prelude.Lists.{length, get_or}
use connaxis.Websocket.Frame.{calc_header_size, payload_length, int_sum, parse_frame}

-- The answers: an error; not all there yet, and more bytes expected than there are; or a frame of the
-- size that the header gives, all of it there and its payload within the limit.
pub data Parsed (limit : ℕ) (bs : Bytes) : ℤ × ℤ → Type 0 where
  failed : (n : ℕ) → Parsed limit bs (negsuc n, negsuc n)
  partial : (expect : ℕ) → length bs < expect → Parsed limit bs (pos 0, pos expect)
  complete :
      (total : ℕ)
      → total ≡ payload_length bs + calc_header_size (get_or bs 1 0)
      → total ≤ length bs
      → ((limit ≡ 0) ⊎ (payload_length bs ≤ limit))
      → Parsed limit bs (pos total, pos total)

whole_frame :
    (limit : ℕ) (bs : Bytes)
    → ((limit ≡ 0) ⊎ (payload_length bs ≤ limit))
    → Parsed limit bs (elim (int_sum (payload_length bs) (calc_header_size (get_or bs 1 0))) [
      | pos total ↦ if ltb (length bs) total then (pos 0, pos total) else (pos total, pos total)
      | negsuc n ↦ (negsuc n, negsuc n)
    ])
unfolding int_sum
whole_frame limit bs within =
    let sum = payload_length bs + calc_header_size (get_or bs 1 0) in
    elim (Bool-cases (ltb sum (2 ^ 63))) [
      | inl fits ↦ elim (Bool-cases (ltb (length bs) sum)) [
        | inl short ↦ rw (fits, short, int_sum) (partial sum (ltb→lt _ _ short))
        | inr all ↦ rw (fits, all, int_sum) (complete sum refl (ltb→le _ _ all) within)
      ]
      | inr wraps ↦ rw (wraps, int_sum) (failed _)
    ]

-- `parseFrame` of any bytes gives one of these answers.
pub parse_frame-Parsed : (limit : ℕ) (bs : Bytes) → Parsed limit bs (parse_frame limit bs)
unfolding parse_frame
parse_frame-Parsed limit bs = elim (Bool-cases (ltb (length bs) 2)) [
  | inl short ↦ rw (short, parse_frame) (partial 2 (ltb→lt _ _ short))
  | inr start ↦ elim (Bool-cases (ltb (length bs) (calc_header_size (get_or bs 1 0)))) [
    | inl short ↦ rw (start, short, parse_frame) (partial _ (ltb→lt _ _ short))
    | inr header ↦
        elim (Bool-cases
          (leb (2 ^ 63) (payload_length bs) || ltb 0 limit && ltb limit (payload_length bs))) [
            | inl refused ↦ rw (start, header, refused, parse_frame) (failed 0)
            | inr taken ↦
                rw (start, header, taken, parse_frame) (whole_frame limit bs (ground arith))
          ]
  ]
]
