-- ===== src/Websocket/Close/Reply.antt =====
-- websocket/frame.go: what `buildClose` answers to a close frame.
use connaxis.Prelude.{
  ℕ, ◌+◌, ◌*◌, ◌≤◌, ◌<◌, ◌≡◌, ap, ◌∙◌, ◌⊎◌, inl, inr, ◌&&◌, true, false, not, Bool-cases, some, [],
  ◌∷◌, Bytes, ltb, ◌==◌, ltb→le, ==→eq, arith,
}
use connaxis.Prelude.Lists.{length, get_or, drop, drop-all}
use connaxis.Websocket.Frame.Layout.{build_frame-short}
use connaxis.Websocket.Utf8.{valid_utf8}
use connaxis.Websocket.Close.{
  is_valid_close_code, close_frame, close_payload, build_close_from, build_close,
}

-- The code at the front of a close payload.
abbrev pub code_of : Bytes → ℕ
code_of payload = get_or payload 0 0 * 256 + get_or payload 1 0

-- The payload of the answer: none to none; 1002 to a payload of one byte or a code that is not valid;
-- none where the reason is not valid text; and else the payload itself.
pub data CloseReply (payload : Bytes) : Bytes → Type 0 where
  nothing : length payload ≡ 0 → CloseReply payload []
  cut_short : length payload ≡ 1 → CloseReply payload (3 ∷ 234 ∷ [])
  bad_code :
      2 ≤ length payload
      → is_valid_close_code (code_of payload) ≡ false
      → CloseReply payload (3 ∷ 234 ∷ [])
  bad_reason :
      2 < length payload
      → is_valid_close_code (code_of payload) ≡ true
      → valid_utf8 (drop 2 payload) ≡ false
      → CloseReply payload []
  echo :
      2 ≤ length payload
      → is_valid_close_code (code_of payload) ≡ true
      → ((length payload ≡ 2) ⊎ (valid_utf8 (drop 2 payload) ≡ true))
      → CloseReply payload payload

close_frame_lem : (r : Bytes) → length r ≤ 125 → close_frame r ≡ some (136 ∷ length r ∷ r)
unfolding close_frame
close_frame_lem r h = build_frame-short 8 r (omega arith) h

-- `buildClose` of at most 125 bytes makes a final close frame with the payload of the answer.
pub build_close_lem :
    (payload : Bytes)
    → length payload ≤ 125
    → (r : Bytes) × (build_close payload ≡ some (136 ∷ length r ∷ r)) × CloseReply payload r
unfolding build_close build_close_from close_payload
build_close_lem payload h = elim (Bool-cases (length payload == 0)) [
  | inl empty ↦ (
    [],
    rw (empty, build_close)
        (ap close_frame (drop-all 0 payload (omega (arith, ==→eq _ _ empty)))
          ∙ close_frame_lem [] (omega arith)),
    nothing (==→eq _ _ empty),
  )
  | inr some_bytes ↦ elim (Bool-cases (ltb (length payload) 2)) [
    | inl short ↦ (
      3 ∷ 234 ∷ [],
      rw (some_bytes, short, build_close) (close_frame_lem (3 ∷ 234 ∷ []) (omega arith)),
      cut_short (ground arith),
    )
    | inr code ↦ elim (Bool-cases (is_valid_close_code (code_of payload))) [
      | inr bad ↦ (
        3 ∷ 234 ∷ [],
        rw (some_bytes, code, bad, build_close) (close_frame_lem (3 ∷ 234 ∷ []) (omega arith)),
        bad_code (ltb→le _ _ code) bad,
      )
      | inl good ↦ elim (Bool-cases (ltb 2 (length payload) && not (valid_utf8 (drop 2 payload)))) [
        | inl garbled ↦ (
          [],
          rw (some_bytes, code, good, garbled, build_close) (close_frame_lem [] (omega arith)),
          bad_reason (ground arith) good (ground arith),
        )
        | inr fine ↦ (
          payload,
          rw (some_bytes, code, good, fine, build_close) (close_frame_lem payload h),
          echo (ltb→le _ _ code) good (ground arith),
        )
      ]
    ]
  ]
]
