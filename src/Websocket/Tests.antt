-- ===== src/Websocket/Tests.antt =====
-- websocket/: frames at small inputs.
use connaxis.Prelude.{
  ℕ, ◌+◌, ◌^◌, ◌<◌, ◌≡◌, refl, true, false, [], ◌∷◌, ◌++◌, Option, some, Bytes, pos, arith,
}
use connaxis.Prelude.Lists.{length, get_or, drop}
use connaxis.Websocket.Frame.{
  Header, build_frame, parse_frame, calc_header_size, is_masked, pkt_header_size,
}
use connaxis.Websocket.Frame.RoundTrip.{parse_frame-build_frame}
use connaxis.Websocket.Frame.Parse.{Parsed, parse_frame-Parsed}
use connaxis.Websocket.Close.{build_close}
use connaxis.Websocket.Close.Reply.{CloseReply, build_close_lem}
use connaxis.Websocket.Cipher.{cipher}
use connaxis.Websocket.Cipher.Whole.{mask_from, cipher-mask_from, cipher-cipher}
use connaxis.Websocket.Client.{WsClient, ClientBuf}
use connaxis.Websocket.Process.{Limits, Inflated, corrupt, Reply}

-- A masked text frame with two bytes.
abbrev greeting : Header
greeting = record { fin = true; rsv = 0; op_code = 1; masked = true; mask = (1, 2, 3, 4); size = 2 }

greeting-fits : pkt_header_size greeting + 2 < 2 ^ 63
unfolding pkt_header_size
greeting-fits = omega arith

parse_frame-build_frame_example :
    (frame : Bytes) × (build_frame greeting (73 ∷ 107 ∷ []) ≡ some frame)
    × (parse_frame 16 (frame ++ 9 ∷ []) ≡ (pos (length frame), pos (length frame)))
    × (drop (calc_header_size (get_or frame 1 0)) frame ≡ 73 ∷ 107 ∷ [])
    × (is_masked (get_or frame 1 0) ≡ true)
parse_frame-build_frame_example =
    parse_frame-build_frame 16 greeting (73 ∷ 107 ∷ []) (9 ∷ []) refl greeting-fits refl

parse_frame-Parsed_example : Parsed 16 (129 ∷ 130 ∷ 1 ∷ []) (parse_frame 16 (129 ∷ 130 ∷ 1 ∷ []))
parse_frame-Parsed_example = parse_frame-Parsed 16 (129 ∷ 130 ∷ 1 ∷ [])

build_close_lem_example :
    (r : Bytes) × (build_close (3 ∷ 236 ∷ []) ≡ some (136 ∷ length r ∷ r))
    × CloseReply (3 ∷ 236 ∷ []) r
build_close_lem_example = build_close_lem (3 ∷ 236 ∷ []) (omega arith)

-- Two bytes of a message, and a buffer that has to grow for four more.
abbrev begun : ClientBuf
begun = record { buf = 72 ∷ 105 ∷ 0 ∷ []; write_offset = 2; check_offset = 2 }

abbrev strict : Limits
strict = record { require_client_mask = true; max_message_bytes = 100 }

abbrev no_inflate : Bytes → ℕ → Inflated
no_inflate payload limit = corrupt

abbrev echo : Bytes → Option Bytes
echo payload = some payload

-- A text message is open, and the last of its frames comes in.
abbrev talking : WsClient
talking = record {
  first_op = 1;
  per_message_deflate = false;
  fragment_compressed = false;
  buf = some begun;
}

abbrev last_frame : Bytes
last_frame = 128 ∷ 129 ∷ 1 ∷ 2 ∷ 3 ∷ 4 ∷ 32 ∷ []

-- A payload that has a front, a word and an end.
abbrev payload : Bytes
payload = 10 ∷ 20 ∷ 30 ∷ 40 ∷ 50 ∷ 60 ∷ 70 ∷ 80 ∷ 90 ∷ 100 ∷ 110 ∷ 120 ∷ 130 ∷ []

cipher-mask_from_example : cipher payload (255, 1, 2, 128) 1 ≡ mask_from (255, 1, 2, 128) 1 payload
cipher-mask_from_example = cipher-mask_from (255, 1, 2, 128) payload 1

cipher-cipher_example :
    cipher
      (cipher payload (255, 1, 2, 128) 1 ++ cipher (7 ∷ 9 ∷ []) (255, 1, 2, 128) 14)
      (255, 1, 2, 128)
      1
    ≡ payload ++ 7 ∷ 9 ∷ []
cipher-cipher_example = cipher-cipher (255, 1, 2, 128) payload (7 ∷ 9 ∷ []) 1
