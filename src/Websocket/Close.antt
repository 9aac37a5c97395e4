-- ===== src/Websocket/Close.antt =====
-- websocket/frame.go: close and pong frames, and `BuildWsPkt`. utf8.Valid is `valid_utf8` of Websocket.Utf8.
pub mod Reply
use connaxis.Prelude.{
  ℕ, zero, suc, ◌+◌, ◌*◌, ◌/◌, ◌%◌, ◌^◌, ◌&&◌, ◌||◌, Bool, true, false, not, Option, none, some,
  List, [], ◌∷◌, Bytes, copy_at, ltb, leb, ◌==◌, if◌then◌else◌,
}
use connaxis.Prelude.Lists.{length, get_or, drop, replicate}
use connaxis.Websocket.Frame.{Header, build_frame, calc_pkt_size, write_header}
use connaxis.Websocket.Utf8.{valid_utf8}

-- The header of a final, unmasked frame.
abbrev pub plain_header : ℕ → ℕ → Header
plain_header op n = record {
  fin = true;
  rsv = 0;
  op_code = op;
  masked = false;
  mask = (0, 0, 0, 0);
  size = n;
}

-- `isValidCloseCode`
pub is_valid_close_code : ℕ → Bool
is_valid_close_code code =
    if leb 3000 code && leb code 4999
    then true
    else leb 1000 code
      && leb code 1014
      && not (code == 1004)
      && not (code == 1005)
      && not (code == 1006)

-- The end of `buildClose`.
pub close_frame : Bytes → Option Bytes
close_frame payload = build_frame (plain_header 8 (length payload)) payload

-- The payload of `buildCloseWithCode`.
pub close_payload : ℕ → Bytes
close_payload code = code / 256 % 256 ∷ code % 256 ∷ []

-- `buildClose`, which calls itself through `buildCloseWithCode(1002)`: that code is valid, so two calls
-- are enough.
pub build_close_from : ℕ → Bytes → Option Bytes
unfolding is_valid_close_code close_frame close_payload
build_close_from zero payload = none
build_close_from (suc calls) payload =
    let refused = build_close_from calls (close_payload 1002) in
    if length payload == 0
    then close_frame payload
    else if ltb (length payload) 2
    then refused
    else if not (is_valid_close_code (get_or payload 0 0 * 256 + get_or payload 1 0))
    then refused
    else if ltb 2 (length payload) && not (valid_utf8 (drop 2 payload))
    then close_frame []
    else close_frame payload

-- `buildClose`
pub build_close : Bytes → Option Bytes
unfolding build_close_from
build_close payload = build_close_from 2 payload

-- `buildCloseWithCode`
pub build_close_with_code : ℕ → Option Bytes
unfolding close_payload build_close
build_close_with_code code = build_close (close_payload code)

-- `buildPong`
pub build_pong : Bytes → Option Bytes
build_pong payload = build_frame (plain_header 10 (length payload)) payload

-- `BuildWsPkt`: a final, unmasked frame of any opcode, without the checks of `buildFrame`.
pub build_ws_pkt : Bytes → ℕ → Bytes
build_ws_pkt pl code =
    let h = plain_header code (length pl) in
    let (size, hsize) = calc_pkt_size h in
    copy_at (write_header h hsize (replicate size 0)) hsize pl
