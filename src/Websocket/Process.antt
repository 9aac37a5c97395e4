-- ===== src/Websocket/Process.antt =====
-- websocket/frame.go: `processFrame`. Inflating a message (compress/flate) and the user's handler are
-- parameters; `none` as an outcome is a panic. The mask is taken off a copy of the frame.
pub mod Invariant
pub mod Fragment
pub mod Message
use connaxis.Prelude.{
  ℕ, zero, suc, ◌+◌, ◌-◌, ◌*◌, ◌/◌, ◌%◌, ◌&&◌, ◌||◌, Bool, true, false, not, Option, none, some,
  List, [], ◌∷◌, Bytes, slice, ltb, leb, ◌==◌, if◌then◌else◌,
}
use connaxis.Prelude.Lists.{length, get_or, drop}
use connaxis.Alloc.{Allocator}
use connaxis.Websocket.Frame.{build_frame, calc_header_size, is_masked}
use connaxis.Websocket.Utf8.{valid_utf8, scan_utf8_prefix}
use connaxis.Websocket.Close.{plain_header, build_close, build_close_with_code, build_pong}
use connaxis.Websocket.Client.{
  WsClient, ClientBuf, new_buf, bytes, write, reset_buf, reset_message_state,
}
use connaxis.Websocket.Cipher.{cipher}

-- WSRequireClientMask and WSMaxMessageBytes
pub record Limits : Type 0 where
  pub require_client_mask : Bool
  pub max_message_bytes : ℕ

-- The results of `inflatePermessageDeflate`.
pub data Inflated : Type 0 where
  inflated : Bytes → Inflated
  too_large : Inflated
  corrupt : Inflated

-- The results of `processFrame`, with the message that the handler was given, if it was.
pub record Reply : Type 0 where
  pub out : Option Bytes
  pub close : Bool
  pub told : Option Bytes

-- `validateBufferedText`
pub validate_buffered_text : ClientBuf → Bool → ClientBuf × Bool
validate_buffered_text c final =
    if c.write_offset == 0
    then (c, true)
    else (let (checked, complete, ok) =
          scan_utf8_prefix (slice c.buf c.check_offset c.write_offset) in
        (record c { check_offset = c.check_offset + checked }, ok && (complete || not final)))

-- `in[1]` and `in[headerSize:]`, before the mask is taken off; none is a panic.
unfoldable pub payload_of : Bytes → Option Bytes
payload_of frame =
    let hsize = calc_header_size (get_or frame 1 0) in
    if leb 2 (length frame) && leb hsize (length frame) then some (drop hsize frame) else none

-- The payload without its mask, which stands in front of it.
pub unmask : Bytes → Bytes → Bytes
unmask frame payload =
    let hsize = calc_header_size (get_or frame 1 0) in
    if is_masked (get_or frame 1 0) && ltb 0 (length payload)
    then cipher payload
        (
          get_or frame (hsize - 4) 0,
          get_or frame (hsize - 3) 0,
          get_or frame (hsize - 2) 0,
          get_or frame (hsize - 1) 0,
        )
        0
    else payload

-- The opcodes from 3 on.
pub control_frame : Bool → Bool → ℕ → Bytes → Option Bytes × Bool
control_frame fin rsv1 op payload =
    if rsv1 || ltb 125 (length payload) || not fin
    then (build_close_with_code 1002, true)
    else if op == 8
    then (build_close payload, true)
    else if op == 9
    then (build_pong payload, false)
    else if op == 10
    then (none, false)
    else (build_close_with_code 1002, true)

-- Whether a data frame's message is compressed; none where RSV1 must not be set.
pub compression : WsClient → Bool → ℕ → Option Bool
compression cli rsv1 op =
    if op == 0
    then (if rsv1 then none else some cli.fragment_compressed)
    else if rsv1
    then (if not cli.per_message_deflate || not (op == 1) && not (op == 2) then none else some true)
    else some false

-- `fragmentCheckPass`
pub in_sequence : WsClient → ℕ → Bool
in_sequence cli op = cli.first_op == 0 && not (op == 0) || not (cli.first_op == 0) && op == 0

-- The first fragment of a message.
pub open_fragment : Bool → ℕ → Bool → WsClient → WsClient
open_fragment fin op compressed cli =
    if not (op == 0) && not fin
    then record cli { first_op = op; fragment_compressed = compressed }
    else cli

-- The reset of `fragmentCompressed` at a final frame.
pub end_fragment : Bool → ℕ → WsClient → WsClient
end_fragment fin op cli =
    if not (op == 0) && fin then record cli { fragment_compressed = false } else cli

module _ (al : Allocator) (limits : Limits) (inflate : Bytes → ℕ → Inflated)
    (handler : Bytes → Option Bytes) where
  open al use {State}
  open limits use {require_client_mask, max_message_bytes}

  abbrev pub Outcome : Type 0
  Outcome = Option (Reply × WsClient × State)

  -- A return with a close frame, as the client stands.
  abbrev pub refuse : ℕ → WsClient → State → Reply × WsClient × State
  refuse code cli s =
      (record { out = build_close_with_code code; close = true; told = none }, cli, s)

  -- The same after `resetMessageState`.
  abbrev pub abort : ℕ → WsClient → State → Reply × WsClient × State
  abort code cli s = let (cli', s') = reset_message_state al cli s in refuse code cli' s'

  -- `processUserdata`
  pub process_userdata : Bytes → ℕ → Option Bytes
  process_userdata payload op = elim (handler payload) [
    | none ↦ none
    | some out ↦ if op == 1 || op == 2 then build_frame (plain_header op (length out)) out else none
  ]

  -- The checks of a whole message that is not compressed any more, and its handling.
  pub deliver : Bool → ℕ → Bytes → WsClient → State → Reply × WsClient × State
  unfolding process_userdata
  deliver fragmented_text op payload cli s =
      if ltb 0 max_message_bytes && ltb max_message_bytes (length payload)
      then abort 1009 cli s
      else if op == 1 && not fragmented_text && not (valid_utf8 payload)
      then abort 1007 cli s
      else (let (cli', s') = reset_buf al cli s in
          (
            record { out = process_userdata payload op; close = false; told = some payload },
            cli',
            s',
          ))

  -- From the decoding of a compressed message on.
  pub finish : Bool → Bool → ℕ → Bytes → WsClient → State → Reply × WsClient × State
  unfolding deliver
  finish fragmented_text compressed op payload cli s =
      if compressed
      then (elim (inflate payload max_message_bytes) [
        | inflated decoded ↦ deliver fragmented_text op decoded cli s
        | too_large ↦ abort 1009 cli s
        | corrupt ↦ abort 1002 cli s
      ])
      else deliver fragmented_text op payload cli s

  -- A frame of a fragmented message, after the check of its text.
  pub checked_fragment :
      Bool → Bool → WsClient → ClientBuf × Bool → State → Reply × WsClient × State
  unfolding finish
  checked_fragment fragmented_text fin cli (c, false) s = abort 1007 (record cli { buf = some c }) s
  checked_fragment fragmented_text false cli (c, true) s =
      (record { out = none; close = false; told = none }, record cli { buf = some c }, s)
  checked_fragment fragmented_text true cli (c, true) s =
      finish fragmented_text cli.fragment_compressed cli.first_op (bytes c)
        (record cli { buf = some c; first_op = 0; fragment_compressed = false }) s

  -- A frame of a fragmented message, once its bytes are in the buffer.
  pub buffered : Bool → Bool → WsClient → ClientBuf → State → Reply × WsClient × State
  unfolding validate_buffered_text checked_fragment
  buffered fragmented_text fin cli c s =
      let is_text = cli.first_op == 1 && not cli.fragment_compressed in
      checked_fragment fragmented_text fin cli
        (if is_text then validate_buffered_text c fin else (c, true)) s

  -- A frame of a fragmented message, with the buffer that there is now.
  pub append_fragment : Bool → Bool → Bytes → WsClient → ClientBuf → State → Outcome
  unfolding buffered
  append_fragment fragmented_text fin payload cli c s =
      if ltb 0 max_message_bytes && ltb max_message_bytes (c.write_offset + length payload)
      then some (abort 1009 (record cli { buf = some c }) s)
      else (elim (write al c payload s) [
        | none ↦ none
        | some (false, c', s') ↦ some (abort 1009 (record cli { buf = some c' }) s')
        | some (true, c', s') ↦ some (buffered fragmented_text fin cli c' s')
      ])

  -- A frame of a fragmented message.
  pub fragment : Bool → Bool → Bytes → WsClient → State → Outcome
  unfolding append_fragment
  fragment fragmented_text fin payload cli s =
      append_fragment fragmented_text fin payload cli (elim cli.buf [ none ↦ new_buf | some c ↦ c ])
        s

  -- A data frame in its place, with the client as it was opened for a first fragment.
  pub data_message : Bool → Bool → Bool → ℕ → Bytes → WsClient → State → Outcome
  unfolding fragment end_fragment
  data_message fragmented_text compressed fin op payload cli s =
      if not (cli.first_op == 0)
      then fragment fragmented_text fin payload cli s
      else some (finish fragmented_text compressed op payload (end_fragment fin op cli) s)

  -- The opcodes below 3.
  pub data_frame : Bool → Bool → ℕ → Bytes → WsClient → State → Outcome
  unfolding compression open_fragment in_sequence data_message
  data_frame fin rsv1 op payload cli s = elim (compression cli rsv1 op) [
    | none ↦ some (refuse 1002 cli s)
    | some compressed ↦
        if not (in_sequence cli op)
        then some (refuse 1002 cli s)
        else data_message (cli.first_op == 1 && not cli.fragment_compressed) compressed fin op
            payload (open_fragment fin op compressed cli) s
  ]

  -- The rest of `processFrame`, with the payload that was cut off.
  pub process_payload : WsClient → Bytes → Bytes → State → Outcome
  unfolding data_frame control_frame unmask
  process_payload cli frame masked s =
      let first = get_or frame 0 0 in
      let payload = unmask frame masked in
      let fin = first / 128 % 2 == 1 in
      let rsv1 = first / 64 % 2 == 1 in
      let op = first % 16 in
      if require_client_mask && not (is_masked (get_or frame 1 0))
      then some (refuse 1002 cli s)
      else if not (first / 16 % 4 == 0)
      then some (refuse 1002 cli s)
      else if leb 3 op
      then (let (out, close) = control_frame fin rsv1 op payload in
          some (record { out = out; close = close; told = none }, cli, s))
      else data_frame fin rsv1 op payload cli s

  -- `processFrame`
  pub process_frame : WsClient → Bytes → State → Outcome
  unfolding payload_of process_payload
  process_frame cli frame s = elim (payload_of frame) [
    | none ↦ none
    | some masked ↦ process_payload cli frame masked s
  ]
