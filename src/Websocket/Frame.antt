-- ===== src/Websocket/Frame.antt =====
-- websocket/frame.go: how a frame's header is measured, read and written. `x & 0x80 != 0` is the bit
-- `x / 128 % 2`, `x & 0x7f` is `x % 128`, and an or of bytes that share no bit is their sum.
pub mod Layout
pub mod Parse
pub mod RoundTrip
use connaxis.Prelude.{
  ℕ, zero, suc, ◌+◌, ◌-◌, ◌*◌, ◌/◌, ◌%◌, ◌^◌, ◌&&◌, ◌||◌, Bool, true, false, Option, none, some,
  List, [], ◌∷◌, ◌++◌, Bytes, slice, copy_at, ltb, leb, ◌==◌, if◌then◌else◌, ℤ, pos, negsuc,
}
use connaxis.Prelude.Lists.{length, get_or, take, drop, replicate, set}
use connaxis.Websocket.Endian.{put_uint, uint}

-- `Header`; the mask's four bytes, and a length that is not negative.
pub record Header : Type 0 where
  pub fin : Bool
  pub rsv : ℕ
  pub op_code : ℕ
  pub masked : Bool
  pub mask : ℕ × ℕ × ℕ × ℕ
  pub size : ℕ

-- `WSHeaderMinSize`
abbrev pub header_min_size : ℕ
header_min_size = 2

unfoldable pub is_masked : ℕ → Bool
is_masked b = b / 128 % 2 == 1

-- `calcHeaderSize`
unfoldable pub calc_header_size : ℕ → ℕ
unfolding is_masked
calc_header_size b =
    2
    + (if is_masked b then 4 else 0)
    + (if b % 128 == 126 then 2 else if b % 128 == 127 then 8 else 0)

-- The payload length that a header announces, as an unsigned number.
pub payload_length : Bytes → ℕ
payload_length bs =
    let low = get_or bs 1 0 % 128 in
    if low == 126 then uint (slice bs 2 4) else if low == 127 then uint (slice bs 2 10) else low

-- The sum of two numbers below 2^63, as an `int` that wraps.
pub int_sum : ℕ → ℕ → ℤ
int_sum a b = if ltb (a + b) (2 ^ 63) then pos (a + b) else negsuc (2 ^ 64 - 1 - (a + b))

-- `parseFrame`, with the limit WSMaxFramePayloadBytes. Each byte read is in range when it is read.
pub parse_frame : ℕ → Bytes → ℤ × ℤ
unfolding calc_header_size payload_length int_sum
parse_frame limit bs =
    if ltb (length bs) header_min_size
    then (pos 0, pos header_min_size)
    else (let header_size = calc_header_size (get_or bs 1 0) in
        if ltb (length bs) header_size
        then (pos 0, pos header_size)
        else (let size = payload_length bs in
            if leb (2 ^ 63) size || ltb 0 limit && ltb limit size
            then (negsuc 0, negsuc 0)
            else (elim (int_sum size header_size) [
              | pos total ↦
                  if ltb (length bs) total then (pos 0, pos total) else (pos total, pos total)
              | negsuc n ↦ (negsuc n, negsuc n)
            ])))

-- `calcPktSize`: the second of its results, the size of the header.
unfoldable pub pkt_header_size : Header → ℕ
pkt_header_size h =
    2
    + (if h.masked then 4 else 0)
    + (if ltb 125 h.size && leb h.size 65535 then 2 else if ltb 65535 h.size then 8 else 0)

-- `calcPktSize`
pub calc_pkt_size : Header → ℕ × ℕ
unfolding pkt_header_size
calc_pkt_size h = (pkt_header_size h + h.size, pkt_header_size h)

-- The first byte, as `writeHeader` makes it.
pub first_byte : Header → ℕ
first_byte h = h.op_code % 16 + (if h.fin then 128 else 0) + h.rsv % 8 * 16

-- The second byte and the bytes of the length.
pub write_length : Header → Bytes → Bytes
write_length h buf =
    if leb h.size 125
    then set buf 1 (h.size % 256)
    else if leb h.size 65535
    then copy_at (set buf 1 126) 2 (put_uint 2 (h.size % 2 ^ 16))
    else copy_at (set buf 1 127) 2 (put_uint 8 h.size)

-- The mask bit, and the mask in the last four bytes of the header.
pub write_mask : Header → ℕ → Bytes → Bytes
write_mask h hsize buf =
    if h.masked
    then (let (a, b, c, d) = h.mask in
        let flagged = set buf 1 (get_or buf 1 0 + 128) in
        set (set (set (set flagged (hsize - 4) a) (hsize - 3) b) (hsize - 2) c) (hsize - 1) d)
    else buf

-- `writeHeader`, for a buffer that has room for the header.
pub write_header : Header → ℕ → Bytes → Bytes
unfolding first_byte write_length write_mask
write_header h hsize buf = write_mask h hsize (write_length h (set buf 0 (first_byte h)))

-- `buildFrame`: none is nil, which a size that does not fit an `int` gives.
pub build_frame : Header → Bytes → Option Bytes
unfolding calc_pkt_size write_header
build_frame h pl =
    let (size, hsize) = calc_pkt_size h in
    if leb (2 ^ 63) size
    then none
    else some (copy_at (write_header h hsize (replicate size 0)) hsize pl)
