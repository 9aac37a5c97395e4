-- ===== src/Websocket/Client.antt =====
-- websocket/wsclient.go: the client's state and the buffer of its fragmented message.
pub mod Buffer
pub mod Rest
use connaxis.Prelude.{
  ℕ, ◌+◌, ◌-◌, Bool, true, false, Option, none, some, List, [], Bytes, slice, copy, copy_at, ltb,
  leb, ◌==◌, if◌then◌else◌,
}
use connaxis.Prelude.Lists.{length, take}
use connaxis.Alloc.{Allocator}

pub record ClientBuf : Type 0 where
  pub buf : Bytes
  pub write_offset : ℕ
  pub check_offset : ℕ

-- `WsClient`, as far as messages go; `buf` none is nil.
pub record WsClient : Type 0 where
  pub first_op : ℕ
  pub per_message_deflate : Bool
  pub fragment_compressed : Bool
  pub buf : Option ClientBuf

-- `new(clientBuf)`
abbrev pub new_buf : ClientBuf
new_buf = record { buf = []; write_offset = 0; check_offset = 0 }

-- `bytes`
pub bytes : ClientBuf → Bytes
bytes c = if c.write_offset == 0 then [] else take c.write_offset c.buf

module _ (al : Allocator) where
  open al use {State, get, put}

  -- `write`: none is a panic, false a message that no buffer can hold.
  pub write : ClientBuf → Bytes → State → Option (Bool × ClientBuf × State)
  write c p s =
      if leb (length p) (length c.buf - c.write_offset)
      then some (
        true,
        record c { buf = copy_at c.buf c.write_offset p; write_offset = c.write_offset + length p },
        s,
      )
      else (elim (get (c.write_offset + length p) s) [
        | none ↦ none
        | some (none, s') ↦ some (false, c, s')
        | some (some b, s') ↦ some (
          true,
          record c {
            buf =
                copy_at (if ltb 0 c.write_offset then copy b (take c.write_offset c.buf) else b)
                  c.write_offset p;
            write_offset = c.write_offset + length p;
          },
          put c.buf s',
        )
      ])

  -- `clientBuf.reset`
  pub reset : ClientBuf → State → ClientBuf × State
  reset c s = (new_buf, put c.buf s)

  -- `resetBuf`
  pub reset_buf : WsClient → State → WsClient × State
  unfolding reset
  reset_buf cli s = elim cli.buf [
    | none ↦ (cli, s)
    | some c ↦ (record cli { buf = some (reset c s).0 }, (reset c s).1)
  ]

  -- `resetMessageState`
  pub reset_message_state : WsClient → State → WsClient × State
  unfolding reset_buf
  reset_message_state cli s = reset_buf (record cli { first_op = 0; fragment_compressed = false }) s
