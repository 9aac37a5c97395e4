-- ===== src/Websocket/Client/Rest.antt =====
-- websocket/wsclient.go: when a client's message state is well formed, and that a reset makes it so.
use connaxis.Prelude.{
  false, ◌<◌, ◌≡◌, refl, inl, inr, Option, Option-cases, none, some, [], Bytes, arith,
}
use connaxis.Alloc.{Allocator}
use connaxis.Websocket.Client.{WsClient, ClientBuf, reset, reset_buf, reset_message_state}
use connaxis.Websocket.Client.Buffer
use connaxis.Websocket.Client.Buffer.{written}

-- The message so far.
abbrev pub message : WsClient → Bytes
message cli = elim cli.buf [ none ↦ [] | some c ↦ written c ]

abbrev pub BufIsValid : Option ClientBuf → Type 0
BufIsValid none = Unit {0}
BufIsValid (some c) = Buffer.IsValid c

-- The buffer is sound, only a text or a binary message is open, and if none is, no bytes are kept.
pub record IsValid (cli : WsClient) : Type 0 where
  pub sound : BufIsValid cli.buf
  pub opcode : cli.first_op < 3
  pub at_rest : cli.first_op ≡ 0 → message cli ≡ []

module _ (al : Allocator) where
  open al use {State}

  pub reset_buf-IsValid :
      (cli : WsClient) (s : State)
      → cli.first_op ≡ 0
      → al.IsValid s
      → let (cli', s') = reset_buf al cli s in IsValid cli' × al.IsValid s' × (cli'.first_op ≡ 0)
  unfolding reset_buf reset
  reset_buf-IsValid cli s start valid = elim (Option-cases cli.buf) [
    | inl none_yet ↦
        rw (none_yet, reset_buf)
          (
            record {
              sound = rw none_yet tt;
              opcode = omega arith;
              at_rest = λ _. rw none_yet refl;
            },
            valid,
            start,
          )
    | inr (c, found) ↦
        rw (found, reset_buf)
          (
            record {
              sound = (omega arith, omega arith);
              opcode = omega arith;
              at_rest = λ _. refl;
            },
            al.put-IsValid c.buf s valid,
            start,
          )
  ]

  pub reset_message_state-IsValid :
      (cli : WsClient) (s : State)
      → al.IsValid s
      → let (cli', s') = reset_message_state al cli s in
        IsValid cli' × al.IsValid s' × (cli'.first_op ≡ 0)
  unfolding reset_message_state
  reset_message_state-IsValid cli s valid =
      reset_buf-IsValid (record cli { first_op = 0; fragment_compressed = false }) s refl valid
