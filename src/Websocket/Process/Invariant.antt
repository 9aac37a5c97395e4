-- ===== src/Websocket/Process/Invariant.antt =====
-- websocket/frame.go: when a client's message state is well formed, and what one frame does to it.
use connaxis.Prelude.{
  ℕ, ◌≤◌, ◌≡◌, refl, ◌⊎◌, inl, inr, ◌&&◌, Bool, true, false, not, Bool-cases, Option, none, some,
  Bytes, ltb, ◌==◌, arith,
}
use connaxis.Prelude.Lists.{length}
use connaxis.Alloc.{Allocator}
use connaxis.Websocket.Utf8.{valid_utf8}
use connaxis.Websocket.Client.{WsClient}
use connaxis.Websocket.Client.Rest.{
  message, IsValid, reset_buf-IsValid, reset_message_state-IsValid,
}
use connaxis.Websocket.Process.{
  Limits, Inflated, inflated, too_large, corrupt, Reply, deliver, finish, abort,
}

module _ (inflate : Bytes → ℕ → Inflated) (max_bytes : ℕ) where
  -- A whole message is told as it is, or as it inflates.
  abbrev pub Decoded : Bytes → Bytes → Type 0
  Decoded whole m = (m ≡ whole) ⊎ (inflate whole max_bytes ≡ inflated m)

  -- What a data frame does, if the message so far and the frame's payload are `whole`: the connection
  -- is to be closed, and nothing is told; the message goes on; or it is whole, the handler is told, and
  -- the client is at rest.
  pub data Progress (whole : Bytes) (cli : WsClient) : Reply → WsClient → Type 0 where
    closed :
        (out : Option Bytes) (cli' : WsClient)
        → Progress whole cli (record { out = out; close = true; told = none }) cli'
    goes_on :
        (cli' : WsClient)
        → (cli'.first_op ≡ 0 → ⊥)
        → message cli' ≡ whole
        → Progress whole cli (record { out = none; close = false; told = none }) cli'
    told_all :
        (out : Option Bytes) (m : Bytes) (cli' : WsClient)
        → cli'.first_op ≡ 0
        → Decoded whole m
        → ((max_bytes ≡ 0) ⊎ (length m ≤ max_bytes))
        → Progress whole cli (record { out = out; close = false; told = some m }) cli'

module _ (al : Allocator) (limits : Limits) (inflate : Bytes → ℕ → Inflated)
    (handler : Bytes → Option Bytes) where
  open al use {State}
  open limits use {max_message_bytes}

  -- A sound outcome.
  abbrev pub Sound : Bytes → WsClient → Reply × WsClient × State → Type 0
  Sound whole cli (r, cli', s') =
      IsValid cli' × al.IsValid s' × Progress inflate max_message_bytes whole cli r cli'

  pub abort_lem :
      (code : ℕ) (whole : Bytes) (cli cli' : WsClient) (s : State)
      → al.IsValid s
      → Sound whole cli (abort al limits inflate handler code cli' s)
  abort_lem code whole cli cli' s valid =
      let (v, valid', _) = reset_message_state-IsValid al cli' s valid in (v, valid', closed _ _)

  deliver_lem :
      (fragmented_text : Bool) (op : ℕ) (payload whole : Bytes) (cli cli' : WsClient) (s : State)
      → cli'.first_op ≡ 0
      → al.IsValid s
      → Decoded inflate max_message_bytes whole payload
      → Sound whole cli (deliver al limits inflate handler fragmented_text op payload cli' s)
  unfolding deliver
  deliver_lem fragmented_text op payload whole cli cli' s start valid decoded =
      elim (Bool-cases (ltb 0 max_message_bytes && ltb max_message_bytes (length payload))) [
        | inl over ↦ rw (over, deliver) (abort_lem 1009 whole cli cli' s valid)
        | inr fits ↦
            elim (Bool-cases (op == 1 && not fragmented_text && not (valid_utf8 payload))) [
              | inl bad ↦ rw (fits, bad, deliver) (abort_lem 1007 whole cli cli' s valid)
              | inr good ↦
                  let (v, valid', rest) = reset_buf-IsValid al cli' s start valid in
                  rw (fits, good, deliver)
                    (v, valid', told_all _ payload _ rest decoded (ground arith))
            ]
      ]

  pub finish_lem :
      (fragmented_text compressed : Bool) (op : ℕ) (whole : Bytes) (cli cli' : WsClient) (s : State)
      → cli'.first_op ≡ 0
      → al.IsValid s
      → Sound whole cli
          (finish al limits inflate handler fragmented_text compressed op whole cli' s)
  unfolding finish
  finish_lem fragmented_text false op whole cli cli' s start valid =
      deliver_lem fragmented_text op whole whole cli cli' s start valid (inl refl)
  finish_lem fragmented_text true op whole cli cli' s start valid =
      inflating (inflate whole max_message_bytes) refl
    where
      inflating :
          (o : Inflated)
          → inflate whole max_message_bytes ≡ o
          → Sound whole cli (finish al limits inflate handler fragmented_text true op whole cli' s)
      inflating (inflated m) e =
          rw (e, finish) (deliver_lem fragmented_text op m whole cli cli' s start valid (inr e))
      inflating too_large e = rw (e, finish) (abort_lem 1009 whole cli cli' s valid)
      inflating corrupt e = rw (e, finish) (abort_lem 1002 whole cli cli' s valid)
