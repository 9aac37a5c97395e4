-- ===== src/Websocket/Process/Fragment.antt =====
-- websocket/frame.go: the frames of a fragmented message.
use connaxis.Prelude.{
  ℕ, ◌+◌, ◌<◌, ◌≡◌, refl, inl, inr, ◌&&◌, Bool, true, false, not, Bool-cases, Option, Option-cases,
  some, ◌++◌, Bytes, slice, ltb, ◌==◌, arith, subst,
}
use connaxis.Prelude.Lists.{length}
use connaxis.Prelude.Slices.{length-slice}
use connaxis.Alloc.{Allocator}
use connaxis.Websocket.Utf8.Scan.{scan_utf8_prefix-le}
use connaxis.Websocket.Client.{WsClient, ClientBuf, new_buf, write}
use connaxis.Websocket.Client.Buffer
use connaxis.Websocket.Client.Buffer.{written, bytes-written, write-written}
use connaxis.Websocket.Client.Rest.{message, BufIsValid}
use connaxis.Websocket.Process.{
  Limits, Inflated, Reply, validate_buffered_text, checked_fragment, buffered, append_fragment,
  fragment, abort,
}
use connaxis.Websocket.Process.Invariant.{goes_on, Sound, abort_lem, finish_lem}

-- The check of buffered text moves only the check offset.
validate_lem :
    (c : ClientBuf) (final : Bool)
    → Buffer.IsValid c
    → let (c', ok) = validate_buffered_text c final in Buffer.IsValid c' × (written c' ≡ written c)
unfolding validate_buffered_text
validate_lem c final v = elim (Bool-cases (c.write_offset == 0)) [
  | inl empty ↦ rw (empty, validate_buffered_text) (v, refl)
  | inr full ↦
      let segment = slice c.buf c.check_offset c.write_offset in
      let size = length-slice c.buf c.check_offset c.write_offset v.0 v.1 in
      rw (full, validate_buffered_text)
        ((omega (arith, scan_utf8_prefix-le segment, v.0, size), v.1), refl)
]

module _ (al : Allocator) (limits : Limits) (inflate : Bytes → ℕ → Inflated)
    (handler : Bytes → Option Bytes) where
  open al use {State}
  open limits use {max_message_bytes, require_client_mask}

  checked_fragment_lem :
      (fragmented_text fin ok : Bool) (cli cli' : WsClient) (c : ClientBuf) (s : State)
      → Buffer.IsValid c
      → cli'.first_op < 3
      → (cli'.first_op ≡ 0 → ⊥)
      → al.IsValid s
      → Sound al limits inflate handler
          (written c)
          cli
          (checked_fragment al limits inflate handler fragmented_text fin cli' (c, ok) s)
  unfolding checked_fragment
  checked_fragment_lem fragmented_text fin false cli cli' c s v op running valid =
      abort_lem al limits inflate handler 1007 (written c) cli (record cli' { buf = some c }) s
        valid
  checked_fragment_lem fragmented_text false true cli cli' c s v op running valid = (
    record { sound = v; opcode = op; at_rest = λ e. absurd (running e) },
    valid,
    goes_on (record cli' { buf = some c }) running refl,
  )
  checked_fragment_lem fragmented_text true true cli cli' c s v op running valid =
      rw (bytes-written c) (
        finish_lem al limits inflate handler fragmented_text cli'.fragment_compressed cli'.first_op
          (written c) cli (record cli' { buf = some c; first_op = 0; fragment_compressed = false })
          s refl valid)

  buffered_lem :
      (fragmented_text fin : Bool) (cli cli' : WsClient) (c : ClientBuf) (s : State)
      → Buffer.IsValid c
      → cli'.first_op < 3
      → (cli'.first_op ≡ 0 → ⊥)
      → al.IsValid s
      → Sound al limits inflate handler
          (written c)
          cli
          (buffered al limits inflate handler fragmented_text fin cli' c s)
  unfolding buffered
  buffered_lem fragmented_text fin cli cli' c s v op running valid =
      elim (Bool-cases (cli'.first_op == 1 && not cli'.fragment_compressed)) [
        | inr other ↦
            rw (other, buffered)
              (checked_fragment_lem fragmented_text fin true cli cli' c s v op running valid)
        | inl is_text ↦
            let (c', ok) = validate_buffered_text c fin in
            let (v', same) = validate_lem c fin v in
            rw (is_text, buffered)
              (subst
                (λ w.
                  Sound al limits inflate handler w cli (
                    checked_fragment al limits inflate handler fragmented_text fin cli' (c', ok) s))
                same
                (checked_fragment_lem fragmented_text fin ok cli cli' c' s v' op running valid))
      ]

  -- The outcome is not a panic, and sound.
  abbrev pub Runs : Bytes → WsClient → Option (Reply × WsClient × State) → Type 0
  Runs whole cli o =
      (r : Reply × WsClient × State) × (o ≡ some r) × Sound al limits inflate handler whole cli r

  append_fragment_lem :
      (fragmented_text fin : Bool) (payload : Bytes) (cli cli' : WsClient) (c : ClientBuf)
      (s : State)
      → Buffer.IsValid c
      → cli'.first_op < 3
      → (cli'.first_op ≡ 0 → ⊥)
      → al.IsValid s
      → Runs
          (written c ++ payload)
          cli
          (append_fragment al limits inflate handler fragmented_text fin payload cli' c s)
  unfolding append_fragment
  append_fragment_lem fragmented_text fin payload cli cli' c s v op running valid =
      elim (Bool-cases
        (ltb 0 max_message_bytes && ltb max_message_bytes (c.write_offset + length payload))) [
          | inl over ↦ (
            abort al limits inflate handler 1009 (record cli' { buf = some c }) s,
            rw (over, append_fragment) refl,
            abort_lem al limits inflate handler 1009 (written c ++ payload) cli
                (record cli' { buf = some c }) s valid,
          )
          | inr fits ↦ writing fits (write-written al c payload s v valid)
        ]
    where
      writing :
          ((ltb 0 max_message_bytes && ltb max_message_bytes (c.write_offset + length payload))
            ≡ false)
          → ((ok : Bool) × (c' : ClientBuf) × (s' : State) × (write al c payload s
                ≡ some (ok, c', s'))
              × Buffer.IsValid c'
              × al.IsValid s'
              × (ok ≡ true
                  → (written c' ≡ written c ++ payload)
                    × (c'.write_offset ≡ c.write_offset + length payload)))
          → Runs
              (written c ++ payload)
              cli
              (append_fragment al limits inflate handler fragmented_text fin payload cli' c s)
      writing fits (false, c', s', e, v', valid', _) = (
        abort al limits inflate handler 1009 (record cli' { buf = some c' }) s',
        rw (fits, e, append_fragment) refl,
        abort_lem al limits inflate handler 1009 (written c ++ payload) cli
            (record cli' { buf = some c' }) s' valid',
      )
      writing fits (true, c', s', e, v', valid', all) = (
        buffered al limits inflate handler fragmented_text fin cli' c' s',
        rw (fits, e, append_fragment) refl,
        subst
            (λ w.
              Sound al limits inflate handler w cli
                (buffered al limits inflate handler fragmented_text fin cli' c' s'))
            (all refl).0 (buffered_lem fragmented_text fin cli cli' c' s' v' op running valid'),
      )

  pub fragment_lem :
      (fragmented_text fin : Bool) (payload : Bytes) (cli cli' : WsClient) (s : State)
      → BufIsValid cli'.buf
      → cli'.first_op < 3
      → (cli'.first_op ≡ 0 → ⊥)
      → al.IsValid s
      → Runs
          (message cli' ++ payload)
          cli
          (fragment al limits inflate handler fragmented_text fin payload cli' s)
  unfolding fragment
  fragment_lem fragmented_text fin payload cli cli' s sound op running valid =
      elim (Option-cases cli'.buf) [
        | inl none_yet ↦
            rw (none_yet, fragment)
              (append_fragment_lem fragmented_text fin payload cli cli' new_buf s
                (omega arith, omega arith) op running valid)
        | inr (c, found) ↦
            let v : BufIsValid (some c) = subst BufIsValid found sound in
            rw (found, fragment)
              (append_fragment_lem fragmented_text fin payload cli cli' c s v op running valid)
      ]
