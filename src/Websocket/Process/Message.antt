-- ===== src/Websocket/Process/Message.antt =====
-- websocket/frame.go: `processFrame` puts the payloads of a message together, or closes.
use connaxis.Prelude.{ℕ, ◌%◌, ◌≤◌, ◌≡◌, ◌⊎◌, true, Option, none, ◌++◌, Bytes}
use connaxis.Prelude.Lists.{get_or}
use connaxis.Alloc.{Allocator}
use connaxis.Websocket.Client.{WsClient}
use connaxis.Websocket.Client.Rest.{message}
use connaxis.Websocket.Process.{Limits, Inflated, Reply, unmask}
use connaxis.Websocket.Process.Invariant.{Progress}

module _ (al : Allocator) (limits : Limits) (inflate : Bytes → ℕ → Inflated)
    (handler : Bytes → Option Bytes) where
  open al use {State}
  open limits use {max_message_bytes, require_client_mask}

  -- What one frame does: with the client left as it is and nothing told, the connection is closed, or a
  -- control frame answered; or the frame is a data frame that makes progress.
  abbrev pub Processed : WsClient → Bytes → Bytes → Reply → WsClient → Type 0
  Processed cli frame body r cli' =
      ((cli' ≡ cli) × (r.told ≡ none) × ((r.close ≡ true) ⊎ (3 ≤ get_or frame 0 0 % 16)))
      ⊎ Progress inflate max_message_bytes (message cli ++ unmask frame body) cli r cli'
