-- ===== src/WriteQueue/Valid.antt =====
-- connection/writequeue.go: when a write queue is well formed, and the bytes that it still has to
-- send.
use connaxis.Prelude.{
  ◌≤◌, ◌<◌, ◌≡◌, refl, sym, ap, ◌∙◌, ◌⊎◌, List, [], ◌∷◌, ◌++◌, append_assoc, Bytes, inl,
}
use connaxis.Prelude.Lists.{length, drop}
use connaxis.WriteQueue.{WriteEntry, WriteQueue, unsent}

-- A live entry has unsent bytes, inside of its buffer.
abbrev pub Live : WriteEntry → Type 0
Live e = (e.off < e.size) × (e.size ≤ length e.owner)

abbrev pub AllLive : List WriteEntry → Type 0
AllLive [] = Unit {0}
AllLive (e ∷ es) = Live e × AllLive es

-- The unsent bytes of entries, in order.
abbrev pub stream : List WriteEntry → Bytes
stream [] = []
stream (e ∷ es) = unsent e ++ stream es

-- The bytes that the queue has to send, oldest first.
abbrev pub contents : WriteQueue → Bytes
contents q = stream (drop q.head q.items)

pub record IsValid (q : WriteQueue) : Type 0 where
  pub live : AllLive (drop q.head q.items)
  pub counted : q.bytes ≡ length (contents q)
  pub placed : (q.head < length q.items) ⊎ ((q.items ≡ []) × (q.head ≡ 0))

pub stream-append : (es fs : List WriteEntry) → stream (es ++ fs) ≡ stream es ++ stream fs
stream-append [] fs = refl
stream-append (e ∷ es) fs =
    ap (◌++◌ (unsent e)) (stream-append es fs)
    ∙ sym (append_assoc (unsent e) (stream es) (stream fs))

pub AllLive-append : (es fs : List WriteEntry) → AllLive es → AllLive fs → AllLive (es ++ fs)
AllLive-append [] fs a b = b
AllLive-append (e ∷ es) fs a b = (a.0, AllLive-append es fs a.1 b)

-- A queue whose items from the head on are given live ones.
pub held :
    (q : WriteQueue) (es : List WriteEntry) (xs : Bytes)
    → drop q.head q.items ≡ es
    → AllLive es
    → stream es ≡ xs
    → q.bytes ≡ length xs
    → q.head < length q.items
    → IsValid q × (contents q ≡ xs)
held q es xs e good bytes count inside =
    let all : contents q ≡ xs = rw e bytes in
    (record { live = rw e good; counted = rw all count; placed = inl inside }, all)
