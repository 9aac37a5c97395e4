-- ===== src/Loop/Read/Limits.antt =====
-- eventloop/loopConn.go: the limits on what a connection may have waiting.
use connaxis.Prelude.{
  ℕ, ◌*◌, ◌≤◌, ◌<◌, ◌≡◌, refl, ◌⊎◌, inl, inr, none, some, Bool, true, false, Bool-cases, ltb, leb,
  leb→le, leb→lt, arith,
}
use connaxis.Prelude.Lists.{length}
use connaxis.WriteQueue.Valid.{IsValid}
use connaxis.Loop.State.{Base, LoopConn, CloseReason, close_send_err, close_by_slow_reader}
use connaxis.Loop.Send.{pending_write}
use connaxis.Loop.Send.Drain.{backlog, pending_write-backlog}
use connaxis.Loop.Read.{too_much, ring_buffer_guard_byte_size}

-- The limit: 8 MB for a connection that was dialled, that of the loop for one that was accepted.
abbrev pub OverLimit : Bool → ℕ → ℕ → Type 0
OverLimit client limit n = (client ≡ true) × (8 * 1024 * 1024 ≤ n) ⊎ (client ≡ false) × (limit < n)

pub too_much_lem :
    {S H : Type 0} (c : Base) (l : LoopConn S H)
    → IsValid c.wq
    → (too_much c l ≡ none) × (OverLimit c.client l.cli_sbuf_limit (length (backlog c)) → ⊥)
      ⊎ ((reason : CloseReason) × (too_much c l ≡ some reason)
          × OverLimit c.client l.cli_sbuf_limit (length (backlog c)))
unfolding too_much
too_much_lem c l v =
    let count = pending_write-backlog c v in
    elim (Bool-cases c.client) [
      | inl dialled ↦ elim (Bool-cases (leb ring_buffer_guard_byte_size (pending_write c))) [
        | inl over ↦
            let long = leb→le _ _ over in
            inr (close_send_err, rw (too_much, over, dialled) refl, inl (dialled, omega arith))
        | inr fits ↦
            let short = leb→lt _ _ fits in
            inl (
              rw (too_much, fits, dialled) refl,
              λ o. elim o [ inl (_, long) ↦ absurd (omega arith) | inr (bad, _) ↦ absurd (cc) ],
            )
      ]
      | inr accepted ↦ elim (Bool-cases (ltb l.cli_sbuf_limit (pending_write c))) [
        | inl over ↦
            let long : l.cli_sbuf_limit < pending_write c = ground arith in
            inr (
              close_by_slow_reader,
              rw (too_much, over, accepted) refl,
              inr (accepted, omega arith),
            )
        | inr fits ↦
            let short : pending_write c ≤ l.cli_sbuf_limit = ground arith in
            inl (
              rw (too_much, fits, accepted) refl,
              λ o. elim o [ inl (bad, _) ↦ absurd (cc) | inr (_, long) ↦ absurd (omega arith) ],
            )
      ]
    ]
