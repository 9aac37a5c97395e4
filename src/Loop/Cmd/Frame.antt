-- ===== src/Loop/Cmd/Frame.antt =====
-- eventloop/loopConn.go: `consumeCmd` leaves the channels to their loops.
use connaxis.Prelude.{◌≡◌, refl, inl, inr, not, Bool-cases, Option-cases, ◌==◌, if◌then◌else◌, ◌||◌}
use connaxis.Alloc.{Allocator}
use connaxis.Kernel.{Kernel}
use connaxis.Tuning.{Globals}
use connaxis.Loop.State.{Base, LoopConn, CmdData, CloseReason, close_by_close_cmd, add_int32}
use connaxis.Loop.Send.{enqueue_write, close_conn}
use connaxis.Loop.Send.Close.{close_conn-others}
use connaxis.Loop.Read.{too_much}
use connaxis.Loop.Conns.{conn_by_fd, keep}
use connaxis.Loop.Cmd.{
  reset_cmd, drop_slow, keep_or_drop, consume_data, consume_cmd, cmd_data, cmd_close,
}

module _ (al : Allocator) {H : Type 0} where
  -- The channels are the same, and so is the count of commands.
  abbrev pub Same : LoopConn al.State H → LoopConn al.State H → Type 0
  Same l l' =
      (l'.cmd_chan ≡ l.cmd_chan)
      × (l'.cmd_dial_chan ≡ l.cmd_dial_chan)
      × (l'.cmdconsume ≡ l.cmdconsume)

  reset_cmd-Same :
      (cmd : CmdData) (l₀ l : LoopConn al.State H) → Same l₀ l → Same l₀ (reset_cmd al cmd l)
  unfolding reset_cmd
  reset_cmd-Same cmd l₀ l same = elim (Option-cases cmd.data_buf) [
    | inl nothing ↦ rw (nothing, reset_cmd) same
    | inr (buf, there) ↦ rw (there, reset_cmd) same
  ]

module _ (al : Allocator) (kernel : Kernel) (globals : Globals) {H : Type 0} where
  close-Same :
      (c : Base) (reason : CloseReason) (l : LoopConn al.State H)
      → Same al l (keep (close_conn al kernel globals c reason l))
  unfolding keep
  close-Same c reason l =
      let (ch, dial, count, _) = close_conn-others al kernel globals c reason l in (ch, dial, count)

  keep_or_drop-Same :
      (c : Base) (l : LoopConn al.State H) → Same al l (keep_or_drop al kernel globals c l)
  unfolding keep_or_drop drop_slow keep
  keep_or_drop-Same c l = elim (Option-cases (too_much c l)) [
    | inl fits ↦ rw (keep_or_drop, drop_slow, fits) (refl, refl, refl)
    | inr (reason, over) ↦
        rw (keep_or_drop, drop_slow, over)
          (close-Same c reason
            (record l { cmddrop = if c.client then add_int32 l.cmddrop 1 else l.cmddrop }))
  ]

  consume_data-Same :
      (cmd : CmdData) (c : Base) (l : LoopConn al.State H)
      → Same al l (consume_data al kernel globals cmd c l)
  unfolding consume_data enqueue_write
  consume_data-Same cmd c l =
      elim (Bool-cases (not (c.id == cmd.id) || cmd.size == 0 || c.fd == 0)) [
        | inl refused ↦ rw (refused, consume_data) (reset_cmd-Same al cmd l l (refl, refl, refl))
        | inr taken ↦ elim (Option-cases cmd.data_buf) [
          | inl nothing ↦ rw (taken, nothing, consume_data) (refl, refl, refl)
          | inr (buf, there) ↦ rw (taken, there, consume_data) (keep_or_drop-Same _ _)
        ]
      ]

  -- Whatever a command does, it leaves both channels as they are, and is counted once.
  pub consume_cmd-frame :
      (cmd : CmdData) (l : LoopConn al.State H)
      → let l' = consume_cmd al kernel globals cmd l in
        (l'.cmd_chan ≡ l.cmd_chan)
        × (l'.cmd_dial_chan ≡ l.cmd_dial_chan)
        × (l'.cmdconsume ≡ add_int32 l.cmdconsume 1)
  unfolding consume_cmd
  consume_cmd-frame cmd l =
      let l₁ : LoopConn al.State H = record l { cmdconsume = add_int32 l.cmdconsume 1 } in
      elim (Option-cases (conn_by_fd cmd.fd l₁)) [
        | inl nobody ↦ rw (nobody, consume_cmd) (reset_cmd-Same al cmd l₁ l₁ (refl, refl, refl))
        | inr (c, found) ↦ elim (Bool-cases (cmd.cmd == cmd_data)) [
          | inl put ↦ rw (found, put, consume_cmd) (consume_data-Same cmd c l₁)
          | inr other ↦ elim (Bool-cases (cmd.cmd == cmd_close)) [
            | inl close ↦
                rw (found, other, close, consume_cmd)
                  (reset_cmd-Same al cmd l₁ _ (close-Same c close_by_close_cmd l₁))
            | inr unknown ↦
                rw (found, other, unknown, consume_cmd)
                  (reset_cmd-Same al cmd l₁ l₁ (refl, refl, refl))
          ]
        ]
      ]
