-- ===== src/Loop/Turn/Order.antt =====
-- eventloop/loopConn.go: the loops of `processCmd` take commands in the order they came, within the budget.
use connaxis.Prelude.{
  ℕ, zero, suc, ◌+◌, ◌≤◌, ◌<◌, ◌≡◌, ◌%◌, ◌^◌, refl, sym, ap, ◌∙◌, ◌⊎◌, inl, inr, Bool, true, false,
  not, Bool-cases, List, [], ◌∷◌, drop, arith,
}
use connaxis.Prelude.Lists.{length}
use connaxis.Alloc.{Allocator}
use connaxis.Kernel.{Kernel}
use connaxis.Tuning.{Globals}
use connaxis.Loop.State.{LoopConn, CmdData, add_int32}
use connaxis.Loop.Cmd.{consume_cmd}
use connaxis.Loop.Cmd.Frame.{consume_cmd-frame}
use connaxis.Loop.Turn.{spent, with_chan, chan_of, cmd_loop}

module _ (al : Allocator) (kernel : Kernel) (globals : Globals) {H : Type 0} where
  -- `k` commands were taken off the front; what is left waits for a later turn, since the budget is spent.
  abbrev pub Taken : Bool → ℕ → LoopConn al.State H → LoopConn al.State H → Type 0
  Taken dial consumed l l' =
      (k : ℕ) × (chan_of dial l' ≡ drop k (chan_of dial l))
      × (chan_of (not dial) l' ≡ chan_of (not dial) l)
      × (l'.cmdconsume ≡ (l.cmdconsume + k) % 2 ^ 32)
      × ((chan_of dial l' ≡ [])
          ⊎ (0 < globals.event_loop.max_cmd_per_event)
            × (globals.event_loop.max_cmd_per_event ≤ consumed + k))
      × (0 < globals.event_loop.max_cmd_per_event
          → consumed ≤ globals.event_loop.max_cmd_per_event
          → consumed + k ≤ globals.event_loop.max_cmd_per_event)

  -- A command taken off the front and consumed.
  consumed_one :
      (dial : Bool) (cmd : CmdData) (rest : List CmdData) (l : LoopConn al.State H)
      → let l' = consume_cmd al kernel globals cmd (with_chan dial rest l) in
        (chan_of dial l' ≡ rest)
        × (chan_of (not dial) l' ≡ chan_of (not dial) l)
        × (l'.cmdconsume ≡ add_int32 l.cmdconsume 1)
  unfolding with_chan
  consumed_one true cmd rest l =
      let (ch, dials, count) =
        consume_cmd-frame al kernel globals cmd (record l { cmd_dial_chan = rest }) in
      (dials, ch, count)
  consumed_one false cmd rest l =
      consume_cmd-frame al kernel globals cmd (record l { cmd_chan = rest })

  -- The loops of `processCmd` over the two command channels, with fuel above the channel's length: they
  -- take commands off the front, in the order in which they were sent, and count each; they stop where
  -- the channel is empty or the budget of the event is spent, and never go over it. The other channel is
  -- left alone.
  pub cmd_loop_lem :
      (dial : Bool) (fuel consumed : ℕ) (l : LoopConn al.State H)
      → length (chan_of dial l) < fuel
      → l.cmdconsume < 2 ^ 32
      → Taken dial consumed l (cmd_loop al kernel globals dial fuel consumed l)
  unfolding cmd_loop
  cmd_loop_lem dial zero consumed l h small = absurd (omega arith)
  cmd_loop_lem dial (suc fuel) consumed l h small =
      elim (Bool-cases (spent globals.event_loop.max_cmd_per_event consumed)) [
        | inl over ↦
            rw (cmd_loop, over)
              (0, refl, refl, omega arith, inr (ground arith, ground arith), λ b w. omega arith)
        | inr on ↦ first (chan_of dial l) refl on (cmd_loop_lem dial fuel (consumed + 1))
      ]
    where
      first :
          (ch : List CmdData)
          → chan_of dial l ≡ ch
          → spent globals.event_loop.max_cmd_per_event consumed ≡ false
          → ((l : LoopConn al.State H)
              → length (chan_of dial l) < fuel
              → l.cmdconsume < 2 ^ 32
              → Taken dial (consumed + 1) l (cmd_loop al kernel globals dial fuel (consumed + 1) l))
          → Taken dial consumed l (cmd_loop al kernel globals dial (suc fuel) consumed l)
      first [] e on more = rw (cmd_loop, on, e) (0, e, refl, omega arith, inl e, λ b w. omega arith)
      first (cmd ∷ rest) e on more =
          let (ch, other, count) = consumed_one dial cmd rest l in
          let long : suc (length rest) ≡ length (chan_of dial l) = ap length (sym e) in
          let short : length
                (chan_of dial (consume_cmd al kernel globals cmd (with_chan dial rest l)))
              ≡ length rest =
            ap length ch in
          let (k, left, others, counts, why, within) =
            more (consume_cmd al kernel globals cmd (with_chan dial rest l)) (omega arith)
              (omega arith) in
          rw (cmd_loop, on, e)
            (
              suc k,
              left ∙ ap (drop k) ch,
              others ∙ other,
              omega arith,
              elim why [ inl empty ↦ inl empty | inr (b, full) ↦ inr (b, omega arith) ],
              λ b w. let r = within b (ground arith) in omega arith,
            )
