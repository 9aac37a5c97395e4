-- ===== src/Loop/Read/Finish.antt =====
-- eventloop/loopConn.go: the end of a round of `processRead`, from the bytes at hand on.
use connaxis.Prelude.{
  ℕ, ◌+◌, ◌≡◌, refl, ap, ◌∙◌, ◌⊎◌, inl, inr, Option, none, some, Bool, true, false, Bool-cases, ltb,
  ◌==◌, if◌then◌else◌, arith,
}
use connaxis.Prelude.FdSets.{member, insert_fd, member-insert_fd}
use connaxis.Alloc.{Allocator}
use connaxis.Kernel.{Kernel, fails}
use connaxis.Tuning.{Globals}
use connaxis.WriteQueue.Flush.{Errno}
use connaxis.Loop.State.{
  Base, LoopConn, CloseReason, close_send_err, close_by_user_land, PktHandler, Outcome, returned,
  went_on,
}
use connaxis.Loop.Send.{close_conn, drain_write, update_write_fd, pending_write}
use connaxis.Loop.Send.Drain.{Ready, OnlySends, drain_write_lem}
use connaxis.Loop.Send.Close.{close_conn-fd}
use connaxis.Loop.Send.Interest.{heard, update_write_fd-OnlyInterest, update_write_fd-heard}
use connaxis.Loop.Packets.{close_and_return}
use connaxis.Loop.Read.Cause.{EndFault, wanted, over_limit, not_drained}
use connaxis.Loop.Read.Limits.{too_much_lem}
use connaxis.Loop.Read.{too_much, after_limits, after_packets}

module _ (al : Allocator) {H : Type 0} where
  -- The end of a round for a connection that is still open: whether the loop goes on, what was asked for.
  abbrev pub Goes :
      Bool → Bool → Base → LoopConn al.State H → Outcome Unit → Base → LoopConn al.State H → Type 0
  Goes want stop c l o c' l' =
      Ready al c' l'
      × (c'.recvbuf ≡ c.recvbuf)
      × (c'.fd ≡ c.fd)
      × (c'.self ≡ c.self)
      × ((self : ℕ) → heard self l'.log ≡ heard self l.log)
      × (want ≡ true → member c'.fd l'.close_on_drain ≡ true)
      × ((o ≡ went_on tt) → (stop ≡ false) × (want ≡ false))
      × (l'.shared ≡ l.shared)
      × (l'.reads ≡ l.reads)

-- A round that closed the connection, for a cause.
abbrev pub Closed : Type 0 → Outcome Unit → Base → Type 0
Closed K o c' = (c'.fd ≡ 0) × (o ≡ returned) × K

module _ (al : Allocator) (kernel : Kernel) (globals : Globals) {H : Type 0}
    (h : PktHandler H) where
  abbrev Finished :
      Bool
      → Bool
      → Base
      → LoopConn al.State H
      → Option (Outcome Unit × Base × LoopConn al.State H)
      → Type 0
  Finished want stop c l out =
      (o : Outcome Unit) × (c' : Base) × (l' : LoopConn al.State H) × (out ≡ some (o, c', l'))
      × (Closed (EndFault al kernel globals h want c l) o c' ⊎ Goes al want stop c l o c' l')

  closed_Finished :
      (want stop : Bool) (c c₁ : Base) (l l₁ : LoopConn al.State H) (reason : CloseReason)
      → EndFault al kernel globals h want c l
      → Finished want stop c l (close_and_return al kernel globals c₁ reason l₁)
  unfolding close_and_return
  closed_Finished want stop c c₁ l l₁ reason cause =
      let (c', l') = close_conn al kernel globals c₁ reason l₁ in
      (returned, c', l', refl, inl (close_conn-fd al kernel globals c₁ reason l₁, refl, cause))

  -- A connection with its interest brought up to date still goes.
  updated :
      (want stop : Bool) (o : Outcome Unit) (c c' : Base) (l l' : LoopConn al.State H)
      → Goes al want stop c l o c' l'
      → Goes al want stop c l o c' (update_write_fd c' l')
  updated want stop o c c' l l' (ready, buf, fd, self, same, asked, on, room, reads) =
      let only = update_write_fd-OnlyInterest c' l' in
      (
        (ready.0, rw (ap (λ (x : LoopConn al.State H). x.pool) only) ready.1, ready.2),
        buf,
        fd,
        self,
        λ k. update_write_fd-heard c' k l' ∙ same k,
        λ e. ap (λ (x : LoopConn al.State H). member c'.fd x.close_on_drain) only ∙ asked e,
        on,
        ap (λ (x : LoopConn al.State H). x.shared) only ∙ room,
        ap (λ (x : LoopConn al.State H). x.reads) only ∙ reads,
      )

  pub after_packets_lem :
      (want stop : Bool) (c : Base) (l : LoopConn al.State H)
      → Ready al c l
      → Finished want stop c l (after_packets al kernel globals want stop c l)
  unfolding after_packets
  after_packets_lem want stop c l ready =
      let (k, err, c', l', e, ready', _, _, _, _, same) =
        drain_write_lem al kernel globals c l ready in
      went want k err c' l' e ready' same
    where
      base :
          (o : Outcome Unit) (c' : Base) (l' : LoopConn al.State H)
          → Ready al c' l'
          → OnlySends al c l c' l'
          → (o ≡ went_on tt → (stop ≡ false) × (false ≡ false))
          → Goes al false stop c l o c' l'
      base o c' l' ready' same on = (
        ready',
        ap (λ (x : Base). x.recvbuf) same.0,
        ap (λ (x : Base). x.fd) same.0,
        ap (λ (x : Base). x.self) same.0,
        λ k. ap (λ (x : LoopConn al.State H). heard k x.log) same.1,
        λ bad. absurd (cc),
        on,
        ap (λ (x : LoopConn al.State H). x.shared) same.1,
        ap (λ (x : LoopConn al.State H). x.reads) same.1,
      )

      limits :
          (stop' : Bool) (c' : Base) (l' : LoopConn al.State H)
          → stop ≡ stop'
          → Ready al c' l'
          → OnlySends al c l c' l'
          → Finished false stop c l (some (after_limits al kernel globals stop' c' l'))
      limits true c' l' f ready' same = (
        returned,
        c',
        update_write_fd c' l',
        refl,
        inr (
            updated false stop returned c c' l l'
              (base returned c' l' ready' same (λ bad. absurd (cc)))),
      )
      limits false c' l' f ready' same =
          (went_on tt, c', l', refl, inr (base (went_on tt) c' l' ready' same (λ _. (f, refl))))

      draining :
          (c' : Base) (l' : LoopConn al.State H)
          → Ready al c' l'
          → OnlySends al c l c' l'
          → Goes al true stop c l returned c'
              (record l' { close_on_drain = insert_fd c'.fd l'.close_on_drain })
      draining c' l' ready' same =
          let itself : (c'.fd == c'.fd) ≡ true = ground arith in
          (
            ready',
            ap (λ (x : Base). x.recvbuf) same.0,
            ap (λ (x : Base). x.fd) same.0,
            ap (λ (x : Base). x.self) same.0,
            λ k. ap (λ (x : LoopConn al.State H). heard k x.log) same.1,
            λ _. member-insert_fd c'.fd c'.fd l'.close_on_drain ∙ rw itself refl,
            λ bad. absurd (cc),
            ap (λ (x : LoopConn al.State H). x.shared) same.1,
            ap (λ (x : LoopConn al.State H). x.reads) same.1,
          )

      chosen :
          (want : Bool)
          → (r : ℕ × Errno) (c' : Base) (l' : LoopConn al.State H)
          → drain_write al kernel globals c l ≡ some (r, c', l')
          → Ready al c' l'
          → OnlySends al c l c' l'
          → Finished want stop c l (
              if want
              then (if ltb 0 (pending_write c')
                  then some (
                    returned,
                    c',
                    update_write_fd c'
                        (record l' { close_on_drain = insert_fd c'.fd l'.close_on_drain }),
                  )
                  else close_and_return al kernel globals c' close_by_user_land l')
              else (elim (too_much c' l') [
                | some reason ↦ close_and_return al kernel globals c' reason l'
                | none ↦ some (after_limits al kernel globals stop c' l')
              ]))
      chosen true r c' l' e ready' same = elim (Bool-cases (ltb 0 (pending_write c'))) [
        | inl waits ↦
            let l₂ = record l' { close_on_drain = insert_fd c'.fd l'.close_on_drain } in
            rw waits (
              returned,
              c',
              update_write_fd c' l₂,
              refl,
              inr (updated true stop returned c c' l l₂ (draining c' l' ready' same)),
            )
        | inr empty ↦ rw empty (closed_Finished true stop c c' l l' close_by_user_land wanted)
      ]
      chosen false r c' l' e ready' same = elim (too_much_lem c' l' ready'.0) [
        | inl (fits, _) ↦ rw fits (limits stop c' l' refl ready' same)
        | inr (reason, over, beyond) ↦
            rw over (closed_Finished false stop c c' l l' reason (over_limit r c' l' e beyond))
      ]

      went :
          (want : Bool)
          → (k : ℕ) (err : Errno) (c' : Base) (l' : LoopConn al.State H)
          → drain_write al kernel globals c l ≡ some ((0 + k, err), c', l')
          → Ready al c' l'
          → OnlySends al c l c' l'
          → Finished want stop c l (after_packets al kernel globals want stop c l)
      went want k err c' l' e ready' same = elim (Bool-cases (fails err)) [
        | inl bad ↦
            rw (after_packets, e, bad)
              (closed_Finished want stop c c' l l' close_send_err
                (not_drained (0 + k) err c' l' e bad))
        | inr fine ↦ rw (after_packets, e, fine) (chosen want (0 + k, err) c' l' e ready' same)
      ]
