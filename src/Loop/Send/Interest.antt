-- ===== src/Loop/Send/Interest.antt =====
-- eventloop/loopConn.go: `updateWriteFd` keeps the poller's interest in step with what is waiting.
use connaxis.Prelude.{
  ℕ, ◌<◌, ◌≡◌, refl, ◌∙◌, inl, inr, Bool, true, false, not, ◌&&◌, ◌||◌, Bool-cases, List, [], ◌∷◌,
  ◌++◌, Bytes, ◌==◌, if◌then◌else◌, ltb, arith, ==→eq,
}
use connaxis.Prelude.FdSets.{member, member-delete_fd}
use connaxis.Loop.State.{
  Base, LoopConn, Call, add_read, mod_read, mod_read_write, del, trigger, on_connected, on_data,
  on_closed,
}
use connaxis.Loop.Send.{set_interest, update_write_fd, pending_write}

-- Whether the poller watches a descriptor for writing, from the calls it had, newest first.
abbrev pub watched : ℕ → List Call → Bool
watched fd [] = false
watched fd (mod_read_write k ∷ log) = (k == fd) || watched fd log
watched fd (add_read k ∷ log) = not (k == fd) && watched fd log
watched fd (mod_read k ∷ log) = not (k == fd) && watched fd log
watched fd (del k ∷ log) = not (k == fd) && watched fd log
watched fd (trigger k ∷ log) = watched fd log
watched fd (on_connected k ∷ log) = watched fd log
watched fd (on_data k p ∷ log) = watched fd log
watched fd (on_closed k e ∷ log) = watched fd log

-- The bytes that the handler was given of a connection, oldest first.
abbrev pub heard : ℕ → List Call → Bytes
heard self [] = []
heard self (on_data k p ∷ log) = heard self log ++ (if k == self then p else [])
heard self (mod_read_write k ∷ log) = heard self log
heard self (add_read k ∷ log) = heard self log
heard self (mod_read k ∷ log) = heard self log
heard self (del k ∷ log) = heard self log
heard self (trigger k ∷ log) = heard self log
heard self (on_connected k ∷ log) = heard self log
heard self (on_closed k e ∷ log) = heard self log

-- Whether the loop's set of write descriptors is what the poller watches.
abbrev pub InStep : {S H : Type 0} → LoopConn S H → Type 0
InStep l = (fd : ℕ) → member fd l.write_fds ≡ watched fd l.log

-- Only the set and the calls of the poller.
abbrev pub OnlyInterest : {S H : Type 0} → LoopConn S H → LoopConn S H → Type 0
OnlyInterest l l' = l' ≡ record l { write_fds = l'.write_fds; log = l'.log }

module _ {S H : Type 0} where
  set_interest_lem :
      (k : ℕ) (want : Bool) (l : LoopConn S H)
      → InStep l
      → let l' = set_interest k want l in
        InStep l'
        × ((fd : ℕ) → member fd l'.write_fds ≡ (if k == fd then want else member fd l.write_fds))
  unfolding set_interest
  set_interest_lem k true l agree = elim (Bool-cases (member k l.write_fds)) [
    | inl old ↦
        rw (old, set_interest)
          (
            agree,
            λ fd. elim (Bool-cases (k == fd)) [
              | inr apart ↦ rw apart refl
              | inl same ↦ rw same (rw (← ==→eq k fd same) old)
            ],
          )
    | inr new ↦
        rw (new, set_interest)
          (
            λ fd. rw (agree fd) refl,
            λ fd. elim (Bool-cases (k == fd)) [
              | inl same ↦ rw same refl
              | inr apart ↦ rw apart refl
            ],
          )
  ]
  set_interest_lem k false l agree = elim (Bool-cases (member k l.write_fds)) [
    | inr gone ↦
        rw (gone, set_interest)
          (
            agree,
            λ fd. elim (Bool-cases (k == fd)) [
              | inr apart ↦ rw apart refl
              | inl same ↦ rw same (rw (← ==→eq k fd same) gone)
            ],
          )
    | inl old ↦
        rw (old, set_interest)
          (
            λ fd. member-delete_fd k fd l.write_fds ∙ rw (agree fd) refl,
            λ fd. member-delete_fd k fd l.write_fds ∙ elim (Bool-cases (k == fd)) [
              | inl same ↦ rw same refl
              | inr apart ↦ rw apart refl
            ],
          )
  ]

  -- `updateWriteFd` of an open connection: afterwards its descriptor is watched for writing if and only if
  -- bytes are waiting, in the loop's set and in the poller alike, and other descriptors are as they were.
  pub update_write_fd_lem :
      (c : Base) (l : LoopConn S H)
      → InStep l
      → 0 < c.fd
      → let l' = update_write_fd c l in
        InStep l'
        × ((fd : ℕ)
            → member fd l'.write_fds
              ≡ (if c.fd == fd then ltb 0 (pending_write c) else member fd l.write_fds))
  unfolding update_write_fd
  update_write_fd_lem c l agree h =
      let is_open : (c.fd == 0) ≡ false = ground arith in
      rw (is_open, update_write_fd) (set_interest_lem c.fd (ltb 0 (pending_write c)) l agree)

  set_interest-OnlyInterest :
      (k : ℕ) (want : Bool) (l : LoopConn S H) → OnlyInterest l (set_interest k want l)
  unfolding set_interest
  set_interest-OnlyInterest k true l = elim (Bool-cases (member k l.write_fds)) [
    | inl old ↦ rw (old, set_interest) refl
    | inr new ↦ rw (new, set_interest) refl
  ]
  set_interest-OnlyInterest k false l = elim (Bool-cases (member k l.write_fds)) [
    | inl old ↦ rw (old, set_interest) refl
    | inr new ↦ rw (new, set_interest) refl
  ]

  pub update_write_fd-OnlyInterest :
      (c : Base) (l : LoopConn S H) → OnlyInterest l (update_write_fd c l)
  unfolding update_write_fd
  update_write_fd-OnlyInterest c l = elim (Bool-cases (c.fd == 0)) [
    | inl closed ↦ rw (closed, update_write_fd) refl
    | inr is_open ↦
        rw (is_open, update_write_fd) (set_interest-OnlyInterest c.fd (ltb 0 (pending_write c)) l)
  ]

  set_interest-heard :
      (k self : ℕ) (want : Bool) (l : LoopConn S H)
      → heard self (set_interest k want l).log ≡ heard self l.log
  unfolding set_interest
  set_interest-heard k self true l = elim (Bool-cases (member k l.write_fds)) [
    | inl old ↦ rw (old, set_interest) refl
    | inr new ↦ rw (new, set_interest) refl
  ]
  set_interest-heard k self false l = elim (Bool-cases (member k l.write_fds)) [
    | inl old ↦ rw (old, set_interest) refl
    | inr new ↦ rw (new, set_interest) refl
  ]

  pub update_write_fd-heard :
      (c : Base) (self : ℕ) (l : LoopConn S H)
      → heard self (update_write_fd c l).log ≡ heard self l.log
  unfolding update_write_fd
  update_write_fd-heard c self l = elim (Bool-cases (c.fd == 0)) [
    | inl closed ↦ rw (closed, update_write_fd) refl
    | inr is_open ↦
        rw (is_open, update_write_fd) (set_interest-heard c.fd self (ltb 0 (pending_write c)) l)
  ]
