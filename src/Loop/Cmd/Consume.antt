-- ===== src/Loop/Cmd/Consume.antt =====
-- eventloop/loopConn.go: what a command does to the connection that holds its descriptor.
use connaxis.Prelude.{
  ℕ, ◌≤◌, ◌<◌, ◌≡◌, ◌≢◌, refl, ap, ◌∙◌, ◌⊎◌, inl, inr, Option, some, true, false, Bool-cases,
  Option-cases, Bytes, ◌++◌, take, ◌==◌, if◌then◌else◌, arith, ==→eq,
}
use connaxis.Prelude.Lists.{length, get_elem?, set, get_elem?-set_same}
use connaxis.Prelude.FdSets.{member, insert_fd, member-insert_fd}
use connaxis.Alloc.{Allocator}
use connaxis.Kernel.{Kernel}
use connaxis.Tuning.{Globals}
use connaxis.WriteQueue.{enqueue}
use connaxis.WriteQueue.Enqueue.{enqueue_lem}
use connaxis.Loop.State.{Base, LoopConn, CmdData, close_by_close_cmd, add_int32}
use connaxis.Loop.Send.{enqueue_write, close_conn}
use connaxis.Loop.Send.Drain.{backlog, Ready}
use connaxis.Loop.Send.Close.{close_conn-fd, close_conn-others, close_conn-self}
use connaxis.Loop.Read.Limits.{OverLimit, too_much_lem}
use connaxis.WriteQueue.Valid.{IsValid}
use connaxis.Loop.Conns.{conn_by_fd, keep}
use connaxis.Loop.Cmd.{
  reset_cmd, drop_slow, keep_or_drop, consume_data, consume_cmd, cmd_data, cmd_close,
}

module _ (al : Allocator) {H : Type 0} where
  pub reset_cmd-conns :
      (cmd : CmdData) (l : LoopConn al.State H) → (reset_cmd al cmd l).conns ≡ l.conns
  unfolding reset_cmd
  reset_cmd-conns cmd l = elim (Option-cases cmd.data_buf) [
    | inl nothing ↦ rw (nothing, reset_cmd) refl
    | inr (buf, there) ↦ rw (there, reset_cmd) refl
  ]

  -- The object that a number stands for, after a command.
  abbrev pub object : ℕ → LoopConn al.State H → Option Base
  object self l = get_elem? l.conns self

module _ (al : Allocator) (kernel : Kernel) (globals : Globals) {H : Type 0} where
  -- A command of data for another connection than the one that holds the descriptor now, as when the
  -- descriptor was closed and given out again, changes no connection.
  pub consume_cmd_stale :
      (cmd : CmdData) (c : Base) (l : LoopConn al.State H)
      → cmd.cmd ≡ cmd_data
      → conn_by_fd cmd.fd (record l { cmdconsume = add_int32 l.cmdconsume 1 }) ≡ some c
      → c.id ≢ cmd.id
      → (consume_cmd al kernel globals cmd l).conns ≡ l.conns
  unfolding consume_cmd consume_data
  consume_cmd_stale cmd c l is_data found other =
      let l₁ : LoopConn al.State H = record l { cmdconsume = add_int32 l.cmdconsume 1 } in
      let put : (cmd.cmd == cmd_data) ≡ true = rw is_data refl in
      let apart : (c.id == cmd.id) ≡ false = elim (Bool-cases (c.id == cmd.id)) [
        | inl same ↦ absurd (other (==→eq c.id cmd.id same))
        | inr ne ↦ ne
      ] in
      rw (consume_cmd, found, put, consume_data, apart) (reset_cmd-conns al cmd l₁)

  keep_or_drop_lem :
      (c : Base) (l : LoopConn al.State H)
      → IsValid c.wq
      → c.self < length l.conns
      → let l' = keep_or_drop al kernel globals c l in
        (c' : Base) × (object al c.self l' ≡ some c')
        × ((c'.fd ≡ 0) × OverLimit c.client l.cli_sbuf_limit (length (backlog c))
            ⊎ (OverLimit c.client l.cli_sbuf_limit (length (backlog c)) → ⊥)
              × (c' ≡ c)
              × (l'.cmd_flush_set ≡ l.cmd_flush_set))
  unfolding keep_or_drop drop_slow keep
  keep_or_drop_lem c l v inside = elim (too_much_lem c l v) [
    | inl (fits, within) ↦
        rw (keep_or_drop, drop_slow, fits)
          (c, get_elem?-set_same l.conns c.self c inside, inr (within, refl, refl))
    | inr (reason, over, beyond) ↦
        let l₁ : LoopConn al.State H = record l {
          cmddrop = if c.client then add_int32 l.cmddrop 1 else l.cmddrop;
        } in
        let (c', l') = close_conn al kernel globals c reason l₁ in
        let self = close_conn-self al kernel globals c reason l₁ in
        let (_, _, _, conns) = close_conn-others al kernel globals c reason l₁ in
        rw (keep_or_drop, drop_slow, over)
          (c', dropped c' l' self conns, inl (close_conn-fd al kernel globals c reason l₁, beyond))
  ]
    where
      dropped :
          (c' : Base) (l' : LoopConn al.State H)
          → c'.self ≡ c.self
          → l'.conns ≡ l.conns
          → get_elem? (set l'.conns c'.self c') c.self ≡ some c'
      dropped c' l' self conns =
          ap (λ k. get_elem? (set k c'.self c') c.self) conns
          ∙ ap (λ k. get_elem? (set l.conns k c') c.self) self
          ∙ get_elem?-set_same l.conns c.self c' inside

  -- A command of data for the connection that holds the descriptor: if its bytes and those that wait are
  -- together over the connection's limit, it is closed; if not, it stays open, its bytes are behind those
  -- that wait, and the connection is to be flushed.
  pub consume_cmd_lem :
      (cmd : CmdData) (c : Base) (buf : Bytes) (l : LoopConn al.State H)
      → Ready al c l
      → cmd.cmd ≡ cmd_data
      → conn_by_fd cmd.fd (record l { cmdconsume = add_int32 l.cmdconsume 1 }) ≡ some c
      → c.id ≡ cmd.id
      → 0 < c.fd
      → cmd.data_buf ≡ some buf
      → (0 < cmd.size) × (cmd.size ≤ length buf)
      → c.self < length l.conns
      → let l' = consume_cmd al kernel globals cmd l in
        (c' : Base) × (object al c.self l' ≡ some c')
        × let waits = backlog c ++ take cmd.size buf in
          ((c'.fd ≡ 0) × OverLimit c.client l.cli_sbuf_limit (length waits)
            ⊎ (OverLimit c.client l.cli_sbuf_limit (length waits) → ⊥)
              × (c'.fd ≡ c.fd)
              × (backlog c' ≡ waits)
              × (member c.fd l'.cmd_flush_set ≡ true))
  unfolding consume_cmd consume_data enqueue_write
  consume_cmd_lem cmd c buf l ready is_data found mine is_open there (some_data, fits) inside =
      let put : (cmd.cmd == cmd_data) ≡ true = rw is_data refl in
      let same : (c.id == cmd.id) ≡ true = ground arith in
      let sized : (cmd.size == 0) ≡ false = ground arith in
      let live : (c.fd == 0) ≡ false = ground arith in
      let l₁ : LoopConn al.State H = record l { cmdconsume = add_int32 l.cmdconsume 1 } in
      let (v, valid, more, _) =
        enqueue_lem al globals.connection c.wq buf cmd.size l.pool ready.0 ready.1 fits in
      let (q, s) = enqueue al globals.connection c.wq buf cmd.size l.pool in
      let c₁ = record c { wq = q } in
      let l₂ : LoopConn al.State H = record l₁ {
        pool = s;
        cmd_flush_set = insert_fd c.fd l.cmd_flush_set;
      } in
      let (c', there', ends) = keep_or_drop_lem c₁ l₂ v inside in
      let itself : (c.fd == c.fd) ≡ true = ground arith in
      let flagged : member c.fd (insert_fd c.fd l.cmd_flush_set) ≡ true =
        member-insert_fd c.fd c.fd l.cmd_flush_set ∙ rw itself refl in
      rw (consume_cmd, found, put, consume_data, same, sized, live, there)
        (
          c',
          there',
          elim ends [
            | inl (closed, over) ↦ inl (closed, rw more at over)
            | inr (fits, kept, flush) ↦ inr (
              rw more at fits,
              ap (λ (x : Base). x.fd) kept,
              ap backlog kept ∙ more,
              ap (member c.fd) flush ∙ flagged,
            )
          ],
        )

  -- A close command closes whichever connection holds its descriptor: the identity that it carries is not
  -- looked at.
  pub consume_cmd_close :
      (cmd : CmdData) (c : Base) (l : LoopConn al.State H)
      → cmd.cmd ≡ cmd_close
      → conn_by_fd cmd.fd (record l { cmdconsume = add_int32 l.cmdconsume 1 }) ≡ some c
      → c.self < length l.conns
      → let l' = consume_cmd al kernel globals cmd l in
        (c' : Base) × (object al c.self l' ≡ some c') × (c'.fd ≡ 0)
  unfolding consume_cmd keep
  consume_cmd_close cmd c l is_close found inside =
      let l₁ : LoopConn al.State H = record l { cmdconsume = add_int32 l.cmdconsume 1 } in
      let not_data : (cmd.cmd == cmd_data) ≡ false = rw is_close refl in
      let close : (cmd.cmd == cmd_close) ≡ true = rw is_close refl in
      let (c', l') = close_conn al kernel globals c close_by_close_cmd l₁ in
      let self = close_conn-self al kernel globals c close_by_close_cmd l₁ in
      let (_, _, _, conns) = close_conn-others al kernel globals c close_by_close_cmd l₁ in
      rw (consume_cmd, found, not_data, close)
        (
          c',
          ap (λ k. get_elem? k c.self) (reset_cmd-conns al cmd (keep (c', l')))
              ∙ ap (λ k. get_elem? (set k c'.self c') c.self) conns
              ∙ ap (λ k. get_elem? (set l.conns k c') c.self) self
              ∙ get_elem?-set_same l.conns c.self c' inside,
          close_conn-fd al kernel globals c close_by_close_cmd l₁,
        )
