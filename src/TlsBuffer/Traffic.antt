-- ===== src/TlsBuffer/Traffic.antt =====
-- connection/tlsconn.go: any history of calls on one `tlsBufferConn`, with the bytes that have gone
-- by on its four sides.
use connaxis.Prelude.{
  ℕ, ◌≡◌, refl, sym, ap, ◌∙◌, ◌++◌, append_assoc, List, [], ◌∷◌, Bytes, arith, Option, some, none,
}
use connaxis.Prelude.Lists.{replicate}
use connaxis.Alloc.{Allocator}
use connaxis.Ring.{RingBuffer}
use connaxis.Ring.Valid.{IsValid, contents}
use connaxis.TlsBuffer.{tls_read, tls_write, flush_round, read_ciphertext}
use connaxis.TlsBuffer.Stream.{
  delivered, tls_read_lem, tls_write_lem, flush_round_lem, read_ciphertext_lem,
}

-- The TLS layer reads into `n` bytes or writes; the event loop takes bytes from the socket, or
-- flushes under a limit while the socket takes at most a number of bytes.
pub data Call : Type 0 where
  reads : ℕ → Call
  writes : Bytes → Call
  arrives : ℕ → Bytes → Call
  flushes : Option ℕ → ℕ → Call

-- The two rings, the pool, and what has gone by.
pub record Traffic (State : Type 0) : Type 0 where
  pub cin : RingBuffer
  pub cout : RingBuffer
  pub pool : State
  pub arrived : Bytes
  pub read_out : Bytes
  pub written : Bytes
  pub sent : Bytes

module _ (al : Allocator) where
  open al use {State}

  -- `arrives b bs` is a socket with the bytes `b ∷ bs`.
  pub step : Traffic State → Call → Option (Traffic State)
  step t (reads n) = elim (tls_read t.cin (replicate n 0)) [
    | none ↦ none
    | some (res, p, cin) ↦ some (record t { cin = cin; read_out = t.read_out ++ delivered res p })
  ]
  step t (writes p) = elim (tls_write al t.cout p t.pool) [
    | none ↦ none
    | some (res, cout, s) ↦
        some (record t { cout = cout; pool = s; written = t.written ++ delivered res p })
  ]
  step t (arrives b bs) = elim (read_ciphertext al t.cin (b ∷ bs) t.pool) [
    | none ↦ none
    | some (res, got, cin, s) ↦ some (record t { cin = cin; pool = s; arrived = t.arrived ++ got })
  ]
  step t (flushes limit k) =
      let (bytes, cout) = flush_round t.cout limit k in
      some (record t { cout = cout; sent = t.sent ++ bytes })

  pub run : Traffic State → List Call → Option (Traffic State)
  run t [] = some t
  run t (c ∷ cs) = elim (step t c) [ none ↦ none | some t' ↦ run t' cs ]

  -- In each direction, what has left and what is held is what has come, in order.
  pub record Faithful (t : Traffic State) : Type 0 where
    pub cin_valid : IsValid t.cin
    pub cout_valid : IsValid t.cout
    pub pool_valid : al.IsValid t.pool
    pub inward : t.read_out ++ contents t.cin ≡ t.arrived
    pub outward : t.sent ++ contents t.cout ≡ t.written

  abbrev Steps : Traffic State → Option (Traffic State) → Type 0
  Steps t out = (t' : Traffic State) × (out ≡ some t') × Faithful t'

  step-Faithful : (t : Traffic State) (c : Call) → Faithful t → Steps t (step t c)
  unfolding step
  step-Faithful t (reads n) f =
      let (res, p, cin, e, v, kept) = tls_read_lem t.cin (replicate n 0) f.cin_valid in
      (
        record t { cin = cin; read_out = t.read_out ++ delivered res p },
        rw (e, step),
        record {
          cin_valid = v;
          cout_valid = f.cout_valid;
          pool_valid = f.pool_valid;
          inward = append_assoc t.read_out _ _ ∙ ap (◌++◌ t.read_out) kept ∙ f.inward;
          outward = f.outward;
        },
      )
  step-Faithful t (writes p) f =
      let (res, cout, s, e, v, valid, _, behind) =
        tls_write_lem al t.cout p t.pool f.cout_valid f.pool_valid in
      (
        record t { cout = cout; pool = s; written = t.written ++ delivered res p },
        rw (e, step),
        record {
          cin_valid = f.cin_valid;
          cout_valid = v;
          pool_valid = valid;
          inward = f.inward;
          outward =
              ap (◌++◌ t.sent) behind
              ∙ sym (append_assoc t.sent _ _)
              ∙ ap (λ front. front ++ delivered res p) f.outward;
        },
      )
  step-Faithful t (arrives b bs) f =
      let (res, got, cin, s, e, v, valid, _, behind) =
        read_ciphertext_lem al t.cin (b ∷ bs) t.pool f.cin_valid f.pool_valid (omega arith) in
      (
        record t { cin = cin; pool = s; arrived = t.arrived ++ got },
        rw (e, step),
        record {
          cin_valid = v;
          cout_valid = f.cout_valid;
          pool_valid = valid;
          inward =
              ap (◌++◌ t.read_out) behind
              ∙ sym (append_assoc t.read_out _ _)
              ∙ ap (λ front. front ++ got) f.inward;
          outward = f.outward;
        },
      )
  step-Faithful t (flushes limit k) f =
      let (v, kept) = flush_round_lem t.cout limit k f.cout_valid in
      let (bytes, cout) = flush_round t.cout limit k in
      (
        record t { cout = cout; sent = t.sent ++ bytes },
        refl,
        record {
          cin_valid = f.cin_valid;
          cout_valid = v;
          pool_valid = f.pool_valid;
          inward = f.inward;
          outward = append_assoc t.sent _ _ ∙ ap (◌++◌ t.sent) kept ∙ f.outward;
        },
      )

  -- No history of reads, writes, arrivals and flushes panics, and after it the bytes read are the
  -- first of those that arrived and the bytes sent the first of those written, in order; the rest is
  -- held in the rings.
  pub run-Faithful :
      (cs : List Call) (t : Traffic State)
      → Faithful t
      → (t' : Traffic State) × (run t cs ≡ some t') × Faithful t'
  unfolding run
  run-Faithful [] t f = (t, refl, f)
  run-Faithful (c ∷ cs) t f =
      let (t₁, e, f₁) = step-Faithful t c f in
      let (t₂, e', f₂) = run-Faithful cs t₁ f₁ in (t₂, rw (e, run) e', f₂)
