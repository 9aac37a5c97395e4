-- ===== src/TlsBuffer/Stream.antt =====
-- connection/tlsconn.go: no call loses, repeats or reorders a byte, in either direction.
use connaxis.Prelude.{
  ℕ, zero, suc, ◌+◌, ◌-◌, ◌≤◌, ◌<◌, ◌≡◌, refl, sym, ap, ap₂, ◌∙◌, inl, inr, ◌⊎◌, ◌++◌, true, false,
  min, Bool-cases, ==→eq, ltb→lt, ltb→le, append-nil, [], Bytes, arith, Option, some, none,
  if◌then◌else◌, ◌==◌, ltb,
}
use connaxis.Prelude.Lists.{
  length, take, drop, take-append-drop, take-append_le, take-all, length-take, take-append_ge,
  take-take, take-length-take, append-drop-take, length-append,
}
use connaxis.Alloc.{Allocator}
use connaxis.Ring.{RingBuffer, peek2, has, forward, op_read}
use connaxis.Ring.Access.{read_lem, peek2_lem, forward_read}
use connaxis.Ring.Grow.Append.{write_lem}
use connaxis.Ring.Grow.Peek.{peek_write_lem}
use connaxis.Ring.Valid.{IsValid, contents}
use connaxis.TlsBuffer.{
  IoResult, count, would_block, no_memory, tls_read, tls_write, trimmed, flush_round, received,
  read_ciphertext, tls_cipher_read_size,
}

-- The bytes of `p` that a result counts.
abbrev pub delivered : IoResult → Bytes → Bytes
delivered (count n) p = take n p
delivered would_block p = []
delivered no_memory p = []

exact_front : (n : ℕ) (xs ys : Bytes) → n ≤ length xs → take n (take n xs ++ ys) ≡ take n xs
exact_front n xs ys h =
    take-append_le n (take n xs) ys (omega (arith, length-take n xs))
    ∙ take-all n (take n xs) (omega (arith, length-take n xs))

-- `tlsBufferConn.Read`: what it delivers, and then what `cin` holds, is what `cin` held.
pub tls_read_lem :
    (cin : RingBuffer) (p : Bytes)
    → IsValid cin
    → (res : IoResult) × (p' : Bytes) × (cin' : RingBuffer) × (tls_read cin p
        ≡ some (res, p', cin'))
      × IsValid cin'
      × (delivered res p' ++ contents cin' ≡ contents cin)
unfolding tls_read
tls_read_lem cin p v = elim (Bool-cases (length p == 0)) [
  | inl no_room ↦ rw (no_room, tls_read) (count 0, p, cin, refl, v, refl)
  | inr room ↦ elim (Bool-cases (has cin == 0)) [
    | inl empty ↦ rw (room, tls_read, empty) (would_block, p, cin, refl, v, refl)
    | inr more ↦
        let (cin', e, v', left) = read_lem cin p (length p) true v (ground arith) (omega arith) in
        rw (room, tls_read, more, e)
          (outcome (min (length p) (length (contents cin))) cin' (omega arith) v' left)
  ]
]
  where
    outcome :
        (n : ℕ) (cin' : RingBuffer)
        → n ≤ length (contents cin)
        → IsValid cin'
        → contents cin' ≡ drop n (contents cin)
        → let p' = take n (contents cin) ++ drop n p in
          (res : IoResult) × (p'' : Bytes) × (cin'' : RingBuffer) × (◌≡◌
            {A = Option (IoResult × Bytes × RingBuffer)}
            (some (if n == 0 then would_block else count n, p', cin'))
            (some (res, p'', cin'')))
          × IsValid cin''
          × (delivered res p'' ++ contents cin'' ≡ contents cin)
    outcome zero cin' h v' e = (would_block, p, cin', refl, v', e)
    outcome (suc n) cin' h v' e =
        let more : (suc n == 0) ≡ false = ground arith in
        (
          count (suc n),
          take (suc n) (contents cin) ++ drop (suc n) p,
          cin',
          rw more,
          v',
          ap₂ ◌++◌ (exact_front (suc n) (contents cin) (drop (suc n) p) h) e
              ∙ take-append-drop (suc n) (contents cin),
        )

-- What `FlushN` offers to writev is the front of the pieces.
trimmed_lem :
    (pieces : Bytes × Bytes) (limit : Option ℕ)
    → (k : ℕ) × ((trimmed pieces limit).0 ++ (trimmed pieces limit).1
        ≡ take k (pieces.0 ++ pieces.1))
unfolding trimmed
trimmed_lem (head, tail) none = (
  length head + length tail,
  sym (take-all _ (head ++ tail) (omega (arith, length-append head tail))),
)
trimmed_lem (head, tail) (some k) = (k, within)
  where
    within :
        (trimmed (head, tail) (some k)).0 ++ (trimmed (head, tail) (some k)).1
        ≡ take k (head ++ tail)
    within = elim (Bool-cases (ltb k (length head))) [
      | inl short ↦
          rw (short, trimmed)
            (append-nil (take k head)
              ∙ sym (take-append_le k head tail (omega (arith, ltb→lt _ _ short))))
      | inr past ↦
          let over = ltb→le _ _ past in
          elim (Bool-cases (ltb k (length head + length tail))) [
            | inl cut ↦ rw (past, trimmed, cut) (sym (take-append_ge k head tail over))
            | inr whole ↦
                rw (past, trimmed, whole)
                  (sym (
                    take-all k (head ++ tail)
                      (omega (arith, length-append head tail, ltb→le _ _ whole))))
          ]
    ]

-- One round of `FlushN`: the bytes sent, and then what `cout` holds, is what `cout` held.
pub flush_round_lem :
    (cout : RingBuffer) (limit : Option ℕ) (accepted : ℕ)
    → IsValid cout
    → IsValid (flush_round cout limit accepted).1
      × ((flush_round cout limit accepted).0 ++ contents (flush_round cout limit accepted).1
          ≡ contents cout)
unfolding flush_round
flush_round_lem cout limit accepted v =
    let (k, pieces) = trimmed_lem (peek2 cout) limit in
    let prefix =
      ap (take accepted) (pieces ∙ ap (take k) (peek2_lem cout v))
      ∙ take-take accepted k (contents cout) in
    elim (Bool-cases (
      length (take accepted ((trimmed (peek2 cout) limit).0 ++ (trimmed (peek2 cout) limit).1))
      == 0)) [
        | inl blocked ↦ rw (blocked, flush_round) (v, refl)
        | inr more ↦ rw (more, flush_round) (rw prefix (sent (min accepted k)))
      ]
  where
    sent :
        (m : ℕ)
        → IsValid (forward cout (length (take m (contents cout))) op_read).1
          × (take m (contents cout)
                ++ contents (forward cout (length (take m (contents cout))) op_read).1
              ≡ contents cout)
    sent m = elim (forward_read cout (length (take m (contents cout))) v) [
      | inl (_, _, left, v') ↦
          (v', ap (◌++◌ (take m (contents cout))) left ∙ append-drop-take m (contents cout))
      | inr (short, _, _) ↦ absurd (omega (arith, length-take m (contents cout)))
    ]

module _ (al : Allocator) where
  open al use {State}

  -- `tlsBufferConn.Write`: it reports all of `p` and `cout` has it behind its bytes, or reports
  -- ENOMEM and `cout` has the bytes it had.
  pub tls_write_lem :
      (cout : RingBuffer) (p : Bytes) (s : State)
      → IsValid cout
      → al.IsValid s
      → (res : IoResult) × (cout' : RingBuffer) × (s' : State) × (tls_write al cout p s
          ≡ some (res, cout', s'))
        × IsValid cout'
        × al.IsValid s'
        × ((res ≡ count (length p)) ⊎ (res ≡ no_memory))
        × (contents cout' ≡ contents cout ++ delivered res p)
  unfolding tls_write
  tls_write_lem cout p s v valid = elim (Bool-cases (length p == 0)) [
    | inl nothing ↦ (
      count 0,
      cout,
      s,
      rw (nothing, tls_write),
      v,
      valid,
      inl (rw (==→eq _ _ nothing) refl),
      sym (append-nil (contents cout)),
    )
    | inr something ↦
        let (code, cout', s', e, valid', v', done) =
          write_lem al cout p true s v valid (ground arith) in
        elim done [
          | inl (refused, same) ↦ (
            no_memory,
            cout',
            s',
            rw (something, tls_write, e, refused),
            v',
            valid',
            inr refl,
            same ∙ sym (append-nil (contents cout)),
          )
          | inr (wrote, behind) ↦ (
            count (length p),
            cout',
            s',
            rw (something, tls_write, e, wrote),
            v',
            valid',
            inl refl,
            behind ∙ ap (◌++◌ (contents cout)) (sym (take-all (length p) p (omega arith))),
          )
        ]
  ]

  -- `readCiphertext`: what it read from the socket is behind the bytes that `cin` held.
  pub read_ciphertext_lem :
      (cin : RingBuffer) (incoming : Bytes) (s : State)
      → IsValid cin
      → al.IsValid s
      → 0 < length incoming
      → (res : IoResult) × (got : Bytes) × (cin' : RingBuffer) × (s' : State) × (read_ciphertext al
            cin incoming s
          ≡ some (res, got, cin', s'))
        × IsValid cin'
        × al.IsValid s'
        × ((res ≡ count (length got)) × (0 < length got) × (got ≡ take (length got) incoming)
            ⊎ (res ≡ no_memory) × (got ≡ []))
        × (contents cin' ≡ contents cin ++ got)
  unfolding read_ciphertext received
  read_ciphertext_lem cin incoming s v valid h =
      elim (peek_write_lem al cin tls_cipher_read_size s v valid (omega arith)) [
        | inr (cin', s', e, valid', v', same) ↦ (
          no_memory,
          [],
          cin',
          s',
          rw (e, read_ciphertext),
          v',
          valid',
          inr (refl, refl),
          same ∙ sym (append-nil (contents cin)),
        )
        | inl (sp, cin', s', e, valid', same, open_span, _, fills) ↦
            let got = take (sp.end - sp.start) incoming in
            let size = length-take (sp.end - sp.start) incoming in
            let nonempty : (sp.end - sp.start == 0) ≡ false = ground arith in
            let some_read : (length got == 0) ≡ false = ground arith in
            let (_, v'', behind) = fills got (omega arith) in
            (
              count (length got),
              got,
              received cin' sp incoming,
              s',
              rw (e, read_ciphertext, nonempty, some_read),
              rw (some_read, received) v'',
              valid',
              inl (refl, omega arith, sym (take-length-take (sp.end - sp.start) incoming)),
              rw (some_read, received) behind,
            )
      ]
