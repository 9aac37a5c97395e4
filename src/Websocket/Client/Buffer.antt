-- ===== src/Websocket/Client/Buffer.antt =====
-- websocket/wsclient.go: the buffer of a fragmented message keeps the bytes written to it.
use connaxis.Prelude.{
  ℕ, ◌+◌, ◌-◌, ◌≤◌, ◌≡◌, refl, sym, ap, ◌∙◌, inl, inr, Bool, true, false, Bool-cases, Option, none,
  some, ◌++◌, Bytes, copy, copy_at, ltb, leb, ◌==◌, if◌then◌else◌, leb→le, ==→eq, arith,
}
use connaxis.Prelude.Lists.{
  length, take, drop, length-take, length-drop, take-all, take-append_le, take-append_ge,
}
use connaxis.Prelude.Slices.{length-copy, length-copy_at, take-copy, copy-eq-append}
use connaxis.Alloc.{Allocator}
use connaxis.Websocket.Client.{ClientBuf, bytes, write}

-- The offsets are in order, inside of the buffer.
abbrev pub IsValid : ClientBuf → Type 0
IsValid c = (c.check_offset ≤ c.write_offset) × (c.write_offset ≤ length c.buf)

-- The bytes of the message so far.
abbrev pub written : ClientBuf → Bytes
written c = take c.write_offset c.buf

pub bytes-written : (c : ClientBuf) → bytes c ≡ written c
unfolding bytes
bytes-written c = elim (Bool-cases (c.write_offset == 0)) [
  | inl empty ↦ rw (empty, bytes) (ap (λ k. take k c.buf) (sym (==→eq _ _ empty)))
  | inr full ↦ rw (full, bytes) refl
]

-- Bytes put at an offset stand behind those before it.
take-copy_at :
    (b p : Bytes) (i : ℕ)
    → i + length p ≤ length b
    → take (i + length p) (copy_at b i p) ≡ take i b ++ p
unfolding copy_at
take-copy_at b p i room =
    ap (λ x. take (i + length p) (take i b ++ x))
      (copy-eq-append (drop i b) p (omega (arith, length-drop i b)))
    ∙ take-append_ge (i + length p) (take i b) (p ++ drop (length p) (drop i b))
        (omega (arith, len))
    ∙ ap (◌++◌ (take i b)) (
        ap (λ k. take k (p ++ drop (length p) (drop i b))) {y = length p} (omega (arith, len))
        ∙ take-append_le (length p) p (drop (length p) (drop i b)) (omega arith)
        ∙ take-all (length p) p (omega arith))
  where
    len : length (take i b) ≡ i
    len = omega (arith, length-take i b)

-- The bytes so far, moved to a larger buffer.
base_lem :
    (c : ClientBuf) (b : Bytes)
    → IsValid c
    → c.write_offset ≤ length b
    → let base = if ltb 0 c.write_offset then copy b (take c.write_offset c.buf) else b in
      (length base ≡ length b) × (take c.write_offset base ≡ written c)
base_lem c b v h = elim (Bool-cases (ltb 0 c.write_offset)) [
  | inl some_left ↦
      let len : length (written c) ≡ c.write_offset =
        omega (arith, length-take c.write_offset c.buf) in
      rw some_left (
        length-copy b (written c),
        ap (λ k. take k (copy b (written c))) (sym len) ∙ take-copy b (written c) (omega arith),
      )
  | inr empty ↦
      let start : c.write_offset ≡ 0 = ground arith in
      rw empty (refl, ap (λ k. take k b) start ∙ sym (ap (λ k. take k c.buf) start))
]

module _ (al : Allocator) where
  open al use {State}

  -- `write` into a valid buffer does not panic and keeps buffer and allocator valid; if it reports
  -- true, the bytes stand behind those written before.
  pub write-written :
      (c : ClientBuf) (p : Bytes) (s : State)
      → IsValid c
      → al.IsValid s
      → (ok : Bool) × (c' : ClientBuf) × (s' : State) × (write al c p s ≡ some (ok, c', s'))
        × IsValid c'
        × al.IsValid s'
        × (ok ≡ true
            → (written c' ≡ written c ++ p) × (c'.write_offset ≡ c.write_offset + length p))
  unfolding write
  write-written c p s v valid = elim (Bool-cases (leb (length p) (length c.buf - c.write_offset))) [
    | inl room ↦
        let fits = leb→le _ _ room in
        (
          true,
          record c {
            buf = copy_at c.buf c.write_offset p;
            write_offset = c.write_offset + length p;
          },
          s,
          rw (room, write) refl,
          (omega arith, omega (arith, length-copy_at c.buf c.write_offset p)),
          valid,
          λ _. (take-copy_at c.buf p c.write_offset (omega arith), refl),
        )
    | inr full ↦ grown full (al.get_lem (c.write_offset + length p) s valid)
  ]
    where
      grown :
          (leb (length p) (length c.buf - c.write_offset) ≡ false)
          → ((o : Option Bytes) × (s' : State) × (al.get (c.write_offset + length p) s
                ≡ some (o, s'))
              × al.IsValid s'
              × ((b : Bytes) → o ≡ some b → c.write_offset + length p ≤ length b))
          → (ok : Bool) × (c' : ClientBuf) × (s' : State) × (write al c p s ≡ some (ok, c', s'))
            × IsValid c'
            × al.IsValid s'
            × (ok ≡ true
                → (written c' ≡ written c ++ p) × (c'.write_offset ≡ c.write_offset + length p))
      grown full (none, s', e, valid', _) =
          (false, c, s', rw (full, e, write) refl, v, valid', λ t. cc)
      grown full (some b, s', e, valid', long) =
          let enough = long b refl in
          let base = if ltb 0 c.write_offset then copy b (written c) else b in
          let (base_length, base_front) = base_lem c b v (omega arith) in
          (
            true,
            record c {
              buf = copy_at base c.write_offset p;
              write_offset = c.write_offset + length p;
            },
            al.put c.buf s',
            rw (full, e, write) refl,
            (omega arith, omega (arith, length-copy_at base c.write_offset p)),
            al.put-IsValid c.buf s' valid',
            λ _. (
              take-copy_at base p c.write_offset (omega arith) ∙ ap (λ x. x ++ p) base_front,
              refl,
            ),
          )
