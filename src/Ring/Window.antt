-- ===== src/Ring/Window.antt =====
-- ringbuffer/ringbuffer.go: the bytes that a ring holds, as a list, and how the slices of its buffer
-- make them up.
use native.Mathlib.Nat.{mod-lt, add-zero}
use connaxis.Prelude.{
  ℕ, zero, suc, ◌+◌, ◌-◌, ◌%◌, ◌≤◌, ◌<◌, ◌≡◌, refl, sym, ap, ap₂, ◌∙◌, [], ◌∷◌, ◌++◌, Bytes, arith,
}
use connaxis.Prelude.Lists.{length, get_or, take, drop}
use connaxis.Prelude.Modulo.{mod-step, mod-step_round}

take-drop-suc :
    (xs : Bytes) (s n : ℕ)
    → s < length xs
    → take (suc n) (drop s xs) ≡ get_or xs s 0 ∷ take n (drop (suc s) xs)
take-drop-suc [] s n h = absurd (omega arith)
take-drop-suc (x ∷ xs) zero n h = refl
take-drop-suc (x ∷ xs) (suc s) n h = take-drop-suc xs s n (omega arith)

-- The `n` bytes from index `h` on, where an index is reduced by the size.
module _ (buf : Bytes) (size : ℕ) where
  abbrev pub window : ℕ → ℕ → Bytes
  window h zero = []
  window h (suc n) = get_or buf (h % size) 0 ∷ window (h + 1) n

  pub length-window : (h n : ℕ) → length (window h n) ≡ n
  length-window h zero = refl
  length-window h (suc n) = ap suc (length-window (h + 1) n)

  -- Windows side by side; the indices are named by equations.
  pub window-append :
      (m n k h j : ℕ) → k ≡ m + n → j ≡ h + m → window h m ++ window j n ≡ window h k
  window-append zero n k h j e f =
      let same : k ≡ n = omega arith in let start : j ≡ h = omega arith in rw (same, start)
  window-append (suc m) n k h j e f =
      let same : k ≡ suc (m + n) = omega arith in
      rw same (
        ap (◌∷◌ (get_or buf (h % size) 0)) (window-append m n (m + n) (h + 1) j refl (omega arith)))

  -- A window that does not go round is a slice of the buffer.
  pub window-take :
      (n h s : ℕ)
      → s ≡ h % size
      → s + n ≤ size
      → size ≤ length buf
      → window h n ≡ take n (drop s buf)
  window-take zero h s e f g = refl
  window-take (suc zero) h s e f g = rw (← e) (sym (take-drop-suc buf s 0 (omega arith)))
  window-take (suc (suc n)) h s e f g =
      let next : suc s ≡ (h + 1) % size =
        omega (arith, mod-step h 1 size (omega arith) (omega arith) (omega arith)) in
      let tail = window-take (suc n) (h + 1) (suc s) next (omega arith) g in
      rw (← e) (ap (◌∷◌ (get_or buf s 0)) tail ∙ sym (take-drop-suc buf s (suc n) (omega arith)))

  -- One that does is the end of the buffer and then its front.
  pub window-round :
      (n h s : ℕ)
      → s ≡ h % size
      → 0 < size
      → size ≤ s + n
      → n ≤ size
      → size ≤ length buf
      → window h n ≡ take (size - s) (drop s buf) ++ take (n - (size - s)) buf
  window-round n h s e p f l g =
      let inside : s < size = omega (arith, mod-lt h p) in
      let round : (h + (size - s)) % size ≡ 0 =
        omega (arith, mod-step_round h (size - s) size (omega arith) p (omega arith)) in
      sym (window-append (size - s) (n - (size - s)) n h (h + (size - s)) (omega arith) refl)
      ∙ ap₂ ◌++◌ (window-take (size - s) h s e (omega arith) g)
          (window-take (n - (size - s)) (h + (size - s)) 0 (sym round) (omega arith) g)

  pub take-window : (k n h : ℕ) → k ≤ n → take k (window h n) ≡ window h k
  take-window zero n h p = refl
  take-window (suc k) zero h p = absurd (omega arith)
  take-window (suc k) (suc n) h p =
      ap (◌∷◌ (get_or buf (h % size) 0)) (take-window k n (h + 1) (omega arith))

  pub drop-window : (k n h : ℕ) → k ≤ n → drop k (window h n) ≡ window (h + k) (n - k)
  drop-window zero n h p = ap₂ window (omega arith) (omega arith)
  drop-window (suc k) zero h p = absurd (omega arith)
  drop-window (suc k) (suc n) h p =
      drop-window k n (h + 1) (omega arith) ∙ ap₂ window (omega arith) (omega arith)

-- A window only looks at the buffer where its indices are.
pub window-ext :
    (b c : Bytes) (size n h : ℕ)
    → ((i : ℕ) → i < n → get_or b ((h + i) % size) 0 ≡ get_or c ((h + i) % size) 0)
    → window b size h n ≡ window c size h n
window-ext b c size zero h e = refl
window-ext b c size (suc n) h e = ap₂ ◌∷◌ (rw add-zero at (e 0 (omega arith))) (
    window-ext b c size n (h + 1) (λ i p.
      let shift : h + 1 + i ≡ h + suc i = omega arith in rw shift (e (suc i) (omega arith))))
