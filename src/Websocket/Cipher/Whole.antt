-- ===== src/Websocket/Cipher/Whole.antt =====
-- websocket/cipher.go: masking eight bytes at a time is masking byte by byte.
use connaxis.Prelude.{
  ℕ, zero, suc, ◌+◌, ◌-◌, ◌*◌, ◌/◌, ◌%◌, ◌≤◌, ◌<◌, ◌≡◌, refl, sym, ap, ap₂, ◌∙◌, inl, inr, [], ◌∷◌,
  ◌++◌, append_assoc, append-nil, Bytes, arith, ltb, Bool-cases,
}
use Prim.Native.Nat.{bit_xor}
use connaxis.Prelude.Lists.{
  length, take, drop, length-append, length-take, length-drop, take-append-drop,
}
use connaxis.Websocket.Cipher.{mask_at, xor_at, xor_bytes, xor_word, xor_words, remain, cipher}
use connaxis.Websocket.Cipher.Xor.{bit_xor_twice}

-- The masking of RFC 6455: byte by byte, with the mask's bytes in turn from position `k` on.
pub mask_from : ℕ × ℕ × ℕ × ℕ → ℕ → Bytes → Bytes
mask_from mask k [] = []
mask_from mask k (x ∷ xs) = bit_xor x (mask_at mask (k % 4)) ∷ mask_from mask (k + 1) xs

length-mask_from :
    (mask : ℕ × ℕ × ℕ × ℕ) (k : ℕ) (xs : Bytes) → length (mask_from mask k xs) ≡ length xs
unfolding mask_from
length-mask_from mask k [] = refl
length-mask_from mask k (x ∷ xs) = ap suc (length-mask_from mask (k + 1) xs)

-- Only the position in the mask counts.
mask_from-mod :
    (mask : ℕ × ℕ × ℕ × ℕ) (k j : ℕ) (xs : Bytes)
    → k % 4 ≡ j % 4
    → mask_from mask k xs ≡ mask_from mask j xs
unfolding mask_from
mask_from-mod mask k j [] e = refl
mask_from-mod mask k j (x ∷ xs) e =
    ap₂ (λ p q. bit_xor x (mask_at mask p) ∷ q) e
      (mask_from-mod mask (k + 1) (j + 1) xs (omega arith))

mask_from-append :
    (mask : ℕ × ℕ × ℕ × ℕ) (k : ℕ) (xs ys : Bytes)
    → mask_from mask k (xs ++ ys) ≡ mask_from mask k xs ++ mask_from mask (k + length xs) ys
unfolding mask_from
mask_from-append mask k [] ys = ap (λ j. mask_from mask j ys) (omega arith)
mask_from-append mask k (x ∷ xs) ys = ap (◌∷◌ (bit_xor x (mask_at mask (k % 4)))) (
    mask_from-append mask (k + 1) xs ys
    ∙ ap (λ j. mask_from mask (k + 1) xs ++ mask_from mask j ys) (omega arith))

-- `payload[i] ^= k` at a byte behind others.
xor_at-append :
    (pre : Bytes) (x : ℕ) (rest : Bytes) (key : ℕ)
    → xor_at (pre ++ x ∷ rest) (length pre) key ≡ pre ++ bit_xor x key ∷ rest
unfolding xor_at
xor_at-append [] x rest key = refl
xor_at-append (p ∷ pre) x rest key = ap (◌∷◌ p) (xor_at-append pre x rest key)

-- The same with the byte at the end of the front.
xor_at-step :
    (pre : Bytes) (x i : ℕ) (rest : Bytes) (key : ℕ)
    → i ≡ length pre
    → xor_at (pre ++ x ∷ rest) i key ≡ (pre ++ bit_xor x key ∷ []) ++ rest
xor_at-step pre x i rest key e =
    ap (λ j. xor_at (pre ++ x ∷ rest) j key) e
    ∙ xor_at-append pre x rest key
    ∙ sym (append_assoc pre (bit_xor x key ∷ []) rest)

module _ (mask : ℕ × ℕ × ℕ × ℕ) where
  -- The byte loop masks the bytes of its range.
  xor_bytes-mask_from :
      (offset i : ℕ) (pre mid post : Bytes)
      → i ≡ length pre
      → xor_bytes mask offset i (length mid) (pre ++ (mid ++ post))
        ≡ pre ++ (mask_from mask (offset + i) mid ++ post)
  unfolding xor_bytes mask_from
  xor_bytes-mask_from offset i pre [] post e = refl
  xor_bytes-mask_from offset i pre (x ∷ mid) post e =
      let key = mask_at mask ((offset + i) % 4) in
      let y = bit_xor x key in
      ap (xor_bytes mask offset (i + 1) (length mid)) (xor_at-step pre x i (mid ++ post) key e)
      ∙ xor_bytes-mask_from offset (i + 1) (pre ++ y ∷ []) mid post
          (omega (arith, length-append pre (y ∷ [])))
      ∙ append_assoc pre (y ∷ []) (mask_from mask (offset + (i + 1)) mid ++ post)
      ∙ ap (λ j. pre ++ (y ∷ (mask_from mask j mid ++ post))) (omega arith)

  -- So does a word, with the mask from its byte `j` on.
  xor_word-mask_from :
      (i j : ℕ) (pre mid post : Bytes)
      → i + j ≡ length pre
      → xor_word mask i j (length mid) (pre ++ (mid ++ post))
        ≡ pre ++ (mask_from mask j mid ++ post)
  unfolding xor_word mask_from
  xor_word-mask_from i j pre [] post e = refl
  xor_word-mask_from i j pre (x ∷ mid) post e =
      let key = mask_at mask (j % 4) in
      let y = bit_xor x key in
      ap (xor_word mask i (j + 1) (length mid)) (xor_at-step pre x (i + j) (mid ++ post) key e)
      ∙ xor_word-mask_from i (j + 1) (pre ++ y ∷ []) mid post
          (omega (arith, length-append pre (y ∷ [])))
      ∙ append_assoc pre (y ∷ []) (mask_from mask (j + 1) mid ++ post)

  -- A word of eight bytes, and then the words behind it.
  word_then :
      (n i : ℕ) (pre w ws post : Bytes)
      → i ≡ length pre
      → length w ≡ 8
      → xor_words mask (i + 8) n ((pre ++ mask_from mask 0 w) ++ (ws ++ post))
        ≡ (pre ++ mask_from mask 0 w) ++ (mask_from mask 0 ws ++ post)
      → xor_words mask (i + 8) n (xor_word mask i 0 8 (pre ++ ((w ++ ws) ++ post)))
        ≡ pre ++ (mask_from mask 0 (w ++ ws) ++ post)
  word_then n i pre w ws post e eight rest =
      ap (xor_words mask (i + 8) n) (
        ap (λ v. xor_word mask i 0 8 (pre ++ v)) (append_assoc w ws post)
        ∙ ap (λ k. xor_word mask i 0 k (pre ++ (w ++ (ws ++ post)))) (sym eight)
        ∙ xor_word-mask_from i 0 pre w (ws ++ post) (omega arith)
        ∙ sym (append_assoc pre (mask_from mask 0 w) (ws ++ post)))
      ∙ rest
      ∙ append_assoc pre (mask_from mask 0 w) (mask_from mask 0 ws ++ post)
      ∙ ap (◌++◌ pre) (
          sym (append_assoc (mask_from mask 0 w) (mask_from mask 0 ws) post)
          ∙ ap (λ v. v ++ post)
              (ap (◌++◌ (mask_from mask 0 w)) (mask_from-mod mask 0 (0 + length w) ws (omega arith))
                ∙ sym (mask_from-append mask 0 w ws)))

  -- And the loop over words.
  xor_words-mask_from :
      (n i : ℕ) (pre mid post : Bytes)
      → i ≡ length pre
      → length mid ≡ n * 8
      → xor_words mask i n (pre ++ (mid ++ post)) ≡ pre ++ (mask_from mask 0 mid ++ post)
  unfolding xor_words mask_from
  xor_words-mask_from zero i pre [] post e len = refl
  xor_words-mask_from zero i pre (x ∷ mid) post e len = absurd (omega arith)
  xor_words-mask_from (suc n) i pre mid post e len =
      let w = take 8 mid in
      let ws = drop 8 mid in
      ap (λ v. xor_words mask i (suc n) (pre ++ (v ++ post))) (sym (take-append-drop 8 mid))
      ∙ word_then n i pre w ws post e (omega (arith, length-take 8 mid)) (
          xor_words-mask_from n (i + 8) (pre ++ mask_from mask 0 w) ws post
            (omega (
              arith,
              length-append pre (mask_from mask 0 w),
              length-mask_from mask 0 w,
              length-take 8 mid,
            ))
            (omega (arith, length-drop 8 mid)))
      ∙ ap (λ v. pre ++ (mask_from mask 0 v ++ post)) (take-append-drop 8 mid)

  -- The three ranges of a payload, one after the other.
  ranges-mask_from :
      (mpos m : ℕ) (a w t : Bytes)
      → (mpos + length a) % 4 ≡ 0
      → length w ≡ m * 8
      → xor_words mask (length a) m (
          xor_bytes mask mpos
            (length a + length w)
            (length t)
            (xor_bytes mask mpos 0 (length a) (a ++ (w ++ t))))
        ≡ mask_from mask mpos (a ++ (w ++ t))
  ranges-mask_from mpos m a w t aligned words =
      ap (λ v. xor_words mask la m (xor_bytes mask mpos (la + lw) (length t) v)) front
      ∙ ap (xor_words mask la m) back
      ∙ xor_words-mask_from m la front_bytes w back_bytes (sym (length-mask_from mask mpos a)) words
      ∙ ap (◌++◌ front_bytes) (
          ap₂ ◌++◌ (mask_from-mod mask 0 (mpos + la) w (sym aligned))
            (ap (λ k. mask_from mask k t) {x = mpos + (la + lw)} {y = mpos + la + lw} (omega arith))
          ∙ sym (mask_from-append mask (mpos + la) w t))
      ∙ sym (mask_from-append mask mpos a (w ++ t))
    where
      la : ℕ
      la = length a

      lw : ℕ
      lw = length w

      front_bytes : Bytes
      front_bytes = mask_from mask mpos a

      back_bytes : Bytes
      back_bytes = mask_from mask (mpos + (la + lw)) t

      front : xor_bytes mask mpos 0 la (a ++ (w ++ t)) ≡ front_bytes ++ (w ++ t)
      front =
          xor_bytes-mask_from mpos 0 [] a (w ++ t) refl
          ∙ ap (λ k. mask_from mask k a ++ (w ++ t)) {x = mpos + 0} {y = mpos} (omega arith)

      back :
          xor_bytes mask mpos (la + lw) (length t) (front_bytes ++ (w ++ t))
          ≡ front_bytes ++ (w ++ back_bytes)
      back =
          ap (xor_bytes mask mpos (la + lw) (length t))
            (sym (append_assoc front_bytes w t) ∙ ap (◌++◌ (front_bytes ++ w)) (sym (append-nil t)))
          ∙ xor_bytes-mask_from mpos (la + lw) (front_bytes ++ w) t []
              (omega (arith, length-append front_bytes w, length-mask_from mask mpos a))
          ∙ ap (◌++◌ (front_bytes ++ w)) (append-nil back_bytes)
          ∙ append_assoc front_bytes w back_bytes

-- The front ends where the mask begins again.
remain_lem : (mpos : ℕ) → mpos < 4 → ((mpos + remain mpos) % 4 ≡ 0) × (remain mpos ≤ 3)
unfolding remain
remain_lem zero h = (omega arith, omega arith)
remain_lem (suc zero) h = (omega arith, omega arith)
remain_lem (suc (suc zero)) h = (omega arith, omega arith)
remain_lem (suc (suc (suc zero))) h = (omega arith, omega arith)
remain_lem (suc (suc (suc (suc m)))) h = absurd (omega arith)

module _ (mask : ℕ × ℕ × ℕ × ℕ) where
  -- A payload cut at the end of its front and at the start of its end.
  ranges :
      (mpos ln m rn : ℕ) (payload : Bytes)
      → length payload ≡ ln + m * 8 + rn
      → (mpos + ln) % 4 ≡ 0
      → xor_words mask ln m (xor_bytes mask mpos (ln + m * 8) rn (xor_bytes mask mpos 0 ln payload))
        ≡ mask_from mask mpos payload
  ranges mpos ln m rn payload len aligned =
      ap (λ v. whole ln (ln + m * 8) rn v) (sym cut)
      ∙ ap₂ (λ p q. whole p q rn (a ++ (w ++ t))) (sym la) (omega (arith, la, lw))
      ∙ ap (λ k. whole (length a) (length a + length w) k (a ++ (w ++ t))) (sym lt)
      ∙ ranges-mask_from mask mpos m a w t (omega (arith, la)) lw
      ∙ ap (mask_from mask mpos) cut
    where
      whole : ℕ → ℕ → ℕ → Bytes → Bytes
      whole p q r v = xor_words mask p m (xor_bytes mask mpos q r (xor_bytes mask mpos 0 p v))

      a : Bytes
      a = take ln payload

      w : Bytes
      w = take (m * 8) (drop ln payload)

      t : Bytes
      t = drop (m * 8) (drop ln payload)

      la : length a ≡ ln
      la = omega (arith, length-take ln payload)

      lw : length w ≡ m * 8
      lw = omega (arith, length-take (m * 8) (drop ln payload), length-drop ln payload)

      lt : length t ≡ rn
      lt = omega (arith, length-drop (m * 8) (drop ln payload), length-drop ln payload)

      cut : a ++ (w ++ t) ≡ payload
      cut = ap (◌++◌ a) (take-append-drop (m * 8) (drop ln payload)) ∙ take-append-drop ln payload

  -- Masking a payload, by words where it is long, is masking it byte by byte from the offset on.
  pub cipher-mask_from :
      (payload : Bytes) (offset : ℕ) → cipher payload mask offset ≡ mask_from mask offset payload
  unfolding cipher
  cipher-mask_from payload offset = elim (Bool-cases (ltb (length payload) 8)) [
    | inl short ↦
        rw (short, cipher)
          (ap (xor_bytes mask offset 0 (length payload)) (sym (append-nil payload))
            ∙ xor_bytes-mask_from mask offset 0 [] payload [] refl
            ∙ append-nil (mask_from mask (offset + 0) payload)
            ∙ ap (λ k. mask_from mask k payload) {x = offset + 0} {y = offset} (omega arith))
    | inr long ↦
        let (aligned, few) = remain_lem (offset % 4) (omega arith) in
        let n = length payload in
        let ln = remain (offset % 4) in
        let rn = (n - ln) % 8 in
        let at_least : 8 ≤ n = ground arith in
        rw (long, cipher)
          (ap
              (λ k.
                xor_words mask ln ((n - ln - rn) / 8)
                  (xor_bytes mask (offset % 4) k rn (xor_bytes mask (offset % 4) 0 ln payload)))
              {x = n - rn} {y = ln + (n - ln - rn) / 8 * 8} (omega arith)
            ∙ ranges (offset % 4) ln ((n - ln - rn) / 8) rn payload (omega arith) aligned
            ∙ mask_from-mod mask (offset % 4) offset payload (omega arith))
  ]

  mask_from_twice : (k : ℕ) (xs : Bytes) → mask_from mask k (mask_from mask k xs) ≡ xs
  unfolding mask_from
  mask_from_twice k [] = refl
  mask_from_twice k (x ∷ xs) =
      ap₂ ◌∷◌ (bit_xor_twice x (mask_at mask (k % 4))) (mask_from_twice (k + 1) xs)

  -- Masking in two chunks, the second with the length of the first added to the offset, and then unmasking
  -- the whole gives the payload back.
  pub cipher-cipher :
      (xs ys : Bytes) (offset : ℕ)
      → cipher (cipher xs mask offset ++ cipher ys mask (offset + length xs)) mask offset ≡ xs ++ ys
  cipher-cipher xs ys offset =
      ap (λ v. cipher v mask offset)
        (ap₂ ◌++◌ (cipher-mask_from xs offset) (cipher-mask_from ys (offset + length xs))
          ∙ sym (mask_from-append mask offset xs ys))
      ∙ cipher-mask_from (mask_from mask offset (xs ++ ys)) offset
      ∙ mask_from_twice offset (xs ++ ys)
