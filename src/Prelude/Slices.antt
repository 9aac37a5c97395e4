-- ===== src/Prelude/Slices.antt =====
-- Go's byte slices and `copy`. A byte is a number; a slice is the list of its bytes.
use Prim.Native.Nat.{ℕ, ◌+◌, ◌-◌, ◌≤◌, ◌<◌}
use mathlib.Core.Path.{◌≡◌, ap, ◌∙◌}
use mathlib.Core.List.{List, ◌++◌, append-nil}
use native.Mathlib.Omega.{arith}
use connaxis.Prelude.Lists.{
  length, get_or, take, drop, length-append, length-take, length-drop, take-all, drop-all,
  take-append_le, drop-append_ge, get_or-append_left, get_or-append_right, get_or-take, get_or-drop,
}

abbrev pub Bytes : Type 0
Bytes = List ℕ

-- `xs[i:j]`
abbrev pub slice : Bytes → ℕ → ℕ → Bytes
slice xs i j = take (j - i) (drop i xs)

-- `copy(dst, src)`: the destination afterwards. The shorter of the two lengths is copied.
unfoldable pub copy {ℓ} : {A : Type ℓ} → List A → List A → List A
copy dst src = take (length dst) src ++ drop (length src) dst

-- `copy(dst[i:], src)`
unfoldable pub copy_at : Bytes → ℕ → Bytes → Bytes
copy_at dst i src = take i dst ++ copy (drop i dst) src

pub length-copy : (dst src : Bytes) → length (copy dst src) ≡ length dst
unfolding copy
length-copy dst src = omega (
  arith,
  length-append (take (length dst) src) (drop (length src) dst),
  length-take (length dst) src,
  length-drop (length src) dst,
)

pub length-copy_at : (dst : Bytes) (i : ℕ) (src : Bytes) → length (copy_at dst i src) ≡ length dst
unfolding copy_at
length-copy_at dst i src = omega (
  arith,
  length-append (take i dst) (copy (drop i dst) src),
  length-copy (drop i dst) src,
  length-take i dst,
  length-drop i dst,
)

pub length-slice : (xs : Bytes) (i j : ℕ) → i ≤ j → j ≤ length xs → length (slice xs i j) ≡ j - i
length-slice xs i j h k = omega (arith, length-take (j - i) (drop i xs), length-drop i xs)

pub slice-zero : (xs : Bytes) (n : ℕ) → slice xs 0 n ≡ take n xs
slice-zero xs n = ap (λ k. take k xs) {x = n - 0} (omega arith)

-- A source that fits is at the front afterwards.
pub take-copy {ℓ} :
    {A : Type ℓ} (dst src : List A)
    → length src ≤ length dst
    → take (length src) (copy dst src) ≡ src
unfolding copy
take-copy dst src h = rw (take-all (length dst) src h) (
    take-append_le (length src) src (drop (length src) dst) (omega arith)
    ∙ take-all (length src) src (omega arith))

pub copy-eq-append {ℓ} :
    {A : Type ℓ} (dst src : List A)
    → length src ≤ length dst
    → copy dst src ≡ src ++ drop (length src) dst
unfolding copy
copy-eq-append dst src h = rw (take-all (length dst) src h)

pub copy-exact : (dst src : Bytes) → length src ≡ length dst → copy dst src ≡ src
copy-exact dst src h =
    copy-eq-append dst src (omega arith)
    ∙ rw (drop-all (length src) dst (omega arith)) (append-nil src)

module _ (dst : Bytes) (i : ℕ) (src : Bytes) where
  pub slice-copy_at :
      i + length src ≤ length dst → slice (copy_at dst i src) i (i + length src) ≡ src
  unfolding copy_at
  slice-copy_at h =
      rw (drop-front, span, take-copy (drop i dst) src (omega (arith, length-drop i dst)))
    where
      span : i + length src - i ≡ length src
      span = omega arith

      drop-front : drop i (take i dst ++ copy (drop i dst) src) ≡ copy (drop i dst) src
      drop-front =
          drop-append_ge i (take i dst) (copy (drop i dst) src) (omega (arith, length-take i dst))
          ∙ ap (λ k. drop k (copy (drop i dst) src)) {y = 0} (omega (arith, length-take i dst))

  pub get_or-copy_at_before :
      (j d : ℕ) → j < i → i ≤ length dst → get_or (copy_at dst i src) j d ≡ get_or dst j d
  unfolding copy_at
  get_or-copy_at_before j d h k =
      get_or-append_left (take i dst) (copy (drop i dst) src) j d (omega (arith, length-take i dst))
      ∙ get_or-take i dst j d h

  pub get_or-copy_at_after :
      (j d : ℕ)
      → i + length src ≤ j
      → i + length src ≤ length dst
      → get_or (copy_at dst i src) j d ≡ get_or dst j d
  unfolding copy_at
  get_or-copy_at_after j d h k = skip_front ∙ skip_source ∙ rest
    where
      inner : copy (drop i dst) src ≡ src ++ drop (length src) (drop i dst)
      inner = copy-eq-append (drop i dst) src (omega (arith, length-drop i dst))

      skip_front :
          get_or (take i dst ++ copy (drop i dst) src) j d
          ≡ get_or (copy (drop i dst) src) (j - i) d
      skip_front =
          get_or-append_right (take i dst) (copy (drop i dst) src) j d
            (omega (arith, length-take i dst))
          ∙ ap (λ k. get_or (copy (drop i dst) src) k d) (omega (arith, length-take i dst))

      skip_source :
          get_or (copy (drop i dst) src) (j - i) d
          ≡ get_or (drop (length src) (drop i dst)) (j - i - length src) d
      skip_source =
          rw inner
            (get_or-append_right src (drop (length src) (drop i dst)) (j - i) d (omega arith))

      rest : get_or (drop (length src) (drop i dst)) (j - i - length src) d ≡ get_or dst j d
      rest =
          get_or-drop (length src) (drop i dst) (j - i - length src) d
          ∙ get_or-drop i dst (length src + (j - i - length src)) d
          ∙ ap (λ k. get_or dst k d) (omega arith)

  -- Inside the copied part the source shows.
  pub get_or-copy_at_in :
      (k d : ℕ)
      → k < length src
      → i + k < length dst
      → get_or (copy_at dst i src) (i + k) d ≡ get_or src k d
  unfolding copy_at copy
  get_or-copy_at_in k d h room =
      get_or-append_right (take i dst) (copy (drop i dst) src) (i + k) d
        (omega (arith, length-take i dst))
      ∙ ap (λ j. get_or (copy (drop i dst) src) j d) {y = k} (omega (arith, length-take i dst))
      ∙ get_or-append_left (take (length (drop i dst)) src) (drop (length src) (drop i dst)) k d
          (omega (arith, length-drop i dst, length-take (length (drop i dst)) src))
      ∙ get_or-take (length (drop i dst)) src k d (omega (arith, length-drop i dst))
