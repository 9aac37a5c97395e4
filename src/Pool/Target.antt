-- ===== src/Pool/Target.antt =====
-- The size class that `Get` chooses: it exists, it is large enough, and it wastes at most half.
use Prim.Native.Nat.{bit_and}
use native.Mathlib.Nat.{pow-suc}
use native.Mathlib.Numerals.{add-one}
use connaxis.Prelude.{
  ℕ, zero, suc, ◌+◌, ◌-◌, ◌*◌, ◌^◌, ◌≤◌, ◌<◌, ◌≡◌, refl, ◌∙◌, ◌⊎◌, inl, inr, Bool-cases, ltb, leb,
  ◌==◌, ltb→lt, ltb→le, leb→le, leb→lt, ==→eq, arith,
}
use connaxis.Prelude.Bits.{power_of_two, pow-pos}
use connaxis.Pool.{BytesAlloctor, search_class, target_size}

pub kilo_power : (i : ℕ) → 2 ^ (i + 10) ≡ 2 ^ i * 1024
kilo_power zero = refl
kilo_power (suc i) =
    let shift : suc i + 10 ≡ suc (i + 10) = omega arith in
    rw shift (omega (arith, pow-suc 2 i, pow-suc 2 (i + 10), kilo_power i))

pub pow_reflects_le : (k m : ℕ) → 2 ^ k ≤ 2 ^ m → k ≤ m
pow_reflects_le zero m h = omega arith
pow_reflects_le (suc k) zero h = absurd (omega (arith, pow-suc 2 k, pow-pos k))
pow_reflects_le (suc k) (suc m) h =
    omega (
      arith,
      pow-suc 2 k,
      pow-suc 2 m,
      pow_reflects_le k m (omega (arith, pow-suc 2 k, pow-suc 2 m)),
    )

-- `t` is the class of a request of `size` bytes among `rank` classes.
pub record Fits (rank size t : ℕ) : Type 0 where
  pub index : ℕ
  pub index_in : index < rank
  pub class_size : t ≡ 2 ^ index * 1024
  pub enough : size ≤ t
  pub tight : (t ≡ 1024) ⊎ (t < 2 * size)

-- The largest class holds the request, so the loop does not run past it.
last_class :
    (n i size rank : ℕ)
    → i + suc n ≡ rank
    → size ≤ 2 ^ (rank - 1) * 1024
    → 2 ^ i * 1024 < size
    → 0 < n
last_class zero i size rank e h more =
    let at_end : rank - 1 ≡ i = omega arith in let bound = rw at_end at h in absurd (omega arith)
last_class (suc n) i size rank e h more = omega arith

search_class-Fits :
    (n i size target rank : ℕ)
    → i + n ≡ rank
    → 0 < n
    → size ≤ 2 ^ (rank - 1) * 1024
    → (2 ^ i * 1024 < 2 * size) ⊎ (i ≡ 0)
    → Fits rank size (search_class n i 1024 size target)
unfolding search_class
search_class-Fits zero i size target rank e p h low = absurd (omega arith)
search_class-Fits (suc n) i size target rank e p h low =
    elim (Bool-cases (leb size (2 ^ i * 1024))) [
      | inl fits ↦
          rw (fits, search_class)
            (record {
              index = i;
              index_in = omega arith;
              class_size = refl;
              enough = leb→le size _ fits;
              tight = elim low [ inl lt ↦ inr lt | inr start ↦ inl (rw start) ];
            })
      | inr small ↦
          let more = leb→lt size _ small in
          let next : 2 ^ (i + 1) ≡ 2 * 2 ^ i = rw add-one (omega (arith, pow-suc 2 i)) in
          rw (small, search_class)
            (search_class-Fits n (i + 1) size _ rank (omega arith)
              (last_class n i size rank e h more) h (inl (rw next (omega arith))))
    ]

target_size-Fits_power :
    (rank size k : ℕ)
    → 0 < rank
    → size ≤ 2 ^ (rank - 1) * 1024
    → 1024 < size
    → size ≡ 2 ^ k
    → Fits rank size size
target_size-Fits_power rank size k p h big e = record {
  index = k - 10;
  index_in =
      omega (arith, pow_reflects_le k (rank - 1 + 10) (omega (arith, kilo_power (rank - 1))));
  class_size =
      let split : k - 10 + 10 ≡ k = omega (arith, above) in e ∙ (rw split at (kilo_power (k - 10)));
  enough = omega arith;
  tight = inr (omega arith);
}
  where
    above : 10 ≤ k
    above = pow_reflects_le 10 k (omega arith)

-- The class that `Get` asks for, for any size up to the largest class.
pub target_size-Fits :
    (a : BytesAlloctor) (size : ℕ)
    → a.step ≡ 1024
    → 0 < a.rank
    → size ≤ 2 ^ (a.rank - 1) * 1024
    → Fits a.rank size (target_size a size)
unfolding target_size
target_size-Fits a size st p h = elim (Bool-cases (ltb 1024 size)) [
  | inr small ↦
      rw (st, small, target_size)
        (record {
          index = 0;
          index_in = p;
          class_size = refl;
          enough = ltb→le 1024 size small;
          tight = inl refl;
        })
  | inl big ↦ elim (Bool-cases (bit_and size (size - 1) == 0)) [
    | inl power ↦
        let above = ltb→lt 1024 size big in
        let (k, e) = power_of_two size (omega arith) (==→eq _ 0 power) in
        rw (st, big, target_size, power) (target_size-Fits_power a.rank size k p h above e)
    | inr other ↦
        rw (st, big, target_size, other)
          (search_class-Fits a.rank 0 size 1024 a.rank (omega arith) p h (inr refl))
  ]
]
