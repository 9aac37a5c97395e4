-- ===== src/Pool/Reuse.antt =====
-- A buffer that goes back to the pool comes out again: `Put` and `Get` agree on the size class.
use native.Mathlib.Nat.{pow-suc}
use connaxis.Prelude.{
  ℕ, zero, suc, ◌+◌, ◌-◌, ◌*◌, ◌^◌, ◌≤◌, ◌<◌, ◌≡◌, sym, ◌∙◌, inl, inr, false, Option, some, List,
  ◌∷◌, Bytes, ◌==◌, Bool-cases, ge→ltb, ==→eq, arith,
}
use connaxis.Prelude.Lists.{length}
use connaxis.Prelude.Bits.{pow-pos, bit_and_power}
use connaxis.Pool.{
  BytesAlloctor, store, target_size, next_picks, pick_at, pool_get, get, is_dropped, put,
}
use connaxis.Pool.Valid.{IsValid}
use connaxis.Pool.Target.{Fits, target_size-Fits, kilo_power, pow_reflects_le}

pow_mono : (k m : ℕ) → k ≤ m → 2 ^ k ≤ 2 ^ m
pow_mono zero m h = pow-pos m
pow_mono (suc k) zero h = absurd (omega arith)
pow_mono (suc k) (suc m) h = omega (arith, pow-suc 2 k, pow-suc 2 m, pow_mono k m (omega arith))

-- The tightest class above a class size is that class.
Fits-exact : (rank i size t : ℕ) → size ≡ 2 ^ i * 1024 → Fits rank size t → t ≡ size
Fits-exact rank i size t e f = elim f.tight [
  | inl least ↦ omega (arith, f.enough, pow-pos i)
  | inr tight ↦
      let lower = pow_reflects_le i f.index (omega (arith, f.enough, f.class_size)) in
      let upper : ¬ (suc i ≤ f.index) =
        λ h. omega (arith, pow_mono (suc i) f.index h, pow-suc 2 i, f.class_size, tight) in
      let same : f.index ≡ i = omega arith in (rw same at f.class_size) ∙ sym e
]

class_kept :
    (a : BytesAlloctor) (i : ℕ) → IsValid a → i < a.rank → is_dropped (2 ^ i * 1024) a ≡ false
unfolding is_dropped
class_kept a i v h =
    let small : 2 ^ i * 1024 ≤ a.max =
      omega (arith, v.max_is, pow_mono i (a.rank - 1) (omega arith)) in
    let power = rw kilo_power at (bit_and_power (i + 10)) in
    rw (ge→ltb a.max _ small, power) (ground (arith, pow-pos i))

put_kept :
    (a : BytesAlloctor) (b : Bytes) (bufs : List Bytes)
    → is_dropped (length b) a ≡ false
    → a.allocor_map (length b) ≡ some bufs
    → put b a ≡ record a { allocor_map = store (length b) (b ∷ bufs) a.allocor_map }
unfolding put
put_kept a b bufs kept found = rw (kept, put, found)

store_self : (k : ℕ) (bs : List Bytes) (m : ℕ → Option (List Bytes)) → store k bs m k ≡ some bs
unfolding store
store_self k bs m = ground arith

store_back :
    (k : ℕ) (bs cs : List Bytes) (m : ℕ → Option (List Bytes)) (j : ℕ)
    → m k ≡ some bs
    → store k bs (store k cs m) j ≡ m j
unfolding store
store_back k bs cs m j e = elim (Bool-cases (j == k)) [
  | inl same ↦ rw same (rw (==→eq j k same) (sym e))
  | inr other ↦ rw other
]

get_newest :
    (a : BytesAlloctor) (i : ℕ) (b : Bytes) (picks : List ℕ) (bufs : List Bytes)
    → IsValid a
    → i < a.rank
    → length b ≡ 2 ^ i * 1024
    → a.picks ≡ 0 ∷ picks
    → a.allocor_map (length b) ≡ some bufs
    → (a' : BytesAlloctor) × (get
          (length b)
          (record a { allocor_map = store (length b) (b ∷ bufs) a.allocor_map })
        ≡ some (some b, a'))
      × ((k : ℕ) → a'.allocor_map k ≡ a.allocor_map k)
unfolding get pool_get pick_at next_picks
get_newest a i b picks bufs v h e p found =
    let small : 2 ^ i * 1024 ≤ a.max =
      omega (arith, v.max_is, pow_mono i (a.rank - 1) (omega arith)) in
    let put_in = record a { allocor_map = store (length b) (b ∷ bufs) a.allocor_map } in
    let fits = target_size-Fits put_in (length b) v.step_is v.rank_pos (omega (arith, v.max_is)) in
    let exact : target_size put_in (length b) ≡ length b =
      Fits-exact a.rank i (length b) _ e fits in
    (
      record put_in {
        allocor_map = store (length b) bufs (store (length b) (b ∷ bufs) a.allocor_map);
        picks = picks;
      },
      rw (
        ge→ltb a.max (length b) (omega arith),
        exact,
        store_self (length b) (b ∷ bufs) a.allocor_map,
        p,
        rw p at exact,
        next_picks,
      ),
      λ k. store_back (length b) bufs (b ∷ bufs) a.allocor_map k found,
    )

-- After `Put` of a buffer of a class size, a `Get` of that size whose schedule picks the newest
-- buffer returns it, and the classes hold what they held before.
pub get-put :
    (a : BytesAlloctor) (i : ℕ) (b : Bytes) (picks : List ℕ)
    → IsValid a
    → i < a.rank
    → length b ≡ 2 ^ i * 1024
    → a.picks ≡ 0 ∷ picks
    → (a' : BytesAlloctor) × (get (length b) (put b a) ≡ some (some b, a'))
      × ((k : ℕ) → a'.allocor_map k ≡ a.allocor_map k)
get-put a i b picks v h e p =
    let (bufs, found) = v.present i h in
    let found' : a.allocor_map (length b) ≡ some bufs = rw e found in
    let kept : is_dropped (length b) a ≡ false = rw e (class_kept a i v h) in
    rw (put_kept a b bufs kept found') (get_newest a i b picks bufs v h e p found')
