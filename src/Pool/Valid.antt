-- ===== src/Pool/Valid.antt =====
-- The invariant of `BytesAlloctor`: every class is there, and holds buffers of its own size only.
-- With it `Get` does not panic and hands out buffers that fit; the allocator fills `Alloc.Allocator`.
use connaxis.Prelude.{
  ℕ, zero, suc, ◌+◌, ◌-◌, ◌*◌, ◌^◌, ◌≤◌, ◌<◌, ◌≡◌, refl, ap, subst, inl, inr, Option, none, some,
  List, [], ◌∷◌, Bytes, ltb, ◌==◌, Bool-cases, Option-cases, ltb→lt, ltb→le, lt→ltb, ge→ltb, ==→eq,
  arith,
}
use connaxis.Prelude.Lists.{length, length-replicate}
use connaxis.Alloc.{Allocator}
use connaxis.Pool.{
  BytesAlloctor, store, initialize_from, initialize, setup, target_size, pick_at, pool_get,
  next_picks, get, is_dropped, put,
}
use connaxis.Pool.Target.{Fits, target_size-Fits}

-- All buffers have `k` bytes.
abbrev pub Sized : ℕ → List Bytes → Type 0
Sized k [] = Unit {0}
Sized k (b ∷ bs) = (length b ≡ k) × Sized k bs

abbrev pub AllSized : (ℕ → Option (List Bytes)) → Type 0
AllSized m = (k : ℕ) (bs : List Bytes) → m k ≡ some bs → Sized k bs

abbrev pub Present : ℕ → (ℕ → Option (List Bytes)) → Type 0
Present n m = (i : ℕ) → i < n → (bs : List Bytes) × (m (2 ^ i * 1024) ≡ some bs)

pub record IsValid (a : BytesAlloctor) : Type 0 where
  pub step_is : a.step ≡ 1024
  pub rank_pos : 0 < a.rank
  pub max_is : a.max ≡ 2 ^ (a.rank - 1) * 1024
  pub present : Present a.rank a.allocor_map
  pub sized : AllSized a.allocor_map

store-AllSized :
    (k : ℕ) (bs : List Bytes) (m : ℕ → Option (List Bytes))
    → Sized k bs
    → AllSized m
    → AllSized (store k bs m)
unfolding store
store-AllSized k bs m s h j cs e = elim (Bool-cases (j == k)) [
  | inl same ↦
      let eq = ==→eq j k same in
      let found : some bs ≡ some cs = rw same at e in
      let same_list : bs ≡ cs = cc in rw eq (subst (Sized k) same_list s)
  | inr other ↦ h j cs (rw other at e)
]

store-Present :
    (k : ℕ) (bs : List Bytes) (n : ℕ) (m : ℕ → Option (List Bytes))
    → Present n m
    → Present n (store k bs m)
unfolding store
store-Present k bs n m h i lt = elim (Bool-cases (2 ^ i * 1024 == k)) [
  | inl same ↦ (bs, rw same)
  | inr other ↦ ((h i lt).0, rw other (h i lt).1)
]

-- What the loop of `initialize` has done before index `i`.
record Filled (i rank : ℕ) (a : BytesAlloctor) : Type 0 where
  step_is : a.step ≡ 1024
  rank_is : a.rank ≡ rank
  max_is : 0 < i → a.max ≡ 2 ^ (i - 1) * 1024
  present : Present i a.allocor_map
  sized : AllSized a.allocor_map

store_next :
    (i : ℕ) (m : ℕ → Option (List Bytes))
    → Present i m
    → Present (i + 1) (store (2 ^ i * 1024) [] m)
unfolding store
store_next i m h j lt = elim (Bool-cases (2 ^ j * 1024 == 2 ^ i * 1024)) [
  | inl same ↦ ([], rw same)
  | inr other ↦ let earlier : j < i = ground arith in ((h j earlier).0, rw other (h j earlier).1)
]

initialize_from-Filled :
    (n i rank : ℕ) (a : BytesAlloctor)
    → i + n ≡ rank
    → Filled i rank a
    → Filled rank rank (initialize_from n i a)
unfolding initialize_from
initialize_from-Filled zero i rank a e f =
    let at_end : i ≡ rank = omega arith in subst (λ k. Filled k rank a) at_end f
initialize_from-Filled (suc n) i rank a e f =
    initialize_from-Filled n (i + 1) rank _ (omega arith) (record {
      step_is = f.step_is;
      rank_is = f.rank_is;
      max_is = λ p. rw f.step_is (ap (λ k. 2 ^ k * 1024) (omega arith));
      present = rw f.step_is (store_next i a.allocor_map f.present);
      sized = store-AllSized _ [] a.allocor_map tt f.sized;
    })

abbrev unset : ℕ → List ℕ → BytesAlloctor
unset rank picks = record {
  step = 1024;
  rank = rank;
  max = 0;
  allocor_map = λ k. none;
  picks = picks;
}

initialize_from-unset :
    (rank : ℕ) (picks : List ℕ) → Filled rank rank (initialize_from rank 0 (unset rank picks))
initialize_from-unset rank picks =
    initialize_from-Filled rank 0 rank (unset rank picks) (omega arith) (record {
      step_is = refl;
      rank_is = refl;
      max_is = λ h. absurd (omega arith);
      present = λ i h. absurd (omega arith);
      sized = λ k bs e. absurd (cc);
    })

-- `Setup` with at least one class gives a valid allocator.
pub setup-IsValid :
    (rank : ℕ) (picks : List ℕ)
    → 0 < rank
    → (a : BytesAlloctor) × (setup rank picks ≡ some a) × IsValid a × (a.rank ≡ rank)
unfolding setup initialize
setup-IsValid rank picks p =
    let done = initialize_from-unset rank picks in
    (
      initialize_from rank 0 (unset rank picks),
      refl,
      record {
        step_is = done.step_is;
        rank_pos = omega (arith, done.rank_is);
        max_is = rw done.rank_is (done.max_is p);
        present = rw done.rank_is done.present;
        sized = done.sized;
      },
      done.rank_is,
    )

pick_at-Sized :
    (k i : ℕ) (bs : List Bytes) {b : Bytes} {rest : List Bytes}
    → Sized k bs
    → pick_at i bs ≡ some (b, rest)
    → (length b ≡ k) × Sized k rest
unfolding pick_at
pick_at-Sized k zero [] s e = absurd (cc)
pick_at-Sized k (suc i) [] s e = absurd (cc)
pick_at-Sized k zero (c ∷ cs) s e = ground arith
pick_at-Sized k (suc i) (c ∷ cs) {b} {rest} s e = elim (Option-cases (pick_at i cs)) [
  | inl missing ↦ absurd (ground arith)
  | inr ((d, ds), found) ↦
      let ih = pick_at-Sized k i cs {b = d} {rest = ds} s.1 found in ground arith
]

-- Whatever the schedule picks, the buffer has the size of its class.
pool_get-Sized :
    (picks : List ℕ) (k : ℕ) (bs : List Bytes)
    → Sized k bs
    → (length (pool_get picks k bs).0 ≡ k) × Sized k (pool_get picks k bs).1
unfolding pool_get
pool_get-Sized [] k bs s = (length-replicate k 0, s)
pool_get-Sized (i ∷ picks) k bs s = elim (Option-cases (pick_at i bs)) [
  | inl missing ↦ rw (missing, pool_get) (length-replicate k 0, s)
  | inr ((b, rest), found) ↦ rw (found, pool_get) (pick_at-Sized k i bs s found)
]

-- In a valid allocator, `Get` of a size up to the largest class does not panic, keeps it valid, and
-- hands out a buffer whose length is a class, at least the size, and the smallest class or less than
-- twice the size.
pub get-Fits :
    (n : ℕ) (a : BytesAlloctor)
    → IsValid a
    → n ≤ a.max
    → (b : Bytes) × (a' : BytesAlloctor) × (get n a ≡ some (some b, a'))
      × IsValid a'
      × Fits a.rank n (length b)
unfolding get
get-Fits n a v h =
    let fits = target_size-Fits a n v.step_is v.rank_pos (rw v.max_is at h) in
    let (bufs, found) = v.present fits.index fits.index_in in
    let found' : a.allocor_map (target_size a n) ≡ some bufs = rw fits.class_size found in
    let sized = pool_get-Sized a.picks (target_size a n) bufs (v.sized _ bufs found') in
    (
      (pool_get a.picks (target_size a n) bufs).0,
      record a {
        allocor_map =
            store (target_size a n) (pool_get a.picks (target_size a n) bufs).1 a.allocor_map;
        picks = next_picks a.picks;
      },
      rw (ge→ltb a.max n h, found') refl,
      record {
        step_is = v.step_is;
        rank_pos = v.rank_pos;
        max_is = v.max_is;
        present = store-Present _ _ a.rank a.allocor_map v.present;
        sized = store-AllSized _ _ a.allocor_map sized.1 v.sized;
      },
      rw sized.0 fits,
    )

pub get_too_large : (n : ℕ) (a : BytesAlloctor) → a.max < n → get n a ≡ some (none, a)
unfolding get
get_too_large n a h = rw (lt→ltb a.max n h)

-- `Put` keeps the invariant: a buffer goes to the class of its length, or is dropped.
pub put-IsValid : (b : Bytes) (a : BytesAlloctor) → IsValid a → IsValid (put b a)
unfolding put
put-IsValid b a v = elim (Bool-cases (is_dropped (length b) a)) [
  | inl drops ↦ rw (drops, put) v
  | inr keeps ↦ elim (Option-cases (a.allocor_map (length b))) [
    | inl missing ↦ rw (keeps, put, missing) v
    | inr (bufs, found) ↦
        rw (keeps, put, found)
          (record {
            step_is = v.step_is;
            rank_pos = v.rank_pos;
            max_is = v.max_is;
            present = store-Present _ _ a.rank a.allocor_map v.present;
            sized = store-AllSized _ (b ∷ bufs) a.allocor_map (refl, v.sized _ bufs found) v.sized;
          })
  ]
]

pub pool_get_lem :
    (n : ℕ) (a : BytesAlloctor)
    → IsValid a
    → (o : Option Bytes) × (a' : BytesAlloctor) × (get n a ≡ some (o, a'))
      × IsValid a'
      × ((b : Bytes) → o ≡ some b → n ≤ length b)
pool_get_lem n a v = elim (Bool-cases (ltb a.max n)) [
  | inl large ↦ (none, a, get_too_large n a (ltb→lt a.max n large), v, λ b e. absurd (cc))
  | inr fits ↦
      let (b, a', e, v', f) = get-Fits n a v (ltb→le a.max n fits) in
      (some b, a', e, v', λ c same. let e' : b ≡ c = cc in subst (λ d. n ≤ length d) e' f.enough)
]

-- The implementation fills the interface that the buffers are written against.
abbrev pub pool_allocator : Allocator
pool_allocator = record {
  State = BytesAlloctor;
  get = get;
  put = put;
  IsValid = IsValid;
  get_lem = pool_get_lem;
  put-IsValid = put-IsValid;
}
