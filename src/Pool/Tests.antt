-- ===== src/Pool/Tests.antt =====
-- pool/pool.go: the allocator at small inputs.
use connaxis.Prelude.{ℕ, ◌≡◌, refl, none, some, List, [], ◌∷◌, Bytes, ◌==◌, if◌then◌else◌, arith}
use connaxis.Prelude.Lists.{length, replicate, length-replicate}
use connaxis.Pool.{BytesAlloctor, get, put, search_class, target_size}
use connaxis.Pool.Target.{Fits}
use connaxis.Pool.Valid.{IsValid, Sized, get-Fits}
use connaxis.Pool.Reuse.{get-put}

-- One class, of 1024 bytes; the next `Get` takes the newest buffer.
abbrev pub one_class : BytesAlloctor
one_class = record {
  step = 1024;
  rank = 1;
  max = 1024;
  allocor_map = λ k. if k == 1024 then some [] else none;
  picks = 0 ∷ [];
}

one_class-Sized :
    (k : ℕ) (bs : List Bytes) → (if k == 1024 then some [] else none) ≡ some bs → Sized k bs
one_class-Sized k [] e = tt
one_class-Sized k (b ∷ bs) e = absurd (ground arith)

abbrev block : Bytes
block = replicate 1024 7

pub one_class-IsValid : IsValid one_class
one_class-IsValid = record {
  step_is = refl;
  rank_pos = omega arith;
  max_is = refl;
  present = λ i h. let first : i ≡ 0 = omega arith in ([], rw first refl);
  sized = one_class-Sized;
}

target_sizes :
    (target_size (record one_class { rank = 4; max = 8192 }) 3000 ≡ 4096)
    × (target_size (record one_class { rank = 4; max = 8192 }) 2048 ≡ 2048)
    × (target_size (record one_class { rank = 4; max = 8192 }) 7 ≡ 1024)
unfolding target_size search_class
target_sizes = (refl, refl, refl)

get-Fits_example :
    (b : Bytes) × (a' : BytesAlloctor) × (get 700 one_class ≡ some (some b, a'))
    × IsValid a'
    × Fits 1 700 (length b)
get-Fits_example = get-Fits 700 one_class one_class-IsValid (omega arith)

get-put_example :
    (a' : BytesAlloctor) × (get (length block) (put block one_class) ≡ some (some block, a'))
    × ((k : ℕ) → a'.allocor_map k ≡ one_class.allocor_map k)
get-put_example =
    get-put one_class 0 block [] one_class-IsValid (omega arith) (length-replicate {A = ℕ} 1024 7)
      refl
