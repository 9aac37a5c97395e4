-- ===== src/FdTable/Slots.antt =====
-- eventloop/fdtable.go: what the table holds after a call.
use connaxis.Prelude.{
  ℕ, ◌≤◌, ◌<◌, ◌≡◌, refl, sym, ap, ◌∙◌, ◌⊎◌, inl, inr, true, false, Bool-cases, Option, none, some,
  leb, ◌==◌, leb→le, leb→lt, ==→eq, ==→ne, arith, ℤ, pos, negsuc,
}
use connaxis.Prelude.Lists.{
  length, get_elem?, set, length-set, length-replicate, drop-get_elem?, get_elem?-set_same,
  get_elem?-set_other,
}
use connaxis.FdTable.{
  Conn, FdTable, fd_table_size, init_fd_table, fd_table_set, fd_table_get, fd_table_clear,
  same_conn, fd_table_min_size, fd_table_max_size,
}

-- The table has room for at least 1024 and at most 4194304 descriptors, whatever Getrlimit reports.
pub init_fd_table_bounds :
    (limit : Option ℕ)
    → (fd_table_min_size ≤ length (init_fd_table limit))
      × (length (init_fd_table limit) ≤ fd_table_max_size)
unfolding init_fd_table fd_table_size
init_fd_table_bounds none =
    let size = length-replicate {A = Option Conn} 65536 none in (omega arith, omega arith)
init_fd_table_bounds (some cur) =
    let size = length-replicate {A = Option Conn} (fd_table_size (some cur)).0 none in
    (ground (arith, size), ground (arith, size))

-- A store leaves the other descriptors alone.
set_other :
    (fd : ℕ) (other : ℤ) (c : Option Conn) (table : FdTable)
    → (other ≡ pos fd) ⊎ (fd_table_get other (set table fd c) ≡ fd_table_get other table)
unfolding fd_table_get
set_other fd (negsuc n) c table = inr refl
set_other fd (pos j) c table = elim (Bool-cases (j == fd)) [
  | inl same ↦ inl (ap pos (==→eq _ _ same))
  | inr apart ↦
      let kept = get_elem?-set_other table fd j c (λ e. ==→ne _ _ apart (sym e)) in
      inr (rw (kept, fd_table_get) refl)
]

set_here :
    (fd : ℕ) (c : Option Conn) (table : FdTable)
    → fd < length table
    → fd_table_get (pos fd) (set table fd c) ≡ c
unfolding fd_table_get
set_here fd c table h = let found = get_elem?-set_same table fd c h in rw (found, fd_table_get) refl

-- What `fdTableSet` stores at a descriptor is what `fdTableGet` finds there; other descriptors keep
-- what they had, and so does the whole table where the descriptor is out of range.
pub fd_table_get-fd_table_set :
    (fd : ℕ) (other : ℤ) (c : Option Conn) (table : FdTable)
    → let (stored, table') = fd_table_set (pos fd) c table in
      (length table' ≡ length table)
      × ((stored ≡ true) × (fd_table_get (pos fd) table' ≡ c)
          ⊎ (stored ≡ false) × (length table ≤ fd) × (table' ≡ table))
      × ((other ≡ pos fd) ⊎ (fd_table_get other table' ≡ fd_table_get other table))
unfolding fd_table_set
fd_table_get-fd_table_set fd other c table = elim (Bool-cases (leb (length table) fd)) [
  | inl outside ↦ rw (outside, fd_table_set) (refl, inr (refl, leb→le _ _ outside, refl), inr refl)
  | inr inside ↦
      rw (inside, fd_table_set)
        (
          length-set table fd c,
          inl (refl, set_here fd c table (leb→lt _ _ inside)),
          set_other fd other c table,
        )
]

same_conn-eq : (b c : Option Conn) → same_conn b c ≡ true → b ≡ c
unfolding same_conn
same_conn-eq none none e = refl
same_conn-eq none (some c) e = absurd (cc)
same_conn-eq (some b) none e = absurd (cc)
same_conn-eq (some b) (some c) e = ap some (==→eq b c e)

same_conn-ne : (b : Option Conn) (c : Conn) → same_conn b (some c) ≡ false → b ≡ some c → ⊥
unfolding same_conn
same_conn-ne none c e same = absurd (cc)
same_conn-ne (some b) c e same = let equal : b ≡ c = cc in ==→ne b c e equal

get-found :
    (fd : ℕ) (table : FdTable) (o : Option Conn)
    → get_elem? table fd ≡ some o
    → fd_table_get (pos fd) table ≡ o
unfolding fd_table_get
get-found fd table o found = rw (found, fd_table_get) refl

-- `fdTableClear` empties a descriptor if and only if it holds the connection that it is given, and
-- leaves the table as it is if not; other descriptors keep what they had.
pub fd_table_get-fd_table_clear :
    (fd : ℕ) (other : ℤ) (c : Conn) (table : FdTable)
    → fd < length table
    → let table' = fd_table_clear (pos fd) (some c) table in
      ((fd_table_get (pos fd) table ≡ some c) × (fd_table_get (pos fd) table' ≡ none)
        ⊎ (fd_table_get (pos fd) table ≡ some c → ⊥) × (table' ≡ table))
      × ((other ≡ pos fd) ⊎ (fd_table_get other table' ≡ fd_table_get other table))
unfolding fd_table_clear
fd_table_get-fd_table_clear fd other c table h =
    let (b, found, _) = drop-get_elem? table fd h in
    let holds = get-found fd table b found in
    elim (Bool-cases (same_conn b (some c))) [
      | inl same ↦
          rw (found, same, fd_table_clear)
            (
              inl (holds ∙ same_conn-eq b (some c) same, set_here fd none table h),
              set_other fd other none table,
            )
      | inr apart ↦
          rw (found, apart, fd_table_clear)
            (inr ((λ e. same_conn-ne b c apart (sym holds ∙ e)), refl), inr refl)
    ]
