-- ===== src/FdTable.antt =====
-- eventloop/fdtable.go: the table from file descriptors to connections. A connection is the number of
-- its object, so that `==` compares numbers, and none is nil; the locks are not modelled. What
-- Getrlimit reports and LoopID are parameters.
pub mod Slots
pub mod Tests
use connaxis.Prelude.{
  ℕ, zero, suc, ◌+◌, ◌-◌, ◌*◌, ◌^◌, Bool, true, false, ◌||◌, Option, none, some, List, [], ◌∷◌, ltb,
  leb, ◌==◌, if◌then◌else◌, ℤ, pos, negsuc,
}
use connaxis.Prelude.Lists.{length, get_elem?, set, replicate}

abbrev pub Conn : Type 0
Conn = ℕ

abbrev pub FdTable : Type 0
FdTable = List (Option Conn)

abbrev pub fd_table_min_size : ℕ
fd_table_min_size = 1024

abbrev pub fd_table_fallback_size : ℕ
fd_table_fallback_size = 65536

abbrev pub fd_table_max_size : ℕ
fd_table_max_size = 4194304

-- `fdTableSize`: none is an error of Getrlimit, and RLIM_INFINITY is 2^64 - 1.
pub fd_table_size : Option ℕ → ℕ × ℕ
fd_table_size none = (fd_table_fallback_size, 0)
fd_table_size (some cur) =
    let size = if cur == 2 ^ 64 - 1 || ltb fd_table_max_size cur then fd_table_max_size else cur in
    (if ltb size fd_table_min_size then fd_table_min_size else size, cur)

-- `InitFDTable`
pub init_fd_table : Option ℕ → FdTable
unfolding fd_table_size
init_fd_table limit = replicate (fd_table_size limit).0 none

-- `fdTableSet`
pub fd_table_set : ℤ → Option Conn → FdTable → Bool × FdTable
fd_table_set (negsuc n) c table = (false, table)
fd_table_set (pos fd) c table =
    if leb (length table) fd then (false, table) else (true, set table fd c)

-- `fdTableGet`
unfoldable pub fd_table_get : ℤ → FdTable → Option Conn
fd_table_get (negsuc n) table = none
fd_table_get (pos fd) table = elim (get_elem? table fd) [ none ↦ none | some c ↦ c ]

pub same_conn : Option Conn → Option Conn → Bool
same_conn none none = true
same_conn none (some c) = false
same_conn (some b) none = false
same_conn (some b) (some c) = b == c

-- `fdTableClear`
pub fd_table_clear : ℤ → Option Conn → FdTable → FdTable
unfolding same_conn
fd_table_clear (negsuc n) c table = table
fd_table_clear (pos fd) c table = elim (get_elem? table fd) [
  | none ↦ table
  | some b ↦ if same_conn b c then set table fd none else table
]

-- `fdTableRange`, from a descriptor on: the calls of `fn`, in order.
pub range_from : ℕ → (Conn → ℕ) → ℕ → FdTable → List (ℕ × Conn)
range_from fd loop_id owner [] = []
range_from fd loop_id owner (none ∷ table) = range_from (fd + 1) loop_id owner table
range_from fd loop_id owner (some c ∷ table) =
    let rest = range_from (fd + 1) loop_id owner table in
    if loop_id c == owner then (fd, c) ∷ rest else rest

-- `fdTableRange`
pub fd_table_range : (Conn → ℕ) → ℕ → FdTable → List (ℕ × Conn)
unfolding range_from
fd_table_range loop_id owner table = range_from 0 loop_id owner table
