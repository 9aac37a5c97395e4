-- ===== src/FdTable/Tests.antt =====
-- eventloop/fdtable.go: a table of three descriptors.
use connaxis.Prelude.{◌≤◌, ◌≡◌, ◌⊎◌, true, false, none, some, [], ◌∷◌, pos, arith}
use connaxis.Prelude.Lists.{length}
use connaxis.FdTable.{FdTable, fd_table_set, fd_table_get, fd_table_clear}
use connaxis.FdTable.Slots.{fd_table_get-fd_table_set, fd_table_get-fd_table_clear}

abbrev table : FdTable
table = none ∷ some 7 ∷ some 8 ∷ []

fd_table_get-fd_table_set_example :
    let (stored, table') = fd_table_set (pos 0) (some 9) table in
    (length table' ≡ 3)
    × ((stored ≡ true) × (fd_table_get (pos 0) table' ≡ some 9)
        ⊎ (stored ≡ false) × (3 ≤ 0) × (table' ≡ table))
    × ((pos 1 ≡ pos 0) ⊎ (fd_table_get (pos 1) table' ≡ fd_table_get (pos 1) table))
fd_table_get-fd_table_set_example = fd_table_get-fd_table_set 0 (pos 1) (some 9) table

fd_table_get-fd_table_clear_example :
    let table' = fd_table_clear (pos 1) (some 7) table in
    ((fd_table_get (pos 1) table ≡ some 7) × (fd_table_get (pos 1) table' ≡ none)
      ⊎ (fd_table_get (pos 1) table ≡ some 7 → ⊥) × (table' ≡ table))
    × ((pos 2 ≡ pos 1) ⊎ (fd_table_get (pos 2) table' ≡ fd_table_get (pos 2) table))
fd_table_get-fd_table_clear_example = fd_table_get-fd_table_clear 1 (pos 2) 7 table (omega arith)
