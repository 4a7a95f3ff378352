-- ===== src/Examples/Hashtables.antt =====
-- The theorems on c7/stm/hashtable.c at small tables.
use pypy_stmgc.Base.{ℕ, ◌≤◌, ◌≡◌, refl, arith, false, some, []}
use pypy_stmgc.Hashtable.{
  Entry, Hashtable, init_table, find, stm_hashtable_create, stm_hashtable_lookup,
}
use pypy_stmgc.Hashtable.Insert.{IsTable, init_table-IsTable, filled, filled-IsTable}
use pypy_stmgc.Hashtable.Once.{LooksUp}
use pypy_stmgc.Hashtable.Refine.{lookup-LooksUp, lookup_twice}
use pypy_stmgc.Hashtable.Compact.{Compacted, compact_hashtable-Compacted}
use pypy_stmgc.Examples.Data.{two_copies, two_transactions, no_locks}

new_table-IsTable : IsTable stm_hashtable_create.table 3 0
unfolding stm_hashtable_create
new_table-IsTable = init_table-IsTable 3 (omega arith)

lookup_example : LooksUp 2 false 1 4000 42 stm_hashtable_create
lookup_example =
    lookup-LooksUp false 1 4000 42 stm_hashtable_create 3 0 (omega arith) (omega arith)
      new_table-IsTable

lookup_twice_example :
    (entry : Entry) × (h' : Hashtable) × (f : ℕ) × ((g : ℕ)
      → f ≤ g
      → (stm_hashtable_lookup 2 g false 1 4000 42 stm_hashtable_create ≡ some (entry, h'))
        × (stm_hashtable_lookup 1 g false 1 5000 42 h' ≡ some (entry, h')))
lookup_twice_example =
    lookup_twice false 1 4000 5000 42 stm_hashtable_create 3 0 (omega arith) (omega arith)
      new_table-IsTable

abbrev entry_42 : Entry
entry_42 = record { addr = 4000; index = 42 }

-- With one entry, after nine additions.
abbrev used_table : Hashtable
used_table = record { table = filled (init_table 8) 2 entry_42; additions = 0x900 }

used_table-IsTable : IsTable used_table.table 3 1
unfolding init_table find
used_table-IsTable =
    filled-IsTable (init_table 8) 3 0 2 entry_42 (init_table-IsTable 3 (omega arith)) (omega arith)
      (1, refl)

compact_example : Compacted (λ k a. 0) (two_transactions two_copies [] no_locks) used_table
compact_example =
    compact_hashtable-Compacted (λ k a. 0) (two_transactions two_copies [] no_locks) used_table 3 1
      (omega arith) used_table-IsTable
