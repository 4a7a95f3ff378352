-- ===== src/Hashtable/Lookup.antt =====
-- c7/stm/hashtable.c: rehashing keeps the entries, and what a lookup does.
use pypy_stmgc.Base.{
  ℕ, suc, ◌+◌, ◌*◌, ◌^◌, ◌≤◌, ◌≡◌, refl, ap, ◌∙◌, arith, Bool, true, false, ltb, Option, none, some,
}
use mathlib.Core.Logic.{◌↔◌}
use pypy_stmgc.Hashtable.{
  Entry, Table, Hashtable, find, masked, init_table, copy_entries, rehash_hashtable, bigger_count,
  add_entry, next_additions, stm_hashtable_lookup,
}
use pypy_stmgc.Hashtable.Insert.{count_items, IsTable, init_table-IsTable}
use pypy_stmgc.Hashtable.Rehash.{Holds, Copied, Placed-distinct}
use pypy_stmgc.Hashtable.Copy.{copy_entries-CopiesAll}

-- With enough fuel the table is replaced by one of 2 ^ k slots that has just the entries that are not
-- dead.
abbrev Rehashed : (ℕ → Bool) → ℕ → ℕ → Hashtable → Type 0
Rehashed dead k most h =
    (h' : Hashtable) × (count : ℕ) × (f : ℕ) × IsTable h'.table k count
    × (count ≤ most)
    × (h'.additions ≡ h.additions)
    × ((entry : Entry) → Holds h'.table entry ↔ (Holds h.table entry × (dead entry.addr ≡ false)))
    × ((g : ℕ) → f ≤ g → rehash_hashtable g dead (2 ^ k) h ≡ some h')

rehash_hashtable-copied :
    (fuel : ℕ) (dead : ℕ → Bool) (biggercount : ℕ) (h : Hashtable) (t : Table)
    → copy_entries fuel dead h.table.items (h.table.mask + 1) 0 (init_table biggercount) ≡ some t
    → rehash_hashtable fuel dead biggercount h ≡ some (record h { table = t })
unfolding rehash_hashtable
rehash_hashtable-copied fuel dead biggercount h t e = rw (e, rehash_hashtable) refl

init_table-Copied :
    (dead : ℕ → Bool) (items : ℕ → Option Entry) (itemcount : ℕ)
    → Copied dead items 0 (init_table itemcount)
unfolding init_table
init_table-Copied dead items itemcount =
    (λ entry held. absurd (ground (arith, held.1)), λ j entry low. absurd (omega arith))

-- For a well-formed table and a size that has room for its entries: rehashing ends, with a well-formed
-- table of that size which holds just the entries that are not to be dropped.
pub rehash_hashtable-Rehashed :
    (dead : ℕ → Bool) (h : Hashtable) (k count k' : ℕ)
    → IsTable h.table k count
    → k' ≤ 60
    → 6 * count ≤ 4 * 2 ^ k'
    → Rehashed dead k' count h
rehash_hashtable-Rehashed dead h k count k' (size, small, counted, counter, placed) small' room =
    let t = h.table in
    let n = t.mask + 1 in
    let at : 0 + n ≡ n = omega arith in
    let all : count_items t.items (0 + n) ≡ count =
      ap (count_items t.items) (at ∙ size) ∙ counted in
    let (t', count', f, table, le, (from, to), run) =
      copy_entries-CopiesAll dead t.items k' (Placed-distinct t placed) n 0 0 (init_table (2 ^ k'))
        (init_table-IsTable k' small') (omega arith) (init_table-Copied dead t.items (2 ^ k'))
        (omega (arith, all, room)) in
    (
      record h { table = t' },
      count',
      f,
      table,
      omega (arith, le, all),
      refl,
      λ entry. (
        λ held. let (j, _, e, live) = from entry held in ((j, e), live),
        λ (held, live). to held.0 entry (omega (arith, (placed held.0 entry held.1).0)) held.1 live,
      ),
      λ g enough. rehash_hashtable-copied g dead (2 ^ k') h t' (run g enough),
    )

module _ (tries fuel : ℕ) (in_nursery : Bool) (me addr index : ℕ) (h : Hashtable) (i : ℕ) where
  abbrev pub Finds : Option Entry → Type 0
  Finds o =
      find fuel h.table.mask h.table.items index (masked index h.table.mask) index ≡ some (i, o)

  pub lookup-found :
      (entry : Entry)
      → Finds (some entry)
      → stm_hashtable_lookup (suc tries) fuel in_nursery me addr index h ≡ some (entry, h)
  unfolding stm_hashtable_lookup
  lookup-found entry e = rw (e, stm_hashtable_lookup) refl

  pub lookup-new :
      Finds none
      → ltb 6 h.table.resize_counter ≡ true
      → stm_hashtable_lookup (suc tries) fuel in_nursery me addr index h
        ≡ some (add_entry addr index (next_additions in_nursery me h.additions) i h)
  unfolding stm_hashtable_lookup
  lookup-new e room = rw (e, stm_hashtable_lookup) (rw room refl)

  pub lookup-again :
      (h' : Hashtable)
      → Finds none
      → ltb 6 h.table.resize_counter ≡ false
      → rehash_hashtable fuel (λ _. false) (bigger_count (h.table.mask + 1)) h ≡ some h'
      → stm_hashtable_lookup (suc tries) fuel in_nursery me addr index h
        ≡ stm_hashtable_lookup tries fuel in_nursery me addr index h'
  unfolding stm_hashtable_lookup
  lookup-again h' e full rehashed =
      rw (e, stm_hashtable_lookup) (rw full (rw (rehashed, stm_hashtable_lookup) refl))
