-- ===== src/Hashtable.antt =====
-- c7/stm/hashtable.c: open addressing with perturbed probing. What runs with the table locked is one
-- step here, and the tables that have been replaced are left out.
pub mod Period
pub mod Probe
pub mod Placed
pub mod Insert
pub mod Rehash
pub mod Copy
pub mod Lookup
pub mod Once
pub mod Refine
pub mod Compact
use pypy_stmgc.Base.{
  ℕ, zero, suc, ◌+◌, ◌-◌, ◌*◌, ◌/◌, ◌%◌, ◌^◌, Bool, true, false, not, ◌&&◌, ◌||◌, ltb, leb, ◌==◌,
  if◌then◌else◌, update, w64, Option, none, some,
}
use pypy_stmgc.Memory.{nb_segments}
use pypy_stmgc.State.{System}
use pypy_stmgc.Barrier.{was_read_remote}

-- An entry object by its address, with the field that never changes.
pub record Entry : Type 0 where
  pub addr : ℕ
  pub index : ℕ

pub record Table : Type 0 where
  pub mask : ℕ
  pub resize_counter : ℕ
  pub items : ℕ → Option Entry

pub record Hashtable : Type 0 where
  pub table : Table
  pub additions : ℕ

abbrev initial_hashtable_size : ℕ
initial_hashtable_size = 8

unfoldable pub init_table : ℕ → Table
init_table itemcount = record {
  mask = itemcount - 1;
  resize_counter = itemcount * 4 + 1;
  items = λ _. none;
}

unfoldable pub stm_hashtable_create : Hashtable
stm_hashtable_create = record { table = init_table initial_hashtable_size; additions = 0 }

-- `i & mask`, where the mask is one less than a power of two.
abbrev pub masked : ℕ → ℕ → ℕ
masked i mask = i % (mask + 1)

unfoldable pub next_slot : ℕ → ℕ → ℕ → ℕ
next_slot mask i perturb = masked (w64 (4 * i + i + perturb + 1)) mask

-- `perturb >>= PERTURB_SHIFT`
abbrev pub shifted : ℕ → ℕ
shifted perturb = perturb / 32

-- The first free slot, from slot `i` on; with fuel for the slots.
unfoldable pub free_slot : ℕ → ℕ → (ℕ → Option Entry) → ℕ → ℕ → Option ℕ
free_slot zero mask items i perturb = none
free_slot (suc fuel) mask items i perturb =
    let rest = free_slot fuel mask items (next_slot mask i perturb) (shifted perturb) in
    elim (items i) [ none ↦ some i | some _ ↦ rest ]

unfoldable pub insert_clean : ℕ → Table → Entry → Option Table
insert_clean fuel t entry =
    elim (free_slot fuel t.mask t.items (masked entry.index t.mask) entry.index) [
      | none ↦ none
      | some i ↦ some (record t { items = update t.items i (some entry) })
    ]

-- `rc - 6`, unsigned
abbrev pub minus_six : ℕ → ℕ
minus_six rc = w64 (rc + (2 ^ 64 - 6))

-- The loop over the slots `j`, …, `j + n - 1` of the old table; `dead` tells the entries to drop.
unfoldable pub copy_entries : ℕ → (ℕ → Bool) → (ℕ → Option Entry) → ℕ → ℕ → Table → Option Table
copy_entries fuel dead items zero j t = some t
copy_entries fuel dead items (suc n) j t =
    let rest = copy_entries fuel dead items n (j + 1) in
    let skipped = rest t in
    elim (items j) [
      | none ↦ skipped
      | some entry ↦ if dead entry.addr then skipped else elim (insert_clean fuel t entry) [
        | none ↦ none
        | some t' ↦ rest (record t' { resize_counter = minus_six t'.resize_counter })
      ]
    ]

unfoldable pub rehash_hashtable : ℕ → (ℕ → Bool) → ℕ → Hashtable → Option Hashtable
rehash_hashtable fuel dead biggercount h =
    elim (copy_entries fuel dead h.table.items (h.table.mask + 1) 0 (init_table biggercount)) [
      | none ↦ none
      | some t ↦ some (record h { table = t })
    ]

-- The slot where the search for an index ends, with the entry that has the index, or none.
unfoldable pub find : ℕ → ℕ → (ℕ → Option Entry) → ℕ → ℕ → ℕ → Option (ℕ × Option Entry)
find zero mask items index i perturb = none
find (suc fuel) mask items index i perturb =
    let rest = find fuel mask items index (next_slot mask i perturb) (shifted perturb) in
    elim (items i) [
      | none ↦ some (i, none)
      | some entry ↦ if entry.index == index then some (i, some entry) else rest
    ]

abbrev pub bigger_count : ℕ → ℕ
bigger_count count = if ltb count 50000 then count * 4 else count * 2

-- A new entry in the free slot `i`, at the address that the allocation gives.
abbrev pub add_entry : ℕ → ℕ → ℕ → ℕ → Hashtable → Entry × Hashtable
add_entry addr index additions i h =
    let entry : Entry = record { addr = addr; index = index } in
    (
      entry,
      record {
        table = record {
          mask = h.table.mask;
          resize_counter = minus_six h.table.resize_counter;
          items = update h.table.items i (some entry);
        };
        additions = additions;
      },
    )

-- In a nursery object the entry counts as one of segment `me`.
abbrev pub next_additions : Bool → ℕ → ℕ → ℕ
next_additions in_nursery me additions = if in_nursery then me else w64 (additions + 0x100)

-- With fuel for the restarts, and for the slots.
unfoldable pub stm_hashtable_lookup :
    ℕ → ℕ → Bool → ℕ → ℕ → ℕ → Hashtable → Option (Entry × Hashtable)
stm_hashtable_lookup zero fuel in_nursery me addr index h = none
stm_hashtable_lookup (suc tries) fuel in_nursery me addr index h =
    let t = h.table in
    let again = stm_hashtable_lookup tries fuel in_nursery me addr index in
    elim (find fuel t.mask t.items index (masked index t.mask) index) [
      | none ↦ none
      | some (i, some entry) ↦ some (entry, h)
      | some (i, none) ↦
          if ltb 6 t.resize_counter
          then some (add_entry addr index (next_additions in_nursery me h.additions) i h)
          else elim (rehash_hashtable fuel (λ _. false) (bigger_count (t.mask + 1)) h) [
            | none ↦ none
            | some h' ↦ again h'
          ]
    ]

unfoldable pub was_read_by : System → ℕ → ℕ → Bool
was_read_by s obj zero = false
was_read_by s obj (suc n) =
    let rest = was_read_by s obj n in was_read_remote (s.segment (suc n)) obj || rest

unfoldable pub was_read_by_anybody : System → ℕ → Bool
was_read_by_anybody s obj = was_read_by s obj nb_segments

-- `while (count * 4 < num_entries_times_6) count *= 2`, with fuel for the doublings.
unfoldable pub enough_count : ℕ → ℕ → ℕ → ℕ
enough_count zero num_entries_times_6 count = count
enough_count (suc fuel) num_entries_times_6 count =
    let rest = enough_count fuel num_entries_times_6 (count * 2) in
    if ltb (count * 4) num_entries_times_6 then rest else count

-- At a major collection; `object` is the field of an entry as a segment sees it.
unfoldable pub compact_hashtable : ℕ → (ℕ → ℕ → ℕ) → System → Hashtable → Option Hashtable
compact_hashtable fuel object s h =
    let t = h.table in
    let segment_num = if h.additions % 256 == 0 then 1 else h.additions % 256 in
    let num_entries_times_6 = (t.mask + 1) * 4 + 1 - t.resize_counter in
    let count = enough_count 64 num_entries_times_6 initial_hashtable_size in
    let dead : ℕ → Bool = λ a. object segment_num a == 0 && not (was_read_by_anybody s a) in
    if ltb t.mask (h.additions / 256 * 4)
    then rehash_hashtable fuel dead count (record h { additions = segment_num })
    else some h
