-- ===== src/LargeMalloc.antt =====
-- c7/stm/largemalloc.c: the allocator of large objects. Chunks lie next to each other in an arena,
-- and the free ones are in bins by their sizes.
pub mod Bins
pub mod Layout
pub mod Loose
pub mod Free
pub mod Coalesce
pub mod Sorted
pub mod Fit
pub mod Arena
pub mod Whole
pub mod Split
pub mod Higher
pub mod Find
pub mod BestFit
pub mod Malloc
pub mod Blocks
pub mod NextUsed
pub mod Sweep
pub mod RoundTrip
pub mod Grow
pub mod Reduce
pub mod Resize
use Prim.Native.Nat.{min}
use pypy_stmgc.Base.{
  ℕ, zero, suc, ◌+◌, ◌-◌, ◌*◌, ◌/◌, ◌^◌, Bool, true, false, not, ◌&&◌, ltb, leb, ◌==◌,
  if◌then◌else◌, update, w64, Option, none, some, List, [], ◌∷◌,
}
use pypy_stmgc.Memory.{Mem, increment_total_allocated}

unfoldable pub largebin_index : ℕ → ℕ
largebin_index sz =
    if ltb sz (48 * 2 ^ 6)
    then sz / 2 ^ 6
    else if ltb sz (24 * 2 ^ 9)
    then 42 + sz / 2 ^ 9
    else if ltb sz (12 * 2 ^ 12)
    then 63 + sz / 2 ^ 12
    else if ltb sz (6 * 2 ^ 15)
    then 74 + sz / 2 ^ 15
    else if ltb sz (3 * 2 ^ 18)
    then 80 + sz / 2 ^ 18
    else 83

abbrev pub n_bins : ℕ
n_bins = 84

-- `LAST_BIN_INDEX`
abbrev last_bin_index : ℕ → Bool
last_bin_index sz = leb (3 * 2 ^ 18) sz

-- A bin without its pointers. The sorted chunks are in columns, the `u` lists, each from its chunk in
-- the `d` list upwards; the columns are in the order of `next`. The unsorted chunks are in the order
-- of `prev`, the newest one first.
pub record Bin : Type 0 where
  pub sorted : List (List ℕ)
  pub unsorted : List ℕ

-- The headers of the chunks by their addresses, the bins, and the count of what is allocated.
pub record Heap : Type 0 where
  pub prev_size : ℕ → ℕ
  pub size : ℕ → ℕ
  pub first_chunk : ℕ
  pub last_chunk : ℕ
  pub bins : ℕ → Bin
  pub mem : Mem

abbrev pub this_chunk_free : ℕ
this_chunk_free = 1

abbrev pub both_chunks_used : ℕ
both_chunks_used = 0

abbrev chunk_header_size : ℕ
chunk_header_size = 16

-- `sizeof(struct malloc_chunk)`
abbrev malloc_chunk_size : ℕ
malloc_chunk_size = 48

abbrev min_alloc_size : ℕ
min_alloc_size = malloc_chunk_size - chunk_header_size

abbrev pub end_marker : ℕ
end_marker = 0xDEADBEEF

abbrev large_malloc_overhead : ℕ
large_malloc_overhead = 16

abbrev set_size : ℕ → ℕ → Heap → Heap
set_size chunk v h = record h { size = update h.size chunk v }

abbrev set_prev_size : ℕ → ℕ → Heap → Heap
set_prev_size chunk v h = record h { prev_size = update h.prev_size chunk v }

abbrev set_bin : ℕ → Bin → Heap → Heap
set_bin i b h = record h { bins = update h.bins i b }

abbrev pub count : ℕ → Heap → Heap
count amount h = record h { mem = increment_total_allocated h.mem amount }

unfoldable pub next_chunk : Heap → ℕ → ℕ
next_chunk h p = p + (chunk_header_size + h.size p)

unfoldable pub bin_of : ℕ → ℕ
bin_of sz = if last_bin_index sz then n_bins - 1 else largebin_index sz

unfoldable pub insert_unsorted : ℕ → Heap → Heap
insert_unsorted new h =
    let index = bin_of (h.size new) in
    let bin = h.bins index in set_bin index (record bin { unsorted = new ∷ bin.unsorted }) h

-- `qsort`, from the largest chunk on. C leaves open in which order it puts chunks of one size.
unfoldable pub insert_by_size : (ℕ → ℕ) → ℕ → List ℕ → List ℕ
insert_by_size size c [] = c ∷ []
insert_by_size size c (d ∷ ds) =
    if leb (size d) (size c) then c ∷ d ∷ ds else d ∷ insert_by_size size c ds

unfoldable pub sort_by_size : (ℕ → ℕ) → List ℕ → List ℕ
sort_by_size size [] = []
sort_by_size size (c ∷ cs) = insert_by_size size c (sort_by_size size cs)

-- The size of the chunks of a column; a column has at least one chunk.
abbrev pub column_size : (ℕ → ℕ) → List ℕ → ℕ
column_size size [] = 0
column_size size (c ∷ _) = size c

-- The new chunk goes right above the chunk at the bottom.
abbrev pub insert_above : ℕ → List ℕ → List ℕ
insert_above chunk [] = chunk ∷ []
insert_above chunk (c ∷ cs) = c ∷ chunk ∷ cs

-- The loop of `really_sort_bin` for one chunk; `rest` goes on from where the chunk was put.
unfoldable pub place_chunk :
    (ℕ → ℕ) → ℕ → (List (List ℕ) → List (List ℕ)) → List (List ℕ) → List (List ℕ)
place_chunk size chunk rest [] = rest ((chunk ∷ []) ∷ [])
place_chunk size chunk rest (col ∷ cols) =
    let here = rest ((chunk ∷ []) ∷ col ∷ cols) in
    let joined = rest (insert_above chunk col ∷ cols) in
    let later = col ∷ place_chunk size chunk rest cols in
    if ltb (column_size size col) (size chunk)
    then here
    else if column_size size col == size chunk
    then joined
    else later

-- The loop for all chunks, the largest one first.
unfoldable pub place_chunks : (ℕ → ℕ) → List ℕ → List (List ℕ) → List (List ℕ)
place_chunks size [] cols = cols
place_chunks size (c ∷ cs) cols = place_chunk size c (place_chunks size cs) cols

-- Nothing changes if there are no unsorted chunks.
unfoldable pub sort_bin : ℕ → Heap → Heap
sort_bin index h =
    let bin = h.bins index in
    set_bin index
      (record {
        sorted = place_chunks h.size (sort_by_size h.size bin.unsorted) bin.sorted;
        unsorted = [];
      })
      h

unfoldable pub remove : ℕ → List ℕ → List ℕ
remove a [] = []
remove a (x ∷ xs) = let rest = remove a xs in if x == a then rest else x ∷ rest

-- A column that has become empty leaves the `d` list.
abbrev pub keep_column : List ℕ → List (List ℕ) → List (List ℕ)
keep_column [] cols = cols
keep_column (c ∷ cs) cols = (c ∷ cs) ∷ cols

unfoldable pub remove_from_columns : ℕ → List (List ℕ) → List (List ℕ)
remove_from_columns a [] = []
remove_from_columns a (col ∷ cols) = keep_column (remove a col) (remove_from_columns a cols)

-- A chunk is in one bin, to which its own pointers lead.
unfoldable pub unlink_chunk : ℕ → Heap → Heap
unlink_chunk chunk h = record h {
  bins = λ i. record {
    sorted = remove_from_columns chunk (h.bins i).sorted;
    unsorted = remove chunk (h.bins i).unsorted;
  };
}

-- The scan in reverse order: the last column that fits.
unfoldable pub smallest_fit : (ℕ → ℕ) → ℕ → List (List ℕ) → Option (List ℕ)
smallest_fit size request [] = none
smallest_fit size request (col ∷ cols) = elim (smallest_fit size request cols) [
  | some c ↦ some c
  | none ↦ if leb request (column_size size col) then some col else none
]

abbrev pub last_column : List (List ℕ) → Option (List ℕ)
last_column [] = none
last_column (col ∷ []) = some col
last_column (col ∷ c ∷ cols) = last_column (c ∷ cols)

-- What is taken from a column: the chunk above the one at the bottom, if there is one.
abbrev pub taken : List ℕ → ℕ
taken [] = 0
taken (c ∷ []) = c
taken (c ∷ d ∷ cs) = d

-- The higher bins `index`, …, `index + n - 1`; a bin that is empty has no column.
unfoldable pub find_higher : ℕ → ℕ → Heap → Option (ℕ × Heap)
find_higher index zero h = none
find_higher index (suc n) h =
    let rest = find_higher (index + 1) n h in
    let h' = sort_bin index h in
    elim (last_column (h'.bins index).sorted) [ none ↦ rest | some col ↦ some (taken col, h') ]

-- The chunk that is found, and the heap with the bins sorted; the heap alone if there is none.
unfoldable pub find_chunk : ℕ → Heap → Option (ℕ × Heap)
find_chunk request h =
    let index = largebin_index request in
    let h' = sort_bin index h in
    let higher = find_higher (index + 1) (n_bins - 1 - index) h' in
    elim (smallest_fit h'.size request (h'.bins index).sorted) [
      | some col ↦ some (taken col, h')
      | none ↦ higher
    ]

-- From the label `found`, with the chunk unlinked: the rest of it becomes a chunk, if it can be one.
unfoldable pub split_chunk : ℕ → ℕ → Heap → Heap
split_chunk mscan request h =
    let remaining_size = h.size mscan - request in
    let new = mscan + (chunk_header_size + request) in
    let remaining_data_size = remaining_size - chunk_header_size in
    let whole = count (h.size mscan + large_malloc_overhead) (
      set_prev_size mscan both_chunks_used
        (set_prev_size (next_chunk h mscan) both_chunks_used h)) in
    let h₁ = set_size new remaining_data_size (set_prev_size new this_chunk_free h) in
    let h₂ = insert_unsorted new (set_prev_size (next_chunk h₁ new) remaining_data_size h₁) in
    let part =
      count (request + large_malloc_overhead)
        (set_prev_size mscan both_chunks_used (set_size mscan request h₂)) in
    if ltb remaining_size malloc_chunk_size then whole else part

abbrev pub at_least : ℕ → ℕ
at_least request = if ltb request min_alloc_size then min_alloc_size else request

-- The address of the data, if there is enough memory.
unfoldable pub large_malloc : ℕ → Heap → Option ℕ × Heap
large_malloc request_size h =
    let request = at_least request_size in
    elim (find_chunk request h) [
      | none ↦ (none, sort_bin (largebin_index request) h)
      | some (mscan, h') ↦
          (some (mscan + chunk_header_size), split_chunk mscan request (unlink_chunk mscan h'))
    ]

-- The merge with the chunk that follows.
unfoldable pub merge_next : ℕ → Heap → Heap
merge_next chunk h =
    let msize = h.size chunk + chunk_header_size in
    let mscan = chunk + msize in
    let fsize = h.size mscan in
    let fscan = mscan + (fsize + chunk_header_size) in
    let merged =
      set_size chunk (fsize + msize) (set_prev_size fscan (fsize + msize) (unlink_chunk mscan h)) in
    if h.prev_size mscan == both_chunks_used then set_prev_size mscan (h.size chunk) h else merged

-- The merge with the chunk before, and the insertion.
unfoldable pub merge_previous : ℕ → Heap → Heap
merge_previous chunk h =
    let msize = h.prev_size chunk + chunk_header_size in
    let mscan = chunk - msize in
    let h₁ = set_size mscan (msize + h.size chunk) (unlink_chunk mscan h) in
    let merged = insert_unsorted mscan (set_prev_size (next_chunk h₁ mscan) (h₁.size mscan) h₁) in
    if h.prev_size chunk == both_chunks_used
    then insert_unsorted chunk (set_prev_size chunk this_chunk_free h)
    else merged

-- The count goes down: a number below the modulus is added.
unfoldable pub large_free : ℕ → Heap → Heap
large_free chunk h =
    merge_previous chunk
      (merge_next chunk (count (w64 (2 ^ 64 - (h.size chunk + large_malloc_overhead))) h))

unfoldable pub stm_large_free : ℕ → Heap → Heap
stm_large_free addr h = large_free (addr - chunk_header_size) h

abbrev pub empty_bin : Bin
empty_bin = record { sorted = []; unsorted = [] }

unfoldable pub init_arena : ℕ → ℕ → Mem → Heap
init_arena data_start data_size m =
    let size = data_size - 2 * chunk_header_size in
    let last = data_start + (data_size - chunk_header_size) in
    insert_unsorted data_start (record {
      prev_size = update (update (λ _. 0) data_start this_chunk_free) last size;
      size = update (update (λ _. 0) data_start size) last end_marker;
      first_chunk = data_start;
      last_chunk = last;
      bins = λ _. empty_bin;
      mem = m;
    })

-- The arena ends at `new_last`, in the free chunk `prev_chunk`.
unfoldable pub reduce_arena : ℕ → ℕ → Heap → Heap
reduce_arena prev_chunk new_last h =
    let size = new_last - prev_chunk - chunk_header_size in
    let h₁ = set_size prev_chunk size (unlink_chunk prev_chunk h) in
    let h₂ = set_size new_last end_marker (set_prev_size new_last size h₁) in
    insert_unsorted prev_chunk (record h₂ { last_chunk = new_last })

-- What was the last chunk is freed, with the new space as its data.
unfoldable pub grow_arena : ℕ → Heap → Heap
grow_arena new_last h =
    let old_last = h.last_chunk in
    let h₁ = set_size old_last (new_last - old_last - chunk_header_size) h in
    let h₂ = set_size new_last end_marker (set_prev_size new_last both_chunks_used h₁) in
    large_free old_last (record h₂ { last_chunk = new_last })

-- The answer, and the heap.
unfoldable pub resize_arena : ℕ → Heap → Bool × Heap
resize_arena new_size h =
    let new_last = h.first_chunk + (new_size - chunk_header_size) in
    let lsize = h.prev_size h.last_chunk in
    let prev_chunk = h.last_chunk - (lsize + chunk_header_size) in
    if ltb new_size (2 * malloc_chunk_size)
    then (false, h)
    else if ltb new_last h.last_chunk
    then if lsize == both_chunks_used
      then (false, h)
      else if ltb new_last (prev_chunk + malloc_chunk_size)
      then (false, h)
      else (true, reduce_arena prev_chunk new_last h)
    else if ltb h.last_chunk new_last
    then (true, grow_arena new_last h)
    else (true, h)

-- The loop, with fuel for the chunks; `keep` is `largemalloc_keep_object_at`.
unfoldable pub sweep_from : (ℕ → Bool) → ℕ → ℕ → Heap → Option Heap
sweep_from keep zero chunk h = none
sweep_from keep (suc fuel) chunk h =
    let after = next_chunk h chunk in
    let mnext = if h.prev_size after == this_chunk_free then next_chunk h after else after in
    let h' = if keep (chunk + chunk_header_size) then h else large_free chunk h in
    let rest = sweep_from keep fuel mnext h' in if chunk == h.last_chunk then some h else rest

unfoldable pub largemalloc_sweep : (ℕ → Bool) → ℕ → Heap → Option Heap
largemalloc_sweep keep fuel h =
    let first = h.first_chunk in
    sweep_from keep fuel
      (if h.prev_size first == this_chunk_free then next_chunk h first else first) h
