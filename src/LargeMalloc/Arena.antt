-- ===== src/LargeMalloc/Arena.antt =====
-- c7/stm/largemalloc.c: the state of the allocator, for the blocks of its arena.
use pypy_stmgc.Base.{
  ℕ, ◌+◌, ◌-◌, ◌^◌, ◌≡◌, ◌∙◌, false, ◌==◌, update, w64, List, ◌∷◌, ◌++◌, arith, Bool-cases, inl,
  inr,
}
use pypy_stmgc.Memory.{increment_total_allocated}
use pypy_stmgc.LargeMalloc.{
  Heap, next_chunk, sort_bin, unlink_chunk, merge_next, merge_previous, large_free, this_chunk_free,
}
use pypy_stmgc.LargeMalloc.Bins.{in_bin, in-sort_bin, in-unlink_chunk}
use pypy_stmgc.LargeMalloc.Layout.{Block, used, free, span, free_at, free_at-append, free_at-range}
use pypy_stmgc.LargeMalloc.Loose.{IsHeap}
use pypy_stmgc.LargeMalloc.Coalesce.{coalesce, large_free_lem}
use pypy_stmgc.LargeMalloc.Sorted.{
  Sorted, Sorted-sort_bin, Sorted-unlink_chunk, Sorted-insert_unsorted, Sorted-update,
}

-- The arena holds the blocks, and the sorted chunks of the bins are in order.
abbrev pub IsArena : Heap → List Block → Type 0
IsArena h bs = IsHeap h bs × Sorted h

pub IsArena-sort_bin :
    (index : ℕ) (h : Heap) (bs : List Block) → IsArena h bs → IsArena (sort_bin index h) bs
unfolding sort_bin
IsArena-sort_bin index h bs ((lay, binned), sorted) =
    ((lay, λ i a. in-sort_bin index h i a ∙ binned i a), Sorted-sort_bin index h sorted)

-- The chunk is in no bin.
abbrev pub OutOfBins : Heap → ℕ → Type 0
OutOfBins h a = (i : ℕ) → in_bin (h.bins i) a ≡ false

pub OutOfBins-unlink_chunk : (c : ℕ) (h : Heap) → OutOfBins (unlink_chunk c h) c
OutOfBins-unlink_chunk c h i = ground (arith, in-unlink_chunk c h i c)

Sorted-merge_next : (c : ℕ) (h : Heap) → OutOfBins h c → Sorted h → Sorted (merge_next c h)
unfolding merge_next unlink_chunk
Sorted-merge_next c h out sorted =
    let next = c + (h.size c + 16) in
    elim (Bool-cases (h.prev_size next == 0)) [
      | inl e ↦ rw e sorted
      | inr e ↦ rw e (
          Sorted-update (unlink_chunk next h) c (h.size next + (h.size c + 16))
            (λ i. ground (arith, in-unlink_chunk next h i c, out i))
            (Sorted-unlink_chunk next h sorted))
    ]

Sorted-merge_previous : (c : ℕ) (h : Heap) → Sorted h → Sorted (merge_previous c h)
unfolding merge_previous unlink_chunk
Sorted-merge_previous c h sorted =
    let msize = h.prev_size c + 16 in
    let m = c - msize in
    let joined = record (unlink_chunk m h) { size = update h.size m (msize + h.size c) } in
    let after = next_chunk joined m in
    elim (Bool-cases (h.prev_size c == 0)) [
      | inl e ↦ rw e (
          Sorted-insert_unsorted c (record h { prev_size = update h.prev_size c this_chunk_free })
            sorted)
      | inr e ↦ rw e (
          Sorted-insert_unsorted m
            (record joined { prev_size = update h.prev_size after (joined.size m) })
            (Sorted-update (unlink_chunk m h) m (msize + h.size c) (OutOfBins-unlink_chunk m h)
              (Sorted-unlink_chunk m h sorted)))
    ]

-- A chunk in use is in no bin.
OutOfBins-used :
    (h : Heap) (xs : List Block) (sz : ℕ) (ys : List Block)
    → IsHeap h (xs ++ used sz ∷ ys)
    → OutOfBins h (h.first_chunk + span xs)
unfolding free_at
OutOfBins-used h xs sz ys (lay, binned) i =
    let c = h.first_chunk + span xs in
    ground (
      arith,
      binned i c,
      free_at-append h.first_chunk xs (used sz ∷ ys) c,
      free_at-range h.first_chunk xs c,
      free_at-range (c + (16 + sz)) ys c,
    )

-- For a heap whose arena holds the blocks `xs`, a chunk in use and the blocks `ys`, and whose bins are
-- in order: after `_stm_large_free` of the chunk the arena holds these blocks with the chunk free and
-- joined with its free neighbours, every free chunk is in the bin for its size and in no other, and the
-- bins are in order.
pub large_free-IsArena :
    (h : Heap) (xs : List Block) (sz : ℕ) (ys : List Block)
    → IsArena h (xs ++ used sz ∷ ys)
    → IsArena (large_free (h.first_chunk + span xs) h) (coalesce (xs ++ free sz ∷ ys))
unfolding large_free
large_free-IsArena h xs sz ys (heap, sorted) =
    let c = h.first_chunk + span xs in
    let counted = record h {
      mem = increment_total_allocated h.mem (w64 (2 ^ 64 - (h.size c + 16)));
    } in
    (
      large_free_lem h xs sz ys heap,
      Sorted-merge_previous c (merge_next c counted)
          (Sorted-merge_next c counted (OutOfBins-used h xs sz ys heap) sorted),
    )
