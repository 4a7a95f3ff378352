-- ===== src/LargeMalloc/Grow.antt =====
-- c7/stm/largemalloc.c: the first arena, and its end when it grows or shrinks.
use pypy_stmgc.Base.{
  ℕ, ◌+◌, ◌-◌, ◌≤◌, ◌<◌, ◌≡◌, refl, sym, subst, update, List, [], ◌∷◌, ◌++◌, append-nil, arith,
}
use pypy_stmgc.Memory.{Mem}
use pypy_stmgc.LargeMalloc.{
  Heap, large_free, init_arena, grow_arena, end_marker, this_chunk_free, empty_bin,
}
use pypy_stmgc.LargeMalloc.Layout.{
  Block, used, free, span, status, free_at, free_at-append, free_at-range, Blocks, Blocks-frame,
  Rest, Rest-append, Rest-split,
}
use pypy_stmgc.LargeMalloc.Free.{insert_unsorted-IsHeap}
use pypy_stmgc.LargeMalloc.Loose.{Binned, IsHeap, prev_field_used}
use pypy_stmgc.LargeMalloc.Coalesce.{coalesce}
use pypy_stmgc.LargeMalloc.Sorted.{Columns, Sorted-insert_unsorted, Sorted-update}
use pypy_stmgc.LargeMalloc.Arena.{IsArena, OutOfBins, large_free-IsArena}

-- With at least the room that the assertion in the code asks for, `_stm_largemalloc_init_arena` gives
-- an arena of one free block, of all its bytes but the headers of the block and of the last chunk, and
-- bins that are in order.
pub init_arena-IsArena :
    (data_start data_size : ℕ) (m : Mem)
    → 96 ≤ data_size
    → IsArena (init_arena data_start data_size m) (free (data_size - 32) ∷ [])
unfolding init_arena Blocks span status Rest free_at Columns
init_arena-IsArena start data_size m big =
    let size = data_size - 32 in
    let last = start + (data_size - 16) in
    let h : Heap = record {
      prev_size = update (update (λ _. 0) start this_chunk_free) last size;
      size = update (update (λ _. 0) start size) last end_marker;
      first_chunk = start;
      last_chunk = last;
      bins = λ _. empty_bin;
      mem = m;
    } in
    (
      insert_unsorted-IsHeap h [] size [] start (omega arith) tt refl (ground arith) (omega arith)
          (ground arith) (omega arith, ground arith, ground arith) (λ i a. refl),
      Sorted-insert_unsorted start h (λ i. (0, tt)),
    )

-- What the last chunk says of the block before it.
pub Rest_end :
    (h : Heap) (bs : List Block)
    → IsHeap h bs
    → (h.first_chunk + span bs ≡ h.last_chunk)
      × (h.prev_size (h.first_chunk + span bs) ≡ status 0 bs)
      × Blocks h.size h.prev_size h.first_chunk 0 bs
unfolding Rest
Rest_end h bs (lay, _) =
    let (before, end) =
      Rest-split h.size h.prev_size h.last_chunk h.first_chunk 0 bs []
        (subst (Rest h.size h.prev_size h.last_chunk h.first_chunk 0) (sym (append-nil bs)) lay) in
    (end.0, end.1, before)

-- What was the last chunk, in front of a new one.
abbrev grown : Heap → ℕ → Heap
grown h new_last = record h {
  size = update (update h.size h.last_chunk (new_last - h.last_chunk - 16)) new_last end_marker;
  prev_size = update h.prev_size new_last 0;
  last_chunk = new_last;
}

OutOfBins-end :
    (h : Heap) (bs : List Block) (a : ℕ) → IsHeap h bs → h.last_chunk ≤ a → OutOfBins h a
OutOfBins-end h bs a heap low i =
    let (end, _, _) = Rest_end h bs heap in
    ground (arith, heap.1 i a, free_at-range h.first_chunk bs a, end)

Binned-grown :
    (h : Heap) (bs : List Block) (new_last : ℕ)
    → h.last_chunk < new_last
    → IsHeap h bs
    → Binned
        (grown h new_last)
        (free_at h.first_chunk (bs ++ used (new_last - h.last_chunk - 16) ∷ []))
unfolding free_at
Binned-grown h bs new_last more heap i a =
    let (end, _, _) = Rest_end h bs heap in
    ground (
      arith,
      heap.1 i a,
      free_at-append h.first_chunk bs (used (new_last - h.last_chunk - 16) ∷ []) a,
      free_at-range h.first_chunk bs a,
      end,
    )

grown-IsArena :
    (h : Heap) (bs : List Block) (new_last : ℕ)
    → h.last_chunk + 48 ≤ new_last
    → IsArena h bs
    → IsArena (grown h new_last) (bs ++ used (new_last - h.last_chunk - 16) ∷ [])
unfolding Rest
grown-IsArena h bs new_last more (heap, sorted) =
    let (end, at_end, before) = Rest_end h bs heap in
    let first = h.first_chunk in
    let old = h.last_chunk in
    let n = new_last - old - 16 in
    let g = grown h new_last in
    (
      (
        Rest-append g.size g.prev_size new_last first 0 bs (used n ∷ [])
            (Blocks-frame h.size h.prev_size g.size g.prev_size first 0 bs
              (λ a low high. (ground (arith, end), ground (arith, end))) before)
            (
              (
                ground (arith, end),
                omega arith,
                ground (arith, at_end, end, prev_field_used (status 0 bs) n),
                λ _. refl,
              ),
              (omega (arith, end), ground (arith, end), ground (arith, end)),
            ),
        Binned-grown h bs new_last (omega arith) heap,
      ),
      Sorted-update (record h { size = update h.size old n }) new_last end_marker
          (OutOfBins-end h bs new_last heap (omega arith))
          (Sorted-update h old n (OutOfBins-end h bs old heap (omega arith)) sorted),
    )

-- The arena grows by a free block, which is joined with a free one before it.
pub grow_arena-IsArena :
    (h : Heap) (bs : List Block) (new_last : ℕ)
    → h.last_chunk + 48 ≤ new_last
    → IsArena h bs
    → IsArena (grow_arena new_last h) (coalesce (bs ++ free (new_last - h.last_chunk - 16) ∷ []))
unfolding grow_arena
grow_arena-IsArena h bs new_last more arena =
    let (end, _, _) = Rest_end h bs arena.0 in
    let n = new_last - h.last_chunk - 16 in
    subst (λ c. IsArena (large_free c (grown h new_last)) (coalesce (bs ++ free n ∷ []))) end
      (large_free-IsArena (grown h new_last) bs n [] (grown-IsArena h bs new_last more arena))
