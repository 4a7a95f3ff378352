-- ===== src/Examples/Allocator.antt =====
-- The theorems on c7/stm/largemalloc.c at an arena of 256 bytes.
use pypy_stmgc.Base.{◌+◌, ◌-◌, ◌≤◌, ◌<◌, ◌≡◌, refl, arith, ◌==◌, [], ◌∷◌, ◌++◌, some, inr}
use pypy_stmgc.LargeMalloc.{
  Heap, init_arena, insert_unsorted, unlink_chunk, split_chunk, at_least, large_malloc, large_free,
  resize_arena, largemalloc_sweep, largebin_index, bin_of, n_bins,
}
use pypy_stmgc.LargeMalloc.Layout.{used, free, span}
use pypy_stmgc.LargeMalloc.Bins.{largebin_lem}
use pypy_stmgc.LargeMalloc.Arena.{IsArena, large_free-IsArena}
use pypy_stmgc.LargeMalloc.Coalesce.{coalesce}
use pypy_stmgc.LargeMalloc.Split.{split_chunk-IsArena}
use pypy_stmgc.LargeMalloc.Malloc.{Allocated, large_malloc-Allocated}
use pypy_stmgc.LargeMalloc.RoundTrip.{Restored, malloc_free}
use pypy_stmgc.LargeMalloc.BestFit.{best_fit}
use pypy_stmgc.LargeMalloc.Reduce.{Resized, resize}
use pypy_stmgc.LargeMalloc.Resize.{resize_arena-Resized}
use pypy_stmgc.LargeMalloc.Sweep.{Swept, largemalloc_sweep-Swept}
use pypy_stmgc.LargeMalloc.NextUsed.{discard}
use pypy_stmgc.LargeMalloc.Grow.{init_arena-IsArena}
use pypy_stmgc.Examples.Data.{no_copies}

abbrev small_arena : Heap
small_arena = init_arena 1000 256 no_copies

-- The same after the first 40 bytes have been taken.
abbrev after_malloc : Heap
after_malloc = split_chunk 1000 40 (unlink_chunk 1000 small_arena)

init_arena_example : IsArena (init_arena 1000 256 no_copies) (free (256 - 32) ∷ [])
init_arena_example = init_arena-IsArena 1000 256 no_copies (omega arith)

small_arena-IsArena : IsArena small_arena (free 224 ∷ [])
small_arena-IsArena = init_arena-IsArena 1000 256 no_copies (omega arith)

after_malloc-IsArena : IsArena after_malloc (used 40 ∷ free 168 ∷ [])
unfolding init_arena span insert_unsorted
after_malloc-IsArena =
    split_chunk-IsArena small_arena [] 224 40 [] (omega arith) small_arena-IsArena

largebin_example :
    (largebin_index 100 < n_bins)
    × (100 ≤ 5000 → largebin_index 100 ≤ largebin_index 5000)
    × (bin_of 100 ≡ largebin_index 100)
largebin_example = largebin_lem 100 5000

large_malloc_example :
    Allocated small_arena.first_chunk (free 224 ∷ []) (at_least 8) (large_malloc 8 small_arena)
large_malloc_example = large_malloc-Allocated small_arena (free 224 ∷ []) 8 small_arena-IsArena

malloc_free_example : Restored (free 224 ∷ []) (large_malloc 8 small_arena)
malloc_free_example = malloc_free small_arena (free 224 ∷ []) 8 small_arena-IsArena

large_free_example :
    IsArena
      (large_free (after_malloc.first_chunk + span []) after_malloc)
      (coalesce ([] ++ free 40 ∷ free 168 ∷ []))
large_free_example = large_free-IsArena after_malloc [] 40 (free 168 ∷ []) after_malloc-IsArena

sweep_example :
    Swept
      (largemalloc_sweep (λ a. a == 0) 3 after_malloc)
      (coalesce (discard (λ a. a == 0) after_malloc.first_chunk (used 40 ∷ free 168 ∷ [])))
sweep_example =
    largemalloc_sweep-Swept (λ a. a == 0) 3 after_malloc (used 40 ∷ free 168 ∷ [])
      after_malloc-IsArena (omega arith)

resize_example : Resized 512 (used 40 ∷ free 168 ∷ []) (resize_arena 512 after_malloc)
unfolding span
resize_example =
    resize_arena-Resized after_malloc (used 40 ∷ free 168 ∷ []) 512 (inr (omega arith))
      after_malloc-IsArena

-- The shapes of blocks that the specifications give.
blocks_joined : coalesce (free 40 ∷ free 168 ∷ []) ≡ free 224 ∷ []
unfolding coalesce
blocks_joined = refl

smallest_taken : best_fit 32 (free 100 ∷ used 40 ∷ free 64 ∷ used 32 ∷ free 80 ∷ []) ≡ some 64
unfolding best_fit
smallest_taken = refl

blocks_grown : resize 512 (used 40 ∷ free 168 ∷ []) ≡ some (used 40 ∷ free 424 ∷ [])
unfolding resize span coalesce
blocks_grown = refl
