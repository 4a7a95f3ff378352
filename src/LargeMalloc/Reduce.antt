-- ===== src/LargeMalloc/Reduce.antt =====
-- c7/stm/largemalloc.c: making the arena smaller, and the blocks it then has.
use pypy_stmgc.Base.{
  ℕ, ◌+◌, ◌-◌, ◌≤◌, ◌<◌, ◌≡◌, refl, sym, subst, Bool, true, false, ◌&&◌, ◌||◌, ltb, ◌==◌,
  if◌then◌else◌, update, Option, none, some, List, [], ◌∷◌, ◌++◌, arith,
}
use pypy_stmgc.LargeMalloc.{
  Heap, bin_of, insert_unsorted, unlink_chunk, reduce_arena, grow_arena, resize_arena, end_marker,
  this_chunk_free,
}
use pypy_stmgc.LargeMalloc.Bins.{in_bin}
use pypy_stmgc.LargeMalloc.Layout.{
  Block, used, free, span, free_at, free_at-range, Blocks-frame, Rest,
}
use pypy_stmgc.LargeMalloc.Free.{insert_unsorted-IsHeap}
use pypy_stmgc.LargeMalloc.Loose.{IsHeap}
use pypy_stmgc.LargeMalloc.Coalesce.{coalesce}
use pypy_stmgc.LargeMalloc.Sorted.{Sorted-insert_unsorted, Sorted-unlink_chunk, Sorted-update}
use pypy_stmgc.LargeMalloc.Arena.{IsArena, OutOfBins-unlink_chunk}
use pypy_stmgc.LargeMalloc.Split.{OutOfBins-inside}
use pypy_stmgc.LargeMalloc.Whole.{free-Around, prev_size-free, Binned-unlink_chunk}

abbrev shrink_last : ℕ → Block → Option (List Block)
shrink_last less (used n) = none
shrink_last less (free n) = if ltb n (less + 32) then none else some (free (n - less) ∷ [])

-- The last block, if it is free, loses some bytes, if it keeps enough for a free chunk.
unfoldable pub shrink : ℕ → List Block → Option (List Block)
shrink less [] = none
shrink less (b ∷ []) = shrink_last less b
shrink less (b ∷ c ∷ bs) = elim (shrink less (c ∷ bs)) [ some cs ↦ some (b ∷ cs) | none ↦ none ]

-- The blocks of an arena of the new size, if it can have that size.
unfoldable pub resize : ℕ → List Block → Option (List Block)
resize new_size bs =
    if ltb new_size 96
    then none
    else if ltb (new_size - 16) (span bs)
    then shrink (span bs - (new_size - 16)) bs
    else if ltb (span bs) (new_size - 16)
    then some (coalesce (bs ++ free (new_size - 16 - span bs - 16) ∷ []))
    else some bs

-- The answer of the function and the blocks after it.
abbrev pub Resized : ℕ → List Block → Bool × Heap → Type 0
Resized new_size bs (false, h) = (resize new_size bs ≡ none) × IsArena h bs
Resized new_size bs (true, h) = (cs : List Block) × (resize new_size bs ≡ some cs) × IsArena h cs

pub shrink-none :
    (less : ℕ) (ws : List Block) (b : Block)
    → shrink_last less b ≡ none
    → shrink less (ws ++ b ∷ []) ≡ none
unfolding shrink
shrink-none less [] b e = e
shrink-none less (w ∷ []) b e = rw (e, shrink) refl
shrink-none less (w ∷ v ∷ ws) b e = rw (shrink-none less (v ∷ ws) b e, shrink) refl

pub shrink-some :
    (less : ℕ) (ws : List Block) (b : Block) (cs : List Block)
    → shrink_last less b ≡ some cs
    → shrink less (ws ++ b ∷ []) ≡ some (ws ++ cs)
unfolding shrink
shrink-some less [] b cs e = e
shrink-some less (w ∷ []) b cs e = rw (e, shrink) refl
shrink-some less (w ∷ v ∷ ws) b cs e = rw (shrink-some less (v ∷ ws) b cs e, shrink) refl

-- The heap with the last block, which is free, made smaller.
abbrev reduced : Heap → ℕ → ℕ → ℕ → Heap
reduced h chunk n new_last = record (unlink_chunk chunk h) {
  size = update (update h.size chunk n) new_last end_marker;
  prev_size = update h.prev_size new_last n;
  last_chunk = new_last;
}

Binned-reduced :
    (h : Heap) (ws : List Block) (w n : ℕ)
    → IsHeap h (ws ++ free w ∷ [])
    → n < w
    → (i b : ℕ)
    → in_bin ((unlink_chunk (h.first_chunk + span ws) h).bins i) b ≡ (
        (free_at h.first_chunk ws b || free_at (h.first_chunk + span ws + (16 + n)) [] b)
        && i
          == bin_of (
              update
                (update h.size (h.first_chunk + span ws) n)
                (h.first_chunk + span ws + (16 + n))
                end_marker
                b))
unfolding free_at
Binned-reduced h ws w n heap le i b =
    ground (arith, Binned-unlink_chunk h ws w [] heap i b, free_at-range h.first_chunk ws b)

prev_size-reduced :
    (h : Heap) (ws : List Block) (w n new_last : ℕ)
    → IsHeap h (ws ++ free w ∷ [])
    → h.first_chunk + span ws < new_last
    → update h.prev_size new_last n (h.first_chunk + span ws) ≡ this_chunk_free
prev_size-reduced h ws w n new_last heap above = ground (arith, prev_size-free h ws w [] heap)

reduced-IsArena :
    (h : Heap) (ws : List Block) (w n : ℕ)
    → 32 ≤ n
    → n < w
    → IsArena h (ws ++ free w ∷ [])
    → IsArena
        (insert_unsorted
          (h.first_chunk + span ws)
          (reduced h (h.first_chunk + span ws) n (h.first_chunk + span ws + (16 + n))))
        (ws ++ free n ∷ [])
unfolding Rest unlink_chunk
reduced-IsArena h ws w n big le (heap, sorted) =
    let first = h.first_chunk in
    let c = first + span ws in
    let new_last = c + (16 + n) in
    let g = reduced h c n new_last in
    let (before, s, _, alone, _, _) = free-Around h ws w [] heap in
    (
      insert_unsorted-IsHeap g ws n [] c refl
          (Blocks-frame h.size h.prev_size g.size g.prev_size first 0 ws
            (λ a low high. (ground arith, ground arith)) before)
          alone (ground arith) big (prev_size-reduced h ws w n new_last heap (omega arith))
          (refl, ground arith, ground arith) (Binned-reduced h ws w n heap le),
      Sorted-insert_unsorted c g (
          Sorted-update (record (unlink_chunk c h) { size = update h.size c n }) new_last end_marker
            (OutOfBins-inside h ws w [] new_last heap (omega arith) (omega arith))
            (Sorted-update (unlink_chunk c h) c n (OutOfBins-unlink_chunk c h)
              (Sorted-unlink_chunk c h sorted))),
    )

reduce_arena-reduced :
    (h : Heap) (c n new_last : ℕ)
    → new_last - c - 16 ≡ n
    → reduce_arena c new_last h ≡ insert_unsorted c (reduced h c n new_last)
unfolding reduce_arena unlink_chunk
reduce_arena-reduced h c n new_last e = rw e refl

pub reduce_arena-IsArena :
    (h : Heap) (ws : List Block) (w n : ℕ)
    → 32 ≤ n
    → n < w
    → IsArena h (ws ++ free w ∷ [])
    → IsArena
        (reduce_arena (h.first_chunk + span ws) (h.first_chunk + span ws + (16 + n)) h)
        (ws ++ free n ∷ [])
reduce_arena-IsArena h ws w n big less arena =
    let c = h.first_chunk + span ws in
    subst (λ g. IsArena g (ws ++ free n ∷ []))
      (sym (reduce_arena-reduced h c n (c + (16 + n)) (omega arith)))
      (reduced-IsArena h ws w n big less arena)

pub resize_arena-shrink :
    (h : Heap) (new_size w m : ℕ)
    → ltb new_size 96 ≡ false
    → ltb (h.first_chunk + (new_size - 16)) h.last_chunk ≡ true
    → h.prev_size h.last_chunk ≡ w
    → (w == 0) ≡ false
    → h.last_chunk - (w + 16) ≡ m
    → resize_arena new_size h ≡ (
        if ltb (h.first_chunk + (new_size - 16)) (m + 48)
        then (false, h)
        else (true, reduce_arena m (h.first_chunk + (new_size - 16)) h))
unfolding resize_arena
resize_arena-shrink h new_size w m e e' e'' pos at = rw (e, e', e'', pos, at) refl

pub resize_arena-used :
    (h : Heap) (new_size : ℕ)
    → ltb new_size 96 ≡ false
    → ltb (h.first_chunk + (new_size - 16)) h.last_chunk ≡ true
    → h.prev_size h.last_chunk ≡ 0
    → resize_arena new_size h ≡ (false, h)
unfolding resize_arena
resize_arena-used h new_size e e' e'' = rw (e, e', e'') refl

pub resize_arena-grow :
    (h : Heap) (new_size : ℕ)
    → ltb new_size 96 ≡ false
    → ltb (h.first_chunk + (new_size - 16)) h.last_chunk ≡ false
    → resize_arena new_size h ≡ (
        if ltb h.last_chunk (h.first_chunk + (new_size - 16))
        then (true, grow_arena (h.first_chunk + (new_size - 16)) h)
        else (true, h))
unfolding resize_arena
resize_arena-grow h new_size e e' = rw (e, e') refl

-- What the specification says in the branches.
pub resize-shrink :
    (new_size : ℕ) (bs : List Block)
    → ltb new_size 96 ≡ false
    → ltb (new_size - 16) (span bs) ≡ true
    → resize new_size bs ≡ shrink (span bs - (new_size - 16)) bs
unfolding resize
resize-shrink new_size bs e e' = rw (e, e') refl

pub resize-grow :
    (new_size : ℕ) (bs : List Block)
    → ltb new_size 96 ≡ false
    → ltb (new_size - 16) (span bs) ≡ false
    → resize new_size bs ≡ (
        if ltb (span bs) (new_size - 16)
        then some (coalesce (bs ++ free (new_size - 16 - span bs - 16) ∷ []))
        else some bs)
unfolding resize
resize-grow new_size bs e e' = rw (e, e') refl
