-- ===== src/LargeMalloc/Whole.antt =====
-- c7/stm/largemalloc.c: taking a free chunk as a whole.
use pypy_stmgc.Base.{
  ℕ, ◌+◌, ◌-◌, ◌≤◌, ◌≡◌, refl, ap, sym, ◌∙◌, subst, true, ◌&&◌, ◌||◌, ltb, ◌==◌, if◌then◌else◌,
  update, List, [], ◌∷◌, ◌++◌, arith,
}
use pypy_stmgc.LargeMalloc.{
  Heap, count, bin_of, next_chunk, unlink_chunk, split_chunk, both_chunks_used, this_chunk_free,
}
use pypy_stmgc.LargeMalloc.Bins.{in_bin, in-unlink_chunk}
use pypy_stmgc.LargeMalloc.Layout.{
  Block, used, free, span, status, free_at, starts_used, Blocks, Rest, Rest-split, Rest-append,
  Blocks-frame, Rest-restatus, free_at-append, free_at-range,
}
use pypy_stmgc.LargeMalloc.Loose.{IsHeap, Rest-starts_used}
use pypy_stmgc.LargeMalloc.Sorted.{Sorted-unlink_chunk}
use pypy_stmgc.LargeMalloc.Arena.{IsArena}

-- What becomes of a free block of size `n` when `request` bytes are taken: the rest is a block if it
-- has room for the header and the pointers of a free chunk.
abbrev pub cut : ℕ → ℕ → List Block
cut request n =
    if ltb (n - request) 48 then used n ∷ [] else used request ∷ free (n - request - 16) ∷ []

-- What the layout says of a free chunk and its surroundings.
abbrev Around : Heap → List Block → ℕ → List Block → Type 0
Around h xs n ys =
    let a = h.first_chunk + span xs in
    Blocks h.size h.prev_size h.first_chunk 0 xs
    × (h.size a ≡ n)
    × (32 ≤ n)
    × (status 0 xs ≡ 0)
    × (starts_used ys ≡ true)
    × Rest h.size h.prev_size h.last_chunk (a + (16 + n)) n ys

pub free-Around :
    (h : Heap) (xs : List Block) (n : ℕ) (ys : List Block)
    → IsHeap h (xs ++ free n ∷ ys)
    → Around h xs n ys
unfolding Rest
free-Around h xs n ys (lay, _) =
    let first = h.first_chunk in
    let a = first + span xs in
    let (before, here) = Rest-split h.size h.prev_size h.last_chunk first 0 xs (free n ∷ ys) lay in
    let ((s, big, f, alone), rest) = here in
    (
      before,
      s,
      big,
      ground (arith, alone),
      Rest-starts_used n (omega arith) h.size h.prev_size h.last_chunk (a + (16 + n)) ys rest,
      rest,
    )

pub prev_size-free :
    (h : Heap) (xs : List Block) (n : ℕ) (ys : List Block)
    → IsHeap h (xs ++ free n ∷ ys)
    → h.prev_size (h.first_chunk + span xs) ≡ this_chunk_free
unfolding Rest
prev_size-free h xs n ys (lay, _) =
    let (_, here) =
      Rest-split h.size h.prev_size h.last_chunk h.first_chunk 0 xs (free n ∷ ys) lay in
    let ((_, big, f, alone), _) = here in ground (arith, f, alone)

-- The free chunks but the one that is taken out of its bin.
pub Binned-unlink_chunk :
    (h : Heap) (xs : List Block) (n : ℕ) (ys : List Block)
    → IsHeap h (xs ++ free n ∷ ys)
    → (i b : ℕ)
    → in_bin ((unlink_chunk (h.first_chunk + span xs) h).bins i) b ≡ (
        (free_at h.first_chunk xs b || free_at (h.first_chunk + span xs + (16 + n)) ys b)
        && i == bin_of (h.size b))
unfolding free_at
Binned-unlink_chunk h xs n ys (_, binned) i b =
    let a = h.first_chunk + span xs in
    ground (
      arith,
      in-unlink_chunk a h i b,
      binned i b,
      free_at-append h.first_chunk xs (free n ∷ ys) b,
      free_at-range h.first_chunk xs b,
      free_at-range (a + (16 + n)) ys b,
    )

split_chunk-whole :
    (h : Heap) (a request n : ℕ)
    → h.size a ≡ n
    → ltb (n - request) 48 ≡ true
    → split_chunk a request (unlink_chunk a h)
      ≡ count (n + 16) (record (unlink_chunk a h) {
        prev_size = update (update h.prev_size (a + (16 + n)) both_chunks_used) a both_chunks_used;
      })
unfolding split_chunk unlink_chunk next_chunk
split_chunk-whole h a request n s small = rw (s, small) refl

pub whole-IsArena :
    (h : Heap) (xs : List Block) (n request : ℕ) (ys : List Block)
    → ltb (n - request) 48 ≡ true
    → IsArena h (xs ++ free n ∷ ys)
    → IsArena
        (split_chunk (h.first_chunk + span xs) request (unlink_chunk (h.first_chunk + span xs) h))
        (xs ++ used n ∷ ys)
unfolding Rest free_at unlink_chunk
whole-IsArena h xs n request ys small (heap, sorted) =
    let first = h.first_chunk in
    let a = first + span xs in
    let (before, s, big, alone, first_used, rest) = free-Around h xs n ys heap in
    let prev_size' =
      update (update h.prev_size (a + (16 + n)) both_chunks_used) a both_chunks_used in
    let new = count (n + 16) (record (unlink_chunk a h) { prev_size = prev_size' }) in
    let arena : IsArena new (xs ++ used n ∷ ys) = (
      (
        Rest-append h.size prev_size' h.last_chunk first 0 xs (used n ∷ ys)
            (Blocks-frame h.size h.prev_size h.size prev_size' first 0 xs
              (λ p low high. (refl, ground arith)) before)
            (
              (s, big, ground (arith, alone), λ _. refl),
              Rest-restatus h.size h.prev_size h.size prev_size' h.last_chunk (a + (16 + n)) n 0 ys
                  first_used (ground arith) refl (λ p low high. (refl, ground arith)) rest,
            ),
        λ i b.
            Binned-unlink_chunk h xs n ys heap i b
            ∙ ap (λ t. t && i == bin_of (h.size b)) (sym (free_at-append first xs (used n ∷ ys) b)),
      ),
      Sorted-unlink_chunk a h sorted,
    ) in
    subst (λ g. IsArena g (xs ++ used n ∷ ys)) (sym (split_chunk-whole h a request n s small)) arena
