-- ===== src/LargeMalloc/Split.antt =====
-- c7/stm/largemalloc.c: taking a free chunk, or a part of it.
use pypy_stmgc.Base.{
  ℕ, ◌+◌, ◌-◌, ◌≤◌, ◌<◌, ◌≡◌, refl, sym, subst, true, false, ◌&&◌, ◌||◌, ltb, ◌==◌, update, List,
  [], ◌∷◌, ◌++◌, append_assoc, arith, Bool-cases, inl, inr,
}
use pypy_stmgc.LargeMalloc.{
  Heap, count, bin_of, next_chunk, unlink_chunk, insert_unsorted, split_chunk, both_chunks_used,
  this_chunk_free,
}
use pypy_stmgc.LargeMalloc.Bins.{in_bin}
use pypy_stmgc.LargeMalloc.Layout.{
  Block, used, free, span, free_at, Blocks, Rest, span-append, Blocks-append, Blocks-frame,
  Rest-restatus, free_at-append, free_at-range,
}
use pypy_stmgc.LargeMalloc.Free.{insert_unsorted-IsHeap, status-snoc}
use pypy_stmgc.LargeMalloc.Loose.{Binned, IsHeap}
use pypy_stmgc.LargeMalloc.Sorted.{
  Sorted, Sorted-unlink_chunk, Sorted-insert_unsorted, Sorted-update,
}
use pypy_stmgc.LargeMalloc.Arena.{IsArena, OutOfBins}
use pypy_stmgc.LargeMalloc.Whole.{cut, free-Around, Binned-unlink_chunk, whole-IsArena}

-- The sizes and the fields `prev_size` after a chunk has been split; `rest` is the size of the new one.
abbrev split_size : (ℕ → ℕ) → ℕ → ℕ → ℕ → ℕ → ℕ
split_size size a request rest = update (update size (a + (16 + request)) rest) a request

abbrev split_prev_size : (ℕ → ℕ) → ℕ → ℕ → ℕ → ℕ → ℕ
split_prev_size prev_size a request rest =
    update
      (update (update prev_size (a + (16 + request)) this_chunk_free)
        (a + (16 + request) + (16 + rest)) rest)
      a both_chunks_used

abbrev cut_off : Heap → ℕ → ℕ → ℕ → Heap
cut_off h a request rest = record (unlink_chunk a h) {
  size = split_size h.size a request rest;
  prev_size = split_prev_size h.prev_size a request rest;
}

split_chunk-part :
    (h : Heap) (a request n : ℕ)
    → h.size a ≡ n
    → ltb (n - request) 48 ≡ false
    → split_chunk a request (unlink_chunk a h)
      ≡ count
          (request + 16)
          (insert_unsorted (a + (16 + request)) (cut_off h a request (n - request - 16)))
unfolding split_chunk unlink_chunk next_chunk insert_unsorted
split_chunk-part h a request n s large =
    let new = a + (16 + request) in
    let here : (new == new) ≡ true = ground arith in
    let apart : (new == a) ≡ false = ground arith in rw (s, large, here, apart) refl

pub OutOfBins-inside :
    (h : Heap) (xs : List Block) (n : ℕ) (ys : List Block) (b : ℕ)
    → IsHeap h (xs ++ free n ∷ ys)
    → h.first_chunk + span xs ≤ b
    → b < h.first_chunk + span xs + (16 + n)
    → OutOfBins (unlink_chunk (h.first_chunk + span xs) h) b
OutOfBins-inside h xs n ys b heap low high i = ground (
  arith,
  Binned-unlink_chunk h xs n ys heap i b,
  free_at-range h.first_chunk xs b,
  free_at-range (h.first_chunk + span xs + (16 + n)) ys b,
)

Sorted-cut_off :
    (h : Heap) (xs : List Block) (n request : ℕ) (ys : List Block)
    → 48 + request ≤ n
    → IsArena h (xs ++ free n ∷ ys)
    → Sorted (cut_off h (h.first_chunk + span xs) request (n - request - 16))
unfolding unlink_chunk
Sorted-cut_off h xs n request ys room (heap, sorted) =
    let a = h.first_chunk + span xs in
    let new = a + (16 + request) in
    let rest = n - request - 16 in
    let g = unlink_chunk a h in
    Sorted-update (record g { size = update h.size new rest }) a request
      (OutOfBins-inside h xs n ys a heap (omega arith) (omega arith))
      (Sorted-update g new rest (OutOfBins-inside h xs n ys new heap (omega arith) (omega arith))
        (Sorted-unlink_chunk a h sorted))

Binned-cut_off :
    (h : Heap) (xs : List Block) (n request : ℕ) (ys : List Block)
    → 48 + request ≤ n
    → IsHeap h (xs ++ free n ∷ ys)
    → (i b : ℕ)
    → in_bin ((unlink_chunk (h.first_chunk + span xs) h).bins i) b ≡ (
        (free_at h.first_chunk (xs ++ used request ∷ []) b
          || free_at (h.first_chunk + span xs + (16 + request) + (16 + (n - request - 16))) ys b)
        && i == bin_of (split_size h.size (h.first_chunk + span xs) request (n - request - 16) b))
unfolding free_at
Binned-cut_off h xs n request ys room heap i b =
    let a = h.first_chunk + span xs in
    let e : a + (16 + request) + (16 + (n - request - 16)) ≡ a + (16 + n) = omega arith in
    rw e (
      ground (
        arith,
        Binned-unlink_chunk h xs n ys heap i b,
        free_at-append h.first_chunk xs (used request ∷ []) b,
        free_at-range h.first_chunk xs b,
        free_at-range (a + (16 + n)) ys b,
      ))

cut_off-IsHeap :
    (h : Heap) (xs : List Block) (n request : ℕ) (ys : List Block)
    → 48 + request ≤ n
    → 32 ≤ request
    → IsHeap h (xs ++ free n ∷ ys)
    → IsHeap
        (insert_unsorted
          (h.first_chunk + span xs + (16 + request))
          (cut_off h (h.first_chunk + span xs) request (n - request - 16)))
        (xs ++ used request ∷ free (n - request - 16) ∷ ys)
unfolding Blocks Rest free_at unlink_chunk span
cut_off-IsHeap h xs n request ys room enough heap =
    let first = h.first_chunk in
    let a = first + span xs in
    let new = a + (16 + request) in
    let rest = n - request - 16 in
    let size' = split_size h.size a request rest in
    let prev_size' = split_prev_size h.prev_size a request rest in
    let (before, s, big, alone, first_used, behind) = free-Around h xs n ys heap in
    let e : new + (16 + rest) ≡ a + (16 + n) = omega arith in
    let all_before =
      Blocks-append size' prev_size' first 0 xs (used request ∷ [])
        (Blocks-frame h.size h.prev_size size' prev_size' first 0 xs
          (λ p low high. (ground arith, ground arith)) before)
        ((ground arith, enough, ground (arith, alone), λ _. refl), tt) in
    let all_behind =
      Rest-restatus h.size h.prev_size size' prev_size' h.last_chunk (a + (16 + n)) n rest ys
        first_used (ground (arith, e)) (ground (arith, e))
        (λ p low high. (ground arith, ground arith)) behind in
    let binned : Binned (cut_off h a request rest)
        (λ b. free_at first (xs ++ used request ∷ []) b || free_at (new + (16 + rest)) ys b) =
      Binned-cut_off h xs n request ys room heap in
    subst (IsHeap (insert_unsorted new (cut_off h a request rest)))
      (append_assoc xs (used request ∷ []) (free rest ∷ ys))
      (insert_unsorted-IsHeap (cut_off h a request rest) (xs ++ used request ∷ []) rest ys new
        (omega (arith, span-append xs (used request ∷ []))) all_before
        (status-snoc 0 xs (used request)) (ground arith) (omega arith) (ground arith)
        (rw (sym e) at all_behind) binned)

part-IsArena :
    (h : Heap) (xs : List Block) (n request : ℕ) (ys : List Block)
    → ltb (n - request) 48 ≡ false
    → 32 ≤ request
    → IsArena h (xs ++ free n ∷ ys)
    → IsArena
        (split_chunk (h.first_chunk + span xs) request (unlink_chunk (h.first_chunk + span xs) h))
        (xs ++ used request ∷ free (n - request - 16) ∷ ys)
part-IsArena h xs n request ys large enough arena =
    let a = h.first_chunk + span xs in
    let rest = n - request - 16 in
    let room : 48 + request ≤ n = ground arith in
    let (_, s, _, _, _, _) = free-Around h xs n ys arena.0 in
    let g = cut_off h a request rest in
    let result : IsArena (count (request + 16) (insert_unsorted (a + (16 + request)) g))
        (xs ++ used request ∷ free rest ∷ ys) =
      (
        cut_off-IsHeap h xs n request ys room enough arena.0,
        Sorted-insert_unsorted (a + (16 + request)) g (Sorted-cut_off h xs n request ys room arena),
      ) in
    subst (λ g'. IsArena g' (xs ++ used request ∷ free rest ∷ ys))
      (sym (split_chunk-part h a request n s large)) result

-- Taking a free chunk.
pub split_chunk-IsArena :
    (h : Heap) (xs : List Block) (n request : ℕ) (ys : List Block)
    → 32 ≤ request
    → IsArena h (xs ++ free n ∷ ys)
    → IsArena
        (split_chunk (h.first_chunk + span xs) request (unlink_chunk (h.first_chunk + span xs) h))
        (xs ++ (cut request n ++ ys))
split_chunk-IsArena h xs n request ys enough arena = elim (Bool-cases (ltb (n - request) 48)) [
  | inl e ↦ rw e (whole-IsArena h xs n request ys e arena)
  | inr e ↦ rw e (part-IsArena h xs n request ys e enough arena)
]
