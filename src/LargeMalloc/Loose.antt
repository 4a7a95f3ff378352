-- ===== src/LargeMalloc/Loose.antt =====
-- c7/stm/largemalloc.c: a chunk that is being freed, after the merge with the chunk that follows.
use pypy_stmgc.Base.{
  ℕ, ◌+◌, ◌≤◌, ◌<◌, ◌≡◌, refl, ap, sym, ◌∙◌, subst, Bool, true, not, ◌&&◌, ◌||◌, ◌==◌, update, List,
  [], ◌∷◌, ◌++◌, arith,
}
use pypy_stmgc.LargeMalloc.{Heap, bin_of, unlink_chunk, merge_next}
use pypy_stmgc.LargeMalloc.Bins.{in_bin, in-unlink_chunk}
use pypy_stmgc.LargeMalloc.Layout.{
  Block, used, free, prev_field, span, status, Blocks, Rest, free_at, starts_used, free_at-append,
  free_at-range, Rest-split, Blocks-frame, Rest-restatus,
}

-- The free chunks are those that `is_at` tells, each in the bin for its size and in no other.
abbrev pub Binned : Heap → (ℕ → Bool) → Type 0
Binned h is_at = (i a : ℕ) → in_bin (h.bins i) a ≡ (is_at a && i == bin_of (h.size a))

-- The arena holds these blocks.
abbrev pub IsHeap : Heap → List Block → Type 0
IsHeap h bs =
    Rest h.size h.prev_size h.last_chunk h.first_chunk 0 bs × Binned h (free_at h.first_chunk bs)

-- A chunk of size `sz` is between the blocks, neither in use nor in a bin.
abbrev pub Loose : Heap → List Block → ℕ → List Block → Type 0
Loose h xs sz ys =
    let c = h.first_chunk + span xs in
    Blocks h.size h.prev_size h.first_chunk 0 xs
    × (h.size c ≡ sz)
    × (32 ≤ sz)
    × (h.prev_size c ≡ status 0 xs)
    × Rest h.size h.prev_size h.last_chunk (c + (16 + sz)) sz ys
    × Binned h (λ a. free_at h.first_chunk xs a || free_at (c + (16 + sz)) ys a)

-- The size of a chunk and the blocks behind it, after the merge with the first of these.
abbrev pub absorb : ℕ → List Block → ℕ × List Block
absorb sz [] = (sz, [])
absorb sz (used n ∷ ys) = (sz, used n ∷ ys)
absorb sz (free n ∷ ys) = (n + (sz + 16), ys)

merge_next-used :
    (h : Heap) (c sz : ℕ)
    → h.size c ≡ sz
    → h.prev_size (c + (16 + sz)) ≡ 0
    → merge_next c h ≡ record h { prev_size = update h.prev_size (c + (16 + sz)) sz }
unfolding merge_next
merge_next-used h c sz es e =
    let e' : c + (sz + 16) ≡ c + (16 + sz) = omega arith in rw (es, e', e) refl

merge_next-free :
    (h : Heap) (c sz n : ℕ)
    → h.size c ≡ sz
    → h.prev_size (c + (16 + sz)) ≡ 1
    → h.size (c + (16 + sz)) ≡ n
    → merge_next c h ≡ record (unlink_chunk (c + (16 + sz)) h) {
      size = update h.size c (n + (sz + 16));
      prev_size = update h.prev_size (c + (16 + (n + (sz + 16)))) (n + (sz + 16));
    }
unfolding merge_next unlink_chunk
merge_next-free h c sz n es e en =
    let e' : c + (sz + 16) ≡ c + (16 + sz) = omega arith in
    let e'' : c + (16 + sz) + (n + 16) ≡ c + (16 + (n + (sz + 16))) = omega arith in
    rw (es, e', e, en, e'') refl

pub prev_field_used : (p n : ℕ) → prev_field p (used n) ≡ p
prev_field_used p n = ground arith

pub Rest-starts_used :
    (prev : ℕ)
    → 0 < prev
    → (size prev_size : ℕ → ℕ) (last p : ℕ) (bs : List Block) → Rest size prev_size last p prev bs
    → starts_used bs ≡ true
unfolding Rest
Rest-starts_used prev pos size prev_size last p [] r = refl
Rest-starts_used prev pos size prev_size last p (b ∷ bs) ((_, _, _, alone), r) =
    ground (arith, alone pos)

IsHeap-Loose-used :
    (h : Heap) (xs : List Block) (sz n : ℕ) (ys : List Block)
    → IsHeap h (xs ++ used sz ∷ used n ∷ ys)
    → Loose (merge_next (h.first_chunk + span xs) h) xs sz (used n ∷ ys)
unfolding Rest status free_at
IsHeap-Loose-used h xs sz n ys (lay, binned) =
    let first = h.first_chunk in
    let c = first + span xs in
    let (before, here) =
      Rest-split h.size h.prev_size h.last_chunk first 0 xs (used sz ∷ used n ∷ ys) lay in
    let ((s, big, f, _), rest) = here in
    let prev_size' = update h.prev_size (c + (16 + sz)) sz in
    let loose : Loose (record h { prev_size = prev_size' }) xs sz (used n ∷ ys) = (
      Blocks-frame h.size h.prev_size h.size prev_size' first 0 xs
          (λ a low high. (refl, ground arith)) before,
      s,
      big,
      ground (arith, prev_field_used (status 0 xs) sz),
      Rest-restatus h.size h.prev_size h.size prev_size' h.last_chunk (c + (16 + sz)) 0 sz
          (used n ∷ ys) refl (ground arith) refl (λ a low high. (refl, ground arith)) rest,
      λ i a.
          binned i a
          ∙ ap (λ b. b && i == bin_of (h.size a))
              (free_at-append first xs (used sz ∷ used n ∷ ys) a),
    ) in
    subst (λ g. Loose g xs sz (used n ∷ ys)) (sym (merge_next-used h c sz s rest.0.2)) loose

IsHeap-Loose-last :
    (h : Heap) (xs : List Block) (sz : ℕ)
    → IsHeap h (xs ++ used sz ∷ [])
    → Loose (merge_next (h.first_chunk + span xs) h) xs sz []
unfolding Rest status free_at
IsHeap-Loose-last h xs sz (lay, binned) =
    let first = h.first_chunk in
    let c = first + span xs in
    let (before, here) = Rest-split h.size h.prev_size h.last_chunk first 0 xs (used sz ∷ []) lay in
    let ((s, big, f, _), rest) = here in
    let prev_size' = update h.prev_size (c + (16 + sz)) sz in
    let loose : Loose (record h { prev_size = prev_size' }) xs sz [] = (
      Blocks-frame h.size h.prev_size h.size prev_size' first 0 xs
          (λ a low high. (refl, ground arith)) before,
      s,
      big,
      ground (arith, prev_field_used (status 0 xs) sz),
      (rest.0, ground arith, rest.2),
      λ i a.
          binned i a
          ∙ ap (λ b. b && i == bin_of (h.size a)) (free_at-append first xs (used sz ∷ []) a),
    ) in
    subst (λ g. Loose g xs sz []) (sym (merge_next-used h c sz s rest.1)) loose

IsHeap-Loose-free :
    (h : Heap) (xs : List Block) (sz n : ℕ) (ys : List Block)
    → IsHeap h (xs ++ used sz ∷ free n ∷ ys)
    → Loose (merge_next (h.first_chunk + span xs) h) xs (n + (sz + 16)) ys
unfolding Rest status free_at unlink_chunk
IsHeap-Loose-free h xs sz n ys (lay, binned) =
    let first = h.first_chunk in
    let c = first + span xs in
    let (before, here) =
      Rest-split h.size h.prev_size h.last_chunk first 0 xs (used sz ∷ free n ∷ ys) lay in
    let ((s, big, f, _), there) = here in
    let ((s', big', f', _), rest) = there in
    let new = n + (sz + 16) in
    let prev_size' = update h.prev_size (c + (16 + new)) new in
    let size' = update h.size c new in
    let e : c + (16 + sz) + (16 + n) ≡ c + (16 + new) = omega arith in
    let behind = rw e at rest in
    let loose : Loose
        (record (unlink_chunk (c + (16 + sz)) h) { size = size'; prev_size = prev_size' }) xs new
        ys =
      (
        Blocks-frame h.size h.prev_size size' prev_size' first 0 xs
            (λ a low high. (ground arith, ground arith)) before,
        ground arith,
        omega arith,
        ground (arith, prev_field_used (status 0 xs) sz),
        Rest-restatus h.size h.prev_size size' prev_size' h.last_chunk (c + (16 + new)) n new ys
            (Rest-starts_used n (omega arith) h.size h.prev_size h.last_chunk (c + (16 + new)) ys
              behind)
            (ground arith) (ground arith) (λ a low high. (ground arith, ground arith)) behind,
        λ i a.
            let all =
              in-unlink_chunk (c + (16 + sz)) h i a
              ∙ ap (λ b. b && not (a == c + (16 + sz)))
                  (binned i a
                    ∙ ap (λ b. b && i == bin_of (h.size a))
                        (rw e at (free_at-append first xs (used sz ∷ free n ∷ ys) a))) in
            ground (arith, all, free_at-range first xs a, free_at-range (c + (16 + new)) ys a),
      ) in
    subst (λ g. Loose g xs new ys) (sym (merge_next-free h c sz n s f' s')) loose

pub IsHeap-Loose :
    (h : Heap) (xs : List Block) (sz : ℕ) (ys : List Block)
    → IsHeap h (xs ++ used sz ∷ ys)
    → Loose (merge_next (h.first_chunk + span xs) h) xs (absorb sz ys).0 (absorb sz ys).1
IsHeap-Loose h xs sz [] heap = IsHeap-Loose-last h xs sz heap
IsHeap-Loose h xs sz (used n ∷ ys) heap = IsHeap-Loose-used h xs sz n ys heap
IsHeap-Loose h xs sz (free n ∷ ys) heap = IsHeap-Loose-free h xs sz n ys heap
