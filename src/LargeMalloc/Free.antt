-- ===== src/LargeMalloc/Free.antt =====
-- c7/stm/largemalloc.c: freeing a chunk, with the merges with its neighbours.
use pypy_stmgc.Base.{
  ℕ, ◌+◌, ◌-◌, ◌≤◌, ◌<◌, ◌≡◌, refl, ap, sym, ◌∙◌, subst, true, false, not, ◌&&◌, ◌||◌, ◌==◌, update,
  List, [], ◌∷◌, ◌++◌, arith,
}
use pypy_stmgc.LargeMalloc.{
  Heap, bin_of, next_chunk, insert_unsorted, unlink_chunk, merge_previous, this_chunk_free,
}
use pypy_stmgc.LargeMalloc.Bins.{in-unlink_chunk, in-insert_unsorted}
use pypy_stmgc.LargeMalloc.Layout.{
  Block, free, free_size, span, status, Blocks, Rest, free_at, span-append, free_at-append,
  free_at-range, Blocks-split, status_before_free, Rest-append, Blocks-frame, Rest-frame,
  Rest-restatus,
}
use pypy_stmgc.LargeMalloc.Loose.{Binned, IsHeap, Loose, Rest-starts_used}

-- A free chunk between the blocks is put in its bin.
pub insert_unsorted-IsHeap :
    (h : Heap) (xs : List Block) (n : ℕ) (ys : List Block) (c : ℕ)
    → h.first_chunk + span xs ≡ c
    → Blocks h.size h.prev_size h.first_chunk 0 xs
    → status 0 xs ≡ 0
    → h.size c ≡ n
    → 32 ≤ n
    → h.prev_size c ≡ this_chunk_free
    → Rest h.size h.prev_size h.last_chunk (c + (16 + n)) n ys
    → Binned h (λ a. free_at h.first_chunk xs a || free_at (c + (16 + n)) ys a)
    → IsHeap (insert_unsorted c h) (xs ++ free n ∷ ys)
unfolding Rest free_at insert_unsorted
insert_unsorted-IsHeap h xs n ys c at_c before alone s big f behind binned = (
  Rest-append h.size h.prev_size h.last_chunk h.first_chunk 0 xs (free n ∷ ys) before
      (rw (at_c, alone) ((s, big, f, λ pos. absurd (omega arith)), behind)),
  λ i a.
      let all = rw at_c at (free_at-append h.first_chunk xs (free n ∷ ys) a) in
      ground (arith, in-insert_unsorted c h i a, binned i a, all),
)

merge_previous-used :
    (h : Heap) (c : ℕ)
    → h.prev_size c ≡ 0
    → merge_previous c h
      ≡ insert_unsorted c (record h { prev_size = update h.prev_size c this_chunk_free })
unfolding merge_previous
merge_previous-used h c e = rw e refl

merge_previous-free :
    (h : Heap) (m c w sz : ℕ)
    → c ≡ m + (16 + w)
    → 0 < w
    → h.prev_size c ≡ w
    → h.size c ≡ sz
    → merge_previous c h
      ≡ insert_unsorted m (record (unlink_chunk m h) {
        size = update h.size m (w + 16 + sz);
        prev_size = update h.prev_size (m + (16 + (w + 16 + sz))) (w + 16 + sz);
      })
unfolding merge_previous unlink_chunk next_chunk
merge_previous-free h m c w sz at_c pos ew es =
    let e : c - (w + 16) ≡ m = omega arith in
    let not_zero : (w == 0) ≡ false = ground arith in
    let here : (m == m) ≡ true = ground arith in rw (ew, es, not_zero, e, here) refl

pub merge_previous-used_lem :
    (h : Heap) (xs : List Block) (sz : ℕ) (ys : List Block)
    → status 0 xs ≡ 0
    → Loose h xs sz ys
    → IsHeap (merge_previous (h.first_chunk + span xs) h) (xs ++ free sz ∷ ys)
merge_previous-used_lem h xs sz ys alone (before, s, big, f, behind, binned) =
    let c = h.first_chunk + span xs in
    let prev_size' = update h.prev_size c this_chunk_free in
    subst (λ g. IsHeap g (xs ++ free sz ∷ ys)) (sym (merge_previous-used h c (f ∙ alone)))
      (insert_unsorted-IsHeap (record h { prev_size = prev_size' }) xs sz ys c refl
        (Blocks-frame h.size h.prev_size h.size prev_size' h.first_chunk 0 xs
          (λ a low high. (refl, ground arith)) before)
        alone s big (ground arith)
        (Rest-frame h.size h.prev_size h.size prev_size' h.last_chunk (c + (16 + sz)) sz ys
          (λ a low high. (refl, ground arith)) behind)
        binned)

pub status-snoc : (p : ℕ) (ws : List Block) (b : Block) → status p (ws ++ b ∷ []) ≡ free_size b
unfolding status
status-snoc p [] b = refl
status-snoc p (w ∷ ws) b = status-snoc (free_size w) ws b

pub merge_previous-free_lem :
    (h : Heap) (ws : List Block) (w sz : ℕ) (ys : List Block)
    → Loose h (ws ++ free w ∷ []) sz ys
    → IsHeap
        (merge_previous (h.first_chunk + span (ws ++ free w ∷ [])) h)
        (ws ++ free (w + 16 + sz) ∷ ys)
unfolding Blocks span free_at unlink_chunk
merge_previous-free_lem h ws w sz ys (before, s, big, f, behind, binned) =
    let first = h.first_chunk in
    let m = first + span ws in
    let c = first + span (ws ++ free w ∷ []) in
    let new = w + 16 + sz in
    let at_c : c ≡ m + (16 + w) = omega (arith, span-append ws (free w ∷ [])) in
    let (front, last_block) = Blocks-split h.size h.prev_size first 0 ws (free w ∷ []) before in
    let ((sw, big_w, fw, _), _) = last_block in
    let status_w : status 0 (ws ++ free w ∷ []) ≡ w = status-snoc 0 ws (free w) in
    let no_free = status_before_free h.size h.prev_size first 0 ws w before in
    let prev_size' = update h.prev_size (m + (16 + new)) new in
    let size' = update h.size m new in
    let e : c + (16 + sz) ≡ m + (16 + new) = omega (arith, at_c) in
    let behind' = rw e at behind in
    subst (λ g. IsHeap g (ws ++ free new ∷ ys))
      (sym (merge_previous-free h m c w sz at_c (omega arith) (f ∙ status_w) s))
      (insert_unsorted-IsHeap (record (unlink_chunk m h) { size = size'; prev_size = prev_size' })
        ws new ys m refl
        (Blocks-frame h.size h.prev_size size' prev_size' first 0 ws
          (λ a low high. (ground arith, ground arith)) front)
        no_free (ground arith) (omega arith) (ground (arith, fw))
        (Rest-restatus h.size h.prev_size size' prev_size' h.last_chunk (m + (16 + new)) sz new ys
          (Rest-starts_used sz (omega arith) h.size h.prev_size h.last_chunk (m + (16 + new)) ys
            behind')
          (ground arith) (ground arith) (λ a low high. (ground arith, ground arith)) behind')
        (λ i a.
          let all =
            in-unlink_chunk m h i a
            ∙ ap (λ b. b && not (a == m))
                (binned i a
                  ∙ ap (λ b. (b || free_at (c + (16 + sz)) ys a) && i == bin_of (h.size a))
                      (free_at-append first ws (free w ∷ []) a)) in
          ground
            (arith, rw e at all, free_at-range first ws a, free_at-range (m + (16 + new)) ys a)))
