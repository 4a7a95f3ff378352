-- ===== src/LargeMalloc/NextUsed.antt =====
-- c7/stm/largemalloc.c: the next chunk in use, from which the sweep goes on.
use pypy_stmgc.Base.{
  ℕ, suc, ◌+◌, ◌≤◌, ◌≡◌, refl, ap, ◌∙◌, Bool, true, false, ◌==◌, if◌then◌else◌, List, [], ◌∷◌, ◌++◌,
  arith, Bool-cases, inl, inr,
}
use pypy_stmgc.LargeMalloc.{
  Heap, next_chunk, insert_unsorted, merge_previous, merge_next, unlink_chunk, large_free,
}
use pypy_stmgc.LargeMalloc.Layout.{
  Block, used, free, span, span-append, starts_used, Rest, Rest-split, Rest-last,
}
use pypy_stmgc.LargeMalloc.Coalesce.{first_chunk-merge_next}
use pypy_stmgc.LargeMalloc.Loose.{Rest-starts_used}
use pypy_stmgc.LargeMalloc.Arena.{IsArena}

-- The chunks in use that are not kept are free.
unfoldable pub discard : (ℕ → Bool) → ℕ → List Block → List Block
discard keep p [] = []
discard keep p (free n ∷ bs) = free n ∷ discard keep (p + (16 + n)) bs
discard keep p (used n ∷ bs) =
    (if keep (p + 16) then used n else free n) ∷ discard keep (p + (16 + n)) bs

abbrev pub block_count : List Block → ℕ
block_count [] = 0
block_count (_ ∷ bs) = suc (block_count bs)

first_chunk-merge_previous : (c : ℕ) (h : Heap) → (merge_previous c h).first_chunk ≡ h.first_chunk
unfolding merge_previous unlink_chunk insert_unsorted
first_chunk-merge_previous c h = elim (Bool-cases (h.prev_size c == 0)) [
  | inl e ↦ rw e refl
  | inr e ↦ rw e refl
]

pub first_chunk-large_free : (c : ℕ) (h : Heap) → (large_free c h).first_chunk ≡ h.first_chunk
unfolding large_free
first_chunk-large_free c h =
    first_chunk-merge_previous c (merge_next c _) ∙ first_chunk-merge_next c _

-- The free block in front, and the blocks behind it.
abbrev pub gap : List Block → List Block
gap (free k ∷ bs) = free k ∷ []
gap bs = []

abbrev pub behind_gap : List Block → List Block
behind_gap (free k ∷ bs) = bs
behind_gap bs = bs

pub gap-behind_gap : (bs : List Block) → gap bs ++ behind_gap bs ≡ bs
gap-behind_gap [] = refl
gap-behind_gap (used k ∷ bs) = refl
gap-behind_gap (free k ∷ bs) = refl

pub block_count-behind_gap : (bs : List Block) → block_count (behind_gap bs) ≤ block_count bs
block_count-behind_gap [] = omega arith
block_count-behind_gap (used k ∷ bs) = omega arith
block_count-behind_gap (free k ∷ bs) = omega arith

abbrev pub next_used : Heap → ℕ → ℕ
next_used h chunk =
    let after = next_chunk h chunk in if h.prev_size after == 1 then next_chunk h after else after

pub starts_used-behind_gap :
    (size prev_size : ℕ → ℕ) (last p : ℕ) (bs : List Block)
    → Rest size prev_size last p 0 bs
    → starts_used (behind_gap bs) ≡ true
unfolding Rest
starts_used-behind_gap size prev_size last p [] r = refl
starts_used-behind_gap size prev_size last p (used k ∷ bs) r = refl
starts_used-behind_gap size prev_size last p (free k ∷ bs) ((_, big, _, _), r) =
    Rest-starts_used k (omega arith) size prev_size last (p + (16 + k)) bs r

-- The next chunk in use, or the last chunk, when the free one is passed over.
pub after_gap :
    (h : Heap) (p : ℕ) (bs : List Block)
    → Rest h.size h.prev_size h.last_chunk p 0 bs
    → (if h.prev_size p == 1 then next_chunk h p else p) ≡ p + span (gap bs)
unfolding Rest span next_chunk
after_gap h p [] (_, f, _) = rw f (omega arith)
after_gap h p (used k ∷ bs) ((_, _, f, _), _) = rw f (omega arith)
after_gap h p (free k ∷ bs) ((s, _, f, _), _) = rw (f, s) (omega arith)

pub next_used-gap :
    (h : Heap) (xs : List Block) (n : ℕ) (ys : List Block)
    → IsArena h (xs ++ used n ∷ ys)
    → (next_used h (h.first_chunk + span xs) ≡ h.first_chunk + span (xs ++ used n ∷ gap ys))
      × ((h.first_chunk + span xs == h.last_chunk) ≡ false)
      × (starts_used (behind_gap ys) ≡ true)
unfolding Rest span next_chunk
next_used-gap h xs n ys ((lay, _), _) =
    let c = h.first_chunk + span xs in
    let (_, here) =
      Rest-split h.size h.prev_size h.last_chunk h.first_chunk 0 xs (used n ∷ ys) lay in
    let ((s, big, _, _), rest) = here in
    let p = c + (16 + n) in
    let end = Rest-last h.size h.prev_size h.last_chunk p 0 ys rest in
    let next : c + (16 + h.size c) ≡ p = omega (arith, s) in
    (
      ap (λ q. if h.prev_size q == 1 then next_chunk h q else q) next
          ∙ (after_gap h p ys rest ∙ omega (arith, span-append xs (used n ∷ gap ys))),
      ground (arith, end),
      starts_used-behind_gap h.size h.prev_size h.last_chunk p ys rest,
    )
