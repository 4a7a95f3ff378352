-- ===== src/LargeMalloc/Coalesce.antt =====
-- c7/stm/largemalloc.c: what freeing a chunk does to the list of blocks.
use pypy_stmgc.Base.{
  ℕ, ◌+◌, ◌-◌, ◌^◌, ◌<◌, ◌≡◌, refl, ap, sym, ◌∙◌, subst, true, ◌==◌, w64, List, [], ◌∷◌, ◌++◌,
  append_assoc, arith, Bool-cases, inl, inr, ◌⊎◌,
}
use pypy_stmgc.Memory.{increment_total_allocated}
use pypy_stmgc.LargeMalloc.{Heap, unlink_chunk, merge_next, merge_previous, large_free}
use pypy_stmgc.LargeMalloc.Layout.{
  Block, used, free, span, status, Blocks, Rest, starts_used, Blocks-split, status_before_free,
  Rest-split,
}
use pypy_stmgc.LargeMalloc.Free.{merge_previous-used_lem, merge_previous-free_lem, status-snoc}
use pypy_stmgc.LargeMalloc.Loose.{IsHeap, Loose, absorb, IsHeap-Loose, Rest-starts_used}

-- A free block takes in a free block that follows it, with its header.
abbrev pub join : Block → List Block → List Block
join (used n) bs = used n ∷ bs
join (free n) [] = free n ∷ []
join (free n) (used k ∷ bs) = free n ∷ used k ∷ bs
join (free n) (free k ∷ bs) = free (n + 16 + k) ∷ bs

-- Free blocks that are next to each other become one.
unfoldable pub coalesce : List Block → List Block
coalesce [] = []
coalesce (b ∷ bs) = join b (coalesce bs)

join-absorb : (n : ℕ) (bs : List Block) → join (free n) bs ≡ free (absorb n bs).0 ∷ (absorb n bs).1
join-absorb n [] = refl
join-absorb n (used k ∷ bs) = refl
join-absorb n (free k ∷ bs) = ap (λ m. free m ∷ bs) (omega arith)

pub join_used : (n : ℕ) (bs : List Block) → starts_used bs ≡ true → join (free n) bs ≡ free n ∷ bs
join_used n [] h = refl
join_used n (used k ∷ bs) h = refl
join_used n (free k ∷ bs) h = absurd (ground (arith, h))

module _ (size prev_size : ℕ → ℕ) where
  -- The blocks of an arena stay as they are.
  pub coalesce-Rest :
      (last p prev : ℕ) (bs : List Block) → Rest size prev_size last p prev bs → coalesce bs ≡ bs
  unfolding Rest coalesce
  coalesce-Rest last p prev [] r = refl
  coalesce-Rest last p prev (used n ∷ bs) (h, r) =
      ap (λ cs. used n ∷ cs) (coalesce-Rest last (p + (16 + n)) 0 bs r)
  coalesce-Rest last p prev (free n ∷ bs) ((_, big, _, _), r) =
      ap (join (free n)) (coalesce-Rest last (p + (16 + n)) n bs r)
      ∙ join_used n bs (Rest-starts_used n (omega arith) size prev_size last (p + (16 + n)) bs r)

  coalesce-append :
      (p prev : ℕ) (xs zs : List Block)
      → Blocks size prev_size p prev xs
      → (0 < status prev xs → starts_used (coalesce zs) ≡ true)
      → coalesce (xs ++ zs) ≡ xs ++ coalesce zs
  unfolding Blocks coalesce status
  coalesce-append p prev [] zs r h = refl
  coalesce-append p prev (used n ∷ xs) zs (_, r) h =
      ap (λ cs. used n ∷ cs) (coalesce-append (p + (16 + n)) 0 xs zs r h)
  coalesce-append p prev (free n ∷ []) zs ((_, big, _, _), r) h =
      join_used n (coalesce zs) (h (omega arith))
  coalesce-append p prev (free n ∷ used k ∷ xs) zs (_, r) h =
      ap (join (free n)) (coalesce-append (p + (16 + n)) n (used k ∷ xs) zs r h)
  coalesce-append p prev (free n ∷ free k ∷ xs) zs ((_, big, _, _), r) h =
      absurd (ground (arith, r.0.3))

pub snoc_cases :
    (xs : List Block) → (xs ≡ []) ⊎ (((ws : List Block) × (b : Block) × xs ≡ ws ++ b ∷ []))
snoc_cases [] = inl refl
snoc_cases (x ∷ xs) = elim (snoc_cases xs) [
  | inl e ↦ inr ([], x, ap (λ ys. x ∷ ys) e)
  | inr (ws, b, e) ↦ inr (x ∷ ws, b, ap (λ ys. x ∷ ys) e)
]

pub coalesce-cong :
    (xs ys zs : List Block) → coalesce ys ≡ coalesce zs → coalesce (xs ++ ys) ≡ coalesce (xs ++ zs)
unfolding coalesce
coalesce-cong [] ys zs e = e
coalesce-cong (x ∷ xs) ys zs e = ap (join x) (coalesce-cong xs ys zs e)

-- The blocks with a loose chunk, which is no free block's neighbour on the right.
coalesce-Loose-used :
    (h : Heap) (xs : List Block) (sz : ℕ) (ys : List Block)
    → Loose h xs sz ys
    → coalesce (free sz ∷ ys) ≡ free sz ∷ ys
unfolding coalesce
coalesce-Loose-used h xs sz ys (before, s, big, f, behind, binned) =
    let p = h.first_chunk + span xs + (16 + sz) in
    ap (join (free sz)) (coalesce-Rest h.size h.prev_size h.last_chunk p sz ys behind)
    ∙ join_used sz ys
        (Rest-starts_used sz (omega arith) h.size h.prev_size h.last_chunk p ys behind)

merge_previous-used_blocks :
    (h : Heap) (xs : List Block) (sz : ℕ) (ys : List Block)
    → status 0 xs ≡ 0
    → Loose h xs sz ys
    → IsHeap (merge_previous (h.first_chunk + span xs) h) (coalesce (xs ++ free sz ∷ ys))
merge_previous-used_blocks h xs sz ys alone loose =
    let e =
      coalesce-append h.size h.prev_size h.first_chunk 0 xs (free sz ∷ ys) loose.0
        (λ pos. absurd (omega (arith, alone)))
      ∙ ap (λ zs. xs ++ zs) (coalesce-Loose-used h xs sz ys loose) in
    subst (IsHeap (merge_previous (h.first_chunk + span xs) h)) (sym e)
      (merge_previous-used_lem h xs sz ys alone loose)

merge_previous-free_blocks :
    (h : Heap) (ws : List Block) (w sz : ℕ) (ys : List Block)
    → Loose h (ws ++ free w ∷ []) sz ys
    → IsHeap
        (merge_previous (h.first_chunk + span (ws ++ free w ∷ [])) h)
        (coalesce ((ws ++ free w ∷ []) ++ free sz ∷ ys))
unfolding coalesce
merge_previous-free_blocks h ws w sz ys loose =
    let (front, _) = Blocks-split h.size h.prev_size h.first_chunk 0 ws (free w ∷ []) loose.0 in
    let alone = status_before_free h.size h.prev_size h.first_chunk 0 ws w loose.0 in
    let e =
      ap coalesce (append_assoc ws (free w ∷ []) (free sz ∷ ys))
      ∙ (coalesce-append h.size h.prev_size h.first_chunk 0 ws (free w ∷ free sz ∷ ys) front
            (λ pos. absurd (omega (arith, alone)))
          ∙ ap (λ zs. ws ++ join (free w) zs)
              (coalesce-Loose-used h (ws ++ free w ∷ []) sz ys loose)) in
    subst (IsHeap (merge_previous (h.first_chunk + span (ws ++ free w ∷ [])) h)) (sym e)
      (merge_previous-free_lem h ws w sz ys loose)

merge_previous_lem :
    (h : Heap) (xs : List Block) (sz : ℕ) (ys : List Block)
    → Loose h xs sz ys
    → IsHeap (merge_previous (h.first_chunk + span xs) h) (coalesce (xs ++ free sz ∷ ys))
unfolding status
merge_previous_lem h xs sz ys loose = elim (snoc_cases xs) [
  | inl e ↦ merge_previous-used_blocks h xs sz ys (ap (status 0) e) loose
  | inr (ws, used n, e) ↦
      merge_previous-used_blocks h xs sz ys (ap (status 0) e ∙ status-snoc 0 ws (used n)) loose
  | inr (ws, free w, e) ↦
      subst
        (λ zs. IsHeap (merge_previous (h.first_chunk + span zs) h) (coalesce (zs ++ free sz ∷ ys)))
        (sym e) (merge_previous-free_blocks h ws w sz ys (subst (λ zs. Loose h zs sz ys) e loose))
]

coalesce-behind :
    (h : Heap) (xs : List Block) (sz : ℕ) (ys : List Block)
    → IsHeap h (xs ++ used sz ∷ ys)
    → coalesce ys ≡ ys
unfolding Rest
coalesce-behind h xs sz ys (lay, _) =
    let (_, here) =
      Rest-split h.size h.prev_size h.last_chunk h.first_chunk 0 xs (used sz ∷ ys) lay in
    coalesce-Rest h.size h.prev_size h.last_chunk (h.first_chunk + span xs + (16 + sz)) 0 ys here.1

pub first_chunk-merge_next : (c : ℕ) (h : Heap) → (merge_next c h).first_chunk ≡ h.first_chunk
unfolding merge_next unlink_chunk
first_chunk-merge_next c h = elim (Bool-cases (h.prev_size (c + (h.size c + 16)) == 0)) [
  | inl e ↦ rw e refl
  | inr e ↦ rw e refl
]

-- For a heap whose arena holds the blocks `xs`, a chunk in use and the blocks `ys`: after
-- `_stm_large_free` of the chunk it holds these blocks with the chunk free and joined with its free
-- neighbours, and every free chunk is in the bin for its size and in no other.
pub large_free_lem :
    (h : Heap) (xs : List Block) (sz : ℕ) (ys : List Block)
    → IsHeap h (xs ++ used sz ∷ ys)
    → IsHeap (large_free (h.first_chunk + span xs) h) (coalesce (xs ++ free sz ∷ ys))
unfolding large_free coalesce
large_free_lem h xs sz ys heap =
    let c = h.first_chunk + span xs in
    let counted = record h {
      mem = increment_total_allocated h.mem (w64 (2 ^ 64 - (h.size c + 16)));
    } in
    let loose = IsHeap-Loose counted xs sz ys heap in
    let e =
      coalesce-Loose-used (merge_next c counted) xs (absorb sz ys).0 (absorb sz ys).1 loose
      ∙ (sym (join-absorb sz ys) ∙ sym (ap (join (free sz)) (coalesce-behind h xs sz ys heap))) in
    subst (IsHeap (merge_previous c (merge_next c counted)))
      (coalesce-cong xs (free (absorb sz ys).0 ∷ (absorb sz ys).1) (free sz ∷ ys) e)
      (subst
        (λ p.
          IsHeap (merge_previous (p + span xs) (merge_next c counted))
            (coalesce (xs ++ free (absorb sz ys).0 ∷ (absorb sz ys).1)))
        (first_chunk-merge_next c counted)
        (merge_previous_lem (merge_next c counted) xs (absorb sz ys).0 (absorb sz ys).1 loose))
