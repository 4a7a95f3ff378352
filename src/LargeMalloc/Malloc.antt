-- ===== src/LargeMalloc/Malloc.antt =====
-- c7/stm/largemalloc.c: allocating takes the smallest free block that fits.
use pypy_stmgc.Base.{
  ==_equal, ℕ, ◌+◌, ◌-◌, ltb, ◌≤◌, ◌≡◌, refl, ap, sym, ◌∙◌, subst, true, ◌&&◌, ◌==◌, Option, none,
  some, List, [], ◌∷◌, ◌++◌, arith, Bool-cases, Option-cases, inl, inr,
}
use pypy_stmgc.LargeMalloc.{
  Heap, insert_unsorted, unlink_chunk, sort_bin, largebin_index, find_chunk, split_chunk, at_least,
  large_malloc,
}
use pypy_stmgc.LargeMalloc.Layout.{
  Block, used, free, block_size, is_free, free_size, span, free_at, Rest,
}
use pypy_stmgc.LargeMalloc.Find.{Chosen, find_chunk-Chosen}
use pypy_stmgc.LargeMalloc.Loose.{IsHeap}
use pypy_stmgc.LargeMalloc.Arena.{IsArena, IsArena-sort_bin}
use pypy_stmgc.LargeMalloc.Split.{split_chunk-IsArena}
use pypy_stmgc.LargeMalloc.Whole.{cut, free-Around}
use pypy_stmgc.LargeMalloc.BestFit.{best_fit, has_free, best_fit-Best, Best-unique}

free_at-split :
    (p : ℕ) (bs : List Block) (a : ℕ)
    → free_at p bs a ≡ true
    → (xs : List Block) × (n : ℕ) × (ys : List Block) × (bs ≡ xs ++ free n ∷ ys) × (p + span xs ≡ a)
unfolding free_at span
free_at-split p [] a h = absurd (ground (arith, h))
free_at-split p (used n ∷ bs) a h =
    let (xs, k, ys, e, at) = free_at-split (p + (16 + n)) bs a h in
    (used n ∷ xs, k, ys, ap (λ zs. used n ∷ zs) e, omega (arith, at))
free_at-split p (free n ∷ bs) a h = elim (Bool-cases (p == a)) [
  | inl e ↦ ([], n, bs, refl, ground (arith, e))
  | inr e ↦
      let (xs, k, ys, e', at) = free_at-split (p + (16 + n)) bs a (ground (arith, h, e)) in
      (free n ∷ xs, k, ys, ap (λ zs. free n ∷ zs) e', omega (arith, at))
]

module _ (size prev_size : ℕ → ℕ) (last : ℕ) where
  has_free-free_at :
      (p prev : ℕ) (bs : List Block) (k : ℕ)
      → Rest size prev_size last p prev bs
      → has_free k bs ≡ true
      → (a : ℕ) × (free_at p bs a ≡ true) × (size a ≡ k)
  unfolding Rest free_at
  has_free-free_at p prev [] k r h = absurd (ground (arith, h))
  has_free-free_at p prev (b ∷ bs) k ((s, _, _, _), r) h =
      elim (Bool-cases (is_free b && block_size b == k)) [
        | inl e ↦ (p, ground (arith, e), ground (arith, s, e))
        | inr e ↦
            let (a, m, at) =
              has_free-free_at (p + (16 + block_size b)) (free_size b) bs k r
                (ground (arith, h, e)) in
            (a, ground (arith, m), at)
      ]

  free_at-has_free :
      (p prev : ℕ) (bs : List Block) (a : ℕ)
      → Rest size prev_size last p prev bs
      → free_at p bs a ≡ true
      → has_free (size a) bs ≡ true
  unfolding Rest free_at
  free_at-has_free p prev [] a r h = absurd (ground (arith, h))
  free_at-has_free p prev (b ∷ bs) a ((s, _, _, _), r) h =
      let ih = free_at-has_free (p + (16 + block_size b)) (free_size b) bs a r in
      elim (Bool-cases (is_free b && p == a)) [
        | inl e ↦
            let at : size a ≡ block_size b = ap size (sym (==_equal p a (ground (arith, e)))) ∙ s in
            ground (arith, e, at)
        | inr e ↦ ground (arith, h, e, ih)
      ]

-- What an allocation does: it takes the smallest free block that fits, or finds that there is none.
abbrev pub Allocated : ℕ → List Block → ℕ → Option ℕ × Heap → Type 0
Allocated first bs request (none, h) = (best_fit request bs ≡ none) × IsArena h bs
Allocated first bs request (some p, h) =
    (xs : List Block) × (n : ℕ) × (ys : List Block) × (bs ≡ xs ++ free n ∷ ys)
    × (p ≡ first + span xs + 16)
    × (best_fit request bs ≡ some n)
    × (h.first_chunk ≡ first)
    × IsArena h (xs ++ (cut request n ++ ys))

large_malloc-none :
    (h : Heap) (r : ℕ)
    → find_chunk (at_least r) h ≡ none
    → large_malloc r h ≡ (none, sort_bin (largebin_index (at_least r)) h)
unfolding large_malloc
large_malloc-none h r e = rw (e, large_malloc) refl

large_malloc-some :
    (h : Heap) (r a : ℕ) (h' : Heap)
    → find_chunk (at_least r) h ≡ some (a, h')
    → large_malloc r h ≡ (some (a + 16), split_chunk a (at_least r) (unlink_chunk a h'))
unfolding large_malloc
large_malloc-some h r a h' e = rw (e, large_malloc) refl

Allocated-none :
    (h : Heap) (bs : List Block) (request : ℕ)
    → IsArena h bs
    → Chosen h bs request none
    → best_fit request bs ≡ none
Allocated-none h bs request arena chosen =
    Best-unique request bs (best_fit request bs) none (best_fit-Best request bs) (λ k m.
      let (a, at, size_at) =
        has_free-free_at h.size h.prev_size h.last_chunk h.first_chunk 0 bs k arena.0.0 m in
      omega (arith, chosen a at, size_at))

Allocated-some :
    (h : Heap) (bs : List Block) (request : ℕ) (a : ℕ) (h' : Heap)
    → IsArena h bs
    → Chosen h bs request (some (a, h'))
    → best_fit request bs ≡ some (h.size a)
Allocated-some h bs request a h' arena (_, _, _, is_free, big, least) =
    Best-unique request bs (best_fit request bs) (some (h.size a)) (best_fit-Best request bs) (
      free_at-has_free h.size h.prev_size h.last_chunk h.first_chunk 0 bs a arena.0.0 is_free,
      big,
      λ k m big'.
          let (b, at, size_at) =
            has_free-free_at h.size h.prev_size h.last_chunk h.first_chunk 0 bs k arena.0.0 m in
          omega (arith, least b at (omega (arith, size_at)), size_at),
    )

first_chunk-split_chunk :
    (a request : ℕ) (h : Heap)
    → (split_chunk a request (unlink_chunk a h)).first_chunk ≡ h.first_chunk
unfolding split_chunk unlink_chunk insert_unsorted
first_chunk-split_chunk a request h = elim (Bool-cases (ltb (h.size a - request) 48)) [
  | inl e ↦ rw e refl
  | inr e ↦ rw e refl
]

large_malloc-found :
    (h : Heap) (bs : List Block) (request : ℕ) (a : ℕ) (h' : Heap)
    → 32 ≤ request
    → IsArena h bs
    → Chosen h bs request (some (a, h'))
    → Allocated h.first_chunk bs request (some (a + 16), split_chunk a request (unlink_chunk a h'))
large_malloc-found h bs request a h' enough arena chosen =
    let (arena', same_size, same_first, is_free, big, least) = chosen in
    let (xs, n, ys, e, at) = free_at-split h.first_chunk bs a is_free in
    let (_, s, _, _, _, _) = free-Around h xs n ys (subst (IsHeap h) e arena.0) in
    let size_a : h.size a ≡ n = ap h.size (sym at) ∙ s in
    let at' : h'.first_chunk + span xs ≡ a = ap (λ f. f + span xs) same_first ∙ at in
    (
      xs,
      n,
      ys,
      e,
      omega (arith, at),
      Allocated-some h bs request a h' arena chosen ∙ ap some size_a,
      first_chunk-split_chunk a request h' ∙ same_first,
      subst (λ c. IsArena (split_chunk c request (unlink_chunk c h')) (xs ++ (cut request n ++ ys)))
          at' (split_chunk-IsArena h' xs n request ys enough (subst (IsArena h') e arena')),
    )

-- For a heap whose arena holds blocks and whose bins are in order: `_stm_large_malloc` returns the
-- address of the data of a free block, one that has the smallest size among the free blocks with at
-- least the bytes of the request (or 32), which is in use afterwards, while what is left of it, if it
-- has room for a chunk, is a free block; and it returns nothing just if no free block has as many bytes.
pub large_malloc-Allocated :
    (h : Heap) (bs : List Block) (request_size : ℕ)
    → IsArena h bs
    → Allocated h.first_chunk bs (at_least request_size) (large_malloc request_size h)
large_malloc-Allocated h bs r arena =
    let request = at_least r in
    let chosen = find_chunk-Chosen h bs request arena in
    elim (Option-cases (find_chunk request h)) [
      | inl e ↦ subst (Allocated h.first_chunk bs request) (sym (large_malloc-none h r e)) (
        Allocated-none h bs request arena (subst (Chosen h bs request) e chosen),
        IsArena-sort_bin (largebin_index request) h bs arena,
      )
      | inr ((a, h'), e) ↦
          subst (Allocated h.first_chunk bs request) (sym (large_malloc-some h r a h' e)) (
            large_malloc-found h bs request a h' (ground arith) arena
              (subst (Chosen h bs request) e chosen))
    ]
