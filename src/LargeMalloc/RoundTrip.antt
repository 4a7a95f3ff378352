-- ===== src/LargeMalloc/RoundTrip.antt =====
-- c7/stm/largemalloc.c: freeing what has just been allocated.
use pypy_stmgc.Base.{
  ℕ, ◌+◌, ◌-◌, ◌≡◌, refl, ap, sym, ◌∙◌, subst, false, ltb, if◌then◌else◌, Option, none, some, List,
  [], ◌∷◌, ◌++◌, arith, Bool-cases, inl, inr,
}
use pypy_stmgc.LargeMalloc.{Heap, at_least, large_malloc, large_free, stm_large_free}
use pypy_stmgc.LargeMalloc.Layout.{Block, used, free, span}
use pypy_stmgc.LargeMalloc.Coalesce.{coalesce, join, coalesce-cong, coalesce-Rest}
use pypy_stmgc.LargeMalloc.Blocks.{join-join}
use pypy_stmgc.LargeMalloc.Arena.{IsArena, large_free-IsArena}
use pypy_stmgc.LargeMalloc.Whole.{cut}
use pypy_stmgc.LargeMalloc.Malloc.{Allocated, large_malloc-Allocated}

-- The heap after what was allocated has been freed, or after no allocation, has these blocks.
abbrev pub Restored : List Block → Option ℕ × Heap → Type 0
Restored bs (none, h) = IsArena h bs
Restored bs (some p, h) = IsArena (stm_large_free p h) bs

stm_large_free-at : (h : Heap) (p c : ℕ) → p ≡ c + 16 → stm_large_free p h ≡ large_free c h
unfolding stm_large_free
stm_large_free-at h p c e = let at : p - 16 ≡ c = omega (arith, e) in rw at refl

-- The two parts of a block are joined again.
join_parts :
    (request n : ℕ) (ys : List Block)
    → ltb (n - request) 48 ≡ false
    → coalesce (free request ∷ free (n - request - 16) ∷ ys) ≡ coalesce (free n ∷ ys)
unfolding coalesce
join_parts request n ys large =
    let size : request + 16 + (n - request - 16) ≡ n = ground arith in
    sym (join-join request (n - request - 16) (coalesce ys))
    ∙ ap (λ m. join (free m) (coalesce ys)) size

free_cut :
    (h : Heap) (xs : List Block) (request n : ℕ) (ys : List Block)
    → IsArena h (xs ++ (cut request n ++ ys))
    → IsArena (large_free (h.first_chunk + span xs) h) (coalesce (xs ++ free n ∷ ys))
free_cut h xs request n ys arena = elim (Bool-cases (ltb (n - request) 48)) [
  | inl e ↦ large_free-IsArena h xs n ys (
      subst
        (λ b.
          IsArena h (
            xs ++ ((if b then used n ∷ [] else used request ∷ free (n - request - 16) ∷ []) ++ ys)))
        e arena)
  | inr e ↦
      subst (IsArena (large_free (h.first_chunk + span xs) h))
        (coalesce-cong xs (free request ∷ free (n - request - 16) ∷ ys) (free n ∷ ys)
          (join_parts request n ys e))
        (large_free-IsArena h xs request (free (n - request - 16) ∷ ys) (
          subst
            (λ b. IsArena h (
              xs
              ++ ((if b then used n ∷ [] else used request ∷ free (n - request - 16) ∷ []) ++ ys)))
            e arena))
]

Allocated-Restored :
    (h : Heap) (bs : List Block) (request : ℕ) (result : Option ℕ × Heap)
    → IsArena h bs
    → Allocated h.first_chunk bs request result
    → Restored bs result
Allocated-Restored h bs request (none, h') arena (_, arena') = arena'
Allocated-Restored h bs request (some p, h') arena (xs, n, ys, e, at, _, same, arena') =
    let c = h'.first_chunk + span xs in
    let at_c : p ≡ c + 16 = omega (arith, at, same) in
    let blocks : coalesce (xs ++ free n ∷ ys) ≡ bs =
      ap coalesce (sym e)
      ∙ coalesce-Rest h.size h.prev_size h.last_chunk h.first_chunk 0 bs arena.0.0 in
    subst (λ g. IsArena g bs) (sym (stm_large_free-at h' p c at_c))
      (subst (IsArena (large_free c h')) blocks (free_cut h' xs request n ys arena'))

-- For a heap whose arena holds blocks and whose bins are in order: when the address that
-- `_stm_large_malloc` returns is given to `_stm_large_free`, the arena holds the blocks that it held
-- before the allocation, and the bins just the free ones, in order; so it is too when nothing was
-- returned.
pub malloc_free :
    (h : Heap) (bs : List Block) (request_size : ℕ)
    → IsArena h bs
    → Restored bs (large_malloc request_size h)
malloc_free h bs request_size arena =
    Allocated-Restored h bs (at_least request_size) (large_malloc request_size h) arena
      (large_malloc-Allocated h bs request_size arena)
