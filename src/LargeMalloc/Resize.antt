-- ===== src/LargeMalloc/Resize.antt =====
-- c7/stm/largemalloc.c: changing the size of the arena.
use pypy_stmgc.Base.{
  ℕ, ◌+◌, ◌-◌, ◌≤◌, ◌≡◌, refl, ap, sym, ◌∙◌, subst, true, false, ltb, none, List, [], ◌∷◌, ◌++◌,
  arith, Bool-cases, inl, inr, ◌⊎◌,
}
use pypy_stmgc.LargeMalloc.{Heap, reduce_arena, grow_arena, resize_arena}
use pypy_stmgc.LargeMalloc.Layout.{Block, used, free, span, span-append}
use pypy_stmgc.LargeMalloc.Free.{status-snoc}
use pypy_stmgc.LargeMalloc.Coalesce.{coalesce, snoc_cases}
use pypy_stmgc.LargeMalloc.Arena.{IsArena}
use pypy_stmgc.LargeMalloc.Whole.{free-Around}
use pypy_stmgc.LargeMalloc.Grow.{Rest_end, grow_arena-IsArena}
use pypy_stmgc.LargeMalloc.Reduce.{
  resize, Resized, shrink-none, shrink-some, reduce_arena-IsArena, resize_arena-shrink,
  resize_arena-used, resize_arena-grow, resize-shrink, resize-grow,
}

Resized-shrink_used :
    (h : Heap) (ws : List Block) (w new_size : ℕ)
    → ltb new_size 96 ≡ false
    → ltb (new_size - 16) (span (ws ++ used w ∷ [])) ≡ true
    → IsArena h (ws ++ used w ∷ [])
    → Resized new_size (ws ++ used w ∷ []) (resize_arena new_size h)
Resized-shrink_used h ws w new_size e e' arena =
    let bs = ws ++ used w ∷ [] in
    let (end, at_end, _) = Rest_end h bs arena.0 in
    let status_w = status-snoc 0 ws (used w) in
    subst (Resized new_size bs)
      (sym (
        resize_arena-used h new_size e (ground (arith, end))
          (ap h.prev_size (sym end) ∙ (at_end ∙ status_w))))
      (
        resize-shrink new_size bs e e' ∙ shrink-none (span bs - (new_size - 16)) ws (used w) refl,
        arena,
      )

Resized-shrink_free :
    (h : Heap) (ws : List Block) (w new_size : ℕ)
    → ltb new_size 96 ≡ false
    → ltb (new_size - 16) (span (ws ++ free w ∷ [])) ≡ true
    → IsArena h (ws ++ free w ∷ [])
    → Resized new_size (ws ++ free w ∷ []) (resize_arena new_size h)
unfolding span
Resized-shrink_free h ws w new_size e e' arena =
    let bs = ws ++ free w ∷ [] in
    let less = span bs - (new_size - 16) in
    let c = h.first_chunk + span ws in
    let (end, at_end, _) = Rest_end h bs arena.0 in
    let (_, _, big, _, _, _) = free-Around h ws w [] arena.0 in
    let size_bs : span bs ≡ span ws + (16 + w) = omega (arith, span-append ws (free w ∷ [])) in
    let at = ap h.prev_size (sym end) ∙ (at_end ∙ status-snoc 0 ws (free w)) in
    let run =
      resize_arena-shrink h new_size w c e (ground (arith, end)) at (ground arith)
        (omega (arith, end, size_bs)) in
    let spec = resize-shrink new_size bs e e' in
    elim (Bool-cases (ltb w (less + 32))) [
      | inl k ↦
          let k' : ltb (h.first_chunk + (new_size - 16)) (c + 48) ≡ true =
            ground (arith, size_bs) in
          subst (Resized new_size bs) (sym (rw k' at run))
            (spec ∙ shrink-none less ws (free w) (rw k refl), arena)
      | inr k ↦
          let n = w - less in
          let k' : ltb (h.first_chunk + (new_size - 16)) (c + 48) ≡ false =
            ground (arith, size_bs) in
          let at_new : c + (16 + n) ≡ h.first_chunk + (new_size - 16) = ground (arith, size_bs) in
          let reduced_arena =
            reduce_arena-IsArena h ws w n (ground arith) (ground (arith, size_bs)) arena in
          subst (Resized new_size bs) (sym (rw k' at run)) (
            ws ++ free n ∷ [],
            spec ∙ shrink-some less ws (free w) (free n ∷ []) (rw k refl),
            subst (λ p. IsArena (reduce_arena c p h) (ws ++ free n ∷ [])) at_new reduced_arena,
          )
    ]

Resized-grow :
    (h : Heap) (bs : List Block) (new_size : ℕ)
    → ltb new_size 96 ≡ false
    → ltb (new_size - 16) (span bs) ≡ false
    → (new_size ≤ span bs + 16) ⊎ (span bs + 64 ≤ new_size)
    → IsArena h bs
    → Resized new_size bs (resize_arena new_size h)
Resized-grow h bs new_size e e' room arena =
    let (end, _, _) = Rest_end h bs arena.0 in
    let new_last = h.first_chunk + (new_size - 16) in
    let run = resize_arena-grow h new_size e (ground (arith, end)) in
    let spec = resize-grow new_size bs e e' in
    elim (Bool-cases (ltb (span bs) (new_size - 16))) [
      | inl k ↦
          let k' : ltb h.last_chunk new_last ≡ true = ground (arith, end) in
          let far : h.last_chunk + 48 ≤ new_last = ground (arith, end, room) in
          let n : new_last - h.last_chunk - 16 ≡ new_size - 16 - span bs - 16 =
            omega (arith, end) in
          subst (Resized new_size bs) (sym (rw k' at run)) (
            coalesce (bs ++ free (new_size - 16 - span bs - 16) ∷ []),
            rw k at spec,
            subst (λ m. IsArena (grow_arena new_last h) (coalesce (bs ++ free m ∷ []))) n
                (grow_arena-IsArena h bs new_last far arena),
          )
      | inr k ↦
          let k' : ltb h.last_chunk new_last ≡ false = ground (arith, end) in
          subst (Resized new_size bs) (sym (rw k' at run)) (bs, rw k at spec, arena)
    ]

resize_arena-small :
    (h : Heap) (new_size : ℕ) → ltb new_size 96 ≡ true → resize_arena new_size h ≡ (false, h)
unfolding resize_arena
resize_arena-small h new_size e = rw e refl

resize-small : (new_size : ℕ) (bs : List Block) → ltb new_size 96 ≡ true → resize new_size bs ≡ none
unfolding resize
resize-small new_size bs e = rw e refl

Resized-shrink :
    (h : Heap) (bs : List Block) (new_size : ℕ)
    → ltb new_size 96 ≡ false
    → ltb (new_size - 16) (span bs) ≡ true
    → IsArena h bs
    → Resized new_size bs (resize_arena new_size h)
unfolding span
Resized-shrink h bs new_size e e' arena = elim (snoc_cases bs) [
  | inl k ↦ absurd (ground (arith, subst (λ cs. ltb (new_size - 16) (span cs) ≡ true) k e'))
  | inr (ws, used w, k) ↦
      subst (λ cs. Resized new_size cs (resize_arena new_size h)) (sym k)
        (Resized-shrink_used h ws w new_size e
          (subst (λ cs. ltb (new_size - 16) (span cs) ≡ true) k e') (subst (IsArena h) k arena))
  | inr (ws, free w, k) ↦
      subst (λ cs. Resized new_size cs (resize_arena new_size h)) (sym k)
        (Resized-shrink_free h ws w new_size e
          (subst (λ cs. ltb (new_size - 16) (span cs) ≡ true) k e') (subst (IsArena h) k arena))
]

-- For a heap whose arena holds blocks and whose bins are in order, and a new size that is not larger or
-- is larger by enough for a chunk: `_stm_largemalloc_resize_arena` says whether the arena can have that
-- size. If it can, a free block at the end has become smaller, or a free block has come to the end and
-- is joined with one that was there; if not, the arena holds the same blocks. The arena is well formed
-- in both cases.
pub resize_arena-Resized :
    (h : Heap) (bs : List Block) (new_size : ℕ)
    → (new_size ≤ span bs + 16) ⊎ (span bs + 64 ≤ new_size)
    → IsArena h bs
    → Resized new_size bs (resize_arena new_size h)
resize_arena-Resized h bs new_size room arena = elim (Bool-cases (ltb new_size 96)) [
  | inl e ↦
      subst (Resized new_size bs) (sym (resize_arena-small h new_size e))
        (resize-small new_size bs e, arena)
  | inr e ↦ elim (Bool-cases (ltb (new_size - 16) (span bs))) [
    | inl e' ↦ Resized-shrink h bs new_size e e' arena
    | inr e' ↦ Resized-grow h bs new_size e e' room arena
  ]
]
