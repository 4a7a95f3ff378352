-- ===== src/LargeMalloc/Sweep.antt =====
-- c7/stm/largemalloc.c: the sweep frees the chunks that are not kept.
use pypy_stmgc.Base.{
  ℕ, zero, suc, ◌+◌, ◌<◌, ◌≡◌, refl, ap, sym, ◌∙◌, subst, Bool, true, false, ◌==◌, if◌then◌else◌,
  Option, some, List, [], ◌∷◌, ◌++◌, append_assoc, arith,
}
use pypy_stmgc.LargeMalloc.{Heap, large_free, sweep_from, largemalloc_sweep}
use pypy_stmgc.LargeMalloc.Layout.{
  Block, used, free, block_size, span, span-append, starts_used, Rest, Rest-split, Rest-last,
}
use pypy_stmgc.LargeMalloc.Coalesce.{coalesce, coalesce-Rest}
use pypy_stmgc.LargeMalloc.Blocks.{span-coalesce, coalesce-coalesce, coalesce_before}
use pypy_stmgc.LargeMalloc.Arena.{IsArena, large_free-IsArena}
use pypy_stmgc.LargeMalloc.NextUsed.{
  discard, block_count, first_chunk-large_free, gap, behind_gap, gap-behind_gap,
  block_count-behind_gap, next_used, starts_used-behind_gap, after_gap, next_used-gap,
}

sweep_from-last :
    (keep : ℕ → Bool) (fuel : ℕ) (h : Heap) (chunk : ℕ)
    → chunk ≡ h.last_chunk
    → sweep_from keep (suc fuel) chunk h ≡ some h
unfolding sweep_from
sweep_from-last keep fuel h chunk e =
    let here : (chunk == h.last_chunk) ≡ true = ground (arith, e) in rw here refl

sweep_from-next :
    (keep : ℕ → Bool) (fuel : ℕ) (h : Heap) (chunk next : ℕ)
    → (chunk == h.last_chunk) ≡ false
    → next_used h chunk ≡ next
    → sweep_from keep (suc fuel) chunk h
      ≡ sweep_from keep fuel next (if keep (chunk + 16) then h else large_free chunk h)
unfolding sweep_from
sweep_from-next keep fuel h chunk next e e' = rw (e, e') refl

-- The sweep has come to an end, with these blocks.
abbrev pub Swept : Option Heap → List Block → Type 0
Swept result bs = (h : Heap) × (result ≡ some h) × IsArena h bs

-- One chunk in use of the loop.
abbrev Loop : (ℕ → Bool) → ℕ → Type 0
Loop keep fuel =
    (h : Heap) (xs ys : List Block)
    → IsArena h (xs ++ ys)
    → starts_used ys ≡ true
    → block_count ys < fuel
    → Swept (sweep_from keep fuel (h.first_chunk + span xs) h)
        (coalesce (xs ++ discard keep (h.first_chunk + span xs) ys))

sweep_from-empty :
    (keep : ℕ → Bool) (fuel : ℕ) (h : Heap) (xs : List Block)
    → IsArena h (xs ++ [])
    → Swept (sweep_from keep (suc fuel) (h.first_chunk + span xs) h) (coalesce (xs ++ []))
unfolding span
sweep_from-empty keep fuel h xs arena =
    let last = Rest-last h.size h.prev_size h.last_chunk h.first_chunk 0 (xs ++ []) arena.0.0 in
    (
      h,
      sweep_from-last keep fuel h (h.first_chunk + span xs)
          (omega (arith, last, span-append xs [])),
      subst (IsArena h)
          (sym (coalesce-Rest h.size h.prev_size h.last_chunk h.first_chunk 0 (xs ++ []) arena.0.0))
          arena,
    )

discard-gap :
    (keep : ℕ → Bool) (p : ℕ) (ys : List Block)
    → discard keep p ys ≡ gap ys ++ discard keep (p + span (gap ys)) (behind_gap ys)
unfolding discard span
discard-gap keep p [] = refl
discard-gap keep p (used n ∷ ys) = let e : p + 0 ≡ p = omega arith in rw e refl
discard-gap keep p (free n ∷ ys) =
    let e : p + (16 + n + 0) ≡ p + (16 + n) = omega arith in rw e refl

discard_behind :
    (keep : ℕ → Bool) (p q n : ℕ) (b : Block) (xs ys : List Block)
    → q ≡ p + (16 + n) + span (gap ys)
    → (xs ++ b ∷ gap ys) ++ discard keep q (behind_gap ys)
      ≡ xs ++ b ∷ discard keep (p + (16 + n)) ys
discard_behind keep p q n b xs ys e =
    append_assoc xs (b ∷ gap ys) (discard keep q (behind_gap ys))
    ∙ (ap (λ r. xs ++ b ∷ (gap ys ++ discard keep r (behind_gap ys))) e
        ∙ ap (λ zs. xs ++ b ∷ zs) (sym (discard-gap keep (p + (16 + n)) ys)))

span-gap :
    (p n : ℕ) (b : Block) (xs ys : List Block)
    → block_size b ≡ n
    → p + span (xs ++ b ∷ gap ys) ≡ p + span xs + (16 + n) + span (gap ys)
unfolding span
span-gap p n b xs ys e = omega (arith, span-append xs (b ∷ gap ys), e)

append_gap : (b : Block) (xs ys : List Block) → (xs ++ b ∷ gap ys) ++ behind_gap ys ≡ xs ++ b ∷ ys
append_gap b xs ys =
    append_assoc xs (b ∷ gap ys) (behind_gap ys) ∙ ap (λ zs. xs ++ b ∷ zs) (gap-behind_gap ys)

coalesce-behind_gap :
    (size prev_size : ℕ → ℕ) (last p prev : ℕ) (bs : List Block)
    → Rest size prev_size last p prev bs
    → coalesce (behind_gap bs) ≡ behind_gap bs
unfolding Rest
coalesce-behind_gap size prev_size last p prev [] r = coalesce-Rest size prev_size last p prev [] r
coalesce-behind_gap size prev_size last p prev (used k ∷ bs) r =
    coalesce-Rest size prev_size last p prev (used k ∷ bs) r
coalesce-behind_gap size prev_size last p prev (free k ∷ bs) (_, r) =
    coalesce-Rest size prev_size last (p + (16 + k)) k bs r

Loop-kept :
    (keep : ℕ → Bool) (fuel : ℕ) (h : Heap) (xs : List Block) (n : ℕ) (ys : List Block)
    → Loop keep fuel
    → IsArena h (xs ++ used n ∷ ys)
    → block_count ys < fuel
    → Swept
        (sweep_from keep fuel (h.first_chunk + span (xs ++ used n ∷ gap ys)) h)
        (coalesce (xs ++ used n ∷ discard keep (h.first_chunk + span xs + (16 + n)) ys))
Loop-kept keep fuel h xs n ys loop arena enough =
    let (_, _, is_used) = next_used-gap h xs n ys arena in
    let p = h.first_chunk in
    subst (λ bs. Swept (sweep_from keep fuel (p + span (xs ++ used n ∷ gap ys)) h) (coalesce bs))
      (discard_behind keep (p + span xs) (p + span (xs ++ used n ∷ gap ys)) n (used n) xs ys
        (span-gap p n (used n) xs ys refl))
      (loop h (xs ++ used n ∷ gap ys) (behind_gap ys)
        (subst (IsArena h) (sym (append_gap (used n) xs ys)) arena) is_used
        (omega (arith, block_count-behind_gap ys)))

IsArena-large_free :
    (h : Heap) (xs : List Block) (n : ℕ) (ys : List Block)
    → IsArena h (xs ++ used n ∷ ys)
    → IsArena
        (large_free (h.first_chunk + span xs) h)
        (coalesce (xs ++ free n ∷ gap ys) ++ behind_gap ys)
unfolding Rest
IsArena-large_free h xs n ys arena =
    let (_, _, is_used) = next_used-gap h xs n ys arena in
    let (_, here) =
      Rest-split h.size h.prev_size h.last_chunk h.first_chunk 0 xs (used n ∷ ys) arena.0.0 in
    let same =
      coalesce-behind_gap h.size h.prev_size h.last_chunk (h.first_chunk + span xs + (16 + n)) 0 ys
        here.1 in
    subst (IsArena (large_free (h.first_chunk + span xs) h))
      (ap coalesce (sym (append_gap (free n) xs ys))
        ∙ coalesce_before (xs ++ free n ∷ gap ys) (behind_gap ys) is_used same)
      (large_free-IsArena h xs n ys arena)

Loop-freed :
    (keep : ℕ → Bool) (fuel : ℕ) (h : Heap) (xs : List Block) (n : ℕ) (ys : List Block)
    → Loop keep fuel
    → IsArena h (xs ++ used n ∷ ys)
    → block_count ys < fuel
    → Swept
        (sweep_from keep fuel
          (h.first_chunk + span (xs ++ used n ∷ gap ys))
          (large_free (h.first_chunk + span xs) h))
        (coalesce (xs ++ free n ∷ discard keep (h.first_chunk + span xs + (16 + n)) ys))
Loop-freed keep fuel h xs n ys loop arena enough =
    let (_, _, is_used) = next_used-gap h xs n ys arena in
    let p = h.first_chunk in
    let h' = large_free (p + span xs) h in
    let freed = xs ++ free n ∷ gap ys in
    let next = p + span (xs ++ used n ∷ gap ys) in
    let at : h'.first_chunk + span (coalesce freed) ≡ next = omega (
      arith,
      first_chunk-large_free (p + span xs) h,
      span-coalesce freed,
      span-gap p n (free n) xs ys refl,
      span-gap p n (used n) xs ys refl,
    ) in
    let ih =
      loop h' (coalesce freed) (behind_gap ys) (IsArena-large_free h xs n ys arena) is_used
        (omega (arith, block_count-behind_gap ys)) in
    subst (Swept (sweep_from keep fuel next h'))
      (coalesce-coalesce freed (discard keep next (behind_gap ys))
        ∙ ap coalesce (
            discard_behind keep (p + span xs) next n (free n) xs ys
              (span-gap p n (used n) xs ys refl)))
      (subst
        (λ q.
          Swept (sweep_from keep fuel q h')
            (coalesce (coalesce freed ++ discard keep q (behind_gap ys))))
        at ih)

Loop-step :
    (keep : ℕ → Bool) (fuel : ℕ) (h : Heap) (xs : List Block) (n : ℕ) (ys : List Block)
    (is_kept : Bool)
    → Loop keep fuel
    → IsArena h (xs ++ used n ∷ ys)
    → block_count ys < fuel
    → Swept
        (sweep_from keep fuel
          (h.first_chunk + span (xs ++ used n ∷ gap ys))
          (if is_kept then h else large_free (h.first_chunk + span xs) h))
        (coalesce (
          xs
          ++ (if is_kept then used n else free n)
            ∷ discard keep (h.first_chunk + span xs + (16 + n)) ys))
Loop-step keep fuel h xs n ys true loop arena enough =
    Loop-kept keep fuel h xs n ys loop arena enough
Loop-step keep fuel h xs n ys false loop arena enough =
    Loop-freed keep fuel h xs n ys loop arena enough

sweep_from-Loop : (keep : ℕ → Bool) (fuel : ℕ) → Loop keep fuel
unfolding discard
sweep_from-Loop keep zero h xs ys arena is_used enough = absurd (omega arith)
sweep_from-Loop keep (suc fuel) h xs [] arena is_used enough = sweep_from-empty keep fuel h xs arena
sweep_from-Loop keep (suc fuel) h xs (free n ∷ ys) arena is_used enough =
    absurd (ground (arith, is_used))
sweep_from-Loop keep (suc fuel) h xs (used n ∷ ys) arena is_used enough =
    let c = h.first_chunk + span xs in
    let (next, more, _) = next_used-gap h xs n ys arena in
    let step =
      sweep_from-next keep fuel h c (h.first_chunk + span (xs ++ used n ∷ gap ys)) more next in
    subst (λ r. Swept r (coalesce (xs ++ discard keep c (used n ∷ ys)))) (sym step)
      (Loop-step keep fuel h xs n ys (keep (c + 16)) (sweep_from-Loop keep fuel) arena
        (omega arith))

-- For a heap whose arena holds blocks and whose bins are in order, with more fuel than there are blocks:
-- `_stm_largemalloc_sweep` comes to an end, and then the arena holds the blocks in which every chunk in
-- use that is not kept has become free and free neighbours are joined, and the bins hold just the free
-- chunks, in order.
pub largemalloc_sweep-Swept :
    (keep : ℕ → Bool) (fuel : ℕ) (h : Heap) (bs : List Block)
    → IsArena h bs
    → block_count bs < fuel
    → Swept (largemalloc_sweep keep fuel h) (coalesce (discard keep h.first_chunk bs))
unfolding largemalloc_sweep
largemalloc_sweep-Swept keep fuel h bs arena enough =
    let p = h.first_chunk in
    let start = after_gap h p bs arena.0.0 in
    let is_used = starts_used-behind_gap h.size h.prev_size h.last_chunk p bs arena.0.0 in
    let swept =
      sweep_from-Loop keep fuel h (gap bs) (behind_gap bs)
        (subst (IsArena h) (sym (gap-behind_gap bs)) arena) is_used
        (omega (arith, block_count-behind_gap bs)) in
    subst (λ q. Swept (sweep_from keep fuel q h) (coalesce (discard keep p bs))) (sym start)
      (subst (λ cs. Swept (sweep_from keep fuel (p + span (gap bs)) h) (coalesce cs))
        (sym (discard-gap keep p bs)) swept)
