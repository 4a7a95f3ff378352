-- ===== src/LargeMalloc/Blocks.antt =====
-- c7/stm/largemalloc.c: how the joins of free blocks go together.
use pypy_stmgc.Base.{ℕ, ◌+◌, ◌≡◌, refl, ap, ◌∙◌, true, List, [], ◌∷◌, ◌++◌, arith}
use pypy_stmgc.LargeMalloc.Layout.{Block, used, free, block_size, span, starts_used}
use pypy_stmgc.LargeMalloc.Coalesce.{coalesce, join, join_used}

span-join : (b : Block) (bs : List Block) → span (join b bs) ≡ 16 + block_size b + span bs
unfolding span
span-join (used n) bs = refl
span-join (free n) [] = refl
span-join (free n) (used k ∷ bs) = refl
span-join (free n) (free k ∷ bs) = omega arith

pub span-coalesce : (bs : List Block) → span (coalesce bs) ≡ span bs
unfolding span coalesce
span-coalesce [] = refl
span-coalesce (b ∷ bs) = omega (arith, span-join b (coalesce bs), span-coalesce bs)

pub join-join :
    (n k : ℕ) (bs : List Block) → join (free (n + 16 + k)) bs ≡ join (free n) (join (free k) bs)
join-join n k [] = refl
join-join n k (used m ∷ bs) = refl
join-join n k (free m ∷ bs) = ap (λ s. free s ∷ bs) (omega arith)

coalesce-join :
    (b : Block) (xs ys : List Block) → coalesce (join b xs ++ ys) ≡ join b (coalesce (xs ++ ys))
unfolding coalesce
coalesce-join (used n) xs ys = refl
coalesce-join (free n) [] ys = refl
coalesce-join (free n) (used k ∷ xs) ys = refl
coalesce-join (free n) (free k ∷ xs) ys = join-join n k (coalesce (xs ++ ys))

pub coalesce-coalesce : (xs ys : List Block) → coalesce (coalesce xs ++ ys) ≡ coalesce (xs ++ ys)
unfolding coalesce
coalesce-coalesce [] ys = refl
coalesce-coalesce (x ∷ xs) ys =
    coalesce-join x (coalesce xs) ys ∙ ap (join x) (coalesce-coalesce xs ys)

join_append :
    (b : Block) (xs zs : List Block) → starts_used zs ≡ true → join b (xs ++ zs) ≡ join b xs ++ zs
join_append (used n) xs zs h = refl
join_append (free n) [] zs h = join_used n zs h
join_append (free n) (used k ∷ xs) zs h = refl
join_append (free n) (free k ∷ xs) zs h = refl

-- Blocks that are joined, before blocks of an arena which no free one is in front of.
pub coalesce_before :
    (xs zs : List Block)
    → starts_used zs ≡ true
    → coalesce zs ≡ zs
    → coalesce (xs ++ zs) ≡ coalesce xs ++ zs
unfolding coalesce
coalesce_before [] zs h e = e
coalesce_before (x ∷ xs) zs h e =
    ap (join x) (coalesce_before xs zs h e) ∙ join_append x (coalesce xs) zs h
