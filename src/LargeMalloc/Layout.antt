-- ===== src/LargeMalloc/Layout.antt =====
-- c7/stm/largemalloc.c: what the headers in the arena stand for, a list of blocks.
use pypy_stmgc.Base.{
  ℕ, ◌+◌, ◌≤◌, ◌<◌, ◌≡◌, refl, ◌∙◌, Bool, true, false, not, ◌&&◌, ◌||◌, ◌==◌, if◌then◌else◌, List,
  [], ◌∷◌, ◌++◌, arith,
}
use pypy_stmgc.LargeMalloc.{end_marker, this_chunk_free, both_chunks_used}

-- A chunk in use or a free one, with the size of its data.
pub data Block : Type 0 where
  used free : ℕ → Block

abbrev pub block_size : Block → ℕ
block_size (used n) = n
block_size (free n) = n

abbrev pub is_free : Block → Bool
is_free (used n) = false
is_free (free n) = true

-- What the chunk behind the block says of it: its size if it is free, otherwise 0.
abbrev pub free_size : Block → ℕ
free_size (used n) = 0
free_size (free n) = n

-- The bytes of the blocks, with their headers.
unfoldable pub span : List Block → ℕ
span [] = 0
span (b ∷ bs) = 16 + block_size b + span bs

-- What the chunk behind the blocks says of the last one; `prev` is what the first of them says.
unfoldable pub status : ℕ → List Block → ℕ
status prev [] = prev
status prev (b ∷ bs) = status (free_size b) bs

-- The field `prev_size` of a block.
abbrev pub prev_field : ℕ → Block → ℕ
prev_field prev b =
    if prev == 0 then if is_free b then this_chunk_free else both_chunks_used else prev

-- The header at `p` is that of the block; a free block does not follow a free one.
abbrev Header : (ℕ → ℕ) → (ℕ → ℕ) → ℕ → ℕ → Block → Type 0
Header size prev_size p prev b =
    (size p ≡ block_size b)
    × (32 ≤ block_size b)
    × (prev_size p ≡ prev_field prev b)
    × (0 < prev → is_free b ≡ false)

-- The blocks lie in memory from `p` on.
unfoldable pub Blocks : (ℕ → ℕ) → (ℕ → ℕ) → ℕ → ℕ → List Block → Type 0
Blocks size prev_size p prev [] = Unit
Blocks size prev_size p prev (b ∷ bs) =
    Header size prev_size p prev b
    × Blocks size prev_size (p + (16 + block_size b)) (free_size b) bs

-- The same, up to the last chunk.
unfoldable pub Rest : (ℕ → ℕ) → (ℕ → ℕ) → ℕ → ℕ → ℕ → List Block → Type 0
Rest size prev_size last p prev [] = (p ≡ last) × (prev_size p ≡ prev) × (size p ≡ end_marker)
Rest size prev_size last p prev (b ∷ bs) =
    Header size prev_size p prev b
    × Rest size prev_size last (p + (16 + block_size b)) (free_size b) bs

-- A free block lies at `a`.
unfoldable pub free_at : ℕ → List Block → ℕ → Bool
free_at p [] a = false
free_at p (b ∷ bs) a = (is_free b && p == a) || free_at (p + (16 + block_size b)) bs a

-- No free block comes first.
abbrev pub starts_used : List Block → Bool
starts_used [] = true
starts_used (b ∷ bs) = not (is_free b)

pub span-append : (xs ys : List Block) → span (xs ++ ys) ≡ span xs + span ys
unfolding span
span-append [] ys = omega arith
span-append (b ∷ xs) ys = omega (arith, span-append xs ys)

pub free_at-append :
    (p : ℕ) (xs ys : List Block) (a : ℕ)
    → free_at p (xs ++ ys) a ≡ (free_at p xs a || free_at (p + span xs) ys a)
unfolding free_at span
free_at-append p [] ys a = let e : p + 0 ≡ p = omega arith in rw e refl
free_at-append p (b ∷ xs) ys a =
    let ih = free_at-append (p + (16 + block_size b)) xs ys a in
    let e : p + (16 + block_size b) + span xs ≡ p + (16 + block_size b + span xs) = omega arith in
    ground (arith, rw e at ih)

pub free_at-range :
    (p : ℕ) (xs : List Block) (a : ℕ) → free_at p xs a ≡ true → (p ≤ a) × (a < p + span xs)
unfolding free_at span
free_at-range p [] a h = absurd (ground arith)
free_at-range p (b ∷ xs) a h = ground (arith, free_at-range (p + (16 + block_size b)) xs a)

module _ (size prev_size : ℕ → ℕ) where
  pub Blocks-append :
      (p prev : ℕ) (xs ys : List Block)
      → Blocks size prev_size p prev xs
      → Blocks size prev_size (p + span xs) (status prev xs) ys
      → Blocks size prev_size p prev (xs ++ ys)
  unfolding Blocks span status
  Blocks-append p prev [] ys _ r = let e : p + 0 ≡ p = omega arith in rw e at r
  Blocks-append p prev (b ∷ xs) ys (h, bs) r =
      let e : p + (16 + block_size b + span xs) ≡ p + (16 + block_size b) + span xs = omega arith in
      (h, Blocks-append (p + (16 + block_size b)) (free_size b) xs ys bs (rw e at r))

  last_free : (p prev w : ℕ) → Blocks size prev_size p prev (free w ∷ []) → prev ≡ 0
  unfolding Blocks
  last_free p prev w ((_, _, _, alone), _) = ground (arith, alone)

  pub Blocks-split :
      (p prev : ℕ) (xs ys : List Block)
      → Blocks size prev_size p prev (xs ++ ys)
      → Blocks size prev_size p prev xs × Blocks size prev_size (p + span xs) (status prev xs) ys
  unfolding Blocks span status
  Blocks-split p prev [] ys r = let e : p ≡ p + 0 = omega arith in (tt, rw e at r)
  Blocks-split p prev (b ∷ xs) ys (h, r) =
      let e : p + (16 + block_size b) + span xs ≡ p + (16 + block_size b + span xs) = omega arith in
      let (bs, rest) = Blocks-split (p + (16 + block_size b)) (free_size b) xs ys r in
      ((h, bs), rw e at rest)

  -- No free block is before a free one.
  pub status_before_free :
      (p prev : ℕ) (ws : List Block) (w : ℕ)
      → Blocks size prev_size p prev (ws ++ free w ∷ [])
      → status prev ws ≡ 0
  status_before_free p prev ws w r =
      let (_, here) = Blocks-split p prev ws (free w ∷ []) r in
      last_free (p + span ws) (status prev ws) w here

  module _ (last : ℕ) where
    pub Rest-append :
        (p prev : ℕ) (xs ys : List Block)
        → Blocks size prev_size p prev xs
        → Rest size prev_size last (p + span xs) (status prev xs) ys
        → Rest size prev_size last p prev (xs ++ ys)
    unfolding Blocks Rest span status
    Rest-append p prev [] ys _ r = let e : p + 0 ≡ p = omega arith in rw e at r
    Rest-append p prev (b ∷ xs) ys (h, bs) r =
        let e : p + (16 + block_size b + span xs) ≡ p + (16 + block_size b) + span xs =
          omega arith in
        (h, Rest-append (p + (16 + block_size b)) (free_size b) xs ys bs (rw e at r))

    pub Rest-split :
        (p prev : ℕ) (xs ys : List Block)
        → Rest size prev_size last p prev (xs ++ ys)
        → Blocks size prev_size p prev xs
          × Rest size prev_size last (p + span xs) (status prev xs) ys
    unfolding Blocks Rest span status
    Rest-split p prev [] ys r = let e : p ≡ p + 0 = omega arith in (tt, rw e at r)
    Rest-split p prev (b ∷ xs) ys (h, r) =
        let e : p + (16 + block_size b) + span xs ≡ p + (16 + block_size b + span xs) =
          omega arith in
        let (bs, rest) = Rest-split (p + (16 + block_size b)) (free_size b) xs ys r in
        ((h, bs), rw e at rest)

    -- The last chunk lies behind all blocks.
    pub Rest-last :
        (p prev : ℕ) (bs : List Block) → Rest size prev_size last p prev bs → p + span bs ≡ last
    unfolding Rest span
    Rest-last p prev [] r = omega (arith, r.0)
    Rest-last p prev (b ∷ bs) (h, r) =
        omega (arith, Rest-last (p + (16 + block_size b)) (free_size b) bs r)

module _ (size prev_size size' prev_size' : ℕ → ℕ) where
  -- Headers that have not changed.
  pub Blocks-frame :
      (p prev : ℕ) (bs : List Block)
      → ((a : ℕ) → p ≤ a → a < p + span bs → (size' a ≡ size a) × (prev_size' a ≡ prev_size a))
      → Blocks size prev_size p prev bs
      → Blocks size' prev_size' p prev bs
  unfolding Blocks span
  Blocks-frame p prev [] same r = tt
  Blocks-frame p prev (b ∷ bs) same ((s, big, f, alone), r) =
      let (es, ep) = same p (omega arith) (omega arith) in
      (
        (es ∙ s, big, ep ∙ f, alone),
        Blocks-frame (p + (16 + block_size b)) (free_size b) bs
            (λ a low high. same a (omega arith) (omega arith)) r,
      )

  pub Rest-frame :
      (last p prev : ℕ) (bs : List Block)
      → ((a : ℕ) → p ≤ a → a ≤ p + span bs → (size' a ≡ size a) × (prev_size' a ≡ prev_size a))
      → Rest size prev_size last p prev bs
      → Rest size' prev_size' last p prev bs
  unfolding Rest span
  Rest-frame last p prev [] same (end, f, s) =
      let (es, ep) = same p (omega arith) (omega arith) in (end, ep ∙ f, es ∙ s)
  Rest-frame last p prev (b ∷ bs) same ((s, big, f, alone), r) =
      let (es, ep) = same p (omega arith) (omega arith) in
      (
        (es ∙ s, big, ep ∙ f, alone),
        Rest-frame last (p + (16 + block_size b)) (free_size b) bs
            (λ a low high. same a (omega arith) (omega arith)) r,
      )

  -- The chunk before the blocks has become free, or has another size; the first of them says so.
  pub Rest-restatus :
      (last p prev prev' : ℕ) (bs : List Block)
      → starts_used bs ≡ true
      → prev_size' p ≡ prev'
      → size' p ≡ size p
      → ((a : ℕ) → p < a → a ≤ p + span bs → (size' a ≡ size a) × (prev_size' a ≡ prev_size a))
      → Rest size prev_size last p prev bs
      → Rest size' prev_size' last p prev' bs
  unfolding Rest span
  Rest-restatus last p prev prev' [] first_used here same_size same (end, f, s) =
      (end, here, same_size ∙ s)
  Rest-restatus last p prev prev' (b ∷ bs) first_used here same_size same ((s, big, f, alone), r) =
      (
        (same_size ∙ s, big, ground arith, λ _. ground arith),
        Rest-frame last (p + (16 + block_size b)) (free_size b) bs
            (λ a low high. same a (omega arith) (omega arith)) r,
      )
