-- ===== src/LargeMalloc/Sorted.antt =====
-- c7/stm/largemalloc.c: the order of the sorted chunks of a bin.
use pypy_stmgc.Base.{
  ==_equal, ℕ, ◌+◌, ◌≤◌, ◌<◌, ◌≡◌, refl, ap, sym, ◌∙◌, subst, true, false, ltb, leb, ◌==◌, update,
  List, [], ◌∷◌, arith, Bool-cases, inl, inr,
}
use pypy_stmgc.LargeMalloc.{
  Heap, bin_of, insert_unsorted, insert_by_size, sort_by_size, column_size, insert_above,
  place_chunk, place_chunks, sort_bin, remove, keep_column, remove_from_columns, unlink_chunk,
  taken,
}
use pypy_stmgc.LargeMalloc.Bins.{mem, in_columns, in_bin, mem-remove}

-- A column that is not empty, with chunks of one size.
abbrev pub Column : (ℕ → ℕ) → List ℕ → Type 0
Column size col =
    (mem (taken col) col ≡ true) × ((b : ℕ) → mem b col ≡ true → size b ≡ column_size size col)

-- The columns, with sizes that go down from below `bound`.
unfoldable pub Columns : (ℕ → ℕ) → ℕ → List (List ℕ) → Type 0
Columns size bound [] = Unit
Columns size bound (col ∷ cols) =
    Column size col × (column_size size col < bound) × Columns size (column_size size col) cols

-- The sorted chunks of every bin are in order.
abbrev pub Sorted : Heap → Type 0
Sorted h = (i : ℕ) → (bound : ℕ) × Columns h.size bound (h.bins i).sorted

-- Sizes that do not go up, from at most `bound`.
unfoldable Ordered : (ℕ → ℕ) → ℕ → List ℕ → Type 0
Ordered size bound [] = Unit
Ordered size bound (c ∷ cs) = (size c ≤ bound) × Ordered size (size c) cs

module _ (size : ℕ → ℕ) where
  Ordered-insert_by_size :
      (bound c : ℕ) (ds : List ℕ)
      → size c ≤ bound
      → Ordered size bound ds
      → Ordered size bound (insert_by_size size c ds)
  unfolding Ordered insert_by_size
  Ordered-insert_by_size bound c [] le o = (le, tt)
  Ordered-insert_by_size bound c (d ∷ ds) le (le', o) = elim (Bool-cases (leb (size d) (size c))) [
    | inl e ↦ rw e (le, (ground arith, o))
    | inr e ↦ rw e (le', Ordered-insert_by_size (size d) c ds (ground arith) o)
  ]

  Ordered-weaken :
      (bound bound' : ℕ) (cs : List ℕ)
      → bound ≤ bound'
      → Ordered size bound cs
      → Ordered size bound' cs
  unfolding Ordered
  Ordered-weaken bound bound' [] le o = tt
  Ordered-weaken bound bound' (c ∷ cs) le (le', o) = (omega arith, o)

  Ordered-sort_by_size : (cs : List ℕ) → (bound : ℕ) × Ordered size bound (sort_by_size size cs)
  unfolding Ordered sort_by_size
  Ordered-sort_by_size [] = (0, tt)
  Ordered-sort_by_size (c ∷ cs) =
      let (bound, o) = Ordered-sort_by_size cs in
      (
        bound + size c,
        Ordered-insert_by_size (bound + size c) c (sort_by_size size cs) (omega arith)
            (Ordered-weaken bound (bound + size c) (sort_by_size size cs) (omega arith) o),
      )

  Columns-weaken :
      (bound bound' : ℕ) (cols : List (List ℕ))
      → bound ≤ bound'
      → Columns size bound cols
      → Columns size bound' cols
  unfolding Columns
  Columns-weaken bound bound' [] le o = tt
  Columns-weaken bound bound' (col ∷ cols) le (one, le', o) = (one, omega arith, o)

  Column_taken : (c : ℕ) (cs : List ℕ) → mem (taken (c ∷ cs)) (c ∷ cs) ≡ true
  Column_taken c [] = ground arith
  Column_taken c (d ∷ ds) = ground arith

  Column-single : (c : ℕ) → Column size (c ∷ [])
  Column-single c = (ground arith, λ b h. ap size (ground (arith, h)))

  Column-insert_above :
      (c : ℕ) (col : List ℕ)
      → column_size size col ≡ size c
      → Column size col
      → (column_size size (insert_above c col) ≡ size c) × Column size (insert_above c col)
  Column-insert_above c [] e (h, _) = absurd (ground (arith, h))
  Column-insert_above c (d ∷ ds) e (_, same) = (
    e,
    (
      ground arith,
      λ b h. elim (Bool-cases (c == b)) [
        | inl k ↦ ap size (sym (==_equal c b k)) ∙ sym e
        | inr k ↦ same b (ground (arith, h, k))
      ],
    ),
  )

  Columns-place_chunk :
      (c : ℕ) (rest : List (List ℕ) → List (List ℕ)) (bound : ℕ) (cols : List (List ℕ))
      → size c < bound
      → ((bound' : ℕ) (ds : List (List ℕ))
          → size c < bound'
          → Columns size bound' ds
          → Columns size bound' (rest ds))
      → Columns size bound cols
      → Columns size bound (place_chunk size c rest cols)
  unfolding Columns place_chunk
  Columns-place_chunk c rest bound [] low next o =
      next bound ((c ∷ []) ∷ []) low (Column-single c, low, tt)
  Columns-place_chunk c rest bound (col ∷ cols) low next (one, below, o) =
      elim (Bool-cases (ltb (column_size size col) (size c))) [
        | inl e ↦
            rw e (
              next bound ((c ∷ []) ∷ col ∷ cols) low (Column-single c, low, (one, ground arith, o)))
        | inr e ↦ elim (Bool-cases (column_size size col == size c)) [
          | inl e' ↦
              let (top, joined) =
                Column-insert_above c col (==_equal (column_size size col) (size c) e') one in
              rw (e, e')
                (next bound (insert_above c col ∷ cols) low (
                  joined,
                  omega (arith, top),
                  subst (λ n. Columns size n cols)
                      (==_equal (column_size size col) (size c) e' ∙ sym top) o,
                ))
          | inr e' ↦
              rw (e, e')
                (
                  one,
                  below,
                  Columns-place_chunk c rest (column_size size col) cols (ground arith) next o,
                )
        ]
      ]

  Columns-place_chunks :
      (n bound : ℕ) (cs : List ℕ) (cols : List (List ℕ))
      → Ordered size n cs
      → n < bound
      → Columns size bound cols
      → Columns size bound (place_chunks size cs cols)
  unfolding Ordered place_chunks
  Columns-place_chunks n bound [] cols _ low o = o
  Columns-place_chunks n bound (c ∷ cs) cols (le, rest) low o =
      Columns-place_chunk c (place_chunks size cs) bound cols (omega arith)
        (λ bound' ds low' o'. Columns-place_chunks (size c) bound' cs ds rest low' o') o

  Columns-keep_column :
      (bound : ℕ) (col kept : List ℕ) (cols : List (List ℕ))
      → ((b : ℕ) → mem b kept ≡ true → mem b col ≡ true)
      → Column size col
      → column_size size col < bound
      → Columns size (column_size size col) cols
      → Columns size bound (keep_column kept cols)
  unfolding Columns
  Columns-keep_column bound col [] cols sub one low o =
      Columns-weaken (column_size size col) bound cols (omega arith) o
  Columns-keep_column bound col (c ∷ cs) cols sub (_, same) low o =
      let here : size c ≡ column_size size col = same c (sub c (ground arith)) in
      (
        (Column_taken c cs, λ b h. same b (sub b h) ∙ sym here),
        omega (arith, here),
        subst (λ n. Columns size n cols) (sym here) o,
      )

  Columns-remove :
      (a bound : ℕ) (cols : List (List ℕ))
      → Columns size bound cols
      → Columns size bound (remove_from_columns a cols)
  unfolding Columns remove_from_columns
  Columns-remove a bound [] o = o
  Columns-remove a bound (col ∷ cols) (one, low, o) =
      Columns-keep_column bound col (remove a col) (remove_from_columns a cols)
        (λ b h. ground (arith, mem-remove a col b, h)) one low
        (Columns-remove a (column_size size col) cols o)

  -- Every chunk of the columns is below the bound.
  pub Columns-below :
      (bound : ℕ) (cols : List (List ℕ)) (b : ℕ)
      → Columns size bound cols
      → in_columns b cols ≡ true
      → size b < bound
  unfolding Columns
  Columns-below bound [] b o h = absurd (ground (arith, h))
  Columns-below bound (col ∷ cols) b ((_, same), low, o) h = elim (Bool-cases (mem b col)) [
    | inl e ↦ omega (arith, same b e)
    | inr e ↦
        let less = Columns-below (column_size size col) cols b o (ground (arith, h, e)) in
        omega arith
  ]

Columns-frame :
    (size size' : ℕ → ℕ) (bound : ℕ) (cols : List (List ℕ))
    → ((a : ℕ) → in_columns a cols ≡ true → size' a ≡ size a)
    → Columns size bound cols
    → Columns size' bound cols
unfolding Columns
Columns-frame size size' bound [] eq o = tt
Columns-frame size size' bound ([] ∷ cols) eq ((h, _), _, _) = absurd (ground (arith, h))
Columns-frame size size' bound ((c ∷ cs) ∷ cols) eq ((h, same), low, o) =
    let here : size' c ≡ size c = eq c (ground arith) in
    (
      (h, λ b m. eq b (ground (arith, m)) ∙ (same b m ∙ sym here)),
      omega (arith, here),
      subst (λ n. Columns size' n cols) (sym here)
          (Columns-frame size size' (size c) cols (λ a m. eq a (ground (arith, m))) o),
    )

pub Sorted-sort_bin : (index : ℕ) (h : Heap) → Sorted h → Sorted (sort_bin index h)
unfolding sort_bin
Sorted-sort_bin index h sorted i = elim (Bool-cases (i == index)) [
  | inl e ↦
      let (n, ordered) = Ordered-sort_by_size h.size (h.bins index).unsorted in
      let (bound, o) = sorted index in
      (
        n + bound + 1,
        rw e (
            Columns-place_chunks h.size n (n + bound + 1)
              (sort_by_size h.size (h.bins index).unsorted) (h.bins index).sorted ordered
              (omega arith)
              (Columns-weaken h.size bound (n + bound + 1) (h.bins index).sorted (omega arith) o)),
      )
  | inr e ↦ (((sorted i).0), rw e (sorted i).1)
]

pub Sorted-unlink_chunk : (c : ℕ) (h : Heap) → Sorted h → Sorted (unlink_chunk c h)
unfolding unlink_chunk
Sorted-unlink_chunk c h sorted i =
    ((sorted i).0, Columns-remove h.size c (sorted i).0 (h.bins i).sorted (sorted i).1)

pub Sorted-insert_unsorted : (c : ℕ) (h : Heap) → Sorted h → Sorted (insert_unsorted c h)
unfolding insert_unsorted
Sorted-insert_unsorted c h sorted i = elim (Bool-cases (i == bin_of (h.size c))) [
  | inl e ↦ ((sorted (bin_of (h.size c))).0, rw e (sorted (bin_of (h.size c))).1)
  | inr e ↦ ((sorted i).0, rw e (sorted i).1)
]

-- Another size for a chunk that is in no bin.
pub Sorted-update :
    (h : Heap) (c v : ℕ)
    → ((i : ℕ) → in_bin (h.bins i) c ≡ false)
    → Sorted h
    → Sorted (record h { size = update h.size c v })
Sorted-update h c v out sorted i = (
  (sorted i).0,
  Columns-frame h.size (update h.size c v) (sorted i).0 (h.bins i).sorted
      (λ a m. elim (Bool-cases (a == c)) [
        | inl e ↦ absurd (
            ground
              (arith, out i, subst (λ b. in_columns b (h.bins i).sorted ≡ true) (==_equal a c e) m))
        | inr e ↦ rw e refl
      ])
      (sorted i).1,
)
