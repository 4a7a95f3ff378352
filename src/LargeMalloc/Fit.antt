-- ===== src/LargeMalloc/Fit.antt =====
-- c7/stm/largemalloc.c: the search of a bin for the smallest chunk that fits.
use pypy_stmgc.Base.{
  ℕ, ◌≤◌, ◌<◌, ◌≡◌, refl, sym, ◌∙◌, subst, true, leb, Option, none, some, List, [], ◌∷◌, arith,
  Bool-cases, Option-cases, inl, inr,
}
use pypy_stmgc.LargeMalloc.{column_size, smallest_fit, last_column, taken}
use pypy_stmgc.LargeMalloc.Bins.{mem, in_columns}
use pypy_stmgc.LargeMalloc.Sorted.{Column, Columns, Columns-below}

-- The column fits, and none of the columns that fit has smaller chunks; or no chunk fits.
abbrev pub Fits : (ℕ → ℕ) → ℕ → List (List ℕ) → Option (List ℕ) → Type 0
Fits size request cols none = (b : ℕ) → in_columns b cols ≡ true → size b < request
Fits size request cols (some col) =
    Column size col
    × (request ≤ column_size size col)
    × ((b : ℕ) → mem b col ≡ true → in_columns b cols ≡ true)
    × ((b : ℕ) → in_columns b cols ≡ true → request ≤ size b → column_size size col ≤ size b)

module _ (size : ℕ → ℕ) (request : ℕ) where
  Fits-later :
      (bound : ℕ) (col : List ℕ) (cols : List (List ℕ)) (found : List ℕ)
      → Columns size bound (col ∷ cols)
      → Fits size request cols (some found)
      → Fits size request (col ∷ cols) (some found)
  unfolding Columns
  Fits-later bound col cols found ((_, same), _, o) (one, fits, sub, least) =
      let below : column_size size found < column_size size col =
        subst (λ n. n < column_size size col) (one.1 (taken found) one.0)
          (Columns-below size (column_size size col) cols (taken found) o
            (sub (taken found) one.0)) in
      (
        one,
        fits,
        λ b h. ground (arith, sub b h),
        λ b h big. elim (Bool-cases (mem b col)) [
          | inl e ↦ omega (arith, same b e)
          | inr e ↦ least b (ground (arith, h, e)) big
        ],
      )

  Fits-here :
      (bound : ℕ) (col : List ℕ) (cols : List (List ℕ))
      → Columns size bound (col ∷ cols)
      → request ≤ column_size size col
      → Fits size request cols none
      → Fits size request (col ∷ cols) (some col)
  unfolding Columns
  Fits-here bound col cols (one, _, _) big unfit = (
    one,
    big,
    λ b h. ground (arith, h),
    λ b h big'. elim (Bool-cases (mem b col)) [
      | inl e ↦ omega (arith, one.1 b e)
      | inr e ↦ absurd (omega (arith, unfit b (ground (arith, h, e)), big'))
    ],
  )

  pub smallest_fit-Fits :
      (bound : ℕ) (cols : List (List ℕ))
      → Columns size bound cols
      → Fits size request cols (smallest_fit size request cols)
  unfolding Columns smallest_fit
  smallest_fit-Fits bound [] o = λ b h. absurd (ground (arith, h))
  smallest_fit-Fits bound (col ∷ cols) o =
      let ih = smallest_fit-Fits (column_size size col) cols o.2 in
      elim (Option-cases (smallest_fit size request cols)) [
        | inl e ↦ elim (Bool-cases (leb request (column_size size col))) [
          | inl e' ↦
              rw (e, e')
                (Fits-here bound col cols o (ground arith) (subst (Fits size request cols) e ih))
          | inr e' ↦
              rw (e, e')
                (λ b h. elim (Bool-cases (mem b col)) [
                  | inl m ↦ ground (arith, o.0.1 b m)
                  | inr m ↦ (subst (Fits size request cols) e ih) b (ground (arith, h, m))
                ])
        ]
        | inr (found, e) ↦
            rw e (Fits-later bound col cols found o (subst (Fits size request cols) e ih))
      ]

-- With no request to meet, the last column is what fits.
last_column-smallest_fit :
    (size : ℕ → ℕ) (col : List ℕ) (cols : List (List ℕ))
    → (last : List ℕ) × (last_column (col ∷ cols) ≡ some last)
      × (smallest_fit size 0 (col ∷ cols) ≡ some last)
unfolding smallest_fit
last_column-smallest_fit size col [] = (col, refl, ground arith)
last_column-smallest_fit size col (c ∷ cols) =
    let (last, e, e') = last_column-smallest_fit size c cols in (last, e, rw e' refl)

pub last_column-Fits :
    (size : ℕ → ℕ) (bound : ℕ) (cols : List (List ℕ))
    → Columns size bound cols
    → Fits size 0 cols (last_column cols)
last_column-Fits size bound [] o = λ b h. absurd (ground (arith, h))
last_column-Fits size bound (col ∷ cols) o =
    let (last, e, e') = last_column-smallest_fit size col cols in
    subst (Fits size 0 (col ∷ cols)) (e' ∙ sym e) (smallest_fit-Fits size 0 bound (col ∷ cols) o)
