-- ===== src/LargeMalloc/Higher.antt =====
-- c7/stm/largemalloc.c: the search of the bins for larger chunks.
use pypy_stmgc.Base.{
  ==_equal, ℕ, zero, suc, ◌+◌, ◌≤◌, ◌<◌, ◌≡◌, refl, sym, ◌∙◌, subst, true, false, ◌==◌, Option,
  none, some, List, arith, Bool-cases, Option-cases, inl, inr,
}
use pypy_stmgc.LargeMalloc.{Heap, sort_bin, last_column, taken, find_higher}
use pypy_stmgc.LargeMalloc.Bins.{in_bin, in_columns-sort_bin}
use pypy_stmgc.LargeMalloc.Sorted.{Columns, Sorted, Sorted-sort_bin}
use pypy_stmgc.LargeMalloc.Fit.{Fits, last_column-Fits}

-- What the search of the bins `start`, …, `start + n - 1` finds: the smallest chunk of the first bin
-- that is not empty.
abbrev pub Higher : Heap → ℕ → ℕ → Option (ℕ × Heap) → Type 0
Higher h start n none = (i b : ℕ) → start ≤ i → i < start + n → in_bin (h.bins i) b ≡ false
Higher h start n (some (a, h')) =
    (j : ℕ) × (h' ≡ sort_bin j h)
    × (start ≤ j)
    × (j < start + n)
    × (in_bin (h.bins j) a ≡ true)
    × ((i b : ℕ) → start ≤ i → i ≤ j → in_bin (h.bins i) b ≡ true → (i ≡ j) × (h.size a ≤ h.size b))

-- The chunk that is taken from a column of a bin, and the chunks of the bin.
pub sort_bin-Fits :
    (h : Heap) (index request : ℕ) (result : Option (List ℕ))
    → Fits h.size request ((sort_bin index h).bins index).sorted result
    → (col : List ℕ) → result ≡ some col
    → (in_bin (h.bins index) (taken col) ≡ true)
      × (request ≤ h.size (taken col))
      × ((b : ℕ)
          → in_bin (h.bins index) b ≡ true
          → request ≤ h.size b
          → h.size (taken col) ≤ h.size b)
sort_bin-Fits h index request result fits col e =
    let ((here, same), big, sub, least) =
      subst (Fits h.size request ((sort_bin index h).bins index).sorted) e fits in
    let size_taken = same (taken col) here in
    (
      sym (in_columns-sort_bin index h (taken col)) ∙ sub (taken col) here,
      omega (arith, size_taken),
      λ b m big'.
          let le = least b (in_columns-sort_bin index h b ∙ m) big' in omega (arith, size_taken),
    )

pub sort_bin-Columns :
    (index : ℕ) (h : Heap)
    → Sorted h
    → (bound : ℕ) × Columns h.size bound ((sort_bin index h).bins index).sorted
unfolding sort_bin
sort_bin-Columns index h sorted = Sorted-sort_bin index h sorted index

sort_bin-no_column :
    (h : Heap) (index : ℕ)
    → Fits h.size 0 ((sort_bin index h).bins index).sorted none
    → (b : ℕ) → in_bin (h.bins index) b ≡ false
sort_bin-no_column h index fits b = elim (Bool-cases (in_bin (h.bins index) b)) [
  | inl m ↦ absurd (omega (arith, fits b (in_columns-sort_bin index h b ∙ m)))
  | inr e ↦ e
]

Higher-suc :
    (h : Heap) (start n : ℕ) (result : Option (ℕ × Heap))
    → ((b : ℕ) → in_bin (h.bins start) b ≡ false)
    → Higher h (start + 1) n result
    → Higher h start (suc n) result
Higher-suc h start n none empty higher = λ i b low high. elim (Bool-cases (i == start)) [
  | inl e ↦ subst (λ k. in_bin (h.bins k) b ≡ false) (sym (==_equal i start e)) (empty b)
  | inr e ↦ higher i b (ground arith) (omega arith)
]
Higher-suc h start n (some (a, h')) empty (j, e, low, high, here, least) = (
  j,
  e,
  omega arith,
  omega arith,
  here,
  λ i b low' high' m. elim (Bool-cases (i == start)) [
    | inl k ↦ absurd (
        ground
          (arith, sym (subst (λ k. in_bin (h.bins k) b ≡ true) (==_equal i start k) m) ∙ empty b))
    | inr k ↦ least i b (ground arith) high' m
  ],
)

Higher-here :
    (h : Heap) (start n : ℕ) (col : List ℕ)
    → Fits h.size 0 ((sort_bin start h).bins start).sorted (some col)
    → Higher h start (suc n) (some (taken col, sort_bin start h))
Higher-here h start n col fits =
    let (here, _, least) = sort_bin-Fits h start 0 (some col) fits col refl in
    (
      start,
      refl,
      omega arith,
      omega arith,
      here,
      λ i b low high m.
          let e : i ≡ start = omega arith in
          (e, least b (subst (λ k. in_bin (h.bins k) b ≡ true) e m) (omega arith)),
    )

find_higher-next :
    (h : Heap) (start n : ℕ)
    → last_column ((sort_bin start h).bins start).sorted ≡ none
    → find_higher start (suc n) h ≡ find_higher (start + 1) n h
unfolding find_higher
find_higher-next h start n e = rw (e, find_higher) refl

find_higher-found :
    (h : Heap) (start n : ℕ) (col : List ℕ)
    → last_column ((sort_bin start h).bins start).sorted ≡ some col
    → find_higher start (suc n) h ≡ some (taken col, sort_bin start h)
unfolding find_higher
find_higher-found h start n col e = rw (e, find_higher) refl

pub find_higher-Higher :
    (h : Heap) → Sorted h → (start n : ℕ) → Higher h start n (find_higher start n h)
unfolding find_higher
find_higher-Higher h sorted start zero = λ i b low high. absurd (omega arith)
find_higher-Higher h sorted start (suc n) =
    let cols = ((sort_bin start h).bins start).sorted in
    let (bound, columns) = sort_bin-Columns start h sorted in
    let fits = last_column-Fits h.size bound cols columns in
    let ih = find_higher-Higher h sorted (start + 1) n in
    elim (Option-cases (last_column cols)) [
      | inl e ↦ subst (Higher h start (suc n)) (sym (find_higher-next h start n e)) (
          Higher-suc h start n (find_higher (start + 1) n h)
            (sort_bin-no_column h start (subst (Fits h.size 0 cols) e fits)) ih)
      | inr (col, e) ↦
          subst (Higher h start (suc n)) (sym (find_higher-found h start n col e))
            (Higher-here h start n col (subst (Fits h.size 0 cols) e fits))
    ]
