-- ===== src/LargeMalloc/Find.antt =====
-- c7/stm/largemalloc.c: the search for a chunk finds the smallest one that fits.
use pypy_stmgc.Base.{
  ==_equal, ℕ, ◌+◌, ◌-◌, ◌≤◌, ◌<◌, ◌≡◌, refl, ap, sym, ◌∙◌, subst, true, leb, ◌==◌, Option, none,
  some, List, arith, Bool-cases, Option-cases, inl, inr,
}
use pypy_stmgc.LargeMalloc.{
  Heap, largebin_index, n_bins, sort_bin, smallest_fit, taken, find_higher, find_chunk,
}
use pypy_stmgc.LargeMalloc.Bins.{largebin_lem, in_bin, in_columns-sort_bin, in-sort_bin}
use pypy_stmgc.LargeMalloc.Layout.{Block, free_at}
use pypy_stmgc.LargeMalloc.Sorted.{Sorted-sort_bin}
use pypy_stmgc.LargeMalloc.Fit.{Fits, smallest_fit-Fits}
use pypy_stmgc.LargeMalloc.Loose.{IsHeap}
use pypy_stmgc.LargeMalloc.Arena.{IsArena, IsArena-sort_bin}
use pypy_stmgc.LargeMalloc.Higher.{Higher, sort_bin-Fits, sort_bin-Columns, find_higher-Higher}

-- What the search for a chunk finds: the smallest free chunk that fits, and the heap with bins sorted;
-- or there is none.
abbrev pub Chosen : Heap → List Block → ℕ → Option (ℕ × Heap) → Type 0
Chosen h bs request none = (b : ℕ) → free_at h.first_chunk bs b ≡ true → h.size b < request
Chosen h bs request (some (a, h')) =
    IsArena h' bs
    × (h'.size ≡ h.size)
    × (h'.first_chunk ≡ h.first_chunk)
    × (free_at h.first_chunk bs a ≡ true)
    × (request ≤ h.size a)
    × ((b : ℕ) → free_at h.first_chunk bs b ≡ true → request ≤ h.size b → h.size a ≤ h.size b)

-- A free chunk is in the bin for its size.
in_its_bin :
    (h : Heap) (bs : List Block) (b : ℕ)
    → IsHeap h bs
    → free_at h.first_chunk bs b ≡ true
    → in_bin (h.bins (largebin_index (h.size b))) b ≡ true
in_its_bin h bs b (_, binned) m =
    ground (arith, binned (largebin_index (h.size b)) b, m, (largebin_lem (h.size b) 0).2)

-- A chunk of a bin is free, and has a size for the bin.
free_in_bin :
    (h : Heap) (bs : List Block) (i b : ℕ)
    → IsHeap h bs
    → in_bin (h.bins i) b ≡ true
    → (free_at h.first_chunk bs b ≡ true) × (i ≡ largebin_index (h.size b))
free_in_bin h bs i b (_, binned) m =
    (ground (arith, binned i b, m), ground (arith, binned i b, m, (largebin_lem (h.size b) 0).2))

Chosen-same_bin :
    (h : Heap) (bs : List Block) (request : ℕ) (col : List ℕ)
    → IsArena h bs
    → Fits h.size request
        ((sort_bin (largebin_index request) h).bins (largebin_index request)).sorted
        (some col)
    → Chosen h bs request (some (taken col, sort_bin (largebin_index request) h))
unfolding sort_bin
Chosen-same_bin h bs request col arena fits =
    let index = largebin_index request in
    let (here, big, least) = sort_bin-Fits h index request (some col) fits col refl in
    let (is_free, at) = free_in_bin h bs index (taken col) arena.0 here in
    (
      IsArena-sort_bin index h bs arena,
      refl,
      refl,
      is_free,
      big,
      λ b m big'. elim (Bool-cases (largebin_index (h.size b) == index)) [
        | inl e ↦
            least b
              (subst (λ i. in_bin (h.bins i) b ≡ true)
                (==_equal (largebin_index (h.size b)) index e) (in_its_bin h bs b arena.0 m))
              big'
        | inr e ↦ ground (
          arith,
          (largebin_lem request (h.size b)).1,
          (largebin_lem (h.size b) (h.size (taken col))).1,
        )
      ],
    )

larger-Chosen :
    (h : Heap) (bs : List Block) (request : ℕ) (result : Option (ℕ × Heap))
    → IsArena h bs
    → Fits h.size request
        ((sort_bin (largebin_index request) h).bins (largebin_index request)).sorted
        none
    → Higher
        (sort_bin (largebin_index request) h)
        (largebin_index request + 1)
        (n_bins - 1 - largebin_index request)
        result
    → Chosen h bs request result
unfolding sort_bin
larger-Chosen h bs request none arena fits higher = λ b m.
    let index = largebin_index request in
    let at = largebin_index (h.size b) in
    let there = in_its_bin h bs b arena.0 m in
    elim (Bool-cases (leb at index)) [
      | inl e ↦ elim (Bool-cases (at == index)) [
        | inl k ↦ fits b (
            in_columns-sort_bin index h b
            ∙ subst (λ i. in_bin (h.bins i) b ≡ true) (==_equal at index k) there)
        | inr k ↦ ground (arith, (largebin_lem request (h.size b)).1)
      ]
      | inr e ↦ absurd (
          ground (
            arith,
            higher at b (ground arith) (omega (arith, (largebin_lem (h.size b) 0).0)),
            in-sort_bin index h at b,
            there,
          ))
    ]
larger-Chosen h bs request (some (a, h')) arena fits (j, e, low, high, here, least) =
    let index = largebin_index request in
    let h₁ = sort_bin index h in
    let arena₁ = IsArena-sort_bin index h bs arena in
    let (is_free, at) = free_in_bin h₁ bs j a arena₁.0 here in
    (
      subst (λ g. IsArena g bs) (sym e) (IsArena-sort_bin j h₁ bs arena₁),
      ap (λ g. g.size) e,
      ap (λ g. g.first_chunk) e,
      is_free,
      ground (arith, (largebin_lem (h.size a) request).1),
      λ b m big.
          let k = largebin_index (h.size b) in
          let there = in_its_bin h₁ bs b arena₁.0 m in
          elim (Bool-cases (leb k j)) [
            | inl le ↦ elim (Bool-cases (k == index)) [
              | inl same ↦ absurd (
                  omega (
                    arith,
                    fits b (
                        in_columns-sort_bin index h b
                        ∙ (sym (in-sort_bin index h index b)
                            ∙ subst (λ i. in_bin (h₁.bins i) b ≡ true) (==_equal k index same)
                                there)),
                  ))
              | inr other ↦
                  (least k b (ground (arith, (largebin_lem request (h.size b)).1)) (ground arith)
                    there).1
            ]
            | inr above ↦ ground (arith, (largebin_lem (h.size b) (h.size a)).1)
          ],
    )

find_chunk-same_bin :
    (h : Heap) (request : ℕ) (col : List ℕ)
    → smallest_fit h.size request
        ((sort_bin (largebin_index request) h).bins (largebin_index request)).sorted
      ≡ some col
    → find_chunk request h ≡ some (taken col, sort_bin (largebin_index request) h)
unfolding sort_bin find_chunk
find_chunk-same_bin h request col e = rw (e, find_chunk) refl

find_chunk-higher_bin :
    (h : Heap) (request : ℕ)
    → smallest_fit h.size request
        ((sort_bin (largebin_index request) h).bins (largebin_index request)).sorted
      ≡ none
    → find_chunk request h
      ≡ find_higher
          (largebin_index request + 1)
          (n_bins - 1 - largebin_index request)
          (sort_bin (largebin_index request) h)
unfolding sort_bin find_chunk
find_chunk-higher_bin h request e = rw (e, find_chunk) refl

pub find_chunk-Chosen :
    (h : Heap) (bs : List Block) (request : ℕ)
    → IsArena h bs
    → Chosen h bs request (find_chunk request h)
find_chunk-Chosen h bs request arena =
    let index = largebin_index request in
    let h₁ = sort_bin index h in
    let cols = (h₁.bins index).sorted in
    let (bound, columns) = sort_bin-Columns index h arena.1 in
    let fits = smallest_fit-Fits h.size request bound cols columns in
    elim (Option-cases (smallest_fit h.size request cols)) [
      | inl e ↦ subst (Chosen h bs request) (sym (find_chunk-higher_bin h request e)) (
          larger-Chosen h bs request (find_higher (index + 1) (n_bins - 1 - index) h₁) arena
            (subst (Fits h.size request cols) e fits)
            (find_higher-Higher h₁ (Sorted-sort_bin index h arena.1) (index + 1)
              (n_bins - 1 - index)))
      | inr (col, e) ↦
          subst (Chosen h bs request) (sym (find_chunk-same_bin h request col e))
            (Chosen-same_bin h bs request col arena (subst (Fits h.size request cols) e fits))
    ]
