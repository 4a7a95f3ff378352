-- ===== src/LargeMalloc/Bins.antt =====
-- c7/stm/largemalloc.c: the bins, and the chunks in them.
use pypy_stmgc.Base.{
  ℕ, ◌≤◌, ◌<◌, ◌≡◌, refl, Bool, true, false, not, ◌&&◌, ◌||◌, ◌==◌, List, [], ◌∷◌, arith,
}
use pypy_stmgc.LargeMalloc.{
  largebin_index, n_bins, bin_of, Bin, Heap, insert_unsorted, insert_by_size, sort_by_size,
  insert_above, place_chunk, place_chunks, sort_bin, remove, keep_column, remove_from_columns,
  unlink_chunk,
}

-- The index of a bin is below 84, grows with the size, and is that of the bin which a chunk of the
-- size is put in.
pub largebin_lem :
    (a b : ℕ)
    → (largebin_index a < n_bins)
      × (a ≤ b → largebin_index a ≤ largebin_index b)
      × (bin_of a ≡ largebin_index a)
unfolding largebin_index bin_of
largebin_lem a b = (ground arith, λ le. ground arith, ground arith)

abbrev pub mem : ℕ → List ℕ → Bool
mem a [] = false
mem a (x ∷ xs) = x == a || mem a xs

abbrev pub in_columns : ℕ → List (List ℕ) → Bool
in_columns a [] = false
in_columns a (col ∷ cols) = mem a col || in_columns a cols

-- The chunk is in the bin.
abbrev pub in_bin : Bin → ℕ → Bool
in_bin b a = mem a b.unsorted || in_columns a b.sorted

mem-insert_by_size :
    (size : ℕ → ℕ) (c : ℕ) (ds : List ℕ) (a : ℕ)
    → mem a (insert_by_size size c ds) ≡ (c == a || mem a ds)
unfolding insert_by_size
mem-insert_by_size size c [] a = refl
mem-insert_by_size size c (d ∷ ds) a = ground (arith, mem-insert_by_size size c ds a)

mem-sort_by_size : (size : ℕ → ℕ) (cs : List ℕ) (a : ℕ) → mem a (sort_by_size size cs) ≡ mem a cs
unfolding sort_by_size
mem-sort_by_size size [] a = refl
mem-sort_by_size size (c ∷ cs) a =
    ground (arith, mem-insert_by_size size c (sort_by_size size cs) a, mem-sort_by_size size cs a)

pub mem-insert_above :
    (c : ℕ) (col : List ℕ) (a : ℕ) → mem a (insert_above c col) ≡ (c == a || mem a col)
mem-insert_above c [] a = refl
mem-insert_above c (d ∷ ds) a = ground arith

in-place_chunk :
    (size : ℕ → ℕ) (c : ℕ) (rest : List (List ℕ) → List (List ℕ)) (more : List ℕ)
    (cols : List (List ℕ)) (a : ℕ)
    → ((cs : List (List ℕ)) → in_columns a (rest cs) ≡ (mem a more || in_columns a cs))
    → in_columns a (place_chunk size c rest cols) ≡ (c == a || (mem a more || in_columns a cols))
unfolding place_chunk
in-place_chunk size c rest more [] a h = ground (arith, h ((c ∷ []) ∷ []))
in-place_chunk size c rest more (col ∷ cols) a h = ground (
  arith,
  h ((c ∷ []) ∷ col ∷ cols),
  h (insert_above c col ∷ cols),
  mem-insert_above c col a,
  in-place_chunk size c rest more cols a h,
)

in-place_chunks :
    (size : ℕ → ℕ) (cs : List ℕ) (cols : List (List ℕ)) (a : ℕ)
    → in_columns a (place_chunks size cs cols) ≡ (mem a cs || in_columns a cols)
unfolding place_chunks
in-place_chunks size [] cols a = refl
in-place_chunks size (c ∷ cs) cols a = ground (
  arith,
  in-place_chunk size c (place_chunks size cs) cs cols a (λ ds. in-place_chunks size cs ds a),
)

-- Sorting keeps the chunks of every bin.
pub in-sort_bin :
    (index : ℕ) (h : Heap) (i a : ℕ) → in_bin ((sort_bin index h).bins i) a ≡ in_bin (h.bins i) a
unfolding sort_bin
in-sort_bin index h i a = ground (
  arith,
  in-place_chunks h.size (sort_by_size h.size (h.bins index).unsorted) (h.bins index).sorted a,
  mem-sort_by_size h.size (h.bins index).unsorted a,
)

-- What is in a bin that has been sorted.
pub in_columns-sort_bin :
    (index : ℕ) (h : Heap) (a : ℕ)
    → in_columns a ((sort_bin index h).bins index).sorted ≡ in_bin (h.bins index) a
unfolding sort_bin
in_columns-sort_bin index h a =
    let here : (index == index) ≡ true = ground arith in
    let e = in-sort_bin index h index a in rw here (rw here at e)

pub mem-remove : (c : ℕ) (xs : List ℕ) (a : ℕ) → mem a (remove c xs) ≡ (mem a xs && not (a == c))
unfolding remove
mem-remove c [] a = refl
mem-remove c (x ∷ xs) a = ground (arith, mem-remove c xs a)

in-keep_column :
    (col : List ℕ) (cols : List (List ℕ)) (a : ℕ)
    → in_columns a (keep_column col cols) ≡ (mem a col || in_columns a cols)
in-keep_column [] cols a = refl
in-keep_column (c ∷ cs) cols a = refl

in-remove_from_columns :
    (c : ℕ) (cols : List (List ℕ)) (a : ℕ)
    → in_columns a (remove_from_columns c cols) ≡ (in_columns a cols && not (a == c))
unfolding remove_from_columns
in-remove_from_columns c [] a = refl
in-remove_from_columns c (col ∷ cols) a = ground (
  arith,
  in-keep_column (remove c col) (remove_from_columns c cols) a,
  mem-remove c col a,
  in-remove_from_columns c cols a,
)

pub in-unlink_chunk :
    (c : ℕ) (h : Heap) (i a : ℕ)
    → in_bin ((unlink_chunk c h).bins i) a ≡ (in_bin (h.bins i) a && not (a == c))
unfolding unlink_chunk
in-unlink_chunk c h i a =
    ground (arith, mem-remove c (h.bins i).unsorted a, in-remove_from_columns c (h.bins i).sorted a)

pub in-insert_unsorted :
    (c : ℕ) (h : Heap) (i a : ℕ)
    → in_bin ((insert_unsorted c h).bins i) a
      ≡ ((i == bin_of (h.size c) && c == a) || in_bin (h.bins i) a)
unfolding insert_unsorted
in-insert_unsorted c h i a = ground arith
