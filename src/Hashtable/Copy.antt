-- ===== src/Hashtable/Copy.antt =====
-- c7/stm/hashtable.c: the loop that copies the entries to a new table, and rehashing.
use mathlib.Core.Option.{some-injective}
use pypy_stmgc.Base.{
  ℕ, zero, suc, ◌+◌, ◌*◌, ◌^◌, ◌≤◌, ◌≡◌, refl, ap, sym, ◌∙◌, subst, arith, inl, inr, Bool, true,
  ◌==◌, Option, none, some, Option-cases, Bool-cases,
}
use pypy_stmgc.Hashtable.{Entry, Table, masked, copy_entries}
use pypy_stmgc.Hashtable.Placed.{Ends, find-item, find-index}
use pypy_stmgc.Hashtable.Insert.{count_items, IsTable, Absent, filled, filled-IsTable, find-Ends}
use pypy_stmgc.Hashtable.Rehash.{
  Copied, insert_clean-filled, copy_entries-free, copy_entries-dead, copy_entries-live, Copied-skip,
  Copied-filled,
}

-- For an index that no entry has the search ends at a free slot.
pub Ends-Absent :
    (t : Table) (k count index : ℕ)
    → IsTable t k count
    → Absent t.items index
    → (s : ℕ) × Ends t.mask t.items index (masked index t.mask) index (s, none)
Ends-Absent t k count index table absent =
    let ((s, o), (f, e)) = find-Ends t k count index table in
    elim (Option-cases o) [
      | inl is_none ↦ (s, (f, e ∙ ap (λ r. some (s, r)) is_none))
      | inr (found, is_some) ↦
          let e' = e ∙ ap (λ r. some (s, r)) is_some in
          let i = masked index t.mask in
          absurd (
            ground (
              arith,
              absent s found (find-item t.mask t.items index f i index s (some found) e'),
              find-index t.mask t.items index f i index s found e',
            ))
    ]

module _ (dead : ℕ → Bool) (items : ℕ → Option Entry) (k : ℕ) where
  abbrev Distinct : Type 0
  Distinct =
      (i j : ℕ) (a b : Entry)
      → items i ≡ some a
      → items j ≡ some b
      → (a.index == b.index) ≡ true
      → i ≡ j

  -- The loop ends with a table that has the entries below slot `m`.
  abbrev CopiesAll : ℕ → ℕ → ℕ → Table → Type 0
  CopiesAll n j m t =
      (t' : Table) × (count : ℕ) × (f : ℕ) × IsTable t' k count
      × (count ≤ count_items items m)
      × Copied dead items m t'
      × ((g : ℕ) → f ≤ g → copy_entries g dead items n j t ≡ some t')

  Absent-Copied :
      (t : Table) (j : ℕ) (entry : Entry)
      → Distinct
      → Copied dead items j t
      → items j ≡ some entry
      → Absent t.items entry.index
  Absent-Copied t j entry distinct (from, _) here i other e =
      elim (Bool-cases (other.index == entry.index)) [
        | inl same ↦
            let (i', low, e', _) = from other (i, e) in
            absurd (omega (arith, distinct i' j other entry e' here same))
        | inr apart ↦ apart
      ]

  count_items-suc : (j : ℕ) → count_items items j ≤ count_items items (j + 1)
  unfolding count_items
  count_items-suc j = let e : j + 1 ≡ suc j = omega arith in rw e (omega arith)

  count_items-some :
      (j : ℕ) (entry : Entry)
      → items j ≡ some entry
      → count_items items (j + 1) ≡ count_items items j + 1
  unfolding count_items
  count_items-some j entry here = let e : j + 1 ≡ suc j = omega arith in rw (e, here) refl

  count_items-le : (n j : ℕ) → count_items items j ≤ count_items items (j + n)
  count_items-le zero j = let e : j + 0 ≡ j = omega arith in rw e (omega arith)
  count_items-le (suc n) j =
      let e : j + suc n ≡ j + 1 + n = omega arith in
      rw e (omega (arith, count_items-suc j, count_items-le n (j + 1)))

  CopiesAll-step :
      (n j m f : ℕ) (t t' : Table)
      → ((g : ℕ)
          → f ≤ g
          → copy_entries g dead items (suc n) j t ≡ copy_entries g dead items n (j + 1) t')
      → CopiesAll n (j + 1) m t'
      → CopiesAll (suc n) j m t
  CopiesAll-step n j m f t t' step (result, count, f', table, le, copied, run) = (
    result,
    count,
    f + f',
    table,
    le,
    copied,
    λ g enough. step g (omega arith) ∙ run g (omega arith),
  )

  same_dead :
      (j : ℕ) (entry : Entry)
      → items j ≡ some entry
      → dead entry.addr ≡ true
      → (other : Entry) → items j ≡ some other
      → dead other.addr ≡ true
  same_dead j entry here is_dead other e =
      ap (λ o. dead o.addr) (some-injective other entry (sym e ∙ here)) ∙ is_dead

  pub copy_entries-CopiesAll :
      Distinct
      → (n j count : ℕ) (t : Table) → IsTable t k count
      → count ≤ count_items items j
      → Copied dead items j t
      → 6 * count_items items (j + n) ≤ 4 * 2 ^ k
      → CopiesAll n j (j + n) t
  unfolding copy_entries
  copy_entries-CopiesAll distinct zero j count t table le copied room =
      let e : j + 0 ≡ j = omega arith in rw e (t, count, 0, table, le, copied, λ g _. refl)
  copy_entries-CopiesAll distinct (suc n) j count t table le copied room =
      let e : j + suc n ≡ j + 1 + n = omega arith in
      let rest = copy_entries-CopiesAll distinct n (j + 1) in
      let more = count_items-suc j in
      subst (λ m. CopiesAll (suc n) j m t) (sym e)
        (elim (Option-cases (items j)) [
          | inl here ↦
              CopiesAll-step n j (j + 1 + n) 0 t t
                (λ g _. copy_entries-free g dead items n j t here)
                (rest count t table (omega arith)
                  (Copied-skip dead items j t (λ entry e'. absurd (ground (arith, here, e')))
                    copied)
                  (rw e at room))
          | inr (entry, here) ↦ elim (Bool-cases (dead entry.addr)) [
            | inl is_dead ↦
                CopiesAll-step n j (j + 1 + n) 0 t t
                  (λ g _. copy_entries-dead g dead items n j t entry here is_dead)
                  (rest count t table (omega arith)
                    (Copied-skip dead items j t (same_dead j entry here is_dead) copied)
                    (rw e at room))
            | inr live ↦
                let (s, (f, found)) =
                  Ends-Absent t k count entry.index table
                    (Absent-Copied t j entry distinct copied here) in
                let i = masked entry.index t.mask in
                let empty = find-item t.mask t.items entry.index f i entry.index s none found in
                let plus_one = count_items-some j entry here in
                let up = count_items-le n (j + 1) in
                let room' = rw e at room in
                CopiesAll-step n j (j + 1 + n) f t (filled t s entry)
                  (λ g enough.
                    copy_entries-live g dead items n j t s entry here live
                      (insert_clean-filled t s f g entry table.4 found enough))
                  (rest (count + 1) (filled t s entry)
                    (filled-IsTable t k count s entry table
                      (omega (arith, table.3, plus_one, up, room')) (f, found))
                    (omega arith) (Copied-filled dead items j s t entry empty here live copied)
                    room')
          ]
        ])
