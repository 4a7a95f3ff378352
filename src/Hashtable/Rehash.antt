-- ===== src/Hashtable/Rehash.antt =====
-- c7/stm/hashtable.c: the entries after a table has been copied to a new one.
use mathlib.Core.Option.{some-injective}
use pypy_stmgc.Base.{
  ==_equal, ℕ, suc, ◌+◌, ◌≤◌, ◌<◌, ◌≡◌, refl, ap, sym, ◌∙◌, subst, arith, inl, inr, ◌⊎◌, Bool, true,
  false, ◌==◌, update, Option, none, some, Bool-cases,
}
use pypy_stmgc.Hashtable.{Entry, Table, find, masked, insert_clean, copy_entries}
use pypy_stmgc.Hashtable.Placed.{free_slot-find, find-le}
use pypy_stmgc.Hashtable.Insert.{Placed, Absent-Ends, Placed-Ends, filled}

-- The entry is in the table.
abbrev pub Holds : Table → Entry → Type 0
Holds t entry = (j : ℕ) × (t.items j ≡ some entry)

-- The entries of the table are those of the slots below `n` that are not dead.
abbrev pub Copied : (ℕ → Bool) → (ℕ → Option Entry) → ℕ → Table → Type 0
Copied dead items n t =
    ((entry : Entry)
      → Holds t entry
      → (j : ℕ) × (j < n) × (items j ≡ some entry) × (dead entry.addr ≡ false))
    × ((j : ℕ) (entry : Entry)
        → j < n
        → items j ≡ some entry
        → dead entry.addr ≡ false
        → Holds t entry)

-- Two entries of a table have different indices.
pub Placed-distinct :
    (t : Table)
    → Placed t
    → (i j : ℕ) (a b : Entry) → t.items i ≡ some a
    → t.items j ≡ some b
    → (a.index == b.index) ≡ true
    → i ≡ j
Placed-distinct t placed i j a b here there same =
    sym
      (ap (λ p. p.0) (Placed-Ends t b.index (j, some b) i a placed (placed j b there).1 here same))

pub insert_clean-filled :
    (t : Table) (s f g : ℕ) (entry : Entry)
    → Placed t
    → find f t.mask t.items entry.index (masked entry.index t.mask) entry.index ≡ some (s, none)
    → f ≤ g
    → insert_clean g t entry ≡ some (record t { items = update t.items s (some entry) })
unfolding insert_clean
insert_clean-filled t s f g entry placed e le =
    let i = masked entry.index t.mask in
    let e' = find-le t.mask t.items entry.index f g i entry.index (s, none) le e in
    rw
      (
        free_slot-find t.mask t.items entry.index g i entry.index s
            (Absent-Ends t entry.index s placed (f, e)) e',
        insert_clean,
      )
      refl

module _ (fuel : ℕ) (dead : ℕ → Bool) (items : ℕ → Option Entry) (n j : ℕ) (t : Table) where
  pub copy_entries-free :
      items j ≡ none
      → copy_entries fuel dead items (suc n) j t ≡ copy_entries fuel dead items n (j + 1) t
  unfolding copy_entries
  copy_entries-free e = rw (e, copy_entries) refl

  pub copy_entries-dead :
      (entry : Entry)
      → items j ≡ some entry
      → dead entry.addr ≡ true
      → copy_entries fuel dead items (suc n) j t ≡ copy_entries fuel dead items n (j + 1) t
  unfolding copy_entries
  copy_entries-dead entry e is_dead = rw (e, copy_entries) (rw is_dead refl)

  pub copy_entries-live :
      (s : ℕ) (entry : Entry)
      → items j ≡ some entry
      → dead entry.addr ≡ false
      → insert_clean fuel t entry ≡ some (record t { items = update t.items s (some entry) })
      → copy_entries fuel dead items (suc n) j t
        ≡ copy_entries fuel dead items n (j + 1) (filled t s entry)
  unfolding copy_entries
  copy_entries-live s entry e live inserted =
      rw (e, copy_entries) (rw live (rw (inserted, copy_entries) refl))

pub Copied-skip :
    (dead : ℕ → Bool) (items : ℕ → Option Entry) (j : ℕ) (t : Table)
    → ((entry : Entry) → items j ≡ some entry → dead entry.addr ≡ true)
    → Copied dead items j t
    → Copied dead items (j + 1) t
Copied-skip dead items j t skip (from, to) = (
  λ entry held. let (i, low, e, live) = from entry held in (i, omega arith, e, live),
  λ i entry low e live. elim (Bool-cases (i == j)) [
    | inl same ↦ absurd (ground (arith, live, skip entry (ap items (sym (==_equal i j same)) ∙ e)))
    | inr other ↦ to i entry (ground arith) e live
  ],
)

pub Holds-filled :
    (t : Table) (s : ℕ) (entry other : Entry)
    → t.items s ≡ none
    → Holds t other
    → Holds (filled t s entry) other
Holds-filled t s entry other empty (i, e) = elim (Bool-cases (i == s)) [
  | inl same ↦ absurd (ground (arith, sym empty ∙ (ap t.items (sym (==_equal i s same)) ∙ e)))
  | inr apart ↦ (i, rw apart e)
]

pub filled-Holds : (t : Table) (s : ℕ) (entry : Entry) → Holds (filled t s entry) entry
filled-Holds t s entry = let here : (s == s) ≡ true = ground arith in (s, rw here refl)

-- An entry of the table with one more is that one or was there.
pub Holds-cases :
    (t : Table) (s : ℕ) (entry other : Entry)
    → Holds (filled t s entry) other
    → (other ≡ entry) ⊎ Holds t other
Holds-cases t s entry other (i, e) = elim (Bool-cases (i == s)) [
  | inl same ↦ inl (sym (some-injective entry other (rw same at e)))
  | inr apart ↦ inr (i, rw apart at e)
]

pub Copied-filled :
    (dead : ℕ → Bool) (items : ℕ → Option Entry) (j s : ℕ) (t : Table) (entry : Entry)
    → t.items s ≡ none
    → items j ≡ some entry
    → dead entry.addr ≡ false
    → Copied dead items j t
    → Copied dead items (j + 1) (filled t s entry)
Copied-filled dead items j s t entry empty here live (from, to) = (
  λ other held. elim (Holds-cases t s entry other held) [
    | inl e ↦ (j, omega arith, here ∙ ap some (sym e), ap (λ o. dead o.addr) e ∙ live)
    | inr old ↦ let (i, low, e, alive) = from other old in (i, omega arith, e, alive)
  ],
  λ i other low e alive. elim (Bool-cases (i == j)) [
    | inl same ↦
        let is_entry : entry ≡ other =
          some-injective entry other (sym here ∙ (ap items (sym (==_equal i j same)) ∙ e)) in
        subst (Holds (filled t s entry)) is_entry (filled-Holds t s entry)
    | inr apart ↦ Holds-filled t s entry other empty (to i other (ground arith) e alive)
  ],
)
