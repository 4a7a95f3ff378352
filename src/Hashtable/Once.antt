-- ===== src/Hashtable/Once.antt =====
-- c7/stm/hashtable.c: a lookup in a table that has room.
use pypy_stmgc.Base.{
  ==_equal, ℕ, suc, ◌+◌, ◌*◌, ◌^◌, ◌≤◌, ◌<◌, ◌≡◌, refl, ap, sym, ◌∙◌, subst, arith, inl, inr, ◌⊎◌,
  Bool, ltb, none, some, Bool-cases,
}
use mathlib.Core.Logic.{◌↔◌}
use pypy_stmgc.Hashtable.{
  Entry, Table, Hashtable, masked, bigger_count, next_additions, stm_hashtable_lookup,
}
use pypy_stmgc.Hashtable.Placed.{find-item, find-index, find-le}
use pypy_stmgc.Hashtable.Insert.{IsTable, Absent, Absent-Ends, filled, filled-IsTable, two_power_le}
use pypy_stmgc.Hashtable.Rehash.{Holds, Holds-cases, Holds-filled, filled-Holds}
use pypy_stmgc.Hashtable.Lookup.{Finds, lookup-found, lookup-new}

-- What a lookup does, with enough fuel for the slots: it returns an entry with the index; that one was
-- in the table, or it is a new one at the address that the allocation gives, and then the table had
-- none with the index; the other entries stay, and the table is well formed.
abbrev pub LooksUp : ℕ → Bool → ℕ → ℕ → ℕ → Hashtable → Type 0
LooksUp tries in_nursery me addr index h =
    (entry : Entry) × (h' : Hashtable) × (f : ℕ) × (k : ℕ) × (count : ℕ) × IsTable h'.table k count
    × (entry.index ≡ index)
    × (Holds h.table entry ⊎ (Absent h.table.items index × (entry.addr ≡ addr)))
    × ((other : Entry) → Holds h'.table other ↔ (Holds h.table other ⊎ (other ≡ entry)))
    × ((g : ℕ) → f ≤ g → stm_hashtable_lookup tries g in_nursery me addr index h ≡ some (entry, h'))

-- A table of more slots for one that is full.
pub bigger_count_power :
    (k : ℕ) → (k' : ℕ) × (bigger_count (2 ^ k) ≡ 2 ^ k') × (k < k') × (k' ≤ k + 2)
bigger_count_power k = elim (Bool-cases (ltb (2 ^ k) 50000)) [
  | inl e ↦ (suc (suc k), rw e (omega arith), omega arith, omega arith)
  | inr e ↦ (suc k, rw e (omega arith), omega arith, omega arith)
]

module _ (tries : ℕ) (in_nursery : Bool) (me addr index : ℕ) (h : Hashtable) where
  abbrev new_entry : Entry
  new_entry = record { addr = addr; index = index }

  Holds-new :
      (t : Table) (s : ℕ)
      → t.items s ≡ none
      → (other : Entry) → Holds (filled t s new_entry) other ↔ (Holds t other ⊎ (other ≡ new_entry))
  Holds-new t s empty other = (
    λ held. elim (Holds-cases t s new_entry other held) [ inl e ↦ inr e | inr old ↦ inl old ],
    λ either. elim either [
      | inl old ↦ Holds-filled t s new_entry other empty old
      | inr e ↦ subst (Holds (filled t s new_entry)) (sym e) (filled-Holds t s new_entry)
    ],
  )

  pub lookup-present :
      (k count s f : ℕ) (found : Entry)
      → IsTable h.table k count
      → Finds (suc tries) f in_nursery me addr index h s (some found)
      → LooksUp (suc tries) in_nursery me addr index h
  lookup-present k count s f found table e =
      let i = masked index h.table.mask in
      let held = find-item h.table.mask h.table.items index f i index s (some found) e in
      let same = find-index h.table.mask h.table.items index f i index s found e in
      (
        found,
        h,
        f,
        k,
        count,
        table,
        ==_equal found.index index same,
        inl (s, held),
        λ other. (
          λ old. inl old,
          λ either. elim either [ inl old ↦ old | inr e' ↦ (s, held ∙ ap some (sym e')) ],
        ),
        λ g enough.
            lookup-found tries g in_nursery me addr index h s found
              (find-le h.table.mask h.table.items index f g i index (s, some found) enough e),
      )

  pub lookup-absent :
      (k count s f : ℕ)
      → IsTable h.table k count
      → 6 < h.table.resize_counter
      → Finds (suc tries) f in_nursery me addr index h s none
      → LooksUp (suc tries) in_nursery me addr index h
  lookup-absent k count s f table room e =
      let t = h.table in
      let i = masked index t.mask in
      let empty = find-item t.mask t.items index f i index s none e in
      (
        new_entry,
        record {
          table = filled t s new_entry;
          additions = next_additions in_nursery me h.additions;
        },
        f,
        k,
        count + 1,
        filled-IsTable t k count s new_entry table room (f, e),
        refl,
        inr (Absent-Ends t index s table.4 (f, e), refl),
        Holds-new t s empty,
        λ g enough.
            lookup-new tries g in_nursery me addr index h s
              (find-le t.mask t.items index f g i index (s, none) enough e) (ground arith),
      )

-- The table that replaces a full one has room for its entries, and for one more.
pub entries_fit :
    (k k' count rc : ℕ) → k < k' → rc + 6 * count ≡ 4 * 2 ^ k + 1 → 6 * count ≤ 4 * 2 ^ k'
entries_fit k k' count rc more e =
    let double : 2 ^ suc k ≤ 2 ^ k' = two_power_le (suc k) k' more in
    let twice : 2 ^ suc k ≡ 2 ^ k + 2 ^ k = omega arith in omega (arith, double, twice, e)

pub one_more_fits :
    (k k' count count' rc rc' : ℕ)
    → 3 ≤ k
    → k < k'
    → count' ≤ count
    → rc + 6 * count ≡ 4 * 2 ^ k + 1
    → rc' + 6 * count' ≡ 4 * 2 ^ k' + 1
    → 6 < rc'
one_more_fits k k' count count' rc rc' big more le e e' =
    let eight : 8 ≤ 2 ^ k = two_power_le 3 k big in
    let double : 2 ^ suc k ≤ 2 ^ k' = two_power_le (suc k) k' more in
    let twice : 2 ^ suc k ≡ 2 ^ k + 2 ^ k = omega arith in
    omega (arith, eight, double, twice, e, e', le)
