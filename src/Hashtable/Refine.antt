-- ===== src/Hashtable/Refine.antt =====
-- c7/stm/hashtable.c: a lookup returns the entry of the index, and makes one if there is none.
use pypy_stmgc.Base.{
  ℕ, suc, ◌+◌, ◌^◌, ◌≤◌, ◌≡◌, refl, ap, ◌∙◌, subst, arith, inl, inr, Bool, false, ltb, none, some,
  Option-cases, Bool-cases,
}
use mathlib.Core.Logic.{◌↔◌}
use pypy_stmgc.Hashtable.{
  Entry, Hashtable, masked, rehash_hashtable, bigger_count, stm_hashtable_lookup,
}
use pypy_stmgc.Hashtable.Placed.{find-le}
use pypy_stmgc.Hashtable.Insert.{IsTable, Absent, Absent-Ends, find-Ends}
use pypy_stmgc.Hashtable.Rehash.{Holds}
use pypy_stmgc.Hashtable.Copy.{Ends-Absent}
use pypy_stmgc.Hashtable.Lookup.{rehash_hashtable-Rehashed, Finds, lookup-found, lookup-again}
use pypy_stmgc.Hashtable.Once.{
  LooksUp, bigger_count_power, lookup-present, lookup-absent, entries_fit, one_more_fits,
}

-- A lookup after the rehashing, seen from before it.
LooksUp-rehashed :
    (tries : ℕ) (in_nursery : Bool) (me addr index : ℕ) (h h₁ : Hashtable) (f₁ : ℕ)
    → Absent h.table.items index
    → ((entry : Entry) → Holds h₁.table entry ↔ (Holds h.table entry × (false ≡ false)))
    → ((g : ℕ)
        → f₁ ≤ g
        → stm_hashtable_lookup (suc tries) g in_nursery me addr index h
          ≡ stm_hashtable_lookup tries g in_nursery me addr index h₁)
    → LooksUp tries in_nursery me addr index h₁
    → LooksUp (suc tries) in_nursery me addr index h
LooksUp-rehashed tries in_nursery me addr index h h₁ f₁ absent same step
      (entry, h', f, k, count, table, at, origin, holds, run) =
    (
      entry,
      h',
      f₁ + f,
      k,
      count,
      table,
      at,
      (elim origin [ inl old ↦ inl ((same entry).0 old).0 | inr (_, fresh) ↦ inr (absent, fresh) ]),
      λ other. (
        λ held. elim ((holds other).0 held) [
          | inl old ↦ inl ((same other).0 old).0
          | inr e ↦ inr e
        ],
        λ either. elim either [
          | inl old ↦ (holds other).1 (inl ((same other).1 (old, refl)))
          | inr e ↦ (holds other).1 (inr e)
        ],
      ),
      λ g enough. step g (omega arith) ∙ run g (omega arith),
    )

Absent-rehashed :
    (h h₁ : Hashtable) (index : ℕ)
    → Absent h.table.items index
    → ((entry : Entry) → Holds h₁.table entry ↔ (Holds h.table entry × (false ≡ false)))
    → Absent h₁.table.items index
Absent-rehashed h h₁ index absent same j entry e =
    let ((i, e'), _) = (same entry).0 (j, e) in absent i entry e'

lookup-full :
    (tries : ℕ) (in_nursery : Bool) (me addr index : ℕ) (h : Hashtable) (k count s f : ℕ)
    → 3 ≤ k
    → k ≤ 58
    → IsTable h.table k count
    → h.table.resize_counter ≤ 6
    → Finds (suc tries) f in_nursery me addr index h s none
    → LooksUp (suc (suc tries)) in_nursery me addr index h
lookup-full tries in_nursery me addr index h k count s f big small table full e =
    let t = h.table in
    let i = masked index t.mask in
    let absent = Absent-Ends t index s table.4 (f, e) in
    let (k', bigger, more, not_much) = bigger_count_power k in
    let room = entries_fit k k' count t.resize_counter more table.3 in
    let (h₁, count₁, f₁, table₁, le, _, same, run) =
      rehash_hashtable-Rehashed (λ _. false) h k count k' table (omega arith) room in
    let room₁ =
      one_more_fits k k' count count₁ t.resize_counter h₁.table.resize_counter big more le table.3
        table₁.3 in
    let (s₁, (g₁, found)) =
      Ends-Absent h₁.table k' count₁ index table₁ (Absent-rehashed h h₁ index absent same) in
    let size : bigger_count (t.mask + 1) ≡ 2 ^ k' = ap bigger_count table.0 ∙ bigger in
    LooksUp-rehashed (suc tries) in_nursery me addr index h h₁ (f + f₁) absent same
      (λ g enough.
        let enough' : f ≤ g = omega (arith, enough) in
        lookup-again (suc tries) g in_nursery me addr index h s h₁
          (find-le t.mask t.items index f g i index (s, none) enough' e) (ground arith)
          (ap (λ m. rehash_hashtable g (λ _. false) m h) size ∙ run g (omega arith)))
      (lookup-absent tries in_nursery me addr index h₁ k' count₁ s₁ g₁ table₁ room₁ found)

-- For a well-formed table of at least 8 and at most 2 ^ 58 slots: with enough fuel for the slots, and
-- with at most one restart, `stm_hashtable_lookup` returns an entry with the index, one of the table, or
-- a new one if the table had none; it keeps all the other entries and adds no other, and leaves a
-- well-formed table.
pub lookup-LooksUp :
    (in_nursery : Bool) (me addr index : ℕ) (h : Hashtable) (k count : ℕ)
    → 3 ≤ k
    → k ≤ 58
    → IsTable h.table k count
    → LooksUp 2 in_nursery me addr index h
lookup-LooksUp in_nursery me addr index h k count big small table =
    let ((s, o), (f, e)) = find-Ends h.table k count index table in
    elim (Option-cases o) [
      | inr (found, is_some) ↦
          lookup-present 1 in_nursery me addr index h k count s f found table
            (e ∙ ap (λ r. some (s, r)) is_some)
      | inl is_none ↦
          let e' = e ∙ ap (λ r. some (s, r)) is_none in
          elim (Bool-cases (ltb 6 h.table.resize_counter)) [
            | inl room ↦
                lookup-absent 1 in_nursery me addr index h k count s f table (ground arith) e'
            | inr full ↦
                lookup-full 0 in_nursery me addr index h k count s f big small table (ground arith)
                  e'
          ]
    ]

-- For a well-formed table of at least 8 and at most 2 ^ 58 slots, with enough fuel for the slots: when an
-- index is looked up and then looked up again, wherever an allocation would put a new entry, the second
-- lookup returns the same entry at once and changes nothing.
pub lookup_twice :
    (in_nursery : Bool) (me addr addr' index : ℕ) (h : Hashtable) (k count : ℕ)
    → 3 ≤ k
    → k ≤ 58
    → IsTable h.table k count
    → (entry : Entry) × (h' : Hashtable) × (f : ℕ) × ((g : ℕ)
        → f ≤ g
        → (stm_hashtable_lookup 2 g in_nursery me addr index h ≡ some (entry, h'))
          × (stm_hashtable_lookup 1 g in_nursery me addr' index h' ≡ some (entry, h')))
lookup_twice in_nursery me addr addr' index h k count big small table =
    let (entry, h', f, k', count', table', at, _, holds, run) =
      lookup-LooksUp in_nursery me addr index h k count big small table in
    let (j, held) = (holds entry).1 (inr refl) in
    let (_, (f', found)) = table'.4 j entry held in
    let found' : Finds 1 f' in_nursery me addr' index h' j (some entry) =
      subst (λ a. Finds 1 f' in_nursery me addr' a h' j (some entry)) at found in
    let i = masked index h'.table.mask in
    (
      entry,
      h',
      f + f',
      λ g enough.
          let enough' : f' ≤ g = omega arith in
          (
            run g (omega arith),
            lookup-found 0 g in_nursery me addr' index h' j entry (
                find-le h'.table.mask h'.table.items index f' g i index (j, some entry) enough'
                  found'),
          ),
    )
