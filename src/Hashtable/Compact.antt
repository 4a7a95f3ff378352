-- ===== src/Hashtable/Compact.antt =====
-- c7/stm/hashtable.c: compacting a table at a major collection.
use pypy_stmgc.Base.{
  ==_equal, ℕ, zero, suc, ◌+◌, ◌-◌, ◌*◌, ◌/◌, ◌%◌, ◌^◌, ◌≤◌, ◌<◌, ◌≡◌, refl, sym, ◌∙◌, subst, arith,
  inl, inr, Bool, true, false, not, ◌&&◌, ltb, ◌==◌, if◌then◌else◌, some, Bool-cases,
}
use pypy_stmgc.Hashtable.{Entry, Hashtable, rehash_hashtable}
use pypy_stmgc.Hashtable.Insert.{IsTable}
use pypy_stmgc.Hashtable.Rehash.{Holds}
use pypy_stmgc.State.{System}
use pypy_stmgc.Hashtable.{enough_count, compact_hashtable, was_read_by_anybody, rehash_hashtable}
use pypy_stmgc.Hashtable.Lookup.{rehash_hashtable-Rehashed}

below_size : (need k m : ℕ) → m ≤ k → need ≤ 4 * 2 ^ k → 2 ^ m * 4 < need → suc m ≤ k
below_size need k m le room less = elim (Bool-cases (m == k)) [
  | inl e ↦ absurd (omega (arith, subst (λ a. need ≤ 4 * 2 ^ a) (sym (==_equal m k e)) room, less))
  | inr e ↦ ground arith
]

-- The loop finds a size with room for the entries, not above that of the table.
enough_count_power :
    (fuel need k m : ℕ)
    → m ≤ k
    → k ≤ m + fuel
    → need ≤ 4 * 2 ^ k
    → (m' : ℕ) × (enough_count fuel need (2 ^ m) ≡ 2 ^ m') × (m' ≤ k) × (need ≤ 4 * 2 ^ m')
unfolding enough_count
enough_count_power zero need k m le fuel room =
    let e : m ≡ k = omega arith in (m, refl, le, subst (λ a. need ≤ 4 * 2 ^ a) (sym e) room)
enough_count_power (suc f) need k m le fuel room = elim (Bool-cases (ltb (2 ^ m * 4) need)) [
  | inl less ↦
      let below = below_size need k m le room (ground arith) in
      let (m', e, le', room') = enough_count_power f need k (suc m) below (omega arith) room in
      let twice : 2 ^ m * 2 ≡ 2 ^ suc m = omega arith in (m', rw (less, twice) e, le', room')
  | inr more ↦ (m, rw more refl, le, ground arith)
]

-- The segment that a compaction looks at.
abbrev segment_of : Hashtable → ℕ
segment_of h = if h.additions % 256 == 0 then 1 else h.additions % 256

-- The entries that a compaction may drop: without an object in that segment, and not read.
abbrev unused : (ℕ → ℕ → ℕ) → System → Hashtable → ℕ → Bool
unused object s h a = object (segment_of h) a == 0 && not (was_read_by_anybody s a)

abbrev needed : Hashtable → ℕ
needed h = (h.table.mask + 1) * 4 + 1 - h.table.resize_counter

-- With enough fuel the compaction ends, and its table is well formed and has no other entries; an entry
-- is dropped only if it is not used.
abbrev pub Compacted : (ℕ → ℕ → ℕ) → System → Hashtable → Type 0
Compacted object s h =
    (h' : Hashtable) × (f : ℕ) × (k : ℕ) × (count : ℕ) × IsTable h'.table k count
    × ((entry : Entry) → Holds h'.table entry → Holds h.table entry)
    × ((entry : Entry)
        → Holds h.table entry
        → unused object s h entry.addr ≡ false
        → Holds h'.table entry)
    × ((g : ℕ) → f ≤ g → compact_hashtable g object s h ≡ some h')

compact_hashtable-same :
    (g : ℕ) (object : ℕ → ℕ → ℕ) (s : System) (h : Hashtable)
    → ltb h.table.mask (h.additions / 256 * 4) ≡ false
    → compact_hashtable g object s h ≡ some h
unfolding compact_hashtable
compact_hashtable-same g object s h e = rw e refl

compact_hashtable-rehash :
    (g : ℕ) (object : ℕ → ℕ → ℕ) (s : System) (h : Hashtable) (count : ℕ)
    → ltb h.table.mask (h.additions / 256 * 4) ≡ true
    → enough_count 64 (needed h) 8 ≡ count
    → compact_hashtable g object s h
      ≡ rehash_hashtable g (unused object s h) count (record h { additions = segment_of h })
unfolding compact_hashtable
compact_hashtable-rehash g object s h count e e' = rw (e, e') refl

-- For a well-formed table of at least 8 slots: with enough fuel for the slots a compaction ends, with a
-- well-formed table that has no other entries; an entry that is not in it any more had no object in the
-- segment that the compaction looks at, and nobody had read it.
pub compact_hashtable-Compacted :
    (object : ℕ → ℕ → ℕ) (s : System) (h : Hashtable) (k count : ℕ)
    → 3 ≤ k
    → IsTable h.table k count
    → Compacted object s h
compact_hashtable-Compacted object s h k count big table =
    let (size, small, counted, counter, placed) = table in
    elim (Bool-cases (ltb h.table.mask (h.additions / 256 * 4))) [
      | inr e ↦ (
        h,
        0,
        k,
        count,
        table,
        λ entry held. held,
        λ entry held used. held,
        λ g _. compact_hashtable-same g object s h e,
      )
      | inl e ↦
          let (k', found, le, room) =
            enough_count_power 64 (needed h) k 3 big (omega arith) (omega (arith, size, counter)) in
          let (h', count', f, table', _, _, same, run) =
            rehash_hashtable-Rehashed (unused object s h) (record h { additions = segment_of h }) k
              count k' table (omega arith) (omega (arith, size, counter, room)) in
          (
            h',
            f,
            k',
            count',
            table',
            λ entry held. ((same entry).0 held).0,
            λ entry held live. (same entry).1 (held, live),
            λ g enough. compact_hashtable-rehash g object s h (2 ^ k') e found ∙ run g enough,
          )
    ]
