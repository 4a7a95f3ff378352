-- ===== src/Hashtable/Insert.antt =====
-- c7/stm/hashtable.c: a well-formed table, and one more entry in it.
use native.Mathlib.Nat.{mod-lt}
use mathlib.Core.Option.{some-injective}
use pypy_stmgc.Base.{
  ==_equal, ℕ, zero, suc, ◌+◌, ◌-◌, ◌*◌, ◌^◌, ◌≤◌, ◌<◌, ◌≡◌, refl, ap, sym, ◌∙◌, subst, arith, inl,
  inr, true, false, ◌==◌, update, Option, none, some, Option-cases, Bool-cases,
}
use pypy_stmgc.Hashtable.{Entry, Table, find, masked, minus_six, init_table}
use pypy_stmgc.Hashtable.Probe.{slot_at_reach, find_stops}
use pypy_stmgc.Hashtable.Placed.{
  Ends, find_both, find-item, find-update_found, find-update_new, find-low,
}

abbrev occupied : Option Entry → ℕ
occupied none = 0
occupied (some _) = 1

-- How many of the slots 0, …, n - 1 have an entry.
unfoldable pub count_items : (ℕ → Option Entry) → ℕ → ℕ
count_items items zero = 0
count_items items (suc n) = count_items items n + occupied (items n)

-- The search for the index of the entry finds it in slot `j`.
abbrev InPlace : Table → ℕ → Entry → Type 0
InPlace t j entry =
    (j < t.mask + 1)
    × Ends t.mask t.items entry.index (masked entry.index t.mask) entry.index (j, some entry)

-- So it is for all entries.
abbrev pub Placed : Table → Type 0
Placed t = (j : ℕ) (entry : Entry) → t.items j ≡ some entry → InPlace t j entry

-- A table of 2 ^ k slots and `count` entries. The counter is odd, and so it is not 0.
abbrev pub IsTable : Table → ℕ → ℕ → Type 0
IsTable t k count =
    (t.mask + 1 ≡ 2 ^ k)
    × (k ≤ 60)
    × (count_items t.items (2 ^ k) ≡ count)
    × (t.resize_counter + 6 * count ≡ 4 * 2 ^ k + 1)
    × Placed t

count_items-free :
    (items : ℕ → Option Entry) (n : ℕ)
    → count_items items n < n
    → (y : ℕ) × (y < n) × (items y ≡ none)
unfolding count_items
count_items-free items zero less = absurd (omega arith)
count_items-free items (suc n) less = elim (Option-cases (items n)) [
  | inl e ↦ (n, omega arith, e)
  | inr (entry, e) ↦
      let (y, low, e') = count_items-free items n (ground (arith, ap occupied e)) in
      (y, omega arith, e')
]

count_items-above :
    (items : ℕ → Option Entry) (s n : ℕ) (entry : Entry)
    → n ≤ s
    → count_items (update items s (some entry)) n ≡ count_items items n
unfolding count_items
count_items-above items s zero entry le = refl
count_items-above items s (suc n) entry le =
    let apart : (n == s) ≡ false = ground arith in
    rw (count_items-above items s n entry (omega arith), apart) refl

count_items-update :
    (items : ℕ → Option Entry) (s n : ℕ) (entry : Entry)
    → items s ≡ none
    → s < n
    → count_items (update items s (some entry)) n ≡ count_items items n + 1
unfolding count_items
count_items-update items s zero entry empty low = absurd (omega arith)
count_items-update items s (suc n) entry empty low = elim (Bool-cases (n == s)) [
  | inl e ↦
      let at = ==_equal n s e in
      let empty' : items n ≡ none = ap items at ∙ empty in
      rw (count_items-above items s n entry (omega arith), e, empty') (omega arith)
  | inr e ↦ rw (count_items-update items s n entry empty (ground arith), e) (omega arith)
]

count_items-none : (n : ℕ) → count_items (λ _. none) n ≡ 0
unfolding count_items
count_items-none zero = refl
count_items-none (suc n) = rw (count_items-none n) refl

two_power_positive : (k : ℕ) → 0 < 2 ^ k
two_power_positive zero = omega arith
two_power_positive (suc k) = omega (arith, two_power_positive k)

-- A table in which every slot is free.
pub init_table-IsTable : (k : ℕ) → k ≤ 60 → IsTable (init_table (2 ^ k)) k 0
unfolding init_table
init_table-IsTable k small = (
  omega (arith, two_power_positive k),
  small,
  count_items-none (2 ^ k),
  omega arith,
  λ j entry e. absurd (ground (arith, e)),
)

-- A search in a table comes to an end.
pub find-Ends :
    (t : Table) (k count index : ℕ)
    → IsTable t k count
    → (r : ℕ × Option Entry) × Ends t.mask t.items index (masked index t.mask) index r
find-Ends t k count index (size, small, counted, counter, placed) =
    let (y, low, empty) =
      count_items-free t.items (2 ^ k) (omega (arith, counted, counter, size)) in
    let (n, at) = slot_at_reach t.mask k (masked index t.mask) index y size (omega arith) low in
    let (r, e) =
      find_stops t.mask n t.items index (masked index t.mask) index (ap t.items at ∙ empty) in
    (r, (suc n, e))

-- No entry has the index.
abbrev pub Absent : (ℕ → Option Entry) → ℕ → Type 0
Absent items index = (j : ℕ) (entry : Entry) → items j ≡ some entry → (entry.index == index) ≡ false

-- An entry of the table is what a search for its index ends with.
pub Placed-Ends :
    (t : Table) (index : ℕ) (r : ℕ × Option Entry) (j : ℕ) (entry : Entry)
    → Placed t
    → Ends t.mask t.items index (masked index t.mask) index r
    → t.items j ≡ some entry
    → (entry.index == index) ≡ true
    → r ≡ (j, some entry)
Placed-Ends t index r j entry placed (f, e) here same =
    let (_, (g, e')) = placed j entry here in
    let at = ==_equal entry.index index same in
    let there : find g t.mask t.items index (masked index t.mask) index ≡ some (j, some entry) =
      subst (λ a. find g t.mask t.items a (masked a t.mask) a ≡ some (j, some entry)) at e' in
    find_both t.mask t.items index f g (masked index t.mask) index r (j, some entry) e there

pub Absent-Ends :
    (t : Table) (index s : ℕ)
    → Placed t
    → Ends t.mask t.items index (masked index t.mask) index (s, none)
    → Absent t.items index
Absent-Ends t index s placed ends j entry here = elim (Bool-cases (entry.index == index)) [
  | inl e ↦
      absurd
        (ground (arith, ap (λ p. p.1) (Placed-Ends t index (s, none) j entry placed ends here e)))
  | inr e ↦ e
]

-- The table with one more entry.
abbrev pub filled : Table → ℕ → Entry → Table
filled t s entry = record {
  mask = t.mask;
  resize_counter = minus_six t.resize_counter;
  items = update t.items s (some entry);
}

two_power_more : (k d : ℕ) → 2 ^ k ≤ 2 ^ (k + d)
two_power_more k zero = let e : k + 0 ≡ k = omega arith in rw e (omega arith)
two_power_more k (suc d) =
    let e : k + suc d ≡ suc (k + d) = omega arith in rw e (omega (arith, two_power_more k d))

pub two_power_le : (k n : ℕ) → k ≤ n → 2 ^ k ≤ 2 ^ n
two_power_le k n le =
    let at : k + (n - k) ≡ n = omega arith in
    subst (λ m. 2 ^ k ≤ 2 ^ m) at (two_power_more k (n - k))

filled-Placed :
    (t : Table) (s : ℕ) (entry : Entry)
    → Placed t
    → Ends t.mask t.items entry.index (masked entry.index t.mask) entry.index (s, none)
    → Placed (filled t s entry)
filled-Placed t s entry placed (f, e) j other here =
    let empty =
      find-item t.mask t.items entry.index f (masked entry.index t.mask) entry.index s none e in
    elim (Bool-cases (j == s)) [
      | inl same ↦
          let at = ==_equal j s same in
          let is_new : other ≡ entry = sym (some-injective entry other (rw same at here)) in
          subst (InPlace (filled t s entry) j) (sym is_new) (
            subst (λ a. InPlace (filled t s entry) a entry) (sym at)
              (
                find-low t.mask t.items entry.index f (masked entry.index t.mask) entry.index s none
                    (mod-lt entry.index {m = t.mask + 1} (omega arith)) e,
                (
                  f,
                  find-update_new t.mask t.items entry.index f (masked entry.index t.mask)
                      entry.index s entry (ground arith) e,
                ),
              ))
      | inr apart ↦
          let (low, (g, e')) = placed j other (rw apart at here) in
          (
            low,
            (
              g,
              find-update_found t.mask t.items other.index g (masked other.index t.mask) other.index
                  s j entry other empty e',
            ),
          )
    ]

pub filled-IsTable :
    (t : Table) (k count s : ℕ) (entry : Entry)
    → IsTable t k count
    → 6 < t.resize_counter
    → Ends t.mask t.items entry.index (masked entry.index t.mask) entry.index (s, none)
    → IsTable (filled t s entry) k (count + 1)
filled-IsTable t k count s entry (size, small, counted, counter, placed) room (f, e) =
    let empty =
      find-item t.mask t.items entry.index f (masked entry.index t.mask) entry.index s none e in
    let start : masked entry.index t.mask < t.mask + 1 =
      mod-lt entry.index {m = t.mask + 1} (omega arith) in
    let low =
      find-low t.mask t.items entry.index f (masked entry.index t.mask) entry.index s none start
        e in
    let big : 2 ^ k ≤ 2 ^ 60 = two_power_le k 60 small in
    (
      size,
      small,
      count_items-update t.items s (2 ^ k) entry empty (omega (arith, low, size))
          ∙ ap (λ n. n + 1) counted,
      omega (arith, counter, room, big),
      filled-Placed t s entry placed (f, e),
    )
