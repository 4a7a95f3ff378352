-- ===== src/GrowList/Laws.antt =====
-- c7/stm/list.c: the growing array refines a list.
use mathlib.Core.List.{foldr, foldl, foldr-append}
use native.Mathlib.Nat.{zero-add}
use pypy_stmgc.Base.{
  append-nil, w64, w64, ℕ, zero, suc, ◌+◌, ◌-◌, ◌^◌, ◌≤◌, ◌<◌, ◌≡◌, refl, ap, ◌∙◌, sym, ◌⊎◌, inl,
  inr, List, [], ◌∷◌, ◌++◌, Bool, true, false, ltb, leb, if◌then◌else◌, update, arith, Bool-cases,
}
use pypy_stmgc.GrowList.{
  ListS, Result, ok, fatal, fault, ◌>>=◌, overcnt, setsize, store, list_create, list_grow,
  list_append, list_append2, list_pop_item, copy_items, list_extend, foreach_r, foreach_f,
}
use pypy_stmgc.GrowList.Slices.{slice, contents, slice-update_ge, slice-joined, slice-cons}

-- The items in use lie in the block, and no size comes near the wrap-around.
pub record IsValid (l : ListS) : Type 0 where
  pub within : l.count ≤ l.last_allocated + 1
  pub small : l.count < 2 ^ 58

overcnt_lem : (n : ℕ) → n < 2 ^ 60 → n + 32 ≤ overcnt n
unfolding overcnt
overcnt_lem n h = omega arith

-- What an operation gives: the new list, or `fatal` where the allocator refuses a size. It never
-- reads or writes outside the block.
abbrev pub Gives : (ℕ → Bool) → Result ListS → List ℕ → Type 0
Gives avail (ok l) xs = IsValid l × (contents l ≡ xs)
Gives avail fatal xs = (n : ℕ) × (avail n ≡ false)
Gives avail fault xs = ⊥

module _ (avail : ℕ → Bool) where
  grow_cases :
      (l : ListS) (n : ℕ)
      → (list_grow avail l n ≡ ok (record l { last_allocated = overcnt n - 1 }))
        ⊎ ((k : ℕ) × (avail k ≡ false) × (list_grow avail l n ≡ fatal))
  unfolding list_grow
  grow_cases l n = elim (Bool-cases (avail (setsize (overcnt n)))) [
    | inl e ↦ inl (rw e)
    | inr e ↦ inr (setsize (overcnt n), e, rw e)
  ]

  pub list_create-Gives : Gives avail (list_create avail) []
  unfolding list_create
  list_create-Gives = elim (Bool-cases (avail (setsize 32))) [
    | inl e ↦ rw (e, list_create) (omega arith, refl)
    | inr e ↦ rw (e, list_create) (setsize 32, e)
  ]

  -- The list grown where the test says so; the branch that both appends begin with.
  grow_if : Bool → ListS → ℕ → Result ListS
  grow_if b l n = if b then list_grow avail l n else ok l

  grow_if_cases :
      (b : Bool) (l : ListS) (n : ℕ)
      → n < 2 ^ 59
      → (b ≡ false → n ≤ l.last_allocated)
      → ((m : ℕ) × (n ≤ m) × (grow_if b l n ≡ ok (record l { last_allocated = m })))
        ⊎ ((k : ℕ) × (avail k ≡ false) × (grow_if b l n ≡ fatal))
  unfolding grow_if
  grow_if_cases true l n small fits = elim (grow_cases l n) [
    | inl e ↦ inl (overcnt n - 1, omega (arith, overcnt_lem n), e)
    | inr e ↦ inr e
  ]
  grow_if_cases false l n small fits = inl (l.last_allocated, fits refl, refl)

  -- Appending to a list in use puts the item at its end, in a block that is grown where it has to be;
  -- or it is fatal, and then the allocator refuses some size. It never leaves the block.
  pub list_append-Gives :
      (l : ListS) (x : ℕ)
      → IsValid l
      → l.count + 1 < 2 ^ 58
      → Gives avail (list_append avail l x) (contents l ++ x ∷ [])
  unfolding list_append grow_if
  list_append-Gives l x v h =
      elim (grow_if_cases (ltb l.last_allocated l.count) (record l { count = w64 (l.count + 1) })
        l.count (omega arith) (λ e. ground arith)) [
          | inl (m, le, e) ↦
              rw (e, list_append) (ground (arith, slice-update_ge l.items 0 l.count l.count x))
          | inr (k, no_room, e) ↦ rw (e, list_append) (k, no_room)
        ]

  -- Appending two items to a list in use puts both at its end, in this order, in a block that is grown
  -- where it has to be; or it is fatal, and then the allocator refuses some size. It never leaves the
  -- block.
  pub list_append2-Gives :
      (l : ListS) (x y : ℕ)
      → IsValid l
      → l.count + 2 < 2 ^ 58
      → Gives avail (list_append2 avail l x y) ((contents l ++ x ∷ []) ++ y ∷ [])
  unfolding list_append2 grow_if
  list_append2-Gives l x y v h =
      elim (grow_if_cases (leb l.last_allocated l.count) (record l { count = w64 (l.count + 2) })
        (w64 (l.count + 1)) (omega arith) (λ e. ground arith)) [
          | inl (m, le, e) ↦ rw (e, list_append2) (stored m (omega arith))
          | inr (k, no_room, e) ↦ rw (e, list_append2) (k, no_room)
        ]
    where
      f : ℕ → ℕ
      f = update (update l.items l.count x) (l.count + 1) y

      kept : slice f 0 l.count ≡ slice l.items 0 l.count
      kept =
          slice-update_ge (update l.items l.count x) 0 l.count (l.count + 1) y (omega arith)
          ∙ slice-update_ge l.items 0 l.count l.count x (omega arith)

      stored :
          (m : ℕ)
          → l.count + 1 ≤ m
          → Gives avail
              (store (record l { count = w64 (l.count + 2); last_allocated = m }) l.count x
                >>= λ l'. store l' (l.count + 1) y)
              ((contents l ++ x ∷ []) ++ y ∷ [])
      stored m le =
          let e : w64 (l.count + 2) ≡ suc (suc l.count) = omega arith in ground (arith, kept, e)

  -- A copy within both blocks moves `n` items, and keeps those below `base`.
  copy_items_lem :
      (l : ListS) (base : ℕ) (src : ListS) (from n : ℕ)
      → base + n ≤ l.last_allocated + 1
      → from + n ≤ src.last_allocated + 1
      → (f : ℕ → ℕ) × (copy_items avail l base src from n ≡ ok (record l { items = f }))
        × ((i : ℕ) → i < n → f (base + i) ≡ src.items (from + i))
        × ((i : ℕ) → i < base → f i ≡ l.items i)
  unfolding copy_items
  copy_items_lem l base src from zero room avl =
      (l.items, refl, λ i lt. absurd (omega arith), λ i lt. refl)
  copy_items_lem l base src from (suc n) room avl =
      let (f, e, moved, kept) = copy_items_lem l base src from n (omega arith) (omega arith) in
      (
        update f (base + n) (src.items (from + n)),
        rw e (ground arith),
        λ i lt. ground (arith, moved i),
        λ i lt. ground (arith, kept i),
      )

  -- Extending a list in use puts the items of another one from `start` on at its end; or it is fatal,
  -- and then the allocator refuses some size. It never leaves either block.
  pub list_extend-Gives :
      (l src : ListS) (start : ℕ)
      → IsValid l
      → IsValid src
      → l.count + src.count < 2 ^ 58
      → Gives avail
          (list_extend avail l src start)
          (contents l ++ slice src.items start (src.count - start))
  unfolding list_extend grow_if
  list_extend-Gives l src start v w h = elim (Bool-cases (leb src.count start)) [
    | inl none_left ↦
        let e : src.count - start ≡ 0 = ground arith in
        rw (none_left, list_extend, e) (v, sym (append-nil (contents l)))
    | inr some_left ↦
        elim (grow_if_cases (ltb l.last_allocated (w64 (l.count + src.count - start) - 1))
          (record l { count = w64 (l.count + src.count - start) })
          (w64 (l.count + src.count - start) - 1) (omega arith) (λ e. ground arith)) [
            | inl (m, le, e) ↦ rw (some_left, e, list_extend) (copied m some_left le)
            | inr (k, no_room, e) ↦ rw (some_left, e, list_extend) (k, no_room)
          ]
  ]
    where
      total :
          leb src.count start ≡ false
          → w64 (l.count + src.count - start) ≡ l.count + (src.count - start)
      total some_left = ground arith

      copied :
          (m : ℕ)
          → leb src.count start ≡ false
          → w64 (l.count + src.count - start) - 1 ≤ m
          → Gives avail
              (copy_items avail
                (record l { count = w64 (l.count + src.count - start); last_allocated = m })
                l.count
                src
                start
                (src.count - start))
              (contents l ++ slice src.items start (src.count - start))
      copied m some_left le =
          let t = total some_left in
          let lt : start < src.count = ground arith in
          let l' : ListS = record l {
            count = w64 (l.count + src.count - start);
            last_allocated = m;
          } in
          let (f, e, moved, kept) =
            copy_items_lem l' l.count src start (src.count - start) (omega arith) (omega arith) in
          rw e (
            record { within = omega arith; small = omega arith },
            ap (slice f 0) t
                ∙ slice-joined f l.items src.items l.count start (src.count - start) moved kept,
          )

-- A pop of an array in use takes the last item off; of an empty one, it is a failed assertion.
pub pop_lem :
    (l : ListS)
    → IsValid l
    → (0 < l.count
        → (x : ℕ) × (l' : ListS) × (list_pop_item l ≡ ok (x, l'))
          × IsValid l'
          × (contents l' ++ x ∷ [] ≡ contents l))
      × (l.count ≡ 0 → list_pop_item l ≡ fault)
unfolding list_pop_item
pop_lem l v = (
  λ pos.
      let e : l.count ≡ suc (l.count - 1) = omega arith in
      (
        l.items (l.count - 1),
        record l { count = l.count - 1 },
        ground arith,
        omega arith,
        sym (
            ap (slice l.items 0) e
            ∙ ap (λ k. slice l.items 0 (l.count - 1) ++ l.items k ∷ []) (zero-add (l.count - 1))),
      ),
  λ e. ground arith,
)

foreach_r-foldr {ℓ} :
    {S : Type ℓ} (body : ℕ → S → S) (f : ℕ → ℕ) (n : ℕ) (s : S)
    → foreach_r body f n s ≡ foldr body s (slice f 0 n)
unfolding foreach_r
foreach_r-foldr body f zero s = refl
foreach_r-foldr body f (suc n) s =
    rw (foldr-append body s (slice f 0 n), zero-add) (foreach_r-foldr body f n (body (f n) s))

foreach_f-foldl {ℓ} :
    {S : Type ℓ} (body : ℕ → S → S) (f : ℕ → ℕ) (i n : ℕ) (s : S)
    → foreach_f body f i n s ≡ foldl (λ t x. body x t) s (slice f i n)
unfolding foreach_f
foreach_f-foldl body f i zero s = refl
foreach_f-foldl body f i (suc n) s =
    foreach_f-foldl body f (i + 1) n (body (f i) s)
    ∙ ap (foldl (λ t x. body x t) s) (sym (slice-cons f i n))

-- `LIST_FOREACH_R` is a fold from the right over the items, and `LIST_FOREACH_F` one from the
-- left: the two visit the same items, in opposite orders.
pub foreach_lem {ℓ} :
    {S : Type ℓ} (body : ℕ → S → S) (l : ListS) (s : S)
    → (foreach_r body l.items l.count s ≡ foldr body s (contents l))
      × (foreach_f body l.items 0 l.count s ≡ foldl (λ t x. body x t) s (contents l))
foreach_lem body l s =
    (foreach_r-foldr body l.items l.count s, foreach_f-foldl body l.items 0 l.count s)
