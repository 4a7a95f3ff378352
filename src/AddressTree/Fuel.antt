-- ===== src/AddressTree/Fuel.antt =====
-- c7/stm/list.c, `tree_insert`: 16 levels are enough.
use pypy_stmgc.Base.{
  ℕ, zero, suc, ◌+◌, ◌<◌, ◌≡◌, ◌≢◌, refl, ◌==◌, update, Option, some, arith, Bool-cases, inl, inr,
  ◌⊎◌,
}
use pypy_stmgc.AddressTree.{
  Entry, null, wlog, node, slot, single, put, insert_at, tree_insert, tree_depth_max,
}

-- The path of the address ends, within `n` levels, at an empty slot, at a deleted item, or at an item
-- whose path leaves the address's within the levels that remain.
abbrev pub HasRoom : ℕ → Entry → ℕ → ℕ → Type 0
HasRoom zero e addr level = ⊥
HasRoom (suc n) null addr level = Unit
HasRoom (suc n) (wlog a v) addr level =
    (a ≡ 0) ⊎ ((j : ℕ) × (j < n) × (slot a (level + j) ≢ slot addr (level + j)))
HasRoom (suc n) (node items) addr level = HasRoom n (items (slot addr level)) addr (level + 1)

-- An insertion returns a tree.
abbrev pub Returned : Option Entry → Type 0
Returned r = (t : Entry) × (r ≡ some t)

put-Returned :
    (items : ℕ → Entry) (i : ℕ) (r : Option Entry) → Returned r → Returned (put items i r)
put-Returned items i r (t, e) = (node (update items i t), rw e refl)

single-apart :
    (a v addr level : ℕ)
    → slot a level ≢ slot addr level
    → single a v level (slot addr level) ≡ null
unfolding single
single-apart a v addr level ne = ground arith

single-together :
    (a v addr level : ℕ)
    → slot a level ≡ slot addr level
    → single a v level (slot addr level) ≡ wlog a v
unfolding single
single-together a v addr level e = ground arith

insert-null : (n addr val level : ℕ) → 0 < n → Returned (insert_at n null addr val level)
unfolding insert_at
insert-null zero addr val level pos = absurd (omega arith)
insert-null (suc n) addr val level pos = (wlog addr val, refl)

-- The rest of two paths that part later on.
apart_later :
    (n a addr level j : ℕ)
    → j < n
    → slot a (level + j) ≢ slot addr (level + j)
    → slot a level ≡ slot addr level
    → (k : ℕ) × (suc k < n) × (slot a (level + 1 + k) ≢ slot addr (level + 1 + k))
apart_later n a addr level zero lt ne same =
    let here : level + 0 ≡ level = omega arith in absurd (ne (rw here same))
apart_later n a addr level (suc k) lt ne same =
    let there : level + suc k ≡ level + 1 + k = omega arith in (k, lt, λ e. ne (rw there e))

room_later :
    (n a v addr level : ℕ)
    → (k : ℕ) × (suc k < n) × (slot a (level + 1 + k) ≢ slot addr (level + 1 + k))
    → HasRoom n (wlog a v) addr (level + 1)
room_later zero a v addr level (k, lt, ne) = absurd (omega arith)
room_later (suc n) a v addr level (k, lt, ne) = inr (k, omega arith, ne)

insert_at-Returned :
    (n : ℕ) (e : Entry) (addr val level : ℕ)
    → HasRoom n e addr level
    → Returned (insert_at n e addr val level)
unfolding insert_at
insert_at-Returned zero e addr val level room = absurd room
insert_at-Returned (suc n) null addr val level room = (wlog addr val, refl)
insert_at-Returned (suc n) (node items) addr val level room =
    put-Returned items (slot addr level) _
      (insert_at-Returned n (items (slot addr level)) addr val (level + 1) room)
insert_at-Returned (suc n) (wlog a v) addr val level (inl deleted) =
    (wlog addr val, rw deleted refl)
insert_at-Returned (suc n) (wlog a v) addr val level (inr (j, lt, ne)) =
    elim (Bool-cases (a == 0)) [
      | inl deleted ↦ (wlog addr val, rw deleted refl)
      | inr alive ↦ rw alive (
          put-Returned (single a v level) (slot addr level) _
            (elim (Bool-cases (slot a level == slot addr level)) [
              | inl same ↦
                  let together : slot a level ≡ slot addr level = ground arith in
                  rw (single-together a v addr level together) (
                    insert_at-Returned n (wlog a v) addr val (level + 1)
                      (room_later n a v addr level (apart_later n a addr level j lt ne together)))
              | inr other ↦
                  rw (single-apart a v addr level (λ e. ground arith))
                    (insert-null n addr val (level + 1) (omega arith))
            ]))
    ]

-- If the path of the address ends, within the 16 levels, at an empty slot, at a deleted item, or at
-- an item whose own path leaves it within them, the insertion returns a tree.
pub insert-returns :
    (tree : Entry) (addr val : ℕ)
    → HasRoom (tree_depth_max + 1) tree addr 0
    → (t : Entry) × (tree_insert tree addr val ≡ some t)
unfolding tree_insert
insert-returns tree addr val room = insert_at-Returned (tree_depth_max + 1) tree addr val 0 room
