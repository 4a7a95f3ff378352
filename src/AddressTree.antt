-- ===== src/AddressTree.antt =====
-- c7/stm/list.h and c7/stm/list.c, `struct tree_s`: a tree of nodes with 16 slots that maps addresses
-- to words. The items and nodes of the C code lie in one buffer, which is copied to a larger one when
-- it is full; here they are values.
pub mod Lookup
pub mod Fuel
use Prim.Native.Nat.{bit_xor}
use pypy_stmgc.Base.{
  ℕ, zero, suc, ◌+◌, ◌-◌, ◌*◌, ◌/◌, ◌%◌, ◌^◌, Bool, true, false, ◌==◌, if◌then◌else◌, update,
  Option, none, some, w64,
}

-- What a slot holds: nothing, a `wlog_t`, or a further level.
pub data Entry : Type 0 where
  null : Entry
  wlog : ℕ → ℕ → Entry
  node : (ℕ → Entry) → Entry

-- `TREE_HASH`
unfoldable pub tree_hash : ℕ → ℕ
tree_hash key = bit_xor key (w64 (key * 2 ^ 4))

-- The slot that `(key >> shift) & TREE_MASK` selects, for the shift of the level.
unfoldable pub slot : ℕ → ℕ → ℕ
slot addr level = tree_hash addr / 2 ^ (4 * level) / 8 % 16

-- The loop of `_tree_find`: where the path of the address ends.
unfoldable pub tree_find : Entry → ℕ → ℕ → Entry
tree_find null addr level = null
tree_find (wlog a v) addr level = wlog a v
tree_find (node items) addr level = tree_find (items (slot addr level)) addr (level + 1)

-- The value of an item with the address.
abbrev pub value_of : ℕ → Entry → Option ℕ
value_of addr null = none
value_of addr (wlog a v) = if a == addr then some v else none
value_of addr (node items) = none

-- `TREE_FIND`, from a node at the given level on; the top level is 0.
unfoldable pub lookup : Entry → ℕ → ℕ → Option ℕ
lookup e addr level = value_of addr (tree_find e addr level)

unfoldable pub tree_contains : Entry → ℕ → Bool
tree_contains e addr = elim (lookup e addr 0) [ none ↦ false | some v ↦ true ]

-- A new node with one item in it.
unfoldable pub single : ℕ → ℕ → ℕ → ℕ → Entry
single a v level = update (λ _. null) (slot a level) (wlog a v)

abbrev pub put : (ℕ → Entry) → ℕ → Option Entry → Option Entry
put items i none = none
put items i (some e) = some (node (update items i e))

-- The loop of `tree_insert` at a slot; `level` is that of the slots below. The fuel is the number of
-- levels that are left: `none` is the failed assertion on `shift`.
unfoldable pub insert_at : ℕ → Entry → ℕ → ℕ → ℕ → Option Entry
insert_at zero e addr val level = none
insert_at (suc n) null addr val level = some (wlog addr val)
insert_at (suc n) (wlog a v) addr val level =
    let items = single a v level in
    let i = slot addr level in
    let deeper = put items i (insert_at n (items i) addr val (level + 1)) in
    if a == 0 then some (wlog addr val) else deeper
insert_at (suc n) (node items) addr val level =
    put items (slot addr level) (insert_at n (items (slot addr level)) addr val (level + 1))

-- `TREE_DEPTH_MAX`
abbrev pub tree_depth_max : ℕ
tree_depth_max = (8 * 8 + 4 - 1) / 4

-- A tree that is created or cleared.
abbrev pub empty_tree : Entry
empty_tree = node (λ _. null)

unfoldable pub tree_insert : Entry → ℕ → ℕ → Option Entry
tree_insert tree addr val = insert_at (tree_depth_max + 1) tree addr val 0

-- The item on the path of the address is marked as deleted, if it is the one.
unfoldable pub delete_at : Entry → ℕ → ℕ → Entry
delete_at null addr level = null
delete_at (wlog a v) addr level = if a == addr then wlog 0 v else wlog a v
delete_at (node items) addr level =
    node (update items (slot addr level) (delete_at (items (slot addr level)) addr (level + 1)))

-- The answer, and the tree.
unfoldable pub tree_delete_item : Entry → ℕ → Bool × Entry
tree_delete_item tree addr =
    if tree_contains tree addr then (true, delete_at tree addr 0) else (false, tree)
