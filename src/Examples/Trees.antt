-- ===== src/Examples/Trees.antt =====
-- The theorems on the trees of c7/stm/list.c at concrete trees.
use pypy_stmgc.Base.{◌≡◌, refl, arith, update, none, some, inr}
use pypy_stmgc.AddressTree.{
  Entry, null, wlog, node, slot, tree_hash, lookup, insert_at, tree_insert, tree_contains,
  tree_delete_item, empty_tree,
}
use pypy_stmgc.AddressTree.Lookup.{insert_lem, delete_lem}
use pypy_stmgc.AddressTree.Fuel.{insert-returns}

-- 16 maps to 3; its slot at the top is 2.
abbrev one_item : Entry
one_item = node (update (λ _. null) 2 (wlog 16 3))

insert_example : lookup one_item 16 0 ≡ some 3
unfolding tree_insert insert_at slot tree_hash
insert_example = insert_lem empty_tree one_item 16 3 16 (omega arith) refl

delete_example :
    ((tree_delete_item one_item 16).0 ≡ tree_contains one_item 16)
    × (lookup (tree_delete_item one_item 16).1 16 0 ≡ none)
delete_example = delete_lem one_item 16 16 (omega arith)

-- The path of 4112 shares two slots with that of 16, and then leaves it.
insert_returns_example : (t : Entry) × (tree_insert one_item 4112 4 ≡ some t)
unfolding slot tree_hash
insert_returns_example = insert-returns one_item 4112 4 (inr (1, omega arith, λ e. ground arith))
