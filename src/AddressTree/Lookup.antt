-- ===== src/AddressTree/Lookup.antt =====
-- c7/stm/list.c, `struct tree_s`: the tree is a finite map.
use pypy_stmgc.Base.{
  ℕ, zero, suc, ◌+◌, ◌≡◌, ◌≢◌, refl, ap, sym, ◌∙◌, true, false, ◌==◌, if◌then◌else◌, update, Option,
  none, some, arith, Bool-cases, Option-cases, inl, inr,
}
use pypy_stmgc.AddressTree.{
  Entry, null, wlog, node, slot, tree_find, lookup, single, put, insert_at, tree_insert, delete_at,
  tree_contains, tree_delete_item,
}

put-some :
    (items : ℕ → Entry) (i : ℕ) (r : Option Entry) (t : Entry)
    → put items i r ≡ some t
    → (e : Entry) × (r ≡ some e) × (t ≡ node (update items i e))
put-some items i none t h = absurd (ground arith)
put-some items i (some e) t h = (e, refl, ground arith)

lookup-node :
    (items : ℕ → Entry) (i b level : ℕ) (e : Entry)
    → lookup (node (update items i e)) b level ≡ (
        if slot b level == i
        then lookup e b (level + 1)
        else lookup (items (slot b level)) b (level + 1))
unfolding lookup tree_find
lookup-node items i b level e = ground arith

lookup-items :
    (items : ℕ → Entry) (b level : ℕ)
    → lookup (node items) b level ≡ lookup (items (slot b level)) b (level + 1)
unfolding lookup tree_find
lookup-items items b level = refl

slot-same : (a b level : ℕ) → a ≡ b → slot a level ≡ slot b level
slot-same a b level e = ap (λ c. slot c level) e

lookup-wlog : (a v b level : ℕ) → lookup (wlog a v) b level ≡ (if a == b then some v else none)
unfolding lookup tree_find
lookup-wlog a v b level = refl

lookup-null : (b level : ℕ) → lookup null b level ≡ none
unfolding lookup tree_find
lookup-null b level = refl

-- One item in a node is found below its slot.
lookup-single :
    (a v b level : ℕ)
    → lookup (single a v level (slot b level)) b (level + 1) ≡ (if a == b then some v else none)
unfolding single
lookup-single a v b level = elim (Bool-cases (a == b)) [
  | inl same ↦
      let eq : a ≡ b = ground arith in
      ground (arith, lookup-wlog a v b (level + 1), ap (λ c. slot c level) eq)
  | inr other ↦ ground (arith, lookup-wlog a v b (level + 1), lookup-null b (level + 1))
]

insert_deleted :
    (n a v addr val level : ℕ)
    → (a == 0) ≡ true
    → insert_at (suc n) (wlog a v) addr val level ≡ some (wlog addr val)
unfolding insert_at
insert_deleted n a v addr val level e = rw e refl

insert_collision :
    (n a v addr val level : ℕ)
    → (a == 0) ≡ false
    → insert_at (suc n) (wlog a v) addr val level
      ≡ put
          (single a v level)
          (slot addr level)
          (insert_at n (single a v level (slot addr level)) addr val (level + 1))
unfolding insert_at
insert_collision n a v addr val level e = rw e refl

lookup-insert_at :
    (n : ℕ) (e : Entry) (addr val level b : ℕ) (t : Entry)
    → b ≢ 0
    → insert_at n e addr val level ≡ some t
    → lookup t b level ≡ (if addr == b then some val else lookup e b level)
unfolding insert_at
lookup-insert_at zero e addr val level b t ne h = absurd (ground arith)
lookup-insert_at (suc n) null addr val level b t ne h =
    ground (arith, lookup-wlog addr val b level, lookup-null b level)
lookup-insert_at (suc n) (node items) addr val level b t ne h =
    let i : ℕ = slot addr level in
    let (e, inner, here) = put-some items i (insert_at n (items i) addr val (level + 1)) t h in
    rw here (
      ground (
        arith,
        lookup-node items i b level e,
        lookup-insert_at n (items i) addr val (level + 1) b e ne inner,
        lookup-items items b level,
        slot-same addr b level,
      ))
lookup-insert_at (suc n) (wlog a v) addr val level b t ne h = elim (Bool-cases (a == 0)) [
  | inl deleted ↦
      let e : some (wlog addr val) ≡ some t =
        sym (insert_deleted n a v addr val level deleted) ∙ h in
      ground (arith, lookup-wlog addr val b level, lookup-wlog a v b level)
  | inr alive ↦
      let i : ℕ = slot addr level in
      let (e, inner, here) =
        put-some (single a v level) i (insert_at n (single a v level i) addr val (level + 1)) t
          (sym (insert_collision n a v addr val level alive) ∙ h) in
      rw here (
        ground (
          arith,
          lookup-node (single a v level) i b level e,
          lookup-insert_at n (single a v level i) addr val (level + 1) b e ne inner,
          lookup-single a v b level,
          lookup-wlog a v b level,
          slot-same addr b level,
        ))
]

-- A tree that an insertion returns has the new value at the new address, and at all other addresses
-- but 0 what it had before.
pub insert_lem :
    (tree t : Entry) (addr val b : ℕ)
    → b ≢ 0
    → tree_insert tree addr val ≡ some t
    → lookup t b 0 ≡ (if addr == b then some val else lookup tree b 0)
unfolding tree_insert
insert_lem tree t addr val b ne h = lookup-insert_at 17 tree addr val 0 b t ne h

lookup-delete_at :
    (e : Entry) (addr level b : ℕ)
    → b ≢ 0
    → lookup (delete_at e addr level) b level ≡ (if addr == b then none else lookup e b level)
unfolding delete_at
lookup-delete_at null addr level b ne = ground (arith, lookup-null b level)
lookup-delete_at (wlog a v) addr level b ne =
    ground (arith, lookup-wlog a v b level, lookup-wlog 0 v b level)
lookup-delete_at (node items) addr level b ne =
    let i : ℕ = slot addr level in
    ground (
      arith,
      lookup-node items i b level (delete_at (items i) addr (level + 1)),
      lookup-delete_at (items i) addr (level + 1) b ne,
      lookup-items items b level,
      slot-same addr b level,
    )

contains-none :
    (tree : Entry) (addr : ℕ) → tree_contains tree addr ≡ false → lookup tree addr 0 ≡ none
unfolding tree_contains
contains-none tree addr h = elim (Option-cases (lookup tree addr 0)) [
  | inl e ↦ e
  | inr (v, e) ↦ absurd (ground arith)
]

-- Deleting an address says whether it was there; it is not there any more, and all other addresses
-- but 0 have what they had before.
pub delete_lem :
    (tree : Entry) (addr b : ℕ)
    → b ≢ 0
    → ((tree_delete_item tree addr).0 ≡ tree_contains tree addr)
      × (lookup (tree_delete_item tree addr).1 b 0 ≡ (if addr == b then none else lookup tree b 0))
unfolding tree_delete_item
delete_lem tree addr b ne = elim (Bool-cases (tree_contains tree addr)) [
  | inl there ↦ rw (there, tree_delete_item) (refl, lookup-delete_at tree addr 0 b ne)
  | inr missing ↦
      let none_there : addr ≡ b → lookup tree b 0 ≡ none =
        λ e. ap (λ c. lookup tree c 0) (sym e) ∙ contains-none tree addr missing in
      rw (missing, tree_delete_item) (refl, ground (arith, none_there))
]
