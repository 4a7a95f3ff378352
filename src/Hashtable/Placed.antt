-- ===== src/Hashtable/Placed.antt =====
-- c7/stm/hashtable.c: searches in a table that gets one more entry.
use native.Mathlib.Nat.{mod-lt}
use mathlib.Core.Option.{some-injective}
use pypy_stmgc.Base.{
  ==_equal, ℕ, zero, suc, ◌+◌, ◌-◌, ◌*◌, ◌≤◌, ◌<◌, ◌≡◌, refl, ap, sym, ◌∙◌, subst, arith, inl, inr,
  true, false, ◌==◌, w64, update, Option, none, some, Bool-cases,
}
use pypy_stmgc.Hashtable.{Entry, next_slot, shifted, find, free_slot}
use pypy_stmgc.Hashtable.Probe.{find_free, find_here, find_next, find_cases}

-- The search for the index ends like this, with enough fuel.
abbrev pub Ends : ℕ → (ℕ → Option Entry) → ℕ → ℕ → ℕ → ℕ × Option Entry → Type 0
Ends mask items index i perturb r = (fuel : ℕ) × (find fuel mask items index i perturb ≡ some r)

module _ (mask fuel : ℕ) (items : ℕ → Option Entry) (i perturb : ℕ) where
  free_slot_free : items i ≡ none → free_slot (suc fuel) mask items i perturb ≡ some i
  unfolding free_slot
  free_slot_free e = rw (e, free_slot) refl

  free_slot_next :
      (entry : Entry)
      → items i ≡ some entry
      → free_slot (suc fuel) mask items i perturb
        ≡ free_slot fuel mask items (next_slot mask i perturb) (shifted perturb)
  unfolding free_slot
  free_slot_next entry e = rw (e, free_slot) refl

module _ (mask : ℕ) (items : ℕ → Option Entry) (index : ℕ) where
  find_more :
      (fuel i perturb : ℕ) (r : ℕ × Option Entry)
      → find fuel mask items index i perturb ≡ some r
      → find (suc fuel) mask items index i perturb ≡ some r
  unfolding find
  find_more zero i perturb r e = absurd (ground (arith, e))
  find_more (suc fuel) i perturb r e = elim (find_cases mask fuel items index i perturb r e) [
    | inl (here, same) ↦ find_free mask (suc fuel) items index i perturb here ∙ sym same
    | inr (entry, here, inl (same, result)) ↦
        find_here mask (suc fuel) items index i perturb entry here same ∙ sym result
    | inr (entry, here, inr (other, later)) ↦
        find_next mask (suc fuel) items index i perturb entry here other
        ∙ find_more fuel (next_slot mask i perturb) (shifted perturb) r later
  ]

  find_plus :
      (d fuel i perturb : ℕ) (r : ℕ × Option Entry)
      → find fuel mask items index i perturb ≡ some r
      → find (fuel + d) mask items index i perturb ≡ some r
  find_plus zero fuel i perturb r e = let at : fuel + 0 ≡ fuel = omega arith in rw at e
  find_plus (suc d) fuel i perturb r e =
      let at : fuel + suc d ≡ suc fuel + d = omega arith in
      rw at (find_plus d (suc fuel) i perturb r (find_more fuel i perturb r e))

  -- More fuel does not change the result.
  pub find_both :
      (f g i perturb : ℕ) (r r' : ℕ × Option Entry)
      → find f mask items index i perturb ≡ some r
      → find g mask items index i perturb ≡ some r'
      → r ≡ r'
  unfolding find
  find_both zero g i perturb r r' e e' = absurd (ground (arith, e))
  find_both (suc f) zero i perturb r r' e e' = absurd (ground (arith, e'))
  find_both (suc f) (suc g) i perturb r r' e e' =
      elim (find_cases mask f items index i perturb r e) [
        | inl (here, same) ↦
            some-injective r r' (same ∙ (sym (find_free mask g items index i perturb here) ∙ e'))
        | inr (entry, here, inl (same, result)) ↦
            some-injective r r'
              (result ∙ (sym (find_here mask g items index i perturb entry here same) ∙ e'))
        | inr (entry, here, inr (other, later)) ↦
            find_both f g (next_slot mask i perturb) (shifted perturb) r r' later
              (sym (find_next mask g items index i perturb entry here other) ∙ e')
      ]

  at_result :
      (i s : ℕ) (o o' : Option Entry)
      → items i ≡ o
      → ◌≡◌ {A = ℕ × Option Entry} (s, o') (i, o)
      → items s ≡ o'
  at_result i s o o' here e = ap items (ap (λ p. p.0) e) ∙ (here ∙ sym (ap (λ p. p.1) e))

  -- What a search finds is in the slot.
  pub find-item :
      (f i perturb s : ℕ) (o : Option Entry)
      → find f mask items index i perturb ≡ some (s, o)
      → items s ≡ o
  unfolding find
  find-item zero i perturb s o e = absurd (ground (arith, e))
  find-item (suc f) i perturb s o e = elim (find_cases mask f items index i perturb (s, o) e) [
    | inl (here, same) ↦ at_result i s none o here (some-injective (s, o) (i, none) same)
    | inr (entry, here, inl (same, result)) ↦
        at_result i s (some entry) o here (some-injective (s, o) (i, some entry) result)
    | inr (entry, here, inr (other, later)) ↦
        find-item f (next_slot mask i perturb) (shifted perturb) s o later
  ]

  -- The entry that a search finds has the index.
  pub find-index :
      (f i perturb s : ℕ) (found : Entry)
      → find f mask items index i perturb ≡ some (s, some found)
      → (found.index == index) ≡ true
  unfolding find
  find-index zero i perturb s found e = absurd (ground (arith, e))
  find-index (suc f) i perturb s found e =
      elim (find_cases mask f items index i perturb (s, some found) e) [
        | inl (here, same) ↦
            absurd (ground (arith, ap (λ p. p.1) (some-injective (s, some found) (i, none) same)))
        | inr (entry, here, inl (same, result)) ↦
            let is_entry : found ≡ entry =
              some-injective found entry
                (ap (λ p. p.1) (some-injective (s, some found) (i, some entry) result)) in
            ap (λ o. o.index == index) is_entry ∙ same
        | inr (entry, here, inr (other, later)) ↦
            find-index f (next_slot mask i perturb) (shifted perturb) s found later
      ]

  -- A slot that is not free is not the one that is filled.
  update-full :
      (s i : ℕ) (entry e₀ : Entry)
      → items s ≡ none
      → items i ≡ some entry
      → update items s (some e₀) i ≡ some entry
  update-full s i entry e₀ empty here = elim (Bool-cases (i == s)) [
    | inl e ↦ absurd (ground (arith, sym empty ∙ (ap items (sym (==_equal i s e)) ∙ here)))
    | inr e ↦ rw e here
  ]

  -- An entry that is found is found after a free slot has been filled.
  pub find-update_found :
      (f i perturb s j : ℕ) (e₀ found : Entry)
      → items s ≡ none
      → find f mask items index i perturb ≡ some (j, some found)
      → find f mask (update items s (some e₀)) index i perturb ≡ some (j, some found)
  unfolding find
  find-update_found zero i perturb s j e₀ found empty e = absurd (ground (arith, e))
  find-update_found (suc f) i perturb s j e₀ found empty e =
      let items' = update items s (some e₀) in
      elim (find_cases mask f items index i perturb (j, some found) e) [
        | inl (here, same) ↦
            absurd (ground (arith, ap (λ p. p.1) (some-injective (j, some found) (i, none) same)))
        | inr (entry, here, inl (same, result)) ↦
            find_here mask f items' index i perturb entry (update-full s i entry e₀ empty here) same
            ∙ sym result
        | inr (entry, here, inr (other, later)) ↦
            find_next mask f items' index i perturb entry (update-full s i entry e₀ empty here)
              other
            ∙ find-update_found f (next_slot mask i perturb) (shifted perturb) s j e₀ found empty
                later
      ]

  filled : (i s : ℕ) (e₀ : Entry) → s ≡ i → update items s (some e₀) i ≡ some e₀
  filled i s e₀ at = let here : (i == s) ≡ true = ground (arith, at) in rw here refl

  -- The free slot where a search has ended, when it is filled.
  pub find-update_new :
      (f i perturb s : ℕ) (e₀ : Entry)
      → (e₀.index == index) ≡ true
      → find f mask items index i perturb ≡ some (s, none)
      → find f mask (update items s (some e₀)) index i perturb ≡ some (s, some e₀)
  unfolding find
  find-update_new zero i perturb s e₀ same_index e = absurd (ground (arith, e))
  find-update_new (suc f) i perturb s e₀ same_index e =
      let items' = update items s (some e₀) in
      elim (find_cases mask f items index i perturb (s, none) e) [
        | inl (here, same) ↦
            let at : s ≡ i = ap (λ p. p.0) (some-injective (s, none) (i, none) same) in
            find_here mask f items' index i perturb e₀ (filled i s e₀ at) same_index
            ∙ ap (λ a. some (a, some e₀)) (sym at)
        | inr (entry, here, inl (same, result)) ↦
            absurd (ground (arith, ap (λ p. p.1) (some-injective (s, none) (i, some entry) result)))
        | inr (entry, here, inr (other, later)) ↦
            let empty = find-item f (next_slot mask i perturb) (shifted perturb) s none later in
            find_next mask f items' index i perturb entry (update-full s i entry e₀ empty here)
              other
            ∙ find-update_new f (next_slot mask i perturb) (shifted perturb) s e₀ same_index later
      ]

  -- For an index that no entry has, `_insert_clean` looks for the same slot as a search.
  pub free_slot-find :
      (f i perturb s : ℕ)
      → ((j : ℕ) (entry : Entry) → items j ≡ some entry → (entry.index == index) ≡ false)
      → find f mask items index i perturb ≡ some (s, none)
      → free_slot f mask items i perturb ≡ some s
  unfolding find
  free_slot-find zero i perturb s absent e = absurd (ground (arith, e))
  free_slot-find (suc f) i perturb s absent e =
      elim (find_cases mask f items index i perturb (s, none) e) [
        | inl (here, same) ↦
            free_slot_free mask f items i perturb here
            ∙ ap some (sym (ap (λ p. p.0) (some-injective (s, none) (i, none) same)))
        | inr (entry, here, inl (same, result)) ↦ absurd (ground (arith, same, absent i entry here))
        | inr (entry, here, inr (other, later)) ↦
            free_slot_next mask f items i perturb entry here
            ∙ free_slot-find f (next_slot mask i perturb) (shifted perturb) s absent later
      ]

  pub find-le :
      (f g i perturb : ℕ) (r : ℕ × Option Entry)
      → f ≤ g
      → find f mask items index i perturb ≡ some r
      → find g mask items index i perturb ≡ some r
  find-le f g i perturb r le e =
      let at : f + (g - f) ≡ g = omega arith in
      subst (λ n. find n mask items index i perturb ≡ some r) at (find_plus (g - f) f i perturb r e)

  -- The search stays in the table.
  pub find-low :
      (f i perturb s : ℕ) (o : Option Entry)
      → i < mask + 1
      → find f mask items index i perturb ≡ some (s, o)
      → s < mask + 1
  unfolding find next_slot
  find-low zero i perturb s o low e = absurd (ground (arith, e))
  find-low (suc f) i perturb s o low e = elim (find_cases mask f items index i perturb (s, o) e) [
    | inl (here, same) ↦ omega (arith, ap (λ p. p.0) (some-injective (s, o) (i, none) same))
    | inr (entry, here, inl (same, result)) ↦
        omega (arith, ap (λ p. p.0) (some-injective (s, o) (i, some entry) result))
    | inr (entry, here, inr (other, later)) ↦
        find-low f (next_slot mask i perturb) (shifted perturb) s o
          (mod-lt (w64 (4 * i + i + perturb + 1)) {m = mask + 1} (omega arith)) later
  ]
