-- ===== src/Hashtable/Probe.antt =====
-- c7/stm/hashtable.c: the slots that are probed, and that a search comes to an end.
use Prim.Native.Nat.{◌∣◌}
use native.Mathlib.Nat.{dvd-mul_right, mod-mod_of_dvd, mod-mod, mod-add-div, add-mul-mod_self_left}
use pypy_stmgc.Base.{
  ℕ, zero, suc, ◌+◌, ◌-◌, ◌*◌, ◌/◌, ◌%◌, ◌^◌, ◌≤◌, ◌<◌, ◌≡◌, refl, ap, sym, ◌∙◌, subst, arith, inl,
  inr, ◌⊎◌, true, false, ◌==◌, w64, Option, none, some, Option-cases, Bool-cases,
}
use pypy_stmgc.Hashtable.{Entry, next_slot, shifted, find}
use pypy_stmgc.Hashtable.Period.{orbit, orbit_reach_mod}

-- The slot and the perturbation after `n` steps.
unfoldable pub slot_at : ℕ → ℕ → ℕ → ℕ → ℕ
slot_at mask zero i perturb = i
slot_at mask (suc n) i perturb = slot_at mask n (next_slot mask i perturb) (shifted perturb)

unfoldable perturb_at : ℕ → ℕ → ℕ
perturb_at zero perturb = perturb
perturb_at (suc n) perturb = perturb_at n (shifted perturb)

slot_at_add :
    (mask m n i perturb : ℕ)
    → slot_at mask (m + n) i perturb
      ≡ slot_at mask n (slot_at mask m i perturb) (perturb_at m perturb)
unfolding slot_at perturb_at
slot_at_add mask zero n i perturb = let e : 0 + n ≡ n = omega arith in rw e refl
slot_at_add mask (suc m) n i perturb =
    let e : suc m + n ≡ suc (m + n) = omega arith in
    rw e (slot_at_add mask m n (next_slot mask i perturb) (shifted perturb))

-- The perturbation goes to 0.
perturb_at_zero : (bound perturb : ℕ) → perturb ≤ bound → perturb_at bound perturb ≡ 0
unfolding perturb_at
perturb_at_zero zero perturb le = omega arith
perturb_at_zero (suc bound) perturb le = perturb_at_zero bound (shifted perturb) (omega arith)

next_power : (a b : ℕ) → 2 ^ (suc a + b) ≡ 2 ^ (a + b) + 2 ^ (a + b)
next_power a b = let e : suc a + b ≡ suc (a + b) = omega arith in rw e (omega arith)

two_power_add : (a b : ℕ) → 2 ^ (a + b) ≡ 2 ^ a * 2 ^ b
two_power_add zero b = let e : 0 + b ≡ b = omega arith in rw e (omega arith)
two_power_add (suc a) b =
    let e : 2 ^ (suc a + b) ≡ 2 ^ (a + b) + 2 ^ (a + b) = next_power a b in
    let e' : 2 ^ suc a ≡ 2 ^ a + 2 ^ a = omega arith in rw (e, e', two_power_add a b) (grind arith)

-- The remainder by a power of two needs only the lowest 64 bits.
mod_w64 : (k x : ℕ) → k ≤ 64 → w64 x % 2 ^ k ≡ x % 2 ^ k
mod_w64 k x small =
    let e : k + (64 - k) ≡ 64 = omega arith in
    mod-mod_of_dvd (2 ^ k) x (
      subst (λ m. 2 ^ k ∣ m) (sym (two_power_add k (64 - k)) ∙ ap (λ m. 2 ^ m) e)
        (dvd-mul_right (2 ^ k) (2 ^ (64 - k))))

-- What the 64 bits of the sum keep is enough for the mask.
next_slot_zero :
    (mask k i : ℕ) → mask + 1 ≡ 2 ^ k → k ≤ 64 → next_slot mask i 0 ≡ (5 * i + 1) % 2 ^ k
unfolding next_slot
next_slot_zero mask k i size small =
    let e : 4 * i + i + 0 + 1 ≡ 5 * i + 1 = omega arith in
    ap (λ q. w64 (4 * i + i + 0 + 1) % q) size
    ∙ (mod_w64 k (4 * i + i + 0 + 1) small ∙ ap (λ a. a % 2 ^ k) e)

step_mod : (q x : ℕ) → (5 * (x % q) + 1) % q ≡ (5 * x + 1) % q
step_mod q x =
    sym (add-mul-mod_self_left (5 * (x % q) + 1) q (5 * (x / q)))
    ∙ ap (λ a. a % q) (grind (arith, mod-add-div x q))

orbit_mod : (q n x : ℕ) → orbit n (x % q) % q ≡ orbit n x % q
unfolding orbit
orbit_mod q zero x = mod-mod x q
orbit_mod q (suc n) x =
    sym (orbit_mod q n (5 * (x % q) + 1))
    ∙ (ap (λ a. orbit n a % q) (step_mod q x) ∙ orbit_mod q n (5 * x + 1))

slot_at-orbit :
    (mask k n i : ℕ)
    → mask + 1 ≡ 2 ^ k
    → k ≤ 64
    → i % 2 ^ k ≡ i
    → slot_at mask n i 0 ≡ orbit n i % 2 ^ k
unfolding slot_at orbit
slot_at-orbit mask k zero i size small low = sym low
slot_at-orbit mask k (suc n) i size small low =
    ap (λ a. slot_at mask n a 0) (next_slot_zero mask k i size small)
    ∙ (slot_at-orbit mask k n ((5 * i + 1) % 2 ^ k) size small (mod-mod (5 * i + 1) (2 ^ k))
        ∙ orbit_mod (2 ^ k) n (5 * i + 1))

slot_at_low :
    (mask n i perturb : ℕ)
    → slot_at mask (suc n) i perturb % (mask + 1) ≡ slot_at mask (suc n) i perturb
unfolding slot_at next_slot
slot_at_low mask zero i perturb = mod-mod (w64 (4 * i + i + perturb + 1)) (mask + 1)
slot_at_low mask (suc n) i perturb = slot_at_low mask n (next_slot mask i perturb) (shifted perturb)

-- Every slot of a table is probed, from every slot on.
pub slot_at_reach :
    (mask k i perturb y : ℕ)
    → mask + 1 ≡ 2 ^ k
    → k ≤ 64
    → y < 2 ^ k
    → (n : ℕ) × (slot_at mask n i perturb ≡ y)
slot_at_reach mask k i perturb y size small low =
    let m = suc perturb in
    let from = slot_at mask m i perturb in
    let (n, e) = orbit_reach_mod k from y low in
    let vanished : perturb_at m perturb ≡ 0 = perturb_at_zero m perturb (omega arith) in
    (
      m + n,
      slot_at_add mask m n i perturb
          ∙ (ap (slot_at mask n from) vanished
              ∙ (slot_at-orbit mask k n from size small
                    (subst (λ q. from % q ≡ from) size (slot_at_low mask perturb i perturb))
                  ∙ e)),
    )

module _ (mask fuel : ℕ) (items : ℕ → Option Entry) (index i perturb : ℕ) where
  pub find_free : items i ≡ none → find (suc fuel) mask items index i perturb ≡ some (i, none)
  unfolding find
  find_free e = rw (e, find) refl

  pub find_here :
      (entry : Entry)
      → items i ≡ some entry
      → (entry.index == index) ≡ true
      → find (suc fuel) mask items index i perturb ≡ some (i, some entry)
  unfolding find
  find_here entry e same = rw (e, find) (rw same refl)

  pub find_next :
      (entry : Entry)
      → items i ≡ some entry
      → (entry.index == index) ≡ false
      → find (suc fuel) mask items index i perturb
        ≡ find fuel mask items index (next_slot mask i perturb) (shifted perturb)
  unfolding find
  find_next entry e other = rw (e, find) (rw other refl)

  -- The three ways in which a search goes on.
  pub find_cases :
      (r : ℕ × Option Entry)
      → find (suc fuel) mask items index i perturb ≡ some r
      → ((items i ≡ none) × (some r ≡ some (i, none)))
        ⊎ ((entry : Entry) × (items i ≡ some entry)
            × ((((entry.index == index) ≡ true) × (some r ≡ some (i, some entry)))
                ⊎ (((entry.index == index) ≡ false)
                    × (find fuel mask items index (next_slot mask i perturb) (shifted perturb)
                        ≡ some r))))
  find_cases r e = elim (Option-cases (items i)) [
    | inl here ↦ inl (here, sym e ∙ find_free here)
    | inr (entry, here) ↦ elim (Bool-cases (entry.index == index)) [
      | inl same ↦ inr (entry, here, inl (same, sym e ∙ find_here entry here same))
      | inr other ↦ inr (entry, here, inr (other, sym (find_next entry here other) ∙ e))
    ]
  ]

-- A search stops at the latest at a free slot that is probed.
pub find_stops :
    (mask n : ℕ) (items : ℕ → Option Entry) (index i perturb : ℕ)
    → items (slot_at mask n i perturb) ≡ none
    → (r : ℕ × Option Entry) × (find (suc n) mask items index i perturb ≡ some r)
unfolding slot_at
find_stops mask zero items index i perturb empty =
    ((i, none), find_free mask 0 items index i perturb empty)
find_stops mask (suc n) items index i perturb empty =
    let (r, e) = find_stops mask n items index (next_slot mask i perturb) (shifted perturb) empty in
    elim (Option-cases (items i)) [
      | inl here ↦ ((i, none), find_free mask (suc n) items index i perturb here)
      | inr (entry, here) ↦ elim (Bool-cases (entry.index == index)) [
        | inl same ↦ ((i, some entry), find_here mask (suc n) items index i perturb entry here same)
        | inr other ↦ (r, find_next mask (suc n) items index i perturb entry here other ∙ e)
      ]
    ]
