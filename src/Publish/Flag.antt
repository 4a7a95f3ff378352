-- ===== src/Publish/Flag.antt =====
-- c7/stm/core.c, `_card_wise_synchronize_object_now`: the flag `all_cards_were_cleared`.
use pypy_stmgc.Base.{
  ℕ, zero, suc, ◌+◌, ◌<◌, ◌≡◌, refl, ◌∙◌, Bool, false, not, ◌&&◌, ◌||◌, ◌==◌, if◌then◌else◌, update,
  arith, inl, inr, some, Option-cases,
}
use pypy_stmgc.State.{Objects, get_write_lock_idx, card_marked_old, card_clear}
use pypy_stmgc.Publish.{CardLoop, take_card, end_range, cards_loop}

-- Some card among `c`, …, `c + n - 1` is marked; `first` is the index of the object's own lock.
abbrev pub any_marked : (ℕ → ℕ) → ℕ → ℕ → ℕ → Bool
any_marked locks first c zero = false
any_marked locks first c (suc n) =
    locks (first + c) == card_marked_old || any_marked locks first (c + 1) n

any_marked-above :
    (n : ℕ) (locks : ℕ → ℕ) (first c j v : ℕ)
    → j < c
    → any_marked (update locks (first + j) v) first c n ≡ any_marked locks first c n
any_marked-above zero locks first c j v lt = refl
any_marked-above (suc n) locks first c j v lt =
    ground (arith, any_marked-above n locks first (c + 1) j v)

module _ (o : Objects) (me obj last : ℕ) where
  next : ℕ → CardLoop → CardLoop
  next c l =
      end_range o me obj last c (l.locks (get_write_lock_idx obj + c) == card_marked_old)
        (take_card (get_write_lock_idx obj) c l)

  -- The flag says whether a card was marked.
  abbrev pub Flagged : CardLoop → Type 0
  Flagged l = (k : ℕ) → l.start_card_index ≡ some k → l.all_cards_were_cleared ≡ false

  next-Flagged : (l : CardLoop) (c : ℕ) → Flagged l → Flagged (next c l)
  unfolding next end_range take_card
  next-Flagged l c flagged = elim (Option-cases l.start_card_index) [
    | inl e ↦ rw e (λ k q. ground arith)
    | inr (j, e) ↦ let f = flagged j e in rw e (λ k q. ground arith)
  ]

  next-all_cleared :
      (l : CardLoop) (c : ℕ)
      → Flagged l
      → (next c l).all_cards_were_cleared ≡ (
          l.all_cards_were_cleared && not (l.locks (get_write_lock_idx obj + c) == card_marked_old))
  unfolding next end_range take_card
  next-all_cleared l c flagged = elim (Option-cases l.start_card_index) [
    | inl e ↦ rw e (ground arith)
    | inr (j, e) ↦ let f = flagged j e in rw e (ground arith)
  ]

  next-locks :
      (l : CardLoop) (c : ℕ)
      → (next c l).locks ≡ (
          if l.locks (get_write_lock_idx obj + c) == card_marked_old
          then update l.locks (get_write_lock_idx obj + c) card_clear
          else l.locks)
  unfolding next end_range take_card
  next-locks l c = ground arith

  pub loop-all_cleared :
      (n : ℕ) (l : CardLoop) (c : ℕ)
      → Flagged l
      → (cards_loop o me obj last c n l).all_cards_were_cleared
        ≡ (l.all_cards_were_cleared && not (any_marked l.locks (get_write_lock_idx obj) c n))
  unfolding cards_loop next
  loop-all_cleared zero l c flagged = ground arith
  loop-all_cleared (suc n) l c flagged =
      let above : any_marked (next c l).locks (get_write_lock_idx obj) (c + 1) n
          ≡ any_marked l.locks (get_write_lock_idx obj) (c + 1) n =
        rw (next-locks l c) (
          ground (
            arith,
            any_marked-above n l.locks (get_write_lock_idx obj) (c + 1) c card_clear (omega arith),
          )) in
      loop-all_cleared n (next c l) (c + 1) (next-Flagged l c flagged)
      ∙ rw above (ground (arith, next-all_cleared l c flagged))
