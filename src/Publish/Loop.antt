-- ===== src/Publish/Loop.antt =====
-- c7/stm/core.c, `_card_wise_synchronize_object_now`: the loop over the cards of an object.
use Prim.Native.Nat.{min}
use pypy_stmgc.Base.{
  ℕ, zero, suc, ◌+◌, ◌-◌, ◌≤◌, ◌<◌, ◌≡◌, refl, ◌∙◌, Bool, true, false, not, ◌&&◌, ◌||◌, ltb, leb,
  ◌==◌, if◌then◌else◌, update, arith, inl, inr, Option, none, some, Option-cases,
}
use pypy_stmgc.Memory.{Mem, nb_segments, load}
use pypy_stmgc.State.{
  Objects, get_write_lock_idx, card_marked_old, card_clear, get_card_index_to_index,
}
use pypy_stmgc.Publish.{CardLoop, take_card, end_range, cards_loop, card_offset, copy_cards}
use pypy_stmgc.Publish.Cards.{load-copy_range}

module _ (o : Objects) (me obj : ℕ) where
  -- `a` is the address of a byte of the object, in one of the cards `c`, …, `c' - 1`.
  abbrev pub in_cards : ℕ → ℕ → ℕ → Bool
  in_cards c c' a =
      leb (obj + card_offset o obj c) a
      && ltb a (obj + card_offset o obj c')
      && ltb a (obj + o.size_rounded_up obj)

  load-copy_cards :
      (m : Mem) (c c' t a : ℕ)
      → t ≤ nb_segments
      → load (copy_cards o me obj c c' m) t a
        ≡ (if in_cards c c' a then load m me a else load m t a)
  unfolding copy_cards
  load-copy_cards m c c' t a le = ground (
    arith,
    load-copy_range me (obj + card_offset o obj c)
        (min (card_offset o obj c') (o.size_rounded_up obj) - card_offset o obj c) m t a le,
  )

  card_offset_mono : (c c' : ℕ) → c ≤ c' → card_offset o obj c ≤ card_offset o obj c'
  unfolding card_offset get_card_index_to_index
  card_offset_mono c c' le = grind arith

  -- `a` lies in one of the marked cards among `c`, …, `c + n - 1`.
  abbrev pub in_marked : (ℕ → ℕ) → ℕ → ℕ → ℕ → Bool
  in_marked locks c zero a = false
  in_marked locks c (suc n) a =
      (locks (get_write_lock_idx obj + c) == card_marked_old && in_cards c (c + 1) a)
      || in_marked locks (c + 1) n a

  in_marked-above :
      (n : ℕ) (locks : ℕ → ℕ) (c j v a : ℕ)
      → j < c
      → in_marked (update locks (get_write_lock_idx obj + j) v) c n a ≡ in_marked locks c n a
  in_marked-above zero locks c j v a lt = refl
  in_marked-above (suc n) locks c j v a lt = ground (arith, in_marked-above n locks (c + 1) j v a)

  abbrev pending : Option ℕ → ℕ → ℕ → Bool
  pending none c a = false
  pending (some sc) c a = in_cards sc c a

  module _ (last : ℕ) where
    -- One turn.
    abbrev turn : ℕ → CardLoop → CardLoop
    turn c l =
        end_range o me obj last c (l.locks (get_write_lock_idx obj + c) == card_marked_old)
          (take_card (get_write_lock_idx obj) c l)

    turn-locks :
        (l : CardLoop) (c : ℕ)
        → (turn c l).locks ≡ (
            if l.locks (get_write_lock_idx obj + c) == card_marked_old
            then update l.locks (get_write_lock_idx obj + c) card_clear
            else l.locks)
    unfolding end_range take_card
    turn-locks l c = ground arith

    -- What is pending and what has been copied, after a turn.
    load-turn :
        (l : CardLoop) (c t a : ℕ)
        → t ≤ nb_segments
        → ((k : ℕ) → l.start_card_index ≡ some k → k ≤ c)
        → load (turn c l).memory t a ≡ (
            if (pending l.start_card_index c a
                || (l.locks (get_write_lock_idx obj + c) == card_marked_old
                    && in_cards c (c + 1) a))
              && not (pending (turn c l).start_card_index (c + 1) a)
            then load l.memory me a
            else load l.memory t a)
    unfolding end_range take_card
    load-turn l c t a le below = elim (Option-cases l.start_card_index) [
      | inl e ↦ rw e (ground (arith, load-copy_cards l.memory c (c + 1) t a le))
      | inr (k, e) ↦ rw e (
          ground (
            arith,
            load-copy_cards l.memory k (c + 1) t a le,
            load-copy_cards l.memory k c t a le,
            card_offset_mono k c (below k e),
            card_offset_mono c (c + 1),
          ))
    ]

    turn-pending :
        (l : CardLoop) (c a : ℕ)
        → ((k : ℕ) → l.start_card_index ≡ some k → k ≤ c)
        → pending (turn c l).start_card_index (c + 1) a ≡ true
        → (pending l.start_card_index c a
            || (l.locks (get_write_lock_idx obj + c) == card_marked_old && in_cards c (c + 1) a))
          ≡ true
    unfolding end_range take_card
    turn-pending l c a below = elim (Option-cases l.start_card_index) [
      | inl e ↦ rw e (ground arith)
      | inr (k, e) ↦ rw e (ground (arith, card_offset_mono k c (below k e)))
    ]

    turn-below :
        (l : CardLoop) (c : ℕ)
        → ((k : ℕ) → l.start_card_index ≡ some k → k ≤ c)
        → (k : ℕ) → (turn c l).start_card_index ≡ some k
        → k ≤ c + 1
    unfolding end_range take_card
    turn-below l c below = elim (Option-cases l.start_card_index) [
      | inl e ↦ rw e (λ k q. ground arith)
      | inr (j, e) ↦ let le = below j e in rw e (λ k q. ground arith)
    ]

    -- At the last card nothing is left pending.
    turn-closed : (l : CardLoop) → (turn last l).start_card_index ≡ none
    unfolding end_range take_card
    turn-closed l = elim (Option-cases l.start_card_index) [
      | inl e ↦ rw e (ground arith)
      | inr (j, e) ↦ rw e (ground arith)
    ]

    pub load-loop :
        (n : ℕ) (l : CardLoop) (c t a : ℕ)
        → me ≤ nb_segments
        → t ≤ nb_segments
        → c + n ≡ last + 1
        → ((k : ℕ) → l.start_card_index ≡ some k → k ≤ c)
        → (n ≡ 0 → l.start_card_index ≡ none)
        → load (cards_loop o me obj last c n l).memory t a ≡ (
            if pending l.start_card_index c a || in_marked l.locks c n a
            then load l.memory me a
            else load l.memory t a)
    unfolding cards_loop
    load-loop zero l c t a le_me le count below closed = rw (closed refl) refl
    load-loop (suc n) l c t a le_me le count below closed =
        load-loop n l' (c + 1) t a le_me le (omega arith) (turn-below l c below) closed'
        ∙ rw locks (
            ground (
              arith,
              load-turn l c t a le below,
              load-turn l c me a le_me below,
              turn-pending l c a below,
            ))
      where
        l' : CardLoop
        l' = turn c l

        closed' : n ≡ 0 → l'.start_card_index ≡ none
        closed' e = let here : c ≡ last = omega arith in rw here (turn-closed l)

        locks : in_marked l'.locks (c + 1) n a ≡ in_marked l.locks (c + 1) n a
        locks =
            rw (turn-locks l c)
              (ground (arith, in_marked-above n l.locks (c + 1) c card_clear a (omega arith)))
