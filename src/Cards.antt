-- ===== src/Cards.antt =====
-- c7/stm/nursery.c, `_reset_object_cards`: the cards of an object are the entries of `write_locks`
-- that follow its lock.
use pypy_stmgc.Base.{
  ℕ, zero, suc, ◌+◌, ◌-◌, ◌/◌, ◌≡◌, Bool, not, ◌&&◌, ◌||◌, leb, ltb, ◌==◌, if◌then◌else◌, update,
  arith,
}
use pypy_stmgc.State.{
  System, Objects, get_write_lock_idx, get_index_to_card_index, card_clear, cards_set, clear_flag,
  flags_of, set_flags_of,
}

-- The loop, at `card` with `n` cards left; `first` is the index of the object's own lock.
unfoldable pub reset_card_locks : (ℕ → ℕ) → ℕ → ℕ → ℕ → Bool → ℕ → ℕ → ℕ
reset_card_locks locks first card value mark_all zero = locks
reset_card_locks locks first card value mark_all (suc n) =
    reset_card_locks
      (if mark_all || not (locks (first + card) == card_clear)
        then update locks (first + card) value
        else locks)
      first (card + 1) value mark_all n

-- The index of the last card: items are counted from `card_base`.
unfoldable pub last_card_index : Objects → ℕ → ℕ
unfolding get_index_to_card_index
last_card_index o obj =
    get_index_to_card_index ((o.size_rounded_up obj - o.card_base obj) / o.card_itemsize obj - 1)

unfoldable pub reset_object_cards : Objects → ℕ → ℕ → ℕ → Bool → System → System
reset_object_cards o i obj value mark_all s =
    set_flags_of
      (record s {
        write_locks =
            reset_card_locks s.write_locks (get_write_lock_idx obj) 1 value mark_all
              (last_card_index o obj);
      })
      i obj (clear_flag (flags_of s i obj) cards_set)

-- The loop gives `value` to the cards that it marks, and leaves every other entry alone.
pub reset_card_locks_lem :
    (locks : ℕ → ℕ) (first card value : ℕ) (mark_all : Bool) (n j : ℕ)
    → reset_card_locks locks first card value mark_all n j ≡ (
        if leb (first + card) j
          && ltb j (first + card + n)
          && (mark_all || not (locks j == card_clear))
        then value
        else locks j)
unfolding reset_card_locks
reset_card_locks_lem locks first card value mark_all zero j = ground arith
reset_card_locks_lem locks first card value mark_all (suc n) j = ground (
  arith,
  reset_card_locks_lem
      (if mark_all || not (locks (first + card) == card_clear)
        then update locks (first + card) value
        else locks)
      first (card + 1) value mark_all n j,
)
