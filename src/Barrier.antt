-- ===== src/Barrier.antt =====
-- c7/stmgc.h and c7/stm/core.c: the read barrier, and the slow path of the write barrier.
pub mod Claim
use pypy_stmgc.Base.{
  ℕ, zero, suc, ◌+◌, ◌-◌, ◌/◌, Bool, true, false, not, ◌==◌, if◌then◌else◌, update, Option, none,
  some, List, ◌∷◌,
}
use pypy_stmgc.Memory.{Mem, page_privatize}
use pypy_stmgc.State.{
  System, Segment, Objects, Outcome, done, waiting, M, ◌>>=◌, ◌>>◌, modify, set_segment, Cond,
  flags_of, set_flags_of, is_overflow_obj, has_flag, set_flag, clear_flag, write_barrier,
  small_uniform, cards_set, get_write_lock_idx, get_index_to_card_index, card_clear, card_marked,
  card_marked_old, obj_should_use_cards,
}
use pypy_stmgc.Cards.{reset_object_cards}
use pypy_stmgc.Contention.{write_write_contention_management}

unfoldable pub stm_read : ℕ → ℕ → System → System
stm_read me obj s =
    set_segment me
      (λ p. record p { read_marker = update p.read_marker (obj / 16) p.transaction_read_version }) s

unfoldable pub was_read_remote : Segment → ℕ → Bool
was_read_remote p obj = p.read_marker (obj / 16) == p.transaction_read_version

-- `LIST_APPEND` to a list that is not NULL.
abbrev pub append_to : Option (List ℕ) → ℕ → Option (List ℕ)
append_to none obj = none
append_to (some l) obj = some (obj ∷ l)

-- The flags of the object as `me` sees them, changed.
abbrev pub change_flags : (ℕ → ℕ) → ℕ → ℕ → System → System
change_flags f me obj s = set_flags_of s me obj (f (flags_of s me obj))

abbrev pub without_barrier : ℕ → ℕ
without_barrier flags = clear_flag (clear_flag flags write_barrier) cards_set

unfoldable pub reset_cards_if_set : Objects → ℕ → ℕ → ℕ → Bool → System → System
reset_cards_if_set o me obj value mark_all s =
    if has_flag (flags_of s me obj) cards_set
    then reset_object_cards o me obj value mark_all s
    else s

unfoldable pub add_pointing_to_nursery : ℕ → ℕ → System → System
add_pointing_to_nursery me obj s =
    set_segment me
      (λ p. record p { objects_pointing_to_nursery = append_to p.objects_pointing_to_nursery obj })
      s

-- The object stays behind its barrier, since every card has to be marked.
unfoldable pub add_with_cards : ℕ → ℕ → System → System
add_with_cards me obj s =
    set_segment me (λ p. record p { old_objects_with_cards = obj ∷ p.old_objects_with_cards })
      (change_flags (λ f. set_flag f cards_set) me obj s)

unfoldable pub write_slowpath_overflow_obj : Objects → ℕ → ℕ → Bool → System → System
write_slowpath_overflow_obj o me obj mark_card s =
    if mark_card
    then add_with_cards me obj s
    else add_pointing_to_nursery me obj
        (change_flags without_barrier me obj (reset_cards_if_set o me obj card_clear false s))

-- The pages `page`, …, `page + n - 1`.
unfoldable pub privatize_pages : Mem → ℕ → ℕ → ℕ → Mem
privatize_pages m me page zero = m
privatize_pages m me page (suc n) = privatize_pages (page_privatize m me page) me (page + 1) n

unfoldable pub privatize_object : Objects → ℕ → ℕ → System → System
privatize_object o me obj s =
    let first_page = obj / 4096 in
    let end_page = (obj + o.size_rounded_up obj - 1) / 4096 in
    let pages =
      if has_flag (flags_of s me obj) small_uniform then 1 else end_page + 1 - first_page in
    record s { mem = privatize_pages s.mem me first_page pages }

-- The lock is free: it is taken, which the compare-and-swap does in one step.
unfoldable pub take_lock : Objects → ℕ → ℕ → System → System
take_lock o me obj s =
    let locks = update s.write_locks (get_write_lock_idx obj) (s.segment me).write_lock_num in
    privatize_object o me obj (
      set_segment me (λ p. record p { modified_old_objects = obj ∷ p.modified_old_objects })
        (record s { write_locks = locks }))

-- What follows when the lock is held.
unfoldable pub record_write : Objects → ℕ → ℕ → Bool → System → System
record_write o me obj mark_card s =
    if mark_card
    then add_with_cards me obj s
    else change_flags without_barrier me obj
        (reset_cards_if_set o me obj card_marked_old true (add_pointing_to_nursery me obj s))

module _ (o : Objects) (wait : Cond → ℕ → System → System) where
  -- The loop behind `retry`, with fuel for the conflicts.
  unfoldable pub claim : ℕ → ℕ → ℕ → M (Unit {0})
  claim zero me obj s = waiting
  claim (suc fuel) me obj s =
      let idx = get_write_lock_idx obj in
      let again = (do write_write_contention_management o wait me idx; claim fuel me obj) s in
      if s.write_locks idx == 0
      then done tt (take_lock o me obj s)
      else if s.write_locks idx == (s.segment me).write_lock_num
      then done tt s
      else again

  unfoldable pub write_slowpath_common : ℕ → ℕ → ℕ → Bool → M (Unit {0})
  write_slowpath_common fuel me obj mark_card s =
      let rest =
        (do modify (stm_read me obj); claim fuel me obj; modify (record_write o me obj mark_card))
          s in
      if is_overflow_obj s me obj
      then done tt (write_slowpath_overflow_obj o me obj mark_card s)
      else rest

  unfoldable pub stm_write_slowpath : ℕ → ℕ → ℕ → M (Unit {0})
  stm_write_slowpath fuel me obj = write_slowpath_common fuel me obj false

  unfoldable pub stm_write : ℕ → ℕ → ℕ → M (Unit {0})
  stm_write fuel me obj s =
      let slow = stm_write_slowpath fuel me obj s in
      if has_flag (flags_of s me obj) write_barrier then slow else done tt s

  unfoldable pub stm_write_slowpath_card_extra : ℕ → ℕ → ℕ → M Bool
  stm_write_slowpath_card_extra fuel me obj = do
    let mark_card = obj_should_use_cards o obj
    write_slowpath_common fuel me obj mark_card
    done mark_card

  unfoldable pub mark_card_of : ℕ → ℕ → System → System
  mark_card_of obj index s = record s {
    write_locks =
        update s.write_locks (get_write_lock_idx obj + get_index_to_card_index index) card_marked;
  }

  unfoldable pub stm_write_slowpath_card : ℕ → ℕ → ℕ → ℕ → M (Unit {0})
  stm_write_slowpath_card fuel me obj index s =
      let extra =
        (do
          mark_card ← stm_write_slowpath_card_extra fuel me obj
          λ t. if mark_card then done tt (mark_card_of obj index t) else done tt t)
          s in
      if has_flag (flags_of s me obj) cards_set then done tt (mark_card_of obj index s) else extra

  unfoldable pub stm_write_card : ℕ → ℕ → ℕ → ℕ → M (Unit {0})
  stm_write_card fuel me obj index s =
      let slow = stm_write_slowpath_card fuel me obj index s in
      if has_flag (flags_of s me obj) write_barrier then slow else done tt s
