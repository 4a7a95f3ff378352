-- ===== src/Abort/Whole.antt =====
-- c7/stm/core.c, `abort_with_mutex`: what a whole abort leaves behind.
use pypy_stmgc.Base.{
  ℕ, ◌<◌, ◌≡◌, ◌≢◌, refl, true, false, ◌&&◌, ◌==◌, if◌then◌else◌, arith, List, [],
}
use pypy_stmgc.Memory.{load}
use pypy_stmgc.State.{
  System, Segment, Objects, aborted, set_segment, set_thread, regular, ts_none, no_transaction,
}
use pypy_stmgc.Abort.{
  reset_modified_objects, reset_modified_from_other_segments, clear_overflow_cards, or_empty,
  restore_thread, throw_away_nursery, discard_changes, abort_data_structures_from_segment_num,
  abort_with_mutex_no_longjmp, abort_with_mutex, done_aborting, finish_transaction,
  release_thread_segment, bytes_in_nursery, clear_lists,
}
use pypy_stmgc.Abort.Reset.{
  covers, is_card_of_some, is_entry_of_some, Resettable, load-reset_objects, locks-reset_objects,
  rest-reset_objects,
}
use pypy_stmgc.Abort.Rollback.{
  member, load-clear_overflow, locks-clear_overflow, rest-clear_overflow, Resettable-clear_overflow,
}

-- The state that an abort of segment `i` leaves.
rolled_back : Objects → ℕ → System → System
rolled_back o i s = finish_transaction i (done_aborting i (discard_changes o i s))

abort_outcome :
    (o : Objects) (i : ℕ) (s : System)
    → (s.segment i).transaction_state ≡ regular
    → abort_with_mutex o i {A = Unit {0}} s ≡ aborted (rolled_back o i s)
unfolding abort_with_mutex abort_with_mutex_no_longjmp abort_data_structures_from_segment_num
    rolled_back
abort_outcome o i s r = ground arith

-- The steps around the two loops keep the memory and the locks.
pub rest-finish :
    (i : ℕ) (s : System)
    → ((finish_transaction i s).mem ≡ s.mem)
      × ((finish_transaction i s).write_locks ≡ s.write_locks)
unfolding finish_transaction release_thread_segment set_segment
rest-finish i s = ground arith

rest-done_aborting :
    (i : ℕ) (s : System)
    → ((done_aborting i s).mem ≡ s.mem) × ((done_aborting i s).write_locks ≡ s.write_locks)
unfolding done_aborting set_segment
rest-done_aborting i s = ground arith

rest-restore_thread :
    (i bytes : ℕ) (s : System)
    → ((restore_thread i bytes s).mem ≡ s.mem)
      × ((restore_thread i bytes s).write_locks ≡ s.write_locks)
      × ((restore_thread i bytes s).segment ≡ s.segment)
unfolding restore_thread set_thread
rest-restore_thread i bytes s = ground arith

rest-set_segment :
    (i : ℕ) (f : Segment → Segment) (s : System)
    → ((set_segment i f s).mem ≡ s.mem) × ((set_segment i f s).write_locks ≡ s.write_locks)
unfolding set_segment
rest-set_segment i f s = (refl, refl)

module _ (o : Objects) (i : ℕ) (s : System) where
  abbrev modified : List ℕ
  modified = (s.segment i).modified_old_objects

  abbrev overflow : List ℕ
  overflow = or_empty (s.segment i).large_overflow_objects

  -- The state when the loop over the modified objects begins.
  abbrev kept : System
  kept = clear_overflow_cards o i overflow (set_segment i throw_away_nursery s)

  kept-modified : (kept.segment i).modified_old_objects ≡ modified
  unfolding set_segment throw_away_nursery
  kept-modified =
      ground (arith, rest-clear_overflow o i overflow (set_segment i throw_away_nursery s))

  abbrev after_reset : System
  after_reset = reset_modified_from_other_segments o i kept

  discard_lem :
      ((discard_changes o i s).mem ≡ (reset_modified_objects o i modified kept).mem)
      × ((discard_changes o i s).write_locks
          ≡ (reset_modified_objects o i modified kept).write_locks)
  unfolding discard_changes reset_modified_from_other_segments
  discard_lem = ground (
    arith,
    kept-modified,
    rest-restore_thread i (bytes_in_nursery (s.segment i)) after_reset,
    rest-set_segment i clear_lists (restore_thread i (bytes_in_nursery (s.segment i)) after_reset),
    rest-set_segment i (λ p. record p { modified_old_objects = [] })
        (reset_modified_objects o i (kept.segment i).modified_old_objects kept),
  )

  pub discard-unlocks :
      (j : ℕ) → is_entry_of_some o modified j ≡ true → (discard_changes o i s).write_locks j ≡ 0
  discard-unlocks j entry = ground (arith, discard_lem, locks-reset_objects o i modified kept j)

  rolled_back_lem :
      ((rolled_back o i s).mem ≡ (reset_modified_objects o i modified kept).mem)
      × ((rolled_back o i s).write_locks ≡ (reset_modified_objects o i modified kept).write_locks)
  unfolding rolled_back
  rolled_back_lem = ground (
    arith,
    discard_lem,
    rest-done_aborting i (discard_changes o i s),
    rest-finish i (done_aborting i (discard_changes o i s)),
  )

  -- For a segment that is not the shared one, with a regular transaction whose modified objects
  -- have a size and have no card flag in their shared copies, an abort goes back to the start of
  -- the transaction. At each address but those of the flags of its overflow objects, the segment
  -- reads as in the shared copy if the address lies in a modified object, and otherwise, as all
  -- other segments do, what it read before.
  pub abort_restores :
      (k a : ℕ)
      → 0 < i
      → (s.segment i).transaction_state ≡ regular
      → Resettable o s.mem modified
      → member a overflow ≡ false
      → (t : System) × (abort_with_mutex o i {A = Unit {0}} s ≡ aborted t)
        × (load t.mem k a
            ≡ (if covers o modified a && k == i then load s.mem 0 a else load s.mem k a))
  unfolding set_segment
  abort_restores k a pos r ready out = (
    rolled_back o i s,
    abort_outcome o i s r,
    ground (
      arith,
      rolled_back_lem,
      load-reset_objects o i modified kept k a pos (
          Resettable-clear_overflow o i overflow modified (set_segment i throw_away_nursery s)
            ready),
      load-clear_overflow o i overflow (set_segment i throw_away_nursery s) k a out,
      load-clear_overflow o i overflow (set_segment i throw_away_nursery s) 0 a out,
    ),
  )

  -- An abort of a regular transaction goes back to its start, and clears exactly the write locks
  -- of the objects that it modified and the marks of their cards. Every other entry stays; the
  -- entries that are cards of its overflow objects are left out.
  pub abort_unlocks :
      (j : ℕ)
      → (s.segment i).transaction_state ≡ regular
      → is_card_of_some o overflow j ≡ false
      → (t : System) × (abort_with_mutex o i {A = Unit {0}} s ≡ aborted t)
        × (t.write_locks j ≡ (if is_entry_of_some o modified j then 0 else s.write_locks j))
  unfolding set_segment
  abort_unlocks j r out = (
    rolled_back o i s,
    abort_outcome o i s r,
    ground (
      arith,
      rolled_back_lem,
      locks-reset_objects o i modified kept j,
      locks-clear_overflow o i overflow (set_segment i throw_away_nursery s) j out,
    ),
  )

  pub discard-segment :
      (k : ℕ)
      → (k ≢ i → (discard_changes o i s).segment k ≡ s.segment k)
        × (((discard_changes o i s).segment i).modified_old_objects ≡ [])
  unfolding discard_changes set_segment reset_modified_from_other_segments clear_lists
  discard-segment k =
      let start : System = set_segment i throw_away_nursery s in
      let looped : System = reset_modified_objects o i (kept.segment i).modified_old_objects kept in
      let reset : System = set_segment i (λ p. record p { modified_old_objects = [] }) looped in
      ground (
        arith,
        rest-clear_overflow o i overflow start,
        rest-reset_objects o i (kept.segment i).modified_old_objects kept,
        rest-restore_thread i (bytes_in_nursery (s.segment i)) reset,
      )

  -- What the abort says to the segment itself is kept.
  pub discard-signals :
      (((discard_changes o i s).segment i).nursery_end ≡ (s.segment i).nursery_end)
      × (((discard_changes o i s).segment i).safe_point ≡ (s.segment i).safe_point)
  unfolding discard_changes set_segment reset_modified_from_other_segments clear_lists
      throw_away_nursery
  discard-signals =
      let start : System = set_segment i throw_away_nursery s in
      let looped : System = reset_modified_objects o i (kept.segment i).modified_old_objects kept in
      let reset : System = set_segment i (λ p. record p { modified_old_objects = [] }) looped in
      ground (
        arith,
        rest-clear_overflow o i overflow start,
        rest-reset_objects o i (kept.segment i).modified_old_objects kept,
        rest-restore_thread i (bytes_in_nursery (s.segment i)) reset,
      )

  -- An abort of a regular transaction goes back to its start, and leaves its segment without a
  -- transaction, not running, and without modified objects, and every other segment as it was.
  pub abort_frees :
      (k : ℕ)
      → k ≢ i
      → (s.segment i).transaction_state ≡ regular
      → (t : System) × (abort_with_mutex o i {A = Unit {0}} s ≡ aborted t)
        × ((t.segment i).transaction_state ≡ ts_none)
        × ((t.segment i).safe_point ≡ no_transaction)
        × ((t.segment i).modified_old_objects ≡ [])
        × (t.segment k ≡ s.segment k)
  unfolding rolled_back done_aborting finish_transaction release_thread_segment set_segment
  abort_frees k ne r =
      let d = discard-segment k in
      (
        rolled_back o i s,
        abort_outcome o i s r,
        ground arith,
        ground arith,
        ground (arith, d),
        ground (arith, d),
      )
