-- ===== src/Abort.antt =====
-- c7/stm/core.c, from `_finish_transaction` to `abort_with_mutex`, with `throw_away_nursery` of
-- c7/stm/nursery.c and `release_thread_segment` of c7/stm/sync.c.
pub mod Reset
pub mod Rollback
pub mod Whole
use Prim.Native.Nat.{min}
use pypy_stmgc.Base.{
  ℕ, ◌+◌, ◌-◌, ◌*◌, ◌/◌, Bool, true, false, ◌&&◌, ltb, leb, if◌then◌else◌, update, Option, none,
  some, List, [], ◌∷◌,
}
use pypy_stmgc.Memory.{memcpy}
use pypy_stmgc.State.{
  System, Segment, ThreadLocal, Objects, Outcome, done, aborted, fatal, waiting, M, ◌>>=◌, ◌>>◌,
  modify, set_segment, set_thread, obj_should_use_cards, get_write_lock_idx, card_clear,
  no_transaction, ts_none, regular, inevitable, nursery_end_normal, sig_pause, is_abort, has_flag,
  cards_set, flags_of, nursery_start, nb_nursery_pages,
}
use pypy_stmgc.Cards.{reset_object_cards}

-- The body of the loop of `reset_modified_from_other_segments`: the shared version comes back, the
-- cards and the write lock are cleared.
unfoldable pub reset_modified_object : Objects → ℕ → ℕ → System → System
reset_modified_object o i obj s =
    let copied = record s { mem = memcpy s.mem i 0 obj (o.size_rounded_up obj) } in
    let s' =
      if obj_should_use_cards o obj
      then reset_object_cards o i obj card_clear false copied
      else copied in
    record s' { write_locks = update s'.write_locks (get_write_lock_idx obj) 0 }

unfoldable pub reset_modified_objects : Objects → ℕ → List ℕ → System → System
reset_modified_objects o i [] s = s
reset_modified_objects o i (obj ∷ objs) s =
    reset_modified_objects o i objs (reset_modified_object o i obj s)

unfoldable pub reset_modified_from_other_segments : Objects → ℕ → System → System
reset_modified_from_other_segments o i s =
    set_segment i (λ p. record p { modified_old_objects = [] })
      (reset_modified_objects o i (s.segment i).modified_old_objects s)

-- `memset(p + start, 0, n)`
abbrev zeroed : (ℕ → ℕ) → ℕ → ℕ → ℕ → ℕ
zeroed f start n a = if leb start a && ltb a (start + n) then 0 else f a

-- The read markers of the objects at the given addresses set to 0.
unfoldable pub unread : List ℕ → (ℕ → ℕ) → ℕ → ℕ
unread [] marker = marker
unread (obj ∷ objs) marker = unread objs (update marker (obj / 16) 0)

-- Giving the young objects outside the nursery back to the allocator is not part of this state.
unfoldable pub throw_away_nursery : Segment → Segment
throw_away_nursery p =
    let used = min (p.nursery_current - nursery_start) (nb_nursery_pages * 4096) in
    record p {
      nursery = zeroed p.nursery nursery_start used;
      nursery_current = nursery_start;
      read_marker = unread p.young_outside_nursery p.read_marker;
      young_outside_nursery = [];
    }

unfoldable pub bytes_in_nursery : Segment → ℕ
bytes_in_nursery p = min (p.nursery_current - nursery_start) (nb_nursery_pages * 4096)

-- The cards of the overflow objects that have some.
unfoldable pub clear_overflow_cards : Objects → ℕ → List ℕ → System → System
clear_overflow_cards o i [] s = s
clear_overflow_cards o i (obj ∷ objs) s = clear_overflow_cards o i objs (
    if has_flag (flags_of s i obj) cards_set
    then reset_object_cards o i obj card_clear false s
    else s)

abbrev or_empty : Option (List ℕ) → List ℕ
or_empty none = []
or_empty (some l) = l

-- The thread goes back to the shadow stack and the thread-local object of the start.
unfoldable pub restore_thread : ℕ → ℕ → System → System
restore_thread i bytes s = elim (s.segment i).running_thread [
  | none ↦ s
  | some t ↦
      set_thread t
        (λ tl. record tl {
          shadowstack = (s.segment i).shadowstack_at_start_of_transaction;
          thread_local_obj = (s.segment i).threadlocal_at_start_of_transaction;
          last_abort_bytes_in_nursery = bytes;
        })
        s
]

unfoldable pub clear_lists : Segment → Segment
clear_lists p = record p {
  objects_pointing_to_nursery = none;
  old_objects_with_cards = [];
  large_overflow_objects = none;
  young_weakrefs = [];
}

-- What `abort_data_structures_from_segment_num` does behind its `switch`. Finalizers are not part
-- of the state.
unfoldable pub discard_changes : Objects → ℕ → System → System
discard_changes o i s =
    let bytes = bytes_in_nursery (s.segment i) in
    let s₁ = set_segment i throw_away_nursery s in
    let s₂ = clear_overflow_cards o i (or_empty (s.segment i).large_overflow_objects) s₁ in
    let s₃ = reset_modified_from_other_segments o i s₂ in
    set_segment i clear_lists (restore_thread i bytes s₃)

unfoldable pub abort_data_structures_from_segment_num : Objects → ℕ → M (Unit {0})
abort_data_structures_from_segment_num o i s = elim (s.segment i).transaction_state [
  | regular ↦ done tt (discard_changes o i s)
  | inevitable ↦ fatal
  | ts_none ↦ fatal
]

-- The signals wake threads that wait; they change nothing themselves.
unfoldable pub release_thread_segment : ℕ → System → System
release_thread_segment i s = elim (s.segment i).running_thread [
  | none ↦ s
  | some t ↦
      let s' =
        set_segment i (λ p. record p { signal_when_done = false; running_thread = none }) s in
      record s' { in_use1 = update s'.in_use1 ((s.thread t).associated_segment_num - 1) false }
]

unfoldable pub finish_transaction : ℕ → System → System
finish_transaction i s = release_thread_segment i (
    set_segment i
      (λ p. record p {
        safe_point = no_transaction;
        transaction_state = ts_none;
        objects_pointing_to_nursery = none;
        old_objects_with_cards = [];
        large_overflow_objects = none;
      })
      s)

-- An abort that was asked for is over; a pause that was asked for is not.
unfoldable pub done_aborting : ℕ → System → System
unfolding is_abort
done_aborting i s =
    if is_abort (s.segment i).nursery_end
    then set_segment i
        (λ p. record p {
          nursery_end = if s.pause_signalled then sig_pause else nursery_end_normal;
        })
        s
    else s

unfoldable pub abort_with_mutex_no_longjmp : Objects → ℕ → M (Unit {0})
abort_with_mutex_no_longjmp o i = do
  abort_data_structures_from_segment_num o i
  modify (done_aborting i)
  modify (finish_transaction i)

-- It never returns: it jumps back to the start of the transaction.
unfoldable pub abort_with_mutex : Objects → ℕ → {A : Type 0} → M A
abort_with_mutex o i s = elim (abort_with_mutex_no_longjmp o i s) [
  | done _ t ↦ aborted t
  | aborted t ↦ aborted t
  | fatal ↦ fatal
  | waiting ↦ waiting
]

unfoldable pub stm_abort_transaction : Objects → ℕ → {A : Type 0} → M A
stm_abort_transaction o i = abort_with_mutex o i
