-- ===== src/Commit.antt =====
-- c7/stm/core.c: a transaction starts, becomes inevitable, and commits. All of it runs with the
-- global mutex held.
pub mod Start
pub mod Resolve
pub mod Conflicts
pub mod Inevitable
pub mod Synchronized
pub mod Whole
use pypy_stmgc.Base.{
  ℕ, zero, suc, ◌+◌, ◌/◌, ◌%◌, ◌^◌, Bool, true, false, not, ◌&&◌, ◌||◌, ◌==◌, if◌then◌else◌, Option,
  none, some, List, [], ◌∷◌,
}
use pypy_stmgc.Memory.{nb_segments}
use pypy_stmgc.State.{
  System, Segment, ThreadLocal, Objects, Outcome, done, aborted, fatal, waiting, M, ◌>>=◌, ◌>>◌,
  modify, set_segment, Cond, SafePoint, running, TransactionState, ts_none, regular, inevitable,
  is_abort, is_running, is_aborting_now,
}
use pypy_stmgc.Abort.{finish_transaction}
use pypy_stmgc.Sync.{
  acquire_thread_segment, enter_safe_point_if_requested, synchronize_all_threads,
  until_mutex_unlock, become_globally_unique, committed_globally_unique_transaction,
}
use pypy_stmgc.Contention.{
  write_read_contention_management, wait_for_end_of_inevitable_transaction, is_inevitable,
}
use pypy_stmgc.Barrier.{was_read_remote}
use pypy_stmgc.Publish.{push_modified_to_other_segments}

-- The next version, of 8 bits. When it wraps around all read markers are reset.
unfoldable pub next_read_version : Segment → Segment
next_read_version p =
    let old_rv = p.transaction_read_version in
    if old_rv == 255
    then record p { transaction_read_version = 1; read_marker = λ a. 0 }
    else record p { transaction_read_version = (old_rv + 1) % 2 ^ 8 }

-- The fields that a new transaction of thread `t` sets.
unfoldable pub begin : ℕ → ℕ → System → System
begin t me s =
    set_segment me
      (λ p. record p {
        unique_start_time = s.global_start_time;
        signalled_to_commit_soon = false;
        safe_point = running;
        transaction_state = regular;
        shadowstack_at_start_of_transaction = (s.thread t).shadowstack;
        threadlocal_at_start_of_transaction = (s.thread t).thread_local_obj;
      })
      (record s { global_start_time = (s.global_start_time + 1) % 2 ^ 64 })

-- Some object of the list was read.
unfoldable pub any_read : Segment → List ℕ → Bool
any_read p [] = false
any_read p (obj ∷ objs) = was_read_remote p obj || any_read p objs

abbrev pub is_none : TransactionState → Bool
is_none ts_none = true
is_none _ = false

-- Segment `i` is looked at, and has read what `me` has modified.
unfoldable pub has_conflict : System → ℕ → ℕ → Bool
has_conflict s me i =
    not (i == me)
    && not (is_none (s.segment i).transaction_state)
    && not (is_aborting_now s i)
    && any_read (s.segment i) (s.segment me).modified_old_objects

-- The numbers are of 32 bits; the lowest one is 16, GCFLAG_OVERFLOW_NUMBER_bit0.
unfoldable pub next_overflow_number : ℕ → System → System
next_overflow_number me s =
    let highest = (s.highest_overflow_number + 16) % 2 ^ 32 in
    if (s.segment me).overflow_number_has_been_used
    then set_segment me
        (λ p. record p { overflow_number = highest; overflow_number_has_been_used = false })
        (record s { highest_overflow_number = highest })
    else s

-- What the end of an inevitable transaction does for the others.
unfoldable pub end_inevitable : ℕ → System → System
end_inevitable me s =
    if is_inevitable (s.segment me).transaction_state && s.globally_unique_transaction
    then committed_globally_unique_transaction me s
    else s

module _ (o : Objects) (wait : Cond → ℕ → System → System) where
  -- The loop, with fuel for the times that no segment was free.
  unfoldable pub acquire_some_segment : ℕ → ℕ → M (Unit {0})
  acquire_some_segment zero t s = waiting
  acquire_some_segment (suc fuel) t s =
      (do
        got ← acquire_thread_segment o wait t
        λ s'. let again = acquire_some_segment fuel t s' in if got then done tt s' else again)
        s

  unfoldable pub stm_start_transaction : ℕ → ℕ → M (Unit {0})
  stm_start_transaction fuel t = do
    acquire_some_segment fuel t
    λ s.
        let me = (s.thread t).associated_segment_num in
        (do
          modify (begin t me)
          enter_safe_point_if_requested o wait fuel me
          modify (set_segment me next_read_version))
          s

  -- The loop over the segments `i`, …, `i + n - 1`.
  unfoldable pub detect_from : ℕ → ℕ → ℕ → M Bool
  detect_from me i zero s = done false s
  detect_from me i (suc n) s =
      let rest = detect_from me (i + 1) n s in
      let resolved =
        (do
          waited ← write_read_contention_management o wait me i
          λ t. let next = detect_from me (i + 1) n t in if waited then done true t else next)
          s in
      if has_conflict s me i then resolved else rest

  unfoldable pub detect_write_read_conflicts : ℕ → M Bool
  detect_write_read_conflicts me = detect_from me 1 nb_segments

  unfoldable pub become_inevitable : ℕ → ℕ → M (Unit {0})
  become_inevitable fuel me = do
    enter_safe_point_if_requested o wait fuel me
    λ s.
        let claimed =
          (do
            wait_for_end_of_inevitable_transaction o wait fuel me
            modify (set_segment me (λ p. record p { transaction_state = inevitable })))
            s in
        elim (s.segment me).transaction_state [
          | regular ↦ claimed
          | inevitable ↦ done tt s
          | ts_none ↦ done tt s
        ]

  -- `stm_become_inevitable` of c7/stmgc.h is the call of `_stm_become_inevitable` after a test.
  unfoldable pub stm_start_inevitable_transaction : ℕ → ℕ → M (Unit {0})
  stm_start_inevitable_transaction fuel t = do
    stm_start_transaction fuel t
    λ s. become_inevitable fuel (s.thread t).associated_segment_num s

  unfoldable pub become_globally_unique_transaction : ℕ → ℕ → M (Unit {0})
  become_globally_unique_transaction fuel me = do
    become_inevitable fuel me
    synchronize_all_threads o wait fuel me become_globally_unique

  -- `major_collection` stands for `major_collection_now_at_safe_point` of c7/stm/gcpage.c.
  module _ (major_collection : ℕ → System → System) where
    unfoldable pub collect_if_requested : ℕ → System → System
    collect_if_requested me s =
        if s.mem.major_collection_requested then major_collection me s else s

    -- From where the transaction cannot abort any more.
    unfoldable pub finish_commit : ℕ → M (Unit {0})
    finish_commit me = do
      modify (collect_if_requested me)
      push_modified_to_other_segments o me
      modify (next_overflow_number me)
      modify (end_inevitable me)
      modify (finish_transaction me)

    -- From the label `restart`, with fuel for the restarts.
    unfoldable pub stm_commit_transaction : ℕ → ℕ → M (Unit {0})
    stm_commit_transaction zero me s = waiting
    stm_commit_transaction (suc fuel) me s =
        (do
          synchronize_all_threads o wait (suc fuel) me until_mutex_unlock
          restart ← detect_write_read_conflicts me
          λ s'.
              let again = stm_commit_transaction fuel me s' in
              let commit = finish_commit me s' in if restart then again else commit)
          s
