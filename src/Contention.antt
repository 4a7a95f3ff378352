-- ===== src/Contention.antt =====
-- c7/stm/contention.c, and the loop over inevitable transactions of c7/stm/sync.c: which of two
-- transactions that are in conflict goes on.
pub mod Fairness
pub mod Outcomes
use pypy_stmgc.Base.{ℕ, zero, suc, ◌+◌, Bool, true, false, not, ◌&&◌, leb, ◌==◌, if◌then◌else◌}
use pypy_stmgc.Memory.{nb_segments}
use pypy_stmgc.State.{
  System, Segment, Objects, Outcome, done, aborted, fatal, waiting, M, ◌>>=◌, ◌>>◌, modify,
  set_segment, Cond, transaction_done, aborted_done, sig_abort, SafePoint, no_transaction, running,
  wait_request_removed, wait_at_safe_point, wait_transaction_done, TransactionState, ts_none,
  regular, inevitable, is_abort, is_aborting_now, must_abort,
}
use pypy_stmgc.Abort.{abort_with_mutex, abort_data_structures_from_segment_num}
use pypy_stmgc.Sync.{set_safe_point, set_nursery_end, signal_other_to_commit_soon}

-- The kinds of contention, of `enum stm_event_e`.
pub data Kind : Type 0 where
  write_write write_read inevitable_conflict : Kind

-- `struct contmgr_s`, without the two fields that only say what the conflict is.
pub record ContentionManager : Type 0 where
  pub abort_other : Bool
  pub try_sleep : Bool

-- The managers take the start times of this transaction and of the other one.
pub cm_always_abort_myself : ContentionManager → ContentionManager
cm_always_abort_myself cm = record cm { abort_other = false }

pub cm_always_abort_other : ContentionManager → ContentionManager
cm_always_abort_other cm = record cm { abort_other = true }

unfoldable pub cm_abort_the_younger : ℕ → ℕ → ContentionManager → ContentionManager
cm_abort_the_younger mine theirs cm = record cm { abort_other = not (leb theirs mine) }

unfoldable pub cm_always_wait_for_other_thread : ℕ → ℕ → ContentionManager → ContentionManager
unfolding cm_abort_the_younger
cm_always_wait_for_other_thread mine theirs cm =
    let cm' = cm_abort_the_younger mine theirs cm in record cm' { try_sleep = true }

unfoldable pub cm_pause_if_younger : ℕ → ℕ → ContentionManager → ContentionManager
cm_pause_if_younger mine theirs cm =
    if leb theirs mine
    then record cm { try_sleep = true; abort_other = false }
    else record cm { abort_other = true }

abbrev pub is_inevitable : TransactionState → Bool
is_inevitable inevitable = true
is_inevitable _ = false

-- The choices that are wrong for an inevitable or an aborting transaction, put right.
unfoldable pub fix_choices : System → ℕ → ℕ → ContentionManager → ContentionManager
unfolding is_abort
fix_choices s me other cm =
    if is_abort (s.segment other).nursery_end
    then record cm { abort_other = true; try_sleep = false }
    else if is_inevitable (s.segment me).transaction_state
    then record cm { abort_other = true; try_sleep = false }
    else if is_inevitable (s.segment other).transaction_state
    then record cm { abort_other = false }
    else cm

abbrev pub is_write_write : Kind → Bool
is_write_write write_write = true
is_write_write _ = false

abbrev pub is_paused_here : SafePoint → Bool
is_paused_here wait_transaction_done = true
is_paused_here _ = false

-- The three things that the function may do.
pub data Choice : Type 0 where
  sleep abort_myself abort_the_other : Choice

unfoldable pub choose : System → Kind → ℕ → ℕ → Choice
unfolding fix_choices cm_pause_if_younger
choose s kind me other =
    let cm = fix_choices s me other (
      cm_pause_if_younger (s.segment me).unique_start_time (s.segment other).unique_start_time
        (record { abort_other = false; try_sleep = false })) in
    if cm.try_sleep
      && not (is_write_write kind)
      && not (is_paused_here (s.segment other).safe_point)
    then sleep
    else if cm.abort_other
    then abort_the_other
    else abort_myself

-- The first of the segments `i`, …, `i + n - 1` with an inevitable transaction; 0 if there is none.
unfoldable pub find_inevitable : System → ℕ → ℕ → ℕ
find_inevitable s i zero = 0
find_inevitable s i (suc n) =
    let rest = find_inevitable s (i + 1) n in
    if is_inevitable (s.segment i).transaction_state then i else rest

module _ (o : Objects) (wait : Cond → ℕ → System → System) where
  -- `if (must_abort()) abort_with_mutex();`
  unfoldable pub abort_if_asked : ℕ → M (Unit {0})
  abort_if_asked me s =
      let gone = abort_with_mutex o me s in if must_abort s me then gone else done tt s

  -- Sleep until the other transaction is done. It is told to commit soon.
  unfoldable pub sleep_for : ℕ → ℕ → M Bool
  sleep_for me other = do
    modify (set_segment other (λ p. record p { signal_when_done = true }))
    modify (signal_other_to_commit_soon other)
    modify (set_safe_point wait_transaction_done me)
    modify (wait transaction_done me)
    modify (set_safe_point running me)
    abort_if_asked me
    done true

  unfoldable pub yield_to : ℕ → ℕ → M Bool
  yield_to me other = do modify (signal_other_to_commit_soon other); abort_with_mutex o me

  -- The other thread is running: it will see the signal. This is no safe point.
  unfoldable pub wait_until_aborted : ℕ → M Bool
  wait_until_aborted me = do
    abort_if_asked me
    modify (wait aborted_done me)
    abort_if_asked me
    done true

  -- The `switch` on the other's safe point; the signals that wake it change no state. The answer
  -- says whether other threads may have run.
  unfoldable pub wake_other : ℕ → SafePoint → M Bool
  wake_other me running = wait_until_aborted me
  wake_other me wait_request_removed = done false
  wake_other me wait_at_safe_point = done false
  wake_other me wait_transaction_done = done false
  wake_other me no_transaction = λ _. fatal

  unfoldable pub kill_if_stopped : ℕ → M (Unit {0})
  kill_if_stopped other s =
      if is_aborting_now s other
      then abort_data_structures_from_segment_num o other s
      else done tt s

  unfoldable pub abort_other : ℕ → ℕ → M Bool
  abort_other me other s =
      (do
        modify (set_nursery_end sig_abort other)
        others_may_have_run ← wake_other me (s.segment other).safe_point
        kill_if_stopped other
        modify (set_segment me (λ p. record p { signalled_to_commit_soon = true }))
        done others_may_have_run)
        s

  unfoldable pub act : Choice → ℕ → ℕ → M Bool
  act sleep me other = sleep_for me other
  act abort_myself me other = yield_to me other
  act abort_the_other me other = abort_other me other

  unfoldable pub contention_management : Kind → ℕ → ℕ → M Bool
  contention_management kind me other = do
    abort_if_asked me
    λ s. act (choose s kind me other) me other s

  unfoldable pub write_write_contention_management : ℕ → ℕ → M (Unit {0})
  write_write_contention_management me lock_idx s =
      let owner = s.write_locks lock_idx in
      if not (owner == 0) && not (owner == (s.segment me).write_lock_num)
      then (do _ ← contention_management write_write me owner; done tt) s
      else done tt s

  unfoldable pub write_read_contention_management : ℕ → ℕ → M Bool
  write_read_contention_management me other = contention_management write_read me other

  unfoldable pub inevitable_contention_management : ℕ → ℕ → M (Unit {0})
  inevitable_contention_management me other = do
    _ ← contention_management inevitable_conflict me other
    done tt

  -- With fuel for the restarts.
  unfoldable pub wait_for_end_of_inevitable_transaction : ℕ → ℕ → M (Unit {0})
  wait_for_end_of_inevitable_transaction zero me s = waiting
  wait_for_end_of_inevitable_transaction (suc fuel) me s =
      let i = find_inevitable s 1 nb_segments in
      let again =
        (do inevitable_contention_management me i; wait_for_end_of_inevitable_transaction fuel me)
          s in
      if i == 0 then done tt s else again
