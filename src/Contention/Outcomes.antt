-- ===== src/Contention/Outcomes.antt =====
-- c7/stm/contention.c: what is left when the other transaction is told to abort.
use pypy_stmgc.Base.{ℕ, ◌≡◌, ◌≢◌, ◌∙◌, Bool, true, false, arith}
use pypy_stmgc.State.{
  System, Objects, done, >>=-done, Cond, SafePoint, no_transaction, running, regular, set_segment,
  is_aborting_now, must_abort, sig_abort,
}
use pypy_stmgc.Abort.{discard_changes, abort_data_structures_from_segment_num}
use pypy_stmgc.Abort.Reset.{is_entry_of_some}
use pypy_stmgc.Abort.Whole.{discard-unlocks}
use pypy_stmgc.Sync.{set_nursery_end}
use pypy_stmgc.Contention.{
  write_write, choose, abort_the_other, abort_if_asked, wake_other, kill_if_stopped, abort_other,
  act, contention_management, write_write_contention_management,
}

-- The thread waits at a safe point.
abbrev pub is_stopped : SafePoint → Bool
is_stopped no_transaction = false
is_stopped running = false
is_stopped _ = true

module _ (o : Objects) (wait : Cond → ℕ → System → System) (me other : ℕ) (s : System) where
  abbrev signalled : System
  signalled = set_nursery_end sig_abort other s

  abbrev killed : System
  killed =
      set_segment me (λ p. record p { signalled_to_commit_soon = true })
        (discard_changes o other signalled)

  wake-stopped :
      (p : SafePoint)
      → is_stopped p ≡ true
      → wake_other o wait me p signalled ≡ done false signalled
  unfolding wake_other
  wake-stopped p stopped = ground arith

  kill-stopped :
      is_stopped (s.segment other).safe_point ≡ true
      → (s.segment other).transaction_state ≡ regular
      → kill_if_stopped o wait other signalled ≡ done tt (discard_changes o other signalled)
  unfolding kill_if_stopped is_aborting_now abort_data_structures_from_segment_num set_nursery_end
      set_segment
  kill-stopped stopped state = ground arith

  abort_other-stopped :
      is_stopped (s.segment other).safe_point ≡ true
      → (s.segment other).transaction_state ≡ regular
      → abort_other o wait me other s ≡ done false killed
  unfolding abort_other
  abort_other-stopped stopped state =
      ground (arith, wake-stopped (s.segment other).safe_point stopped, kill-stopped stopped state)

  abort_if_asked-done : must_abort s me ≡ false → abort_if_asked o wait me s ≡ done tt s
  unfolding abort_if_asked
  abort_if_asked-done alive = ground arith

  contention-goes_on :
      must_abort s me ≡ false
      → choose s write_write me other ≡ abort_the_other
      → is_stopped (s.segment other).safe_point ≡ true
      → (s.segment other).transaction_state ≡ regular
      → contention_management o wait write_write me other s ≡ done false killed
  unfolding contention_management act
  contention-goes_on alive chosen stopped state =
      >>=-done (abort_if_asked o wait me)
        (λ _ t. act o wait (choose t write_write me other) me other t) s tt s
        (abort_if_asked-done alive)
      ∙ rw (chosen, act) (abort_other-stopped stopped state)

  -- A transaction that was not told to abort meets the write lock of another one, a regular one
  -- that is stopped at a safe point, has modified the object of the lock, and by the choice of
  -- the contention management is the one to abort. Then the call returns with the lock free, so
  -- that the retry that follows can take it.
  pub write_write_frees :
      (lock_idx : ℕ)
      → s.write_locks lock_idx ≡ other
      → other ≢ 0
      → other ≢ (s.segment me).write_lock_num
      → must_abort s me ≡ false
      → choose s write_write me other ≡ abort_the_other
      → is_stopped (s.segment other).safe_point ≡ true
      → (s.segment other).transaction_state ≡ regular
      → is_entry_of_some o (s.segment other).modified_old_objects lock_idx ≡ true
      → (t : System) × (write_write_contention_management o wait me lock_idx s ≡ done tt t)
        × (t.write_locks lock_idx ≡ 0)
  unfolding write_write_contention_management set_nursery_end set_segment
  write_write_frees lock_idx owned some_owner not_mine alive chosen stopped state held = (
    killed,
    ground (arith, contention-goes_on alive chosen stopped state),
    discard-unlocks o other signalled lock_idx (ground arith),
  )
