-- ===== src/Examples/Threads.antt =====
-- The theorems on c7/stm/sync.c and on the fairness of c7/stm/contention.c at concrete states.
use pypy_stmgc.Base.{ℕ, ◌≡◌, ◌≢◌, ◌⊎◌, arith, true, false, ◌==◌, if◌then◌else◌, []}
use pypy_stmgc.State.{
  System, done, nursery_end_normal, running, wait_transaction_done, inevitable, regular,
}
use pypy_stmgc.Sync.{
  acquire_thread_segment, signal_everybody_to_pause_running, remove_requests_for_safe_point,
}
use pypy_stmgc.Sync.Acquire.{Acquired, acquire_lem}
use pypy_stmgc.Sync.Signals.{pause_remove}
use pypy_stmgc.Sync.Pause.{Stopped}
use pypy_stmgc.Examples.Data.{
  two_copies, plain_objects, two_transactions, no_locks, no_others, in_transaction, idle,
}

abbrev start : System
start = two_transactions two_copies [] no_locks

acquire_example :
    ((num : ℕ) × (t : System) × (acquire_thread_segment plain_objects no_others 5 start
        ≡ done true t)
      × Acquired 5 num start t
      × (num ≡ num))
    ⊎ ((acquire_thread_segment plain_objects no_others 5 start ≡ done false start)
        × (true ≡ true)
        × (true ≡ true)
        × (false ≡ true)
        × (false ≡ true))
acquire_example = acquire_lem plain_objects no_others 5 start

pause_remove_example :
    (((signal_everybody_to_pause_running start).segment 2).nursery_end ≢ nursery_end_normal)
    × (((remove_requests_for_safe_point (signal_everybody_to_pause_running start)).segment
          2).nursery_end
        ≡ nursery_end_normal)
pause_remove_example = pause_remove start 2 (omega arith) (omega arith) (λ e. ground arith)

start-Stopped : Stopped 1 start
start-Stopped k low high ne = ground arith

-- Segment 1 is inevitable, and segment 2 waits for it to end.
abbrev waiting_for_inevitable : System
waiting_for_inevitable = record start {
  segment = λ i.
      if i == 1
      then in_transaction 1 [] running inevitable
      else if i == 2
      then in_transaction 2 [] wait_transaction_done regular
      else idle;
}
