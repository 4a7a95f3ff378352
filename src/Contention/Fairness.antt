-- ===== src/Contention/Fairness.antt =====
-- c7/stm/contention.c: who gives way.
use pypy_stmgc.Base.{ℕ, ◌<◌, ◌≡◌, ◌≢◌, true, false, arith}
use pypy_stmgc.State.{System, regular, is_abort, wait_transaction_done}
use pypy_stmgc.Contention.{Kind, write_write, choose, sleep, abort_the_other}

-- Nobody sleeps in a write-write conflict, nor for a transaction that itself sleeps for another one.
pub choose-no_sleep :
    (s : System) (kind : Kind) (me other busy : ℕ)
    → (s.segment busy).safe_point ≡ wait_transaction_done
    → (choose s write_write me other ≢ sleep) × (choose s kind me busy ≢ sleep)
unfolding choose
choose-no_sleep s kind me other busy waits = ground arith

-- Of two regular transactions that are not aborting the one that started first goes on, whichever of
-- the two meets the conflict: it tells the younger one to abort, and the younger one never tells it.
pub choose-older :
    (s : System) (kind : Kind) (older younger : ℕ)
    → (s.segment older).unique_start_time < (s.segment younger).unique_start_time
    → (s.segment older).transaction_state ≡ regular
    → (s.segment younger).transaction_state ≡ regular
    → is_abort (s.segment older).nursery_end ≡ false
    → (choose s kind older younger ≡ abort_the_other)
      × (choose s kind younger older ≢ abort_the_other)
unfolding choose
choose-older s kind older younger first mine theirs alive = ground arith

-- A transaction that is aborting already is told to abort, whatever the conflict is.
choose-aborting :
    (s : System) (kind : Kind) (me other : ℕ)
    → is_abort (s.segment other).nursery_end ≡ true
    → choose s kind me other ≡ abort_the_other
unfolding choose
choose-aborting s kind me other dying = ground arith
