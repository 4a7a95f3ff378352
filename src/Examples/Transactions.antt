-- ===== src/Examples/Transactions.antt =====
-- The theorems on the write barrier, on contention and on aborts, of c7/stm/core.c and
-- c7/stm/contention.c, at concrete states.
use pypy_stmgc.Base.{
  ℕ, ◌+◌, ◌-◌, ◌/◌, ◌≤◌, ◌≡◌, ◌≢◌, refl, arith, true, false, ◌&&◌, ◌==◌, if◌then◌else◌, update, [],
  ◌∷◌,
}
use pypy_stmgc.Memory.{is_private_page, load, backing}
use pypy_stmgc.State.{
  System, done, aborted, ts_none, no_transaction, must_abort, is_abort, flags_of, is_overflow_obj,
  has_flag, clear_flag, write_barrier, cards_set, small_uniform, get_write_lock_idx,
}
use pypy_stmgc.Abort.{abort_with_mutex}
use pypy_stmgc.Abort.Whole.{abort_restores, abort_unlocks, abort_frees}
use pypy_stmgc.Contention.{
  choose, write_read, abort_the_other, fix_choices, cm_pause_if_younger,
  write_write_contention_management,
}
use pypy_stmgc.Contention.Fairness.{choose-older}
use pypy_stmgc.Contention.Outcomes.{write_write_frees}
use pypy_stmgc.Barrier.{stm_write_slowpath}
use pypy_stmgc.Barrier.Claim.{write_barrier_lem}
use pypy_stmgc.Examples.Data.{obj, two_copies, plain_objects, two_transactions, no_locks, no_others}

-- The lock of `obj` is held by segment 2.
abbrev held_by_2 : ℕ → ℕ
held_by_2 = update no_locks (get_write_lock_idx obj) 2

abbrev conflict : System
conflict = two_transactions two_copies (obj ∷ []) held_by_2

abort_restores_example :
    (t : System) × (abort_with_mutex plain_objects 2 {A = Unit {0}} conflict ≡ aborted t)
    × (load t.mem 2 (obj + 8) ≡ 1)
unfolding load backing
abort_restores_example =
    abort_restores plain_objects 2 conflict 2 (obj + 8) (omega arith) refl (omega arith, refl, tt)
      refl

abort_unlocks_example :
    (t : System) × (abort_with_mutex plain_objects 2 {A = Unit {0}} conflict ≡ aborted t)
    × (t.write_locks (get_write_lock_idx obj) ≡ 0)
unfolding get_write_lock_idx
abort_unlocks_example = abort_unlocks plain_objects 2 conflict (get_write_lock_idx obj) refl refl

abort_frees_example :
    (t : System) × (abort_with_mutex plain_objects 2 {A = Unit {0}} conflict ≡ aborted t)
    × ((t.segment 2).transaction_state ≡ ts_none)
    × ((t.segment 2).safe_point ≡ no_transaction)
    × ((t.segment 2).modified_old_objects ≡ [])
    × (t.segment 1 ≡ conflict.segment 1)
abort_frees_example = abort_frees plain_objects 2 conflict 1 (omega arith) refl

write_barrier_example :
    (t : System) × (stm_write_slowpath plain_objects no_others 1 1 obj
        (two_transactions two_copies [] no_locks)
      ≡ done tt t)
    × (t.write_locks ≡ update no_locks (get_write_lock_idx obj) 1)
    × ((t.segment 1).modified_old_objects ≡ obj ∷ [])
    × (is_private_page t.mem 1 (obj / 4096) ≡ true)
    × ((p : ℕ)
        → has_flag (flags_of (two_transactions two_copies [] no_locks) 1 obj) small_uniform ≡ false
        → obj / 4096 ≤ p
        → p ≤ (obj + 64 - 1) / 4096
        → is_private_page t.mem 1 p ≡ true)
    × ((i a : ℕ)
        → load t.mem i a ≡ (
            if i == 1 && a == obj
            then clear_flag (clear_flag (load two_copies 1 obj) write_barrier) cards_set
            else load two_copies i a))
unfolding flags_of is_overflow_obj load backing
write_barrier_example =
    write_barrier_lem plain_objects 1 obj (omega arith) (omega arith) no_others
      (two_transactions two_copies [] no_locks) refl 0 refl refl

choose-older_example :
    (choose conflict write_read 1 2 ≡ abort_the_other)
    × (choose conflict write_read 2 1 ≢ abort_the_other)
unfolding is_abort
choose-older_example = choose-older conflict write_read 1 2 (omega arith) refl refl refl

write_write_frees_example :
    (t : System) × (write_write_contention_management plain_objects no_others 1
        (get_write_lock_idx obj)
        conflict
      ≡ done tt t)
    × (t.write_locks (get_write_lock_idx obj) ≡ 0)
unfolding is_abort must_abort choose fix_choices cm_pause_if_younger get_write_lock_idx
write_write_frees_example =
    write_write_frees plain_objects no_others 1 2 conflict (get_write_lock_idx obj) refl
      (omega arith) (omega arith) refl refl refl refl refl
