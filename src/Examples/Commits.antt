-- ===== src/Examples/Commits.antt =====
-- The theorems on c7/stm/core.c, from the start of a transaction to its commit, at concrete states.
use pypy_stmgc.Base.{
  ℕ, ◌+◌, ◌≤◌, ◌≡◌, refl, arith, true, false, ◌==◌, if◌then◌else◌, update, [], ◌∷◌,
}
use pypy_stmgc.Memory.{nb_segments, load, backing}
use pypy_stmgc.State.{
  System, Segment, Objects, done, ts_none, no_transaction, regular, running, wait_at_safe_point,
  is_abort, is_aborting_now, get_write_lock_idx, get_index_to_card_index, get_card_index_to_index,
  flags_of, obj_should_use_cards,
}
use pypy_stmgc.Cards.{last_card_index}
use pypy_stmgc.Sync.Pause.{Returns, Stopped}
use pypy_stmgc.Barrier.{was_read_remote, stm_read}
use pypy_stmgc.Publish.{
  push_modified_to_other_segments, card_wise_synchronize_object_now, page_wise, card_offset,
}
use pypy_stmgc.Publish.Whole.{card_wise_lem}
use pypy_stmgc.Publish.Push.{Pushable, push_publishes, is_lock_of_some}
use pypy_stmgc.Abort.Reset.{covers}
use pypy_stmgc.Commit.{
  next_read_version, any_read, has_conflict, become_inevitable, stm_commit_transaction,
}
use pypy_stmgc.Commit.Start.{IsVersioned, next_version_lem, stm_read_lem}
use pypy_stmgc.Commit.Inevitable.{
  OnlyInevitable, NoInevitable, claim_inevitable, become_inevitable_lem,
}
use pypy_stmgc.Commit.Whole.{commit_publishes}
use pypy_stmgc.Examples.Data.{
  obj, two_copies, plain_objects, two_transactions, no_locks, no_others, in_transaction, idle,
}

-- Segment 1 has modified `obj`, and segment 2 is stopped.
abbrev committing : System
committing = record (two_transactions two_copies [] no_locks) {
  segment = λ i.
      if i == 1
      then in_transaction 1 (obj ∷ []) running regular
      else if i == 2
      then in_transaction 2 [] wait_at_safe_point regular
      else idle;
  write_locks = update no_locks (get_write_lock_idx obj) 1;
}

committing-Pushable : Pushable plain_objects committing.mem 1 (obj ∷ [])
unfolding load backing obj_should_use_cards
committing-Pushable = (omega arith, refl, refl, tt)

committing-Stopped : Stopped 1 committing
committing-Stopped k low high ne = ground arith

committing-free : (k : ℕ) → 1 ≤ k → k ≤ nb_segments → has_conflict committing 1 k ≡ false
unfolding has_conflict is_aborting_now is_abort any_read was_read_remote
committing-free k low high = ground arith

push_example :
    (t : System) × (push_modified_to_other_segments plain_objects 1 committing ≡ done tt t)
    × ((t.segment 1).modified_old_objects ≡ [])
    × ((k a : ℕ)
        → k ≤ nb_segments
        → load t.mem k a ≡ (
            if covers plain_objects (obj ∷ []) a then load two_copies 1 a else load two_copies k a))
    × ((j : ℕ)
        → t.write_locks j ≡ (if is_lock_of_some (obj ∷ []) j then 0 else committing.write_locks j))
push_example = push_publishes plain_objects 1 (omega arith) committing committing-Pushable

commit_example :
    (t : System) × (stm_commit_transaction plain_objects no_others (λ me s. s) 1 1 committing
      ≡ done tt t)
    × ((k a : ℕ)
        → k ≤ nb_segments
        → load t.mem k a ≡ (
            if covers plain_objects (obj ∷ []) a then load two_copies 1 a else load two_copies k a))
    × ((j : ℕ)
        → t.write_locks j ≡ (if is_lock_of_some (obj ∷ []) j then 0 else committing.write_locks j))
    × ((t.segment 1).modified_old_objects ≡ [])
    × ((t.segment 1).transaction_state ≡ ts_none)
    × ((t.segment 1).safe_point ≡ no_transaction)
commit_example =
    commit_publishes plain_objects no_others (λ me s. s) 1 (omega arith) committing 0 refl refl
      committing-Stopped committing-free refl committing-Pushable

become_inevitable_example :
    Returns (OnlyInevitable 1) (become_inevitable plain_objects no_others 1 1 committing)
    × (NoInevitable committing
        → become_inevitable plain_objects no_others 1 1 committing
          ≡ done tt (claim_inevitable 1 committing))
become_inevitable_example = become_inevitable_lem plain_objects no_others 0 1 committing refl refl

-- The last version, with every object read.
abbrev all_read : Segment
all_read = record idle { transaction_read_version = 255; read_marker = λ a. 255 }

all_read-IsVersioned : IsVersioned all_read
all_read-IsVersioned = record {
  positive = omega arith;
  byte = omega arith;
  below = λ a. omega arith;
}

next_version_example :
    IsVersioned (next_read_version all_read)
    × (was_read_remote (next_read_version all_read) obj ≡ false)
next_version_example = next_version_lem all_read obj all_read-IsVersioned

stm_read_example :
    (was_read_remote ((stm_read 2 obj committing).segment 2) obj ≡ true)
    × (IsVersioned (in_transaction 2 [] wait_at_safe_point regular)
        → IsVersioned ((stm_read 2 obj committing).segment 2))
stm_read_example = stm_read_lem 2 obj obj 2 committing

-- Objects of 1024 bytes with cards of 32 items of 8 bytes each.
abbrev carded_objects : Objects
carded_objects = record {
  size_rounded_up = λ a. 1024;
  supports_cards = λ a. true;
  card_base = λ a. 16;
  card_itemsize = λ a. 8;
}

-- The first card of `obj` is marked.
abbrev one_card : System
one_card = record committing { write_locks = update no_locks (get_write_lock_idx obj + 1) 101 }

card_wise_example :
    load (card_wise_synchronize_object_now carded_objects 1 obj one_card).mem 2 (obj + 24)
    ≡ load (page_wise carded_objects 1 obj one_card).mem 2 (obj + 24)
unfolding load backing flags_of last_card_index get_index_to_card_index get_write_lock_idx
    card_offset get_card_index_to_index
card_wise_example =
    card_wise_lem carded_objects 1 obj (omega arith) (omega arith) one_card 2 (obj + 24)
      (omega arith) refl (λ _ e. absurd (ground arith))
