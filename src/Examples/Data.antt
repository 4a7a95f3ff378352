-- ===== src/Examples/Data.antt =====
-- Small states of the library, for c7/stm/list.h, c7/stm/pages.h and c7/stm/core.h.
use pypy_stmgc.Base.{
  ℕ, ◌+◌, ◌*◌, Bool, true, false, ◌&&◌, ◌||◌, ltb, ◌==◌, if◌then◌else◌, none, some, List, [],
}
use pypy_stmgc.GrowList.{ListS}
use pypy_stmgc.Memory.{Mem}
use pypy_stmgc.State.{
  Segment, ThreadLocal, System, Objects, Cond, TransactionState, ts_none, regular, SafePoint,
  no_transaction, running, wait_at_safe_point, nursery_end_normal,
}

-- The list 5, 6 in a block with room for 32 items.
abbrev pub two_items : ListS
two_items = record { count = 2; last_allocated = 31; items = λ i. i + 5 }

abbrev pub any_size : ℕ → Bool
any_size n = true

-- An address in page 200000, and the lock that belongs to it.
abbrev pub obj : ℕ
obj = 200000 * 4096 + 16

-- Segments 1 and 2 have their own copy of the page of `obj`.
abbrev pub two_copies : Mem
two_copies = record {
  file = λ k a. if k == 1 then 65 else 1;
  by_segment = λ page k. page == 200000 && (k == 1 || k == 2);
  total_allocated = 100000;
  total_allocated_bound = 200000;
  major_collection_requested = false;
}

abbrev pub no_copies : Mem
no_copies = record two_copies { by_segment = λ page k. false }

-- Objects of 64 bytes that have no cards.
abbrev pub plain_objects : Objects
plain_objects = record {
  size_rounded_up = λ a. 64;
  supports_cards = λ a. false;
  card_base = λ a. 16;
  card_itemsize = λ a. 8;
}

abbrev pub idle : Segment
idle = record {
  transaction_read_version = 1;
  read_marker = λ a. 0;
  nursery = λ a. 0;
  nursery_current = 0;
  nursery_end = nursery_end_normal;
  running_thread = none;
  modified_old_objects = [];
  objects_pointing_to_nursery = none;
  old_objects_with_cards = [];
  large_overflow_objects = none;
  young_outside_nursery = [];
  young_weakrefs = [];
  unique_start_time = 0;
  overflow_number = 0;
  overflow_number_has_been_used = false;
  write_lock_num = 1;
  safe_point = no_transaction;
  transaction_state = ts_none;
  signal_when_done = false;
  signalled_to_commit_soon = false;
  shadowstack_at_start_of_transaction = 0;
  threadlocal_at_start_of_transaction = 0;
}

-- Thread `k` in segment `k`, in a transaction that started at time `k`, with what it has modified.
abbrev pub in_transaction : ℕ → List ℕ → SafePoint → TransactionState → Segment
in_transaction k objs point state = record idle {
  unique_start_time = k;
  write_lock_num = k;
  modified_old_objects = objs;
  safe_point = point;
  transaction_state = state;
  overflow_number = 16;
  running_thread = some k;
}

abbrev pub some_thread : ThreadLocal
some_thread = record {
  associated_segment_num = 1;
  shadowstack = 0;
  thread_local_obj = 0;
  last_abort_bytes_in_nursery = 0;
}

-- Segment 1 runs a transaction that started first; segment 2 is stopped in one that holds `objs`.
abbrev pub two_transactions : Mem → List ℕ → (ℕ → ℕ) → System
two_transactions m objs locks = record {
  mem = m;
  segment = λ i.
      if i == 1
      then in_transaction 1 [] running regular
      else if i == 2
      then in_transaction 2 objs wait_at_safe_point regular
      else idle;
  thread = λ t. some_thread;
  write_locks = locks;
  in_use1 = λ j. ltb j 2;
  pause_signalled = false;
  globally_unique_transaction = false;
  global_start_time = 3;
  highest_overflow_number = 32;
}

abbrev pub no_locks : ℕ → ℕ
no_locks j = 0

abbrev pub no_others : Cond → ℕ → System → System
no_others c me s = s
