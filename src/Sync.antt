-- ===== src/Sync.antt =====
-- c7/stm/sync.c: segments are taken and given back, and threads are made to pause. All of it runs
-- with the global mutex held, which only `cond_wait` gives up.
pub mod Acquire
pub mod Signals
pub mod Pause
use pypy_stmgc.Base.{
  ℕ, zero, suc, ◌+◌, ◌-◌, ◌%◌, Bool, true, false, not, ◌&&◌, ◌==◌, if◌then◌else◌, update, Option,
  none, some,
}
use pypy_stmgc.Memory.{nb_segments}
use pypy_stmgc.State.{
  System, Segment, ThreadLocal, Objects, Outcome, done, aborted, fatal, waiting, M, ◌>>=◌, ◌>>◌,
  modify, set_segment, set_thread, Cond, at_safe_point, request_removed, segment_free, NurseryEnd,
  nursery_end_normal, sig_abort, sig_pause, sig_commit_soon, SafePoint, running,
  wait_request_removed, wait_at_safe_point, is_abort, is_running, must_abort,
}
use pypy_stmgc.Abort.{abort_with_mutex}

-- The search of `acquire_thread_segment`, with `n` retries left.
unfoldable pub find_free : (ℕ → Bool) → ℕ → ℕ → Option ℕ
find_free in_use num zero = none
find_free in_use num (suc n) =
    let next = num % nb_segments + 1 in
    let rest = find_free in_use next n in if in_use (next - 1) then rest else some next

unfoldable pub got_num : ℕ → ℕ → System → System
got_num t num s =
    set_segment num (λ p. record p { running_thread = some t })
      (record s { in_use1 = update s.in_use1 (num - 1) true })

unfoldable pub set_nursery_end : NurseryEnd → ℕ → System → System
set_nursery_end e i s = set_segment i (λ p. record p { nursery_end = e }) s

unfoldable pub set_safe_point : SafePoint → ℕ → System → System
set_safe_point p i s = set_segment i (λ q. record q { safe_point = p }) s

unfoldable pub signal_other_to_commit_soon : ℕ → System → System
unfolding is_abort
signal_other_to_commit_soon j s =
    if not (s.segment j).signalled_to_commit_soon
      && not (is_abort (s.segment j).nursery_end)
      && not s.pause_signalled
    then set_nursery_end sig_commit_soon j s
    else s

-- The signal for a segment that has none.
abbrev pub to_pause : NurseryEnd → NurseryEnd
to_pause nursery_end_normal = sig_pause
to_pause e = e

abbrev pub from_pause : NurseryEnd → NurseryEnd
from_pause sig_pause = nursery_end_normal
from_pause e = e

-- The loops over the segments `i`, …, `i + n - 1` that change their signals.
unfoldable pub map_signals : (NurseryEnd → NurseryEnd) → ℕ → ℕ → System → System
map_signals f i zero s = s
map_signals f i (suc n) s =
    map_signals f (i + 1) n (set_nursery_end (f (s.segment i).nursery_end) i s)

unfoldable pub signal_everybody_to_pause_running : System → System
signal_everybody_to_pause_running s =
    let s' = map_signals to_pause 1 nb_segments s in record s' { pause_signalled = true }

unfoldable pub remove_requests_for_safe_point : System → System
remove_requests_for_safe_point s =
    map_signals from_pause 1 nb_segments (record s { pause_signalled = false })

-- The other segments among `i`, …, `i + n - 1` whose thread is running.
unfoldable pub count_running : System → ℕ → ℕ → ℕ → ℕ
count_running s me i zero = 0
count_running s me i (suc n) =
    (if not (i == me) && is_running (s.segment i).safe_point then 1 else 0)
    + count_running s me (i + 1) n

unfoldable pub count_other_threads_sp_running : System → ℕ → ℕ
count_other_threads_sp_running s me = count_running s me 1 nb_segments

-- `enum sync_type_e`
pub data SyncType : Type 0 where
  until_mutex_unlock become_globally_unique : SyncType

-- What remains to be done when the others have stopped.
unfoldable pub finish_sync : ℕ → SyncType → System → System
finish_sync me until_mutex_unlock s = remove_requests_for_safe_point s
finish_sync me become_globally_unique s =
    set_nursery_end nursery_end_normal me (record s { globally_unique_transaction = true })

-- `wait c me` is what the other threads do to the state while `me` waits for `c`.
module _ (o : Objects) (wait : Cond → ℕ → System → System) where
  unfoldable pub acquire_thread_segment : ℕ → M Bool
  acquire_thread_segment t s =
      let num = (s.thread t).associated_segment_num in
      if s.in_use1 (num - 1)
      then elim (find_free s.in_use1 num nb_segments) [
        | none ↦ done false (wait segment_free num s)
        | some next ↦
            done true
              (got_num t next (set_thread t (λ tl. record tl { associated_segment_num = next }) s))
      ]
      else done true (got_num t num s)

  -- The thread pauses until the request is removed.
  unfoldable pub pause : ℕ → System → System
  pause me s =
      set_safe_point running me (wait request_removed me (set_safe_point wait_request_removed me s))

  -- The loop, with fuel for the pauses.
  unfoldable pub enter_safe_point_if_requested : ℕ → ℕ → M (Unit {0})
  enter_safe_point_if_requested zero me s = waiting
  enter_safe_point_if_requested (suc fuel) me s = elim (s.segment me).nursery_end [
    | sig_abort ↦ abort_with_mutex o me s
    | nursery_end_normal ↦ done tt s
    | sig_pause ↦ enter_safe_point_if_requested fuel me (pause me s)
    | sig_commit_soon ↦
        let s' = set_segment me (λ p. record p { signalled_to_commit_soon = true }) s in
        let rest =
          enter_safe_point_if_requested fuel me (pause me (set_nursery_end sig_pause me s')) in
        if s'.pause_signalled then rest else done tt (set_nursery_end nursery_end_normal me s')
  ]

  -- The loop of `synchronize_all_threads`.
  unfoldable pub wait_for_others : ℕ → ℕ → M (Unit {0})
  wait_for_others zero me s = waiting
  wait_for_others (suc fuel) me s =
      let s' =
        set_safe_point running me
          (wait at_safe_point me (set_safe_point wait_at_safe_point me s)) in
      let rest = wait_for_others fuel me s' in
      let gone = abort_with_mutex o me {A = Unit {0}} (remove_requests_for_safe_point s') in
      if count_other_threads_sp_running s me == 0
      then done tt s
      else if must_abort s' me
      then gone
      else rest

  unfoldable pub stop_others : ℕ → ℕ → SyncType → M (Unit {0})
  stop_others fuel me type = do
    modify signal_everybody_to_pause_running
    wait_for_others fuel me
    modify (finish_sync me type)

  unfoldable pub synchronize_all_threads : ℕ → ℕ → SyncType → M (Unit {0})
  synchronize_all_threads fuel me type = do
    enter_safe_point_if_requested fuel me
    λ s. if s.globally_unique_transaction then done tt s else stop_others fuel me type s

  unfoldable pub stm_collectable_safe_point : ℕ → ℕ → M (Unit {0})
  stm_collectable_safe_point fuel me = enter_safe_point_if_requested fuel me

unfoldable pub committed_globally_unique_transaction : ℕ → System → System
committed_globally_unique_transaction me s =
    let s' = set_nursery_end sig_pause me s in
    remove_requests_for_safe_point (record s' { globally_unique_transaction = false })
