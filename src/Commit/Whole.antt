-- ===== src/Commit/Whole.antt =====
-- c7/stm/core.c, `stm_commit_transaction`: a whole commit.
use pypy_stmgc.Base.{ℕ, suc, ◌≤◌, ◌≡◌, refl, ◌∙◌, ap, false, if◌then◌else◌, arith, List, []}
use pypy_stmgc.Memory.{Mem, nb_segments, load}
use pypy_stmgc.State.{
  System, Objects, >>=-done, done, set_segment, Cond, ts_none, no_transaction, nursery_end_normal,
}
use pypy_stmgc.Abort.{finish_transaction, release_thread_segment}
use pypy_stmgc.Abort.Reset.{covers}
use pypy_stmgc.Sync.{finish_sync, synchronize_all_threads, until_mutex_unlock}
use pypy_stmgc.Sync.Pause.{Stopped, synchronize_at_once}
use pypy_stmgc.Publish.{push_modified_to_other_segments}
use pypy_stmgc.Publish.Push.{
  Pushable, is_lock_of_some, after_push, push-done, modified-after_push, load-after_push,
  locks-after_push,
}
use pypy_stmgc.Commit.{
  has_conflict, next_overflow_number, end_inevitable, detect_write_read_conflicts,
  collect_if_requested, finish_commit, stm_commit_transaction,
}
use pypy_stmgc.Commit.Synchronized.{synchronized, synchronized-kept, synchronized-conflict}
use pypy_stmgc.Commit.Conflicts.{detect_lem}

Pushable-mem :
    (o : Objects) (m m' : Mem) (me : ℕ) (objs : List ℕ)
    → m' ≡ m
    → Pushable o m me objs
    → Pushable o m' me objs
Pushable-mem o m m' me objs e p = rw e p

-- The steps that follow the push keep the memory and the locks.
rest-end :
    (me : ℕ) (s : System)
    → s.globally_unique_transaction ≡ false
    → ((finish_transaction me (end_inevitable me (next_overflow_number me s))).mem ≡ s.mem)
      × ((finish_transaction me (end_inevitable me (next_overflow_number me s))).write_locks
          ≡ s.write_locks)
      × (((finish_transaction me (end_inevitable me (next_overflow_number me s))).segment
            me).modified_old_objects
          ≡ (s.segment me).modified_old_objects)
      × (((finish_transaction me (end_inevitable me (next_overflow_number me s))).segment
            me).transaction_state
          ≡ ts_none)
      × (((finish_transaction me (end_inevitable me (next_overflow_number me s))).segment
            me).safe_point
          ≡ no_transaction)
unfolding finish_transaction release_thread_segment end_inevitable next_overflow_number set_segment
rest-end me s shared = ground arith

module _ (o : Objects) (wait : Cond → ℕ → System → System) (major_collection : ℕ → System → System)
    (me : ℕ) (le_me : me ≤ nb_segments) (s : System) where
  abbrev committed : System
  committed =
      finish_transaction me
        (end_inevitable me (next_overflow_number me (after_push o me le_me (synchronized s))))

  synchronized-Pushable :
      Pushable o s.mem me (s.segment me).modified_old_objects
      → Pushable o (synchronized s).mem me ((synchronized s).segment me).modified_old_objects
  synchronized-Pushable p =
      let (mem, _, segment, _) = synchronized-kept s me in
      let same : ((synchronized s).segment me).modified_old_objects
          ≡ (s.segment me).modified_old_objects =
        ap (λ q. q.modified_old_objects) segment in
      rw same
        (Pushable-mem o s.mem (synchronized s).mem me (s.segment me).modified_old_objects mem p)

  nothing_to_collect :
      s.mem.major_collection_requested ≡ false
      → collect_if_requested o wait major_collection me (synchronized s) ≡ synchronized s
  unfolding collect_if_requested
  nothing_to_collect calm =
      let same : (synchronized s).mem.major_collection_requested
          ≡ s.mem.major_collection_requested =
        ap (λ m. m.major_collection_requested) (synchronized-kept s me).0 in
      rw (same ∙ calm) refl

  finish-done :
      s.mem.major_collection_requested ≡ false
      → Pushable o s.mem me (s.segment me).modified_old_objects
      → finish_commit o wait major_collection me (synchronized s) ≡ done tt committed
  unfolding finish_commit
  finish-done calm p = rw (nothing_to_collect calm) (
      >>=-done (push_modified_to_other_segments o me) _ (synchronized s) tt
        (after_push o me le_me (synchronized s))
        (push-done o me le_me (synchronized s) (synchronized-Pushable p)))

  same-modified :
      ((synchronized s).segment me).modified_old_objects ≡ (s.segment me).modified_old_objects
  same-modified = ap (λ q. q.modified_old_objects) (synchronized-kept s me).2

  commit-done :
      (fuel : ℕ)
      → (s.segment me).nursery_end ≡ nursery_end_normal
      → s.globally_unique_transaction ≡ false
      → Stopped me s
      → ((k : ℕ) → 1 ≤ k → k ≤ nb_segments → has_conflict s me k ≡ false)
      → s.mem.major_collection_requested ≡ false
      → Pushable o s.mem me (s.segment me).modified_old_objects
      → stm_commit_transaction o wait major_collection (suc fuel) me s ≡ done tt committed
  unfolding stm_commit_transaction finish_sync
  commit-done fuel quiet shared stopped free calm p =
      >>=-done (synchronize_all_threads o wait (suc fuel) me until_mutex_unlock) _ s tt
        (synchronized s)
        (synchronize_at_once o wait fuel me until_mutex_unlock s quiet shared stopped)
      ∙ >>=-done (detect_write_read_conflicts o wait me) _ (synchronized s) false (synchronized s) (
          (detect_lem o wait (synchronized s) me).1
            (λ k low high. synchronized-conflict s me k ∙ free k low high))
      ∙ finish-done calm p

  -- A transaction that has no signal, while no other thread runs, no transaction is globally
  -- unique and no other segment has read what it has modified, with modified objects that have a
  -- size, are not among the small ones and have no cards, and with no major collection requested,
  -- commits without a restart. Then every segment reads each byte of these objects as the
  -- transaction did, and every other byte as before; their locks are free, and all other locks
  -- are as before; and its segment has no transaction, is not running and has no modified
  -- objects.
  pub commit_publishes :
      (fuel : ℕ)
      → (s.segment me).nursery_end ≡ nursery_end_normal
      → s.globally_unique_transaction ≡ false
      → Stopped me s
      → ((k : ℕ) → 1 ≤ k → k ≤ nb_segments → has_conflict s me k ≡ false)
      → s.mem.major_collection_requested ≡ false
      → Pushable o s.mem me (s.segment me).modified_old_objects
      → (t : System) × (stm_commit_transaction o wait major_collection (suc fuel) me s ≡ done tt t)
        × ((k a : ℕ)
            → k ≤ nb_segments
            → load t.mem k a ≡ (
                if covers o (s.segment me).modified_old_objects a
                then load s.mem me a
                else load s.mem k a))
        × ((j : ℕ)
            → t.write_locks j ≡ (
                if is_lock_of_some (s.segment me).modified_old_objects j
                then 0
                else s.write_locks j))
        × ((t.segment me).modified_old_objects ≡ [])
        × ((t.segment me).transaction_state ≡ ts_none)
        × ((t.segment me).safe_point ≡ no_transaction)
  commit_publishes fuel quiet shared stopped free calm p =
      let pushed : System = after_push o me le_me (synchronized s) in
      let alone : pushed.globally_unique_transaction ≡ false =
        (modified-after_push o me le_me (synchronized s)).1 ∙ (synchronized-kept s me).3 ∙ shared in
      let (mem, locks, modified, state, point) = rest-end me pushed alone in
      (
        committed,
        commit-done fuel quiet shared stopped free calm p,
        (λ k a le.
            ap (λ m. load m k a) mem
            ∙ load-after_push o me le_me (synchronized s) k a (synchronized-Pushable p) le
            ∙ rw (same-modified, (synchronized-kept s me).0) refl),
        (λ j.
            ap (λ f. f j) locks
            ∙ locks-after_push o me le_me (synchronized s) j
            ∙ rw (same-modified, (synchronized-kept s me).1) refl),
        modified ∙ (modified-after_push o me le_me (synchronized s)).0,
        state,
        point,
      )
