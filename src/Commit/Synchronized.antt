-- ===== src/Commit/Synchronized.antt =====
-- c7/stm/core.c, `stm_commit_transaction`: stopping the others changes no conflict.
use pypy_stmgc.Base.{ℕ, zero, suc, ◌+◌, ◌≡◌, refl, false, arith, List, [], ◌∷◌}
use pypy_stmgc.Memory.{nb_segments}
use pypy_stmgc.State.{System, Segment, set_segment, NurseryEnd, is_abort, is_aborting_now}
use pypy_stmgc.Sync.{
  map_signals, set_nursery_end, to_pause, from_pause, signal_everybody_to_pause_running,
  remove_requests_for_safe_point,
}
use pypy_stmgc.Sync.Signals.{signal-map_signals, rest-map_signals}
use pypy_stmgc.Barrier.{was_read_remote}
use pypy_stmgc.Commit.{any_read, has_conflict}

-- The loops over the signals change nothing else.
kept-map_signals :
    (f : NurseryEnd → NurseryEnd) (i n : ℕ) (s : System) (k : ℕ)
    → ((map_signals f i n s).mem ≡ s.mem)
      × ((map_signals f i n s).write_locks ≡ s.write_locks)
      × ((map_signals f i n s).segment k
          ≡ record (s.segment k) { nursery_end = ((map_signals f i n s).segment k).nursery_end })
unfolding map_signals set_nursery_end set_segment
kept-map_signals f i zero s k = (refl, refl, refl)
kept-map_signals f i (suc n) s k =
    ground
      (arith, kept-map_signals f (i + 1) n (set_nursery_end (f (s.segment i).nursery_end) i s) k)

-- The state when all others are stopped and the request is removed again.
abbrev pub synchronized : System → System
synchronized s = remove_requests_for_safe_point (signal_everybody_to_pause_running s)

synchronized-signal :
    (s : System) (k : ℕ)
    → is_abort ((synchronized s).segment k).nursery_end ≡ is_abort (s.segment k).nursery_end
unfolding signal_everybody_to_pause_running remove_requests_for_safe_point is_abort
synchronized-signal s k =
    let s' : System = signal_everybody_to_pause_running s in
    let s'' : System = record s' { pause_signalled = false } in
    ground (
      arith,
      signal-map_signals to_pause 1 nb_segments s k,
      signal-map_signals from_pause 1 nb_segments s'' k,
    )

pub synchronized-kept :
    (s : System) (k : ℕ)
    → ((synchronized s).mem ≡ s.mem)
      × ((synchronized s).write_locks ≡ s.write_locks)
      × ((synchronized s).segment k
          ≡ record (s.segment k) { nursery_end = ((synchronized s).segment k).nursery_end })
      × ((synchronized s).globally_unique_transaction ≡ s.globally_unique_transaction)
unfolding signal_everybody_to_pause_running remove_requests_for_safe_point
synchronized-kept s k =
    let s' : System = signal_everybody_to_pause_running s in
    let s'' : System = record s' { pause_signalled = false } in
    ground (
      arith,
      kept-map_signals to_pause 1 nb_segments s k,
      kept-map_signals from_pause 1 nb_segments s'' k,
      rest-map_signals to_pause 1 nb_segments s k,
      rest-map_signals from_pause 1 nb_segments s'' k,
    )

any_read-same :
    (p q : Segment) (objs : List ℕ)
    → q ≡ record p { nursery_end = q.nursery_end }
    → any_read q objs ≡ any_read p objs
unfolding any_read was_read_remote
any_read-same p q [] e = refl
any_read-same p q (obj ∷ objs) e = ground (arith, any_read-same p q objs e)

pub synchronized-conflict :
    (s : System) (me k : ℕ) → has_conflict (synchronized s) me k ≡ has_conflict s me k
unfolding has_conflict is_aborting_now
synchronized-conflict s me k = ground (
  arith,
  synchronized-signal s k,
  synchronized-kept s k,
  synchronized-kept s me,
  any_read-same (s.segment k) ((synchronized s).segment k) (s.segment me).modified_old_objects,
)
