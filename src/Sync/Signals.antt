-- ===== src/Sync/Signals.antt =====
-- c7/stm/sync.c: the signals in `nursery_end` and the flag `pause_signalled` stay in step.
use pypy_stmgc.Base.{
  ℕ, zero, suc, ◌+◌, ◌≤◌, ◌≡◌, ◌≢◌, refl, false, ◌&&◌, leb, ltb, if◌then◌else◌, arith, List, [],
  ◌∷◌,
}
use pypy_stmgc.Memory.{nb_segments}
use pypy_stmgc.State.{System, NurseryEnd, nursery_end_normal, sig_abort, sig_pause, set_segment}
use pypy_stmgc.Abort.{done_aborting}
use pypy_stmgc.Sync.{
  to_pause, from_pause, map_signals, set_nursery_end, signal_other_to_commit_soon,
  signal_everybody_to_pause_running, remove_requests_for_safe_point,
  committed_globally_unique_transaction,
}

pub signal-map_signals :
    (f : NurseryEnd → NurseryEnd) (i n : ℕ) (s : System) (k : ℕ)
    → ((map_signals f i n s).segment k).nursery_end ≡ (
        if leb i k && ltb k (i + n) then f (s.segment k).nursery_end else (s.segment k).nursery_end)
unfolding map_signals set_nursery_end set_segment
signal-map_signals f i zero s k = ground arith
signal-map_signals f i (suc n) s k =
    ground
      (arith, signal-map_signals f (i + 1) n (set_nursery_end (f (s.segment i).nursery_end) i s) k)

pub rest-map_signals :
    (f : NurseryEnd → NurseryEnd) (i n : ℕ) (s : System) (k : ℕ)
    → ((map_signals f i n s).pause_signalled ≡ s.pause_signalled)
      × ((map_signals f i n s).globally_unique_transaction ≡ s.globally_unique_transaction)
      × (((map_signals f i n s).segment k).safe_point ≡ (s.segment k).safe_point)
unfolding map_signals set_nursery_end set_segment
rest-map_signals f i zero s k = (refl, refl, refl)
rest-map_signals f i (suc n) s k =
    ground
      (arith, rest-map_signals f (i + 1) n (set_nursery_end (f (s.segment i).nursery_end) i s) k)

-- While a pause is signalled no segment is without a signal; otherwise none has the signal to pause.
abbrev pub Consistent : System → Type 0
Consistent s =
    (k : ℕ)
    → 1 ≤ k
    → k ≤ nb_segments
    → (s.segment k).nursery_end ≢ (if s.pause_signalled then nursery_end_normal else sig_pause)

-- What may happen to the signals: segment `j` is told to commit soon, or to abort; all are told to
-- pause; the request is removed; segment `j` has aborted; `j` ends a globally unique transaction.
pub data Signal : Type 0 where
  commit_soon abort_other aborted_now unique_done : ℕ → Signal
  pause_all remove_pause : Signal

pub signal_step : Signal → System → System
signal_step (commit_soon j) s = signal_other_to_commit_soon j s
signal_step (abort_other j) s = set_nursery_end sig_abort j s
signal_step (aborted_now j) s = done_aborting j s
signal_step (unique_done j) s = committed_globally_unique_transaction j s
signal_step pause_all s = signal_everybody_to_pause_running s
signal_step remove_pause s = remove_requests_for_safe_point s

pub signal_steps : List Signal → System → System
unfolding signal_step
signal_steps [] s = s
signal_steps (x ∷ xs) s = signal_steps xs (signal_step x s)

-- Asking all segments to pause and removing the request gives each segment back the signal that it
-- had, if no pause was asked for before: an abort that was signalled is never lost.
pub pause_remove :
    (s : System) (k : ℕ)
    → 1 ≤ k
    → k ≤ nb_segments
    → (s.segment k).nursery_end ≢ sig_pause
    → (((signal_everybody_to_pause_running s).segment k).nursery_end ≢ nursery_end_normal)
      × (((remove_requests_for_safe_point (signal_everybody_to_pause_running s)).segment
            k).nursery_end
          ≡ (s.segment k).nursery_end)
unfolding signal_everybody_to_pause_running remove_requests_for_safe_point
pause_remove s k low high ne =
    let s' : System = signal_everybody_to_pause_running s in
    let s'' : System = record s' { pause_signalled = false } in
    ground (
      arith,
      signal-map_signals to_pause 1 nb_segments s k,
      signal-map_signals from_pause 1 nb_segments s'' k,
    )
