-- ===== src/Sync/Pause.antt =====
-- c7/stm/sync.c, `synchronize_all_threads` and `enter_safe_point_if_requested`: what holds when the
-- calls return.
use pypy_stmgc.Base.{
  ℕ, zero, suc, ◌+◌, ◌≤◌, ◌<◌, ◌≡◌, ◌≢◌, refl, ◌∙◌, Bool, true, false, if◌then◌else◌, arith, ◌⊎◌,
}
use pypy_stmgc.Memory.{nb_segments}
use pypy_stmgc.State.{
  System, Objects, Outcome, >>=-done, modify, done, aborted, fatal, waiting, NurseryEnd,
  nursery_end_normal, sig_abort, sig_pause, sig_commit_soon, set_segment, Cond, running,
}
use pypy_stmgc.Abort.{abort_with_mutex}
use pypy_stmgc.Sync.{
  set_nursery_end, count_running, count_other_threads_sp_running, to_pause, SyncType,
  enter_safe_point_if_requested, wait_for_others, stop_others, synchronize_all_threads, finish_sync,
  signal_everybody_to_pause_running, pause,
}
use pypy_stmgc.Sync.Signals.{rest-map_signals}

-- A normal return ends in a state with the property; an abort does not return.
abbrev pub Returns : {A : Type 0} → (System → Type 0) → Outcome A → Type 0
Returns P (done a s) = P s
Returns P (aborted s) = Unit
Returns P fatal = Unit
Returns P waiting = Unit

-- An abort does not return, whatever it finds.
abort-Returns :
    (P : System → Type 0) (o : Objects) (me : ℕ) (s : System)
    → Returns P (abort_with_mutex o me {A = Unit {0}} s)
unfolding abort_with_mutex
abort-Returns P o me s = ground arith

pub Returns-if :
    {A : Type 0} (P : System → Type 0) (b : Bool) (x y : Outcome A)
    → (b ≡ true → Returns P x)
    → (b ≡ false → Returns P y)
    → Returns P (if b then x else y)
Returns-if P true x y f g = f refl
Returns-if P false x y f g = g refl

pub Returns-bind :
    {A : Type 0} (P Q : System → Type 0) (m : Outcome A) (f : A → System → Outcome (Unit {0}))
    → Returns P m
    → ((a : A) (t : System) → P t → Returns Q (f a t))
    → Returns Q
        (elim m [ done a t ↦ f a t | aborted t ↦ aborted t | fatal ↦ fatal | waiting ↦ waiting ])
Returns-bind P Q (done a t) f h k = k a t h
Returns-bind P Q (aborted t) f h k = tt
Returns-bind P Q fatal f h k = tt
Returns-bind P Q waiting f h k = tt

-- No thread but `me` is running.
abbrev pub Stopped : ℕ → System → Type 0
Stopped me s = (k : ℕ) → 1 ≤ k → k ≤ nb_segments → k ≢ me → (s.segment k).safe_point ≢ running

zero-count :
    (s : System) (me i n : ℕ)
    → ((k : ℕ) → i ≤ k → k < i + n → k ≢ me → (s.segment k).safe_point ≢ running)
    → count_running s me i n ≡ 0
unfolding count_running
zero-count s me i zero h = refl
zero-count s me i (suc n) h =
    let ih = zero-count s me (i + 1) n (λ k low high ne. h k (omega arith) (omega arith) ne) in
    ground (arith, ih, h i)

signal_everybody-Stopped :
    (me : ℕ) (s : System) → Stopped me s → Stopped me (signal_everybody_to_pause_running s)
unfolding signal_everybody_to_pause_running
signal_everybody-Stopped me s h k low high ne =
    ground (arith, h k low high ne, rest-map_signals to_pause 1 nb_segments s k)

-- What a call that stops the others has reached: the caller is the only transaction, or no other
-- thread is running.
abbrev pub Alone : ℕ → System → Type 0
Alone me t = (t.globally_unique_transaction ≡ true) ⊎ Stopped me t

module _ (o : Objects) (wait : Cond → ℕ → System → System) where
  -- `enter_safe_point_if_requested` returns only with no signal left for its segment.
  pub enter-Returns :
      (fuel me : ℕ) (s : System)
      → Returns
          (λ t. (t.segment me).nursery_end ≡ nursery_end_normal)
          (enter_safe_point_if_requested o wait fuel me s)
  unfolding enter_safe_point_if_requested set_nursery_end set_segment
  enter-Returns zero me s = tt
  enter-Returns (suc fuel) me s = go (enter-Returns fuel me) (s.segment me).nursery_end refl
    where
      Quiet : System → Type 0
      Quiet t = (t.segment me).nursery_end ≡ nursery_end_normal

      signalled : System
      signalled = set_segment me (λ p. record p { signalled_to_commit_soon = true }) s

      now_quiet : Quiet (set_nursery_end nursery_end_normal me signalled)
      now_quiet = ground arith

      go :
          ((t : System) → Returns Quiet (enter_safe_point_if_requested o wait fuel me t))
          → (e : NurseryEnd) → (s.segment me).nursery_end ≡ e
          → Returns Quiet (enter_safe_point_if_requested o wait (suc fuel) me s)
      go ih nursery_end_normal q = rw (q, enter_safe_point_if_requested) q
      go ih sig_abort q = rw (q, enter_safe_point_if_requested) (abort-Returns Quiet o me s)
      go ih sig_pause q = rw (q, enter_safe_point_if_requested) (ih (pause o wait me s))
      go ih sig_commit_soon q =
          rw (q, enter_safe_point_if_requested)
            (Returns-if Quiet signalled.pause_signalled _ _ (λ _. ih _) (λ _. now_quiet))

  pub enter_quiet :
      (fuel me : ℕ) (s : System)
      → (s.segment me).nursery_end ≡ nursery_end_normal
      → enter_safe_point_if_requested o wait (suc fuel) me s ≡ done tt s
  unfolding enter_safe_point_if_requested
  enter_quiet fuel me s q = rw (q, enter_safe_point_if_requested)

  none_to_wait_for :
      (fuel me : ℕ) (s : System) → Stopped me s → wait_for_others o wait (suc fuel) me s ≡ done tt s
  unfolding wait_for_others count_other_threads_sp_running
  none_to_wait_for fuel me s h =
      rw (zero-count s me 1 nb_segments (λ k low high ne. h k low (omega arith) ne))

  pub synchronize_at_once :
      (fuel me : ℕ) (type : SyncType) (s : System)
      → (s.segment me).nursery_end ≡ nursery_end_normal
      → s.globally_unique_transaction ≡ false
      → Stopped me s
      → synchronize_all_threads o wait (suc fuel) me type s
        ≡ done tt (finish_sync me type (signal_everybody_to_pause_running s))
  unfolding synchronize_all_threads stop_others
  synchronize_at_once fuel me type s quiet shared stopped =
      >>=-done (enter_safe_point_if_requested o wait (suc fuel) me) _ s tt s
        (enter_quiet fuel me s quiet)
      ∙ simp shared (
          >>=-done (wait_for_others o wait (suc fuel) me) (λ _. modify (finish_sync me type))
            (signal_everybody_to_pause_running s) tt _
            (none_to_wait_for fuel me (signal_everybody_to_pause_running s)
              (signal_everybody-Stopped me s stopped)))
