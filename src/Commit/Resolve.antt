-- ===== src/Commit/Resolve.antt =====
-- c7/stm/contention.c, for c7/stm/core.c, `detect_write_read_conflicts`: the call either waited, or the
-- other transaction is no conflict any more.
use pypy_stmgc.Base.{ℕ, ◌≡◌, ◌≢◌, refl, Bool, true, false, if◌then◌else◌, arith}
use pypy_stmgc.State.{
  System, Objects, Outcome, done, aborted, fatal, waiting, set_segment, Cond, TransactionState,
  ts_none, regular, inevitable, SafePoint, no_transaction, running, wait_request_removed,
  wait_at_safe_point, wait_transaction_done, sig_abort, is_abort, is_aborting_now, must_abort,
}
use pypy_stmgc.Abort.{
  discard_changes, abort_data_structures_from_segment_num, abort_with_mutex,
  abort_with_mutex_no_longjmp,
}
use pypy_stmgc.Abort.Whole.{discard-segment, discard-signals}
use pypy_stmgc.Sync.{set_nursery_end}
use pypy_stmgc.Contention.{
  Kind, Choice, sleep, abort_myself, abort_the_other, choose, abort_if_asked, sleep_for, yield_to,
  wait_until_aborted, wake_other, kill_if_stopped, abort_other, act, contention_management,
}
use pypy_stmgc.Commit.{has_conflict}

-- What holds of the result and the state when a call returns.
abbrev pub After : {A : Type 0} → (A → System → Type 0) → Outcome A → Type 0
After P (done a t) = P a t
After P (aborted t) = Unit
After P fatal = Unit
After P waiting = Unit

pub After-bind :
    {A B : Type 0} (P : A → System → Type 0) (Q : B → System → Type 0) (m : Outcome A)
    (f : A → System → Outcome B)
    → After P m
    → ((a : A) (t : System) → P a t → After Q (f a t))
    → After Q
        (elim m [ done a t ↦ f a t | aborted t ↦ aborted t | fatal ↦ fatal | waiting ↦ waiting ])
After-bind P Q (done a t) f p k = k a t p
After-bind P Q (aborted t) f p k = tt
After-bind P Q fatal f p k = tt
After-bind P Q waiting f p k = tt

pub After-map :
    {A : Type 0} (P Q : A → System → Type 0) (m : Outcome A)
    → ((a : A) (t : System) → P a t → Q a t)
    → After P m
    → After Q m
After-map P Q (done a t) h p = h a t p
After-map P Q (aborted t) h p = tt
After-map P Q fatal h p = tt
After-map P Q waiting h p = tt

After-any : {A : Type 0} (m : Outcome A) → After (λ _ _. Unit {0}) m
After-any (done a t) = tt
After-any (aborted t) = tt
After-any fatal = tt
After-any waiting = tt

pub After-if :
    {A : Type 0} (P : A → System → Type 0) (b : Bool) (x y : Outcome A)
    → (b ≡ true → After P x)
    → (b ≡ false → After P y)
    → After P (if b then x else y)
After-if P true x y f g = f refl
After-if P false x y f g = g refl

never-done :
    {A : Type 0} (P : A → System → Type 0) (m : Outcome (Unit {0}))
    → After P (elim m [
      | done _ t ↦ aborted t
      | aborted t ↦ aborted t
      | fatal ↦ fatal
      | waiting ↦ waiting
    ])
never-done P (done a t) = tt
never-done P (aborted t) = tt
never-done P fatal = tt
never-done P waiting = tt

-- An abort does not return.
abort-After :
    {A : Type 0} (P : A → System → Type 0) (o : Objects) (me : ℕ) (s : System)
    → After P (abort_with_mutex o me {A = A} s)
unfolding abort_with_mutex
abort-After P o me s = never-done P (abort_with_mutex_no_longjmp o me s)

-- What always holds.
After-all :
    {A : Type 0} {P : A → System → Type 0} (m : Outcome A)
    → ((a : A) (t : System) → P a t)
    → After P m
After-all (done a t) h = h a t
After-all (aborted t) h = tt
After-all fatal h = tt
After-all waiting h = tt

module _ (o : Objects) (wait : Cond → ℕ → System → System) (me other : ℕ) (s : System) where
  abbrev told : System
  told = set_nursery_end sig_abort other s

  abbrev killed : System
  killed =
      set_segment me (λ p. record p { signalled_to_commit_soon = true })
        (discard_changes o other told)

  -- The other transaction is no conflict any more, and no new conflict has come up.
  abbrev pub Resolved : Bool → System → Type 0
  Resolved waited t =
      waited ≡ false
      → (has_conflict t me other ≡ false)
        × ((k : ℕ) → has_conflict s me k ≡ false → has_conflict t me k ≡ false)

  Resolved-true : (t : System) → Resolved true t
  Resolved-true t e = absurd (ground arith)

  killed-Resolved : me ≢ other → (s.segment other).safe_point ≢ running → Resolved false killed
  unfolding has_conflict is_aborting_now is_abort set_segment set_nursery_end
  killed-Resolved ne stopped e = (
    ground (arith, discard-signals o other told),
    λ k none_before. ground (
      arith,
      discard-signals o other told,
      (discard-segment o other told k).0,
      (discard-segment o other told me).0,
      none_before,
    ),
  )

  -- A call that returned `true`, or the told state with the other thread stopped.
  abbrev Woken : Bool → System → Type 0
  Woken waited t = waited ≡ false → (t ≡ told) × ((s.segment other).safe_point ≢ running)

  not_false : {A : Type 0} → true ≡ false → A
  not_false e = absurd (ground arith)

  wait-Woken : (t : System) → After Woken (wait_until_aborted o wait me t)
  unfolding wait_until_aborted
  wait-Woken t =
      After-bind (λ _ _. Unit {0}) Woken _ _ (After-any (abort_if_asked o wait me t))
        (λ _ u _.
          After-bind (λ _ _. Unit {0}) Woken _ _ (After-any (abort_if_asked o wait me _))
            (λ _ v _ e. not_false e))

  wake-Woken :
      (p : SafePoint) → (s.segment other).safe_point ≡ p → After Woken (wake_other o wait me p told)
  unfolding wake_other
  wake-Woken running q = wait-Woken told
  wake-Woken no_transaction q = tt
  wake-Woken wait_request_removed q = λ e. (refl, ground arith)
  wake-Woken wait_at_safe_point q = λ e. (refl, ground arith)
  wake-Woken wait_transaction_done q = λ e. (refl, ground arith)

  abbrev Dead : Bool → System → Type 0
  Dead waited u =
      waited ≡ false → (u ≡ discard_changes o other told) × ((s.segment other).safe_point ≢ running)

  told-aborting : (s.segment other).safe_point ≢ running → is_aborting_now told other ≡ true
  unfolding is_aborting_now is_abort set_nursery_end set_segment
  told-aborting stopped = ground arith

  abort_data-Dead :
      (s.segment other).safe_point ≢ running
      → After (λ _. Dead false) (abort_data_structures_from_segment_num o other told)
  unfolding abort_data_structures_from_segment_num
  abort_data-Dead stopped = go (told.segment other).transaction_state
    where
      go :
          (state : TransactionState)
          → After
              (λ _. Dead false)
              (elim state [
                | regular ↦ done tt (discard_changes o other told)
                | inevitable ↦ fatal
                | ts_none ↦ fatal
              ])
      go regular = λ e. (refl, stopped)
      go inevitable = tt
      go ts_none = tt

  kill-Dead :
      (waited : Bool) (t : System)
      → Woken waited t
      → After (λ _. Dead waited) (kill_if_stopped o wait other t)
  unfolding kill_if_stopped
  kill-Dead true t woken = After-all (kill_if_stopped o wait other t) (λ _ _ e. not_false e)
  kill-Dead false t woken =
      let (same, stopped) = woken refl in
      rw same (rw (told-aborting stopped) (abort_data-Dead stopped))

  abort_other-Resolved : me ≢ other → After Resolved (abort_other o wait me other s)
  unfolding abort_other
  abort_other-Resolved ne =
      After-bind Woken Resolved _ _ (wake-Woken (s.segment other).safe_point refl)
        (λ waited t woken.
          After-bind (λ _. Dead waited) Resolved _ _ (kill-Dead waited t woken)
            (λ _ u dead. finished waited u dead))
    where
      finished :
          (waited : Bool) (u : System)
          → Dead waited u
          → Resolved waited (set_segment me (λ p. record p { signalled_to_commit_soon = true }) u)
      finished true u dead = Resolved-true _
      finished false u dead =
          let (same, stopped) = dead refl in rw same (killed-Resolved ne stopped)

  sleep-Resolved : After Resolved (sleep_for o wait me other s)
  unfolding sleep_for
  sleep-Resolved =
      After-bind (λ _ _. Unit {0}) Resolved _ _ (After-any (abort_if_asked o wait me _))
        (λ _ t _. Resolved-true t)

  yield-Resolved : After Resolved (yield_to o wait me other s)
  unfolding yield_to
  yield-Resolved = abort-After Resolved o me _

  act-Resolved : (c : Choice) → me ≢ other → After Resolved (act o wait c me other s)
  unfolding act
  act-Resolved sleep ne = sleep-Resolved
  act-Resolved abort_myself ne = yield-Resolved
  act-Resolved abort_the_other ne = abort_other-Resolved ne

  asked-same : After (λ _ t. t ≡ s) (abort_if_asked o wait me s)
  unfolding abort_if_asked
  asked-same =
      After-if (λ _ t. t ≡ s) (must_abort s me) _ _ (λ _. abort-After (λ _ t. t ≡ s) o me s)
        (λ _. refl)

  pub management-Resolved :
      (kind : Kind) → me ≢ other → After Resolved (contention_management o wait kind me other s)
  unfolding contention_management
  management-Resolved kind ne =
      After-bind (λ _ t. t ≡ s) Resolved _ _ asked-same
        (λ _ t same. rw same (act-Resolved (choose s kind me other) ne))
