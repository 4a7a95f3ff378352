-- ===== src/Commit/Inevitable.antt =====
-- c7/stm/sync.c and c7/stm/core.c: at most one transaction is inevitable.
use pypy_stmgc.Base.{ℕ, zero, suc, ◌+◌, ◌≤◌, ◌<◌, ◌≡◌, ◌≢◌, refl, ◌∙◌, true, ◌==◌, arith}
use pypy_stmgc.Memory.{nb_segments}
use pypy_stmgc.State.{
  System, Objects, Outcome, >>=-done, ◌>>◌, modify, done, aborted, fatal, waiting, set_segment,
  Cond, regular, inevitable, nursery_end_normal,
}
use pypy_stmgc.Sync.{enter_safe_point_if_requested}
use pypy_stmgc.Sync.Pause.{Returns, Returns-if, Returns-bind, enter_quiet}
use pypy_stmgc.Contention.{find_inevitable, wait_for_end_of_inevitable_transaction}
use pypy_stmgc.Commit.{become_inevitable}

-- No segment runs an inevitable transaction.
abbrev pub NoInevitable : System → Type 0
NoInevitable s = (k : ℕ) → 1 ≤ k → k ≤ nb_segments → (s.segment k).transaction_state ≢ inevitable

find_inevitable-zero :
    (n : ℕ) (s : System) (i k : ℕ)
    → 1 ≤ i
    → find_inevitable s i n ≡ 0
    → i ≤ k
    → k < i + n
    → (s.segment k).transaction_state ≢ inevitable
unfolding find_inevitable
find_inevitable-zero zero s i k pos e low high = absurd (omega arith)
find_inevitable-zero (suc n) s i k pos e low high =
    ground (arith, find_inevitable-zero n s (i + 1) k)

zero-find_inevitable :
    (n : ℕ) (s : System) (i : ℕ)
    → ((k : ℕ) → i ≤ k → k < i + n → (s.segment k).transaction_state ≢ inevitable)
    → find_inevitable s i n ≡ 0
unfolding find_inevitable
zero-find_inevitable zero s i h = refl
zero-find_inevitable (suc n) s i h =
    let ih = zero-find_inevitable n s (i + 1) (λ k low high. h k (omega arith) (omega arith)) in
    ground (arith, ih, h i)

-- Of segment `me`, and of no other one, the transaction is inevitable.
abbrev pub OnlyInevitable : ℕ → System → Type 0
OnlyInevitable me t =
    ((t.segment me).transaction_state ≡ inevitable)
    × ((k : ℕ) → 1 ≤ k → k ≤ nb_segments → k ≢ me → (t.segment k).transaction_state ≢ inevitable)

abbrev pub claim_inevitable : ℕ → System → System
claim_inevitable me s = set_segment me (λ p. record p { transaction_state = inevitable }) s

OnlyInevitable-claim :
    (me : ℕ) (t : System) → NoInevitable t → OnlyInevitable me (claim_inevitable me t)
unfolding set_segment
OnlyInevitable-claim me t h = (ground arith, λ k low high ne. ground (arith, h k low high))

module _ (o : Objects) (wait : Cond → ℕ → System → System) where
  Returns-any : {A : Type 0} (m : Outcome A) → Returns (λ _. Unit {0}) m
  Returns-any (done a t) = tt
  Returns-any (aborted t) = tt
  Returns-any fatal = tt
  Returns-any waiting = tt

  wait-Returns :
      (fuel me : ℕ) (s : System)
      → Returns NoInevitable (wait_for_end_of_inevitable_transaction o wait fuel me s)
  unfolding wait_for_end_of_inevitable_transaction
  wait-Returns zero me s = tt
  wait-Returns (suc fuel) me s =
      Returns-if NoInevitable (find_inevitable s 1 nb_segments == 0) _ _
        (λ e k low high.
          find_inevitable-zero nb_segments s 1 k (omega arith) (found e) low (omega arith))
        (λ _.
          Returns-bind (λ _. Unit {0}) NoInevitable _ _ (Returns-any _)
            (λ _ t _. wait-Returns fuel me t))
    where
      found : (find_inevitable s 1 nb_segments == 0) ≡ true → find_inevitable s 1 nb_segments ≡ 0
      found e = ground arith

  wait-at_once :
      (fuel me : ℕ) (s : System)
      → NoInevitable s
      → wait_for_end_of_inevitable_transaction o wait (suc fuel) me s ≡ done tt s
  unfolding wait_for_end_of_inevitable_transaction
  wait-at_once fuel me s h =
      rw (zero-find_inevitable nb_segments s 1 (λ k low high. h k low (omega arith))) refl

  become-entered :
      (fuel me : ℕ) (s : System)
      → (s.segment me).nursery_end ≡ nursery_end_normal
      → (s.segment me).transaction_state ≡ regular
      → become_inevitable o wait (suc fuel) me s
        ≡ (do
          wait_for_end_of_inevitable_transaction o wait (suc fuel) me
          modify (claim_inevitable me))
            s
  unfolding become_inevitable
  become-entered fuel me s quiet state =
      >>=-done (enter_safe_point_if_requested o wait (suc fuel) me) _ s tt s
        (enter_quiet o wait fuel me s quiet)
      ∙ rw state refl

  -- For a regular transaction that has no signal: if the call returns, after others were waited
  -- for or not, the transaction is inevitable and no other one is; and if no transaction is
  -- inevitable before, it returns at once, with only the state of this transaction changed.
  pub become_inevitable_lem :
      (fuel me : ℕ) (s : System)
      → (s.segment me).nursery_end ≡ nursery_end_normal
      → (s.segment me).transaction_state ≡ regular
      → Returns (OnlyInevitable me) (become_inevitable o wait (suc fuel) me s)
        × (NoInevitable s
            → become_inevitable o wait (suc fuel) me s ≡ done tt (claim_inevitable me s))
  become_inevitable_lem fuel me s quiet state = (
    rw (become-entered fuel me s quiet state) (
        Returns-bind NoInevitable (OnlyInevitable me) _ _ (wait-Returns (suc fuel) me s)
          (λ _ t h. OnlyInevitable-claim me t h)),
    λ free.
        become-entered fuel me s quiet state
        ∙ >>=-done (wait_for_end_of_inevitable_transaction o wait (suc fuel) me)
            (λ _. modify (claim_inevitable me)) s tt s (wait-at_once fuel me s free),
  )
