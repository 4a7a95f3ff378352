-- ===== src/Commit/Conflicts.antt =====
-- c7/stm/core.c, `detect_write_read_conflicts`: no reader of what is about to change goes on.
use pypy_stmgc.Base.{
  ℕ, zero, suc, ◌+◌, ◌≤◌, ◌<◌, ◌≡◌, ◌≢◌, refl, Bool, true, false, ◌==◌, if◌then◌else◌, arith,
  Bool-cases, inl, inr,
}
use pypy_stmgc.Memory.{nb_segments}
use pypy_stmgc.State.{System, Objects, done, Cond}
use pypy_stmgc.Contention.{write_read, write_read_contention_management}
use pypy_stmgc.Commit.Resolve.{
  After, After-bind, After-map, After-if, Resolved, management-Resolved,
}
use pypy_stmgc.Commit.{has_conflict, detect_from, detect_write_read_conflicts}

module _ (o : Objects) (wait : Cond → ℕ → System → System) where
  -- What was no conflict is none, and none is left among the segments `i`, …, `i + n - 1`.
  abbrev Cleared : System → ℕ → ℕ → ℕ → Bool → System → Type 0
  Cleared s me i n restart t =
      restart ≡ false
      → (k : ℕ)
      → (has_conflict s me k ≡ false → has_conflict t me k ≡ false)
        × (i ≤ k → k < i + n → has_conflict t me k ≡ false)

  -- With segment `i` cleared already in `t`, clearing the later ones is enough.
  Cleared-next :
      (s t : System) (me i n : ℕ) (restart : Bool) (u : System)
      → has_conflict t me i ≡ false
      → ((k : ℕ) → has_conflict s me k ≡ false → has_conflict t me k ≡ false)
      → Cleared t me (i + 1) n restart u
      → Cleared s me i (suc n) restart u
  Cleared-next s t me i n restart u here kept later e k =
      let (kept', cleared) = later e k in
      (
        λ h. kept' (kept k h),
        λ low high. elim (Bool-cases (k == i)) [
          | inl same ↦ let eq : k ≡ i = ground arith in kept' (rw eq here)
          | inr other ↦ cleared (ground arith) (omega arith)
        ],
      )

  write_read-Resolved :
      (s : System) (me i : ℕ)
      → me ≢ i
      → After (Resolved o wait me i s) (write_read_contention_management o wait me i s)
  unfolding write_read_contention_management
  write_read-Resolved s me i ne = management-Resolved o wait me i s write_read ne

  conflict-other : (s : System) (me i : ℕ) → has_conflict s me i ≡ true → me ≢ i
  unfolding has_conflict
  conflict-other s me i here e = ground arith

  detect-Cleared :
      (n : ℕ) (s : System) (me i : ℕ) → After (Cleared s me i n) (detect_from o wait me i n s)
  unfolding detect_from
  detect-Cleared zero s me i = λ _ k. (λ h. h, λ low high. absurd (omega arith))
  detect-Cleared (suc n) s me i =
      After-if (Cleared s me i (suc n)) (has_conflict s me i) _ _
        (λ here.
          After-bind (Resolved o wait me i s) (Cleared s me i (suc n)) _ _
            (write_read-Resolved s me i (conflict-other s me i here))
            (after_management (λ t. detect-Cleared n t me (i + 1))))
        (λ none_here.
          After-map (Cleared s me (i + 1) n) (Cleared s me i (suc n)) _
            (λ r u. Cleared-next s s me i n r u none_here (λ _ h. h))
            (detect-Cleared n s me (i + 1)))
    where
      after_management :
          ((t : System) → After (Cleared t me (i + 1) n) (detect_from o wait me (i + 1) n t))
          → (waited : Bool) (t : System) → Resolved o wait me i s waited t
          → After
              (Cleared s me i (suc n))
              (if waited then done true t else detect_from o wait me (i + 1) n t)
      after_management ih true t resolved = λ e. absurd (ground arith)
      after_management ih false t resolved =
          let (here, kept) = resolved refl in
          After-map (Cleared t me (i + 1) n) (Cleared s me i (suc n)) _
            (λ r u. Cleared-next s t me i n r u here kept) (ih t)

  detect-at_once :
      (n : ℕ) (s : System) (me i : ℕ)
      → ((k : ℕ) → i ≤ k → k < i + n → has_conflict s me k ≡ false)
      → detect_from o wait me i n s ≡ done false s
  unfolding detect_from
  detect-at_once zero s me i none = refl
  detect-at_once (suc n) s me i none =
      rw (none i (omega arith) (omega arith))
        (detect-at_once n s me (i + 1) (λ k low high. none k (omega arith) (omega arith)))

  pub detect_lem :
      (s : System) (me : ℕ)
      → After
          (λ restart t.
            restart ≡ false → (k : ℕ) → 1 ≤ k → k ≤ nb_segments → has_conflict t me k ≡ false)
          (detect_write_read_conflicts o wait me s)
        × (((k : ℕ) → 1 ≤ k → k ≤ nb_segments → has_conflict s me k ≡ false)
            → detect_write_read_conflicts o wait me s ≡ done false s)
  unfolding detect_write_read_conflicts
  detect_lem s me = (
    After-map (Cleared s me 1 nb_segments) _ _
        (λ r t cleared e k low high. (cleared e k).1 low (omega arith))
        (detect-Cleared nb_segments s me 1),
    λ none. detect-at_once nb_segments s me 1 (λ k low high. none k low (omega arith)),
  )
