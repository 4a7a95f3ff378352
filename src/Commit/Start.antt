-- ===== src/Commit/Start.antt =====
-- c7/stm/core.c, `_stm_start_transaction`: a new transaction has read nothing.
use pypy_stmgc.Base.{
  ℕ, ◌/◌, ◌≤◌, ◌<◌, ◌≡◌, refl, true, false, ◌==◌, if◌then◌else◌, arith, Bool-cases, inl, inr,
}
use pypy_stmgc.State.{System, Segment, set_segment}
use pypy_stmgc.Barrier.{was_read_remote, stm_read}
use pypy_stmgc.Commit.{next_read_version}

-- No read marker is above the version of its segment, which is a number of 8 bits and not 0.
pub record IsVersioned (p : Segment) : Type 0 where
  pub positive : 0 < p.transaction_read_version
  pub byte : p.transaction_read_version < 256
  pub below : (a : ℕ) → p.read_marker a ≤ p.transaction_read_version

-- With the markers in order, the version of the next transaction keeps them in order, and no object
-- counts as read by it yet, the wrap-around of the version included.
pub next_version_lem :
    (p : Segment) (obj : ℕ)
    → IsVersioned p
    → IsVersioned (next_read_version p) × (was_read_remote (next_read_version p) obj ≡ false)
unfolding next_read_version was_read_remote
next_version_lem p obj v = elim (Bool-cases (p.transaction_read_version == 255)) [
  | inl e ↦
      rw (e, next_read_version)
        (record { positive = omega arith; byte = omega arith; below = λ a. omega arith }, refl)
  | inr e ↦
      rw (e, next_read_version)
        (
          record {
            positive = ground arith;
            byte = omega arith;
            below = λ a. let le = v.below a in ground arith;
          },
          (let le = v.below (obj / 16) in ground arith),
        )
]

-- After a read of an object by segment `me`, `was_read_remote` says so for the objects that share
-- its marker, in this segment; for all other objects and segments it says what it said before.
-- Markers that were in order stay so.
pub stm_read_lem :
    (me obj other k : ℕ) (s : System)
    → (was_read_remote ((stm_read me obj s).segment k) other ≡ (
        if k == me
        then (if other / 16 == obj / 16 then true else was_read_remote (s.segment k) other)
        else was_read_remote (s.segment k) other))
      × (IsVersioned (s.segment k) → IsVersioned ((stm_read me obj s).segment k))
unfolding was_read_remote stm_read set_segment
stm_read_lem me obj other k s = (
  ground arith,
  λ v. record {
    positive = ground (arith, v.positive);
    byte = ground (arith, v.byte);
    below = λ a. ground (arith, v.below a);
  },
)
