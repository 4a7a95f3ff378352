-- ===== src/Memory/Fragment.antt =====
-- c7/stm/core.c: what the copy of one fragment of an object, on one page, changes.
use pypy_stmgc.Base.{
  ℕ, zero, suc, ◌+◌, ◌/◌, ◌≤◌, ◌<◌, ◌≡◌, refl, ◌∙◌, Bool, true, not, ◌&&◌, ◌||◌, ◌⊎◌, ltb, leb,
  ◌==◌, if◌then◌else◌, arith,
}
use pypy_stmgc.Memory.{
  Mem, nb_segments, backing, copy_to, copy_to_shared, copy_to_others, synchronize_fragment,
}
use pypy_stmgc.Memory.Copy.{memcpy-by_segment, memcpy-file}

abbrev pub within : ℕ → ℕ → ℕ → Bool
within start size a = leb start a && ltb a (start + size)

pub backing_cases :
    (bits : ℕ → ℕ → Bool) (seg a : ℕ)
    → (backing bits seg a ≡ 0) ⊎ ((backing bits seg a ≡ seg) × (bits (a / 4096) seg ≡ true))
unfolding backing
backing_cases bits seg a = ground arith

pub backing_private :
    (bits : ℕ → ℕ → Bool) (seg a : ℕ) → bits (a / 4096) seg ≡ true → backing bits seg a ≡ seg
unfolding backing
backing_private bits seg a h = ground arith

module _ (me page start size : ℕ) where
  copy_to-by_segment :
      (m : Mem) (i : ℕ) → (copy_to m me page start size i).by_segment ≡ m.by_segment
  unfolding copy_to
  copy_to-by_segment m i = ground (arith, memcpy-by_segment m i me start size)

  copy_to_others-by_segment :
      (m : Mem) (i n : ℕ) → (copy_to_others m me page start size i n).by_segment ≡ m.by_segment
  unfolding copy_to_others
  copy_to_others-by_segment m i zero = refl
  copy_to_others-by_segment m i (suc n) =
      copy_to_others-by_segment (copy_to m me page start size i) (i + 1) n ∙ copy_to-by_segment m i

  pub copy_to_shared-by_segment :
      (m : Mem) → (copy_to_shared m me page start size).by_segment ≡ m.by_segment
  unfolding copy_to_shared
  copy_to_shared-by_segment m = ground (arith, memcpy-by_segment m 0 me start size)

  pub fragment-by_segment :
      (m : Mem) → (synchronize_fragment m me page start size).by_segment ≡ m.by_segment
  unfolding synchronize_fragment
  fragment-by_segment m =
      copy_to_others-by_segment (copy_to_shared m me page start size) 1 nb_segments
      ∙ copy_to_shared-by_segment m

  module _ (on_page : (a : ℕ) → start ≤ a → a < start + size → a / 4096 ≡ page) where
    copy_to-file :
        (m : Mem) (i k a : ℕ)
        → 0 < i
        → (copy_to m me page start size i).file k a ≡ (
            if within start size a && k == i && not (i == me) && m.by_segment page i
            then m.file (backing m.by_segment me a) a
            else m.file k a)
    unfolding copy_to backing
    copy_to-file m i k a pos = ground (arith, memcpy-file m i me start size k a, on_page a)

    pub copy_to_shared-file :
        (m : Mem) (k a : ℕ)
        → (copy_to_shared m me page start size).file k a ≡ (
            if within start size a && k == 0
            then m.file (backing m.by_segment me a) a
            else m.file k a)
    unfolding copy_to_shared backing
    copy_to_shared-file m k a = ground (arith, memcpy-file m 0 me start size k a, on_page a)

    copy_to_others-file :
        (n : ℕ) (m : Mem) (i k a : ℕ)
        → 0 < i
        → (copy_to_others m me page start size i n).file k a ≡ (
            if within start size a
              && (leb i k && ltb k (i + n))
              && not (k == me)
              && m.by_segment page k
            then m.file (backing m.by_segment me a) a
            else m.file k a)
    unfolding copy_to_others
    copy_to_others-file zero m i k a pos = ground arith
    copy_to_others-file (suc n) m i k a pos =
        copy_to_others-file n m' (i + 1) k a (omega arith)
        ∙ rw (copy_to-by_segment m i) (
            ground (
              arith,
              copy_to-file m i k a,
              copy_to-file m i (backing m.by_segment me a) a,
              backing_cases m.by_segment me a,
            ))
      where
        m' : Mem
        m' = copy_to m me page start size i

    pub fragment-file :
        (m : Mem) (k a : ℕ)
        → k ≤ nb_segments
        → (synchronize_fragment m me page start size).file k a ≡ (
            if within start size a && (k == 0 || m.by_segment page k)
            then m.file (backing m.by_segment me a) a
            else m.file k a)
    unfolding synchronize_fragment
    fragment-file m k a le =
        copy_to_others-file nb_segments m' 1 k a (omega arith)
        ∙ rw (copy_to_shared-by_segment m) (
            ground (
              arith,
              copy_to_shared-file m k a,
              copy_to_shared-file m (backing m.by_segment me a) a,
              backing_cases m.by_segment me a,
              backing_private m.by_segment me a,
              on_page a,
            ))
      where
        m' : Mem
        m' = copy_to_shared m me page start size
