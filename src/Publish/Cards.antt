-- ===== src/Publish/Cards.antt =====
-- c7/stm/core.c, `_card_wise_synchronize_object_now`: which bytes of an object reach the other segments.
use pypy_stmgc.Base.{
  ℕ, zero, suc, ◌+◌, ◌-◌, ◌/◌, ◌≤◌, ◌<◌, ◌≡◌, refl, ◌∙◌, ap, sym, true, ◌&&◌, ◌||◌, ltb, leb, ◌==◌,
  if◌then◌else◌, arith,
}
use pypy_stmgc.Memory.{Mem, nb_segments, is_private_page, backing, load, memcpy}
use pypy_stmgc.Memory.Copy.{memcpy-by_segment, load-memcpy}
use pypy_stmgc.Memory.Fragment.{within, backing_cases, backing_private}
use pypy_stmgc.Publish.{
  any_private, has_private_page_in_range, copy_range_to, copy_range_to_others, copy_range,
}

any_private-true :
    (n : ℕ) (m : Mem) (seg page p : ℕ)
    → page ≤ p
    → p < page + n
    → is_private_page m seg p ≡ true
    → any_private m seg page n ≡ true
unfolding any_private
any_private-true zero m seg page p low high private = absurd (omega arith)
any_private-true (suc n) m seg page p low high private =
    ground (arith, any_private-true n m seg (page + 1) p)

has_private-true :
    (m : Mem) (seg start size a : ℕ)
    → start ≤ a
    → a < start + size
    → is_private_page m seg (a / 4096) ≡ true
    → has_private_page_in_range m seg start size ≡ true
unfolding has_private_page_in_range
has_private-true m seg start size a low high private =
    any_private-true ((start + size) / 4096 + 1 - start / 4096) m seg (start / 4096) (a / 4096)
      (omega arith) (omega arith) private

backing_shared : (m : Mem) (a : ℕ) → backing m.by_segment 0 a ≡ 0
unfolding backing
backing_shared m a = refl

module _ (me start size : ℕ) where
  range_to-by_segment :
      (m : Mem) (i : ℕ) → (copy_range_to m me start size i).by_segment ≡ m.by_segment
  unfolding copy_range_to
  range_to-by_segment m i = ground (arith, memcpy-by_segment m i me start size)

  load-range_to :
      (m : Mem) (i t a : ℕ)
      → 0 < i
      → (within start size a ≡ true → backing m.by_segment t a ≡ 0 → load m t a ≡ load m me a)
      → load (copy_range_to m me start size i) t a ≡ (
          if within start size a && (t == i || backing m.by_segment t a == 0)
          then load m me a
          else load m t a)
  unfolding copy_range_to
  load-range_to m i t a pos same = ground (
    arith,
    load-memcpy m i me start size t a,
    backing_cases m.by_segment t a,
    backing_cases m.by_segment i a,
    backing_private m.by_segment i a,
    has_private-true m i start size a,
  )

  load-others :
      (n : ℕ) (m : Mem) (i t a : ℕ)
      → 0 < i
      → (within start size a ≡ true → backing m.by_segment t a ≡ 0 → load m t a ≡ load m me a)
      → load (copy_range_to_others m me start size i n) t a ≡ (
          if within start size a
            && ((leb i t && ltb t (i + n)) || t == me || backing m.by_segment t a == 0)
          then load m me a
          else load m t a)
  unfolding copy_range_to_others
  load-others zero m i t a pos same = ground arith
  load-others (suc n) m i t a pos same =
      let m' : Mem = copy_range_to m me start size i in
      let mine : load m' me a ≡ load m me a =
        ground (arith, load-range_to m i me a pos (λ _ _. refl)) in
      let theirs = load-range_to m i t a pos same in
      let bits : backing m'.by_segment t a ≡ backing m.by_segment t a =
        ap (λ b. backing b t a) (range_to-by_segment m i) in
      let same' : within start size a ≡ true
          → backing m.by_segment t a ≡ 0
          → load m' t a ≡ load m' me a =
        λ r e. ground (arith, same r e, mine, theirs) in
      let ih = load-others n m' (i + 1) t a (omega arith) (λ r e. same' r (sym bits ∙ e)) in
      ih ∙ rw bits (ground (arith, mine, theirs))

  -- A range of bytes goes from `me` to all segments.
  pub load-copy_range :
      (m : Mem) (t a : ℕ)
      → t ≤ nb_segments
      → load (copy_range m me start size) t a
        ≡ (if within start size a then load m me a else load m t a)
  unfolding copy_range
  load-copy_range m t a le =
      let m' : Mem = memcpy m 0 me start size in
      let shared : backing m.by_segment 0 a ≡ 0 = backing_shared m a in
      let bits : backing m'.by_segment t a ≡ backing m.by_segment t a =
        ap (λ b. backing b t a) (memcpy-by_segment m 0 me start size) in
      let mine : load m' me a ≡ load m me a =
        ground (arith, shared, load-memcpy m 0 me start size me a) in
      let theirs = load-memcpy m 0 me start size t a in
      let same : within start size a ≡ true
          → backing m'.by_segment t a ≡ 0
          → load m' t a ≡ load m' me a =
        λ r e. ground (arith, shared, bits, mine, theirs) in
      load-others nb_segments m' 1 t a (omega arith) same
      ∙ rw bits (ground (arith, shared, mine, theirs, backing_cases m.by_segment t a))
