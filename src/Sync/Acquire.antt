-- ===== src/Sync/Acquire.antt =====
-- c7/stm/sync.c, `acquire_thread_segment`: a thread gets a segment whenever one is free.
use pypy_stmgc.Base.{
  ℕ, zero, suc, ◌+◌, ◌-◌, ◌%◌, ◌≤◌, ◌<◌, ◌≡◌, refl, ◌⊎◌, inl, inr, Bool, true, false, ◌==◌,
  if◌then◌else◌, none, some, arith, Bool-cases, Option-cases,
}
use pypy_stmgc.Memory.{nb_segments}
use pypy_stmgc.State.{System, Objects, done, set_segment, set_thread, Cond, segment_free}
use pypy_stmgc.Sync.{find_free, got_num, acquire_thread_segment}

-- What the search found is free, and one of the segments.
find_free-some :
    (in_use : ℕ → Bool) (num n m : ℕ)
    → find_free in_use num n ≡ some m
    → (in_use (m - 1) ≡ false) × (1 ≤ m) × (m ≤ nb_segments)
unfolding find_free
find_free-some in_use num zero m e = ground arith
find_free-some in_use num (suc n) m e =
    ground (arith, find_free-some in_use (num % nb_segments + 1) n m)

visited :
    (in_use : ℕ → Bool) (num n j : ℕ)
    → j < n
    → find_free in_use num n ≡ none
    → in_use ((num + j) % nb_segments) ≡ true
unfolding find_free
visited in_use num zero j lt e = absurd (omega arith)
visited in_use num (suc n) zero lt e =
    let here : (num + 0) % nb_segments ≡ num % nb_segments + 1 - 1 = omega arith in
    rw here (ground arith)
visited in_use num (suc n) (suc j) lt e =
    let there : (num + suc j) % nb_segments ≡ (num % nb_segments + 1 + j) % nb_segments =
      omega arith in
    rw there (visited in_use (num % nb_segments + 1) n j (omega arith) (ground arith))

-- A search that fails has seen every segment in use.
find_free-none :
    (in_use : ℕ → Bool) (num k : ℕ)
    → 1 ≤ k
    → k ≤ nb_segments
    → find_free in_use num nb_segments ≡ none
    → in_use (k - 1) ≡ true
find_free-none in_use num k low high e =
    let j : ℕ = (k - 1 + nb_segments - num % nb_segments) % nb_segments in
    let there : k - 1 ≡ (num + j) % nb_segments = omega arith in
    rw there (visited in_use num nb_segments j (omega arith) e)

-- Thread `t` holds segment `num`, which was free, and nothing else has been taken.
pub record Acquired (t num : ℕ) (s s' : System) : Type 0 where
  pub was_free : s.in_use1 (num - 1) ≡ false
  pub taken : (j : ℕ) → s'.in_use1 j ≡ (if j == num - 1 then true else s.in_use1 j)
  pub runs : (s'.segment num).running_thread ≡ some t
  pub associated : (s'.thread t).associated_segment_num ≡ num

got-Acquired :
    (t num : ℕ) (s : System)
    → s.in_use1 (num - 1) ≡ false
    → (s.thread t).associated_segment_num ≡ num
    → Acquired t num s (got_num t num s)
unfolding got_num set_segment
got-Acquired t num s free mine = record {
  was_free = free;
  taken = λ j. refl;
  runs = ground arith;
  associated = mine;
}

moved-Acquired :
    (t num : ℕ) (s : System)
    → s.in_use1 (num - 1) ≡ false
    → Acquired t num s
        (got_num t num (set_thread t (λ tl. record tl { associated_segment_num = num }) s))
unfolding got_num set_segment set_thread
moved-Acquired t num s free = record {
  was_free = free;
  taken = λ j. refl;
  runs = ground arith;
  associated = ground arith;
}

module _ (o : Objects) (wait : Cond → ℕ → System → System) (t : ℕ) (s : System) where
  -- The segment that the thread had before.
  abbrev own : ℕ
  own = (s.thread t).associated_segment_num

  -- Either the thread gets a segment at once, one that was free, and its own one if that was; or all
  -- four segments are in use, and it waits and then reports that it has none.
  pub acquire_lem :
      ((num : ℕ) × (s' : System) × (acquire_thread_segment o wait t s ≡ done true s')
        × Acquired t num s s'
        × (num ≡ (if s.in_use1 (own - 1) then num else own)))
      ⊎ ((acquire_thread_segment o wait t s ≡ done false (wait segment_free own s))
          × (s.in_use1 0 ≡ true)
          × (s.in_use1 1 ≡ true)
          × (s.in_use1 2 ≡ true)
          × (s.in_use1 3 ≡ true))
  unfolding acquire_thread_segment
  acquire_lem = elim (Bool-cases (s.in_use1 (own - 1))) [
    | inl busy ↦ elim (Option-cases (find_free s.in_use1 own nb_segments)) [
      | inl e ↦
          let full : (k : ℕ) → 1 ≤ k → k ≤ nb_segments → s.in_use1 (k - 1) ≡ true =
            λ k low high. find_free-none s.in_use1 own k low high e in
          inr (
            rw (busy, acquire_thread_segment) (rw (e, acquire_thread_segment)),
            full 1 (omega arith) (omega arith),
            full 2 (omega arith) (omega arith),
            full 3 (omega arith) (omega arith),
            full 4 (omega arith) (omega arith),
          )
      | inr (m, e) ↦
          let moved : System = set_thread t (λ tl. record tl { associated_segment_num = m }) s in
          inl (
            m,
            got_num t m moved,
            rw (busy, acquire_thread_segment) (rw (e, acquire_thread_segment)),
            moved-Acquired t m s (find_free-some s.in_use1 own nb_segments m e).0,
            rw busy,
          )
    ]
    | inr free ↦ inl (
      own,
      got_num t own s,
      rw (free, acquire_thread_segment),
      got-Acquired t own s free refl,
      rw free,
    )
  ]
