-- ===== src/Publish/Push.antt =====
-- c7/stm/core.c, `push_modified_to_other_segments`: what a commit publishes.
use pypy_stmgc.Base.{
  ℕ, ◌≤◌, ◌<◌, ◌≡◌, refl, ◌∙◌, ap, Bool, false, ◌||◌, ◌==◌, if◌then◌else◌, arith, List, [], ◌∷◌,
}
use pypy_stmgc.Memory.{Mem, nb_segments, load}
use pypy_stmgc.Memory.Fragment.{within}
use pypy_stmgc.State.{
  System, Objects, done, >>=-done, modify, set_segment, flags_of, has_flag, small_uniform,
  get_write_lock_idx, obj_should_use_cards,
}
use pypy_stmgc.Abort.Reset.{covers}
use pypy_stmgc.Publish.{
  page_wise, free_lock, synchronize_object_now, push_objects, push_modified_to_other_segments,
}
use pypy_stmgc.Publish.Whole.{load-page_wise_object}

-- `j` is the index of the lock of one of the objects.
abbrev pub is_lock_of_some : List ℕ → ℕ → Bool
is_lock_of_some [] j = false
is_lock_of_some (obj ∷ objs) j = j == get_write_lock_idx obj || is_lock_of_some objs j

-- The objects have a size, are not among the small ones, and have no cards.
abbrev pub Pushable : Objects → Mem → ℕ → List ℕ → Type 0
Pushable o m me [] = Unit
Pushable o m me (obj ∷ objs) =
    (0 < o.size_rounded_up obj)
    × (has_flag (load m me obj) small_uniform ≡ false)
    × (obj_should_use_cards o obj ≡ false)
    × Pushable o m me objs

Pushable-same :
    (o : Objects) (m m' : Mem) (me : ℕ) (objs : List ℕ)
    → ((a : ℕ) → load m' me a ≡ load m me a)
    → Pushable o m me objs
    → Pushable o m' me objs
Pushable-same o m m' me [] same p = tt
Pushable-same o m m' me (obj ∷ objs) same (size, large, plain, p) =
    (size, rw (same obj) large, plain, Pushable-same o m m' me objs same p)

module _ (o : Objects) (me : ℕ) (le_me : me ≤ nb_segments) where
  abbrev published : ℕ → System → System
  published obj s = page_wise o me obj (free_lock obj s)

  -- The state after the loop.
  pushed : List ℕ → System → System
  pushed [] s = s
  pushed (obj ∷ objs) s = pushed objs (published obj s)

  load-published :
      (obj : ℕ) (s : System) (k a : ℕ)
      → 0 < o.size_rounded_up obj
      → k ≤ nb_segments
      → load (published obj s).mem k a
        ≡ (if within obj (o.size_rounded_up obj) a then load s.mem me a else load s.mem k a)
  unfolding free_lock
  load-published obj s k a size le =
      load-page_wise_object o me obj size le_me (free_lock obj s) k a le

  same-published :
      (obj : ℕ) (s : System)
      → 0 < o.size_rounded_up obj
      → (a : ℕ) → load (published obj s).mem me a ≡ load s.mem me a
  same-published obj s size a = ground (arith, load-published obj s me a size le_me)

  synchronize-published :
      (obj : ℕ) (s : System)
      → has_flag (load s.mem me obj) small_uniform ≡ false
      → obj_should_use_cards o obj ≡ false
      → synchronize_object_now o me obj false (free_lock obj s) ≡ done tt (published obj s)
  unfolding synchronize_object_now free_lock flags_of
  synchronize-published obj s large plain = rw (large, synchronize_object_now) (rw plain)

  push_objects-done :
      (objs : List ℕ) (s : System)
      → Pushable o s.mem me objs
      → push_objects o me objs s ≡ done tt (pushed objs s)
  unfolding push_objects pushed
  push_objects-done [] s p = refl
  push_objects-done (obj ∷ objs) s (size, large, plain, p) =
      >>=-done (synchronize_object_now o me obj false) (λ _. push_objects o me objs)
        (free_lock obj s) tt (published obj s) (synchronize-published obj s large plain)
      ∙ push_objects-done objs (published obj s)
          (Pushable-same o s.mem (published obj s).mem me objs (same-published obj s size) p)

  load-pushed :
      (objs : List ℕ) (s : System) (k a : ℕ)
      → Pushable o s.mem me objs
      → k ≤ nb_segments
      → load (pushed objs s).mem k a ≡ (if covers o objs a then load s.mem me a else load s.mem k a)
  unfolding pushed
  load-pushed [] s k a p le = refl
  load-pushed (obj ∷ objs) s k a (size, large, plain, p) le =
      let p' = Pushable-same o s.mem (published obj s).mem me objs (same-published obj s size) p in
      ground (
        arith,
        load-pushed objs (published obj s) k a p' le,
        load-published obj s k a size le,
        load-published obj s me a size le_me,
      )

  locks-pushed :
      (objs : List ℕ) (s : System) (j : ℕ)
      → (pushed objs s).write_locks j ≡ (if is_lock_of_some objs j then 0 else s.write_locks j)
  unfolding pushed page_wise free_lock
  locks-pushed [] s j = refl
  locks-pushed (obj ∷ objs) s j = ground (arith, locks-pushed objs (published obj s) j)

  -- Nothing but the memory and the locks has changed.
  rest-pushed :
      (objs : List ℕ) (s : System)
      → pushed objs s
        ≡ record s { mem = (pushed objs s).mem; write_locks = (pushed objs s).write_locks }
  unfolding pushed page_wise free_lock
  rest-pushed [] s = refl
  rest-pushed (obj ∷ objs) s = rest-pushed objs (published obj s)

  -- The state that the push leaves.
  pub after_push : System → System
  unfolding pushed
  after_push s =
      set_segment me (λ p. record p { modified_old_objects = [] })
        (pushed (s.segment me).modified_old_objects s)

  pub push-done :
      (s : System)
      → Pushable o s.mem me (s.segment me).modified_old_objects
      → push_modified_to_other_segments o me s ≡ done tt (after_push s)
  unfolding push_modified_to_other_segments after_push
  push-done s p =
      >>=-done (push_objects o me (s.segment me).modified_old_objects)
        (λ _. modify (set_segment me (λ p. record p { modified_old_objects = [] }))) s tt
        (pushed (s.segment me).modified_old_objects s)
        (push_objects-done (s.segment me).modified_old_objects s p)

  pub modified-after_push :
      (s : System)
      → (((after_push s).segment me).modified_old_objects ≡ [])
        × ((after_push s).globally_unique_transaction ≡ s.globally_unique_transaction)
  unfolding after_push set_segment
  modified-after_push s = (
    ground arith,
    ap (λ t. t.globally_unique_transaction) (rest-pushed (s.segment me).modified_old_objects s),
  )

  pub load-after_push :
      (s : System) (k a : ℕ)
      → Pushable o s.mem me (s.segment me).modified_old_objects
      → k ≤ nb_segments
      → load (after_push s).mem k a ≡ (
          if covers o (s.segment me).modified_old_objects a
          then load s.mem me a
          else load s.mem k a)
  unfolding after_push set_segment
  load-after_push s k a p le = load-pushed (s.segment me).modified_old_objects s k a p le

  pub locks-after_push :
      (s : System) (j : ℕ)
      → (after_push s).write_locks j
        ≡ (if is_lock_of_some (s.segment me).modified_old_objects j then 0 else s.write_locks j)
  unfolding after_push set_segment
  locks-after_push s j = locks-pushed (s.segment me).modified_old_objects s j

  -- If the modified objects have a size, are not among the small ones and have no cards, the push
  -- returns. Then every segment reads each byte of them as `me` did, and every other byte as
  -- before; their locks are free, all other locks are as before, and the list of modified objects
  -- is empty.
  pub push_publishes :
      (s : System)
      → Pushable o s.mem me (s.segment me).modified_old_objects
      → (t : System) × (push_modified_to_other_segments o me s ≡ done tt t)
        × ((t.segment me).modified_old_objects ≡ [])
        × ((k a : ℕ)
            → k ≤ nb_segments
            → load t.mem k a ≡ (
                if covers o (s.segment me).modified_old_objects a
                then load s.mem me a
                else load s.mem k a))
        × ((j : ℕ)
            → t.write_locks j ≡ (
                if is_lock_of_some (s.segment me).modified_old_objects j
                then 0
                else s.write_locks j))
  push_publishes s p = (
    after_push s,
    push-done s p,
    (modified-after_push s).0,
    (λ k a le. load-after_push s k a p le),
    locks-after_push s,
  )
