-- ===== src/Abort/Reset.antt =====
-- c7/stm/core.c, `reset_modified_from_other_segments`: which bytes come back, which locks go.
use pypy_stmgc.Base.{
  ℕ, ◌+◌, ◌<◌, ◌≡◌, refl, Bool, false, ◌&&◌, ◌||◌, leb, ltb, ◌==◌, if◌then◌else◌, arith, List, [],
  ◌∷◌, ◌⊎◌,
}
use pypy_stmgc.Memory.{Mem, load, memcpy, backing}
use pypy_stmgc.Memory.Copy.{load-memcpy, load-store}
use pypy_stmgc.State.{
  System, Objects, obj_should_use_cards, get_write_lock_idx, card_clear, cards_set, has_flag,
  clear_flag, flags_of, set_flags_of,
}
use pypy_stmgc.Cards.{reset_object_cards, reset_card_locks_lem, last_card_index}
use pypy_stmgc.Abort.{reset_modified_object, reset_modified_objects}

-- `a` is the address of a byte of one of the objects.
abbrev pub covers : Objects → List ℕ → ℕ → Bool
covers o [] a = false
covers o (obj ∷ objs) a = (leb obj a && ltb a (obj + o.size_rounded_up obj)) || covers o objs a

-- `j` is the index of a card of the object.
abbrev pub is_card : Objects → ℕ → ℕ → Bool
is_card o obj j =
    leb (get_write_lock_idx obj + 1) j && ltb j (get_write_lock_idx obj + 1 + last_card_index o obj)

abbrev pub is_card_of_some : Objects → List ℕ → ℕ → Bool
is_card_of_some o [] j = false
is_card_of_some o (obj ∷ objs) j = is_card o obj j || is_card_of_some o objs j

-- `j` is the index of the lock of the object, or of one of its cards.
abbrev pub is_entry : Objects → ℕ → ℕ → Bool
is_entry o obj j = j == get_write_lock_idx obj || (obj_should_use_cards o obj && is_card o obj j)

abbrev pub is_entry_of_some : Objects → List ℕ → ℕ → Bool
is_entry_of_some o [] j = false
is_entry_of_some o (obj ∷ objs) j = is_entry o obj j || is_entry_of_some o objs j

backing_shared : (bits : ℕ → ℕ → Bool) (a : ℕ) → backing bits 0 a ≡ 0
unfolding backing
backing_shared bits a = refl

-- Segments that are backed by the same place read the same; a private place has one segment.
same_backing :
    (m : Mem) (t i a : ℕ)
    → backing m.by_segment t a ≡ backing m.by_segment i a
    → (t ≡ i) ⊎ (load m t a ≡ load m 0 a)
unfolding load backing
same_backing m t i a h = ground arith

same_load :
    (m : Mem) (t i a : ℕ)
    → backing m.by_segment t a ≡ backing m.by_segment i a
    → load m t a ≡ load m i a
unfolding load
same_load m t i a h = ground arith

load-memcpy_from_shared :
    (m : Mem) (i start n t a : ℕ)
    → load (memcpy m i 0 start n) t a
      ≡ (if (leb start a && ltb a (start + n)) && t == i then load m 0 a else load m t a)
load-memcpy_from_shared m i start n t a =
    ground (arith, load-memcpy m i 0 start n t a, same_backing m t i a)

clear_flag_none : (flags bit : ℕ) → has_flag flags bit ≡ false → clear_flag flags bit ≡ flags
clear_flag_none flags bit h = ground arith

load-reset_cards :
    (o : Objects) (i obj value : ℕ) (all : Bool) (s : System) (t a : ℕ)
    → has_flag (load s.mem i obj) cards_set ≡ false
    → load (reset_object_cards o i obj value all s).mem t a ≡ load s.mem t a
unfolding reset_object_cards set_flags_of flags_of
load-reset_cards o i obj value all s t a clear =
    let keeps = clear_flag_none (load s.mem i obj) cards_set clear in
    rw keeps (ground (arith, load-store s.mem i obj (load s.mem i obj) t a, same_load s.mem t i a))

pub locks-reset_cards :
    (o : Objects) (i obj : ℕ) (s : System) (j : ℕ)
    → (reset_object_cards o i obj card_clear false s).write_locks j
      ≡ (if is_card o obj j then 0 else s.write_locks j)
unfolding reset_object_cards set_flags_of
locks-reset_cards o i obj s j = ground (
  arith,
  reset_card_locks_lem s.write_locks (get_write_lock_idx obj) 1 card_clear false
      (last_card_index o obj) j,
)

-- One turn of the loop, seen by the loads of every segment and by every entry of `write_locks`.
module _ (o : Objects) (i obj : ℕ) (s : System) (big : 0 < o.size_rounded_up obj) where
  load-reset_object :
      (t a : ℕ)
      → has_flag (load s.mem 0 obj) cards_set ≡ false
      → load (reset_modified_object o i obj s).mem t a ≡ (
          if (leb obj a && ltb a (obj + o.size_rounded_up obj)) && t == i
          then load s.mem 0 a
          else load s.mem t a)
  unfolding reset_modified_object
  load-reset_object t a clear =
      let copied : System = record s { mem = memcpy s.mem i 0 obj (o.size_rounded_up obj) } in
      ground (
        arith,
        load-memcpy_from_shared s.mem i obj (o.size_rounded_up obj) t a,
        load-memcpy_from_shared s.mem i obj (o.size_rounded_up obj) i obj,
        load-reset_cards o i obj card_clear false copied t a,
      )

locks-reset_object :
    (o : Objects) (i obj : ℕ) (s : System) (j : ℕ)
    → (reset_modified_object o i obj s).write_locks j
      ≡ (if is_entry o obj j then 0 else s.write_locks j)
unfolding reset_modified_object
locks-reset_object o i obj s j =
    let copied : System = record s { mem = memcpy s.mem i 0 obj (o.size_rounded_up obj) } in
    ground (arith, locks-reset_cards o i obj copied j)

-- The objects have a size, and their shared copies have no card marked.
abbrev pub Resettable : Objects → Mem → List ℕ → Type 0
Resettable o m [] = Unit
Resettable o m (obj ∷ objs) =
    (0 < o.size_rounded_up obj) × (has_flag (load m 0 obj) cards_set ≡ false) × Resettable o m objs

Resettable-same :
    (o : Objects) (m m' : Mem) (objs : List ℕ)
    → ((a : ℕ) → load m' 0 a ≡ load m 0 a)
    → Resettable o m objs
    → Resettable o m' objs
Resettable-same o m m' [] same r = tt
Resettable-same o m m' (obj ∷ objs) same (size, clear, r) =
    (size, rw (same obj) clear, Resettable-same o m m' objs same r)

pub load-reset_objects :
    (o : Objects) (i : ℕ) (objs : List ℕ) (s : System) (t a : ℕ)
    → 0 < i
    → Resettable o s.mem objs
    → load (reset_modified_objects o i objs s).mem t a
      ≡ (if covers o objs a && t == i then load s.mem 0 a else load s.mem t a)
unfolding reset_modified_objects
load-reset_objects o i [] s t a pos r = refl
load-reset_objects o i (obj ∷ objs) s t a pos (size, clear, r) =
    let s' : System = reset_modified_object o i obj s in
    let same : (b : ℕ) → load s'.mem 0 b ≡ load s.mem 0 b =
      λ b. ground (arith, load-reset_object o i obj s size 0 b clear) in
    ground (
      arith,
      load-reset_objects o i objs s' t a pos (Resettable-same o s.mem s'.mem objs same r),
      load-reset_object o i obj s size t a clear,
      same a,
    )

pub locks-reset_objects :
    (o : Objects) (i : ℕ) (objs : List ℕ) (s : System) (j : ℕ)
    → (reset_modified_objects o i objs s).write_locks j
      ≡ (if is_entry_of_some o objs j then 0 else s.write_locks j)
unfolding reset_modified_objects
locks-reset_objects o i [] s j = refl
locks-reset_objects o i (obj ∷ objs) s j = ground (
  arith,
  locks-reset_objects o i objs (reset_modified_object o i obj s) j,
  locks-reset_object o i obj s j,
)

-- The loop changes the memory and the locks, and nothing else of the state.
pub rest-reset_objects :
    (o : Objects) (i : ℕ) (objs : List ℕ) (s : System)
    → ((reset_modified_objects o i objs s).segment ≡ s.segment)
      × ((reset_modified_objects o i objs s).thread ≡ s.thread)
      × ((reset_modified_objects o i objs s).in_use1 ≡ s.in_use1)
      × ((reset_modified_objects o i objs s).pause_signalled ≡ s.pause_signalled)
unfolding reset_modified_objects reset_modified_object reset_object_cards set_flags_of
rest-reset_objects o i [] s = (refl, refl, refl, refl)
rest-reset_objects o i (obj ∷ objs) s =
    ground (arith, rest-reset_objects o i objs (reset_modified_object o i obj s))
