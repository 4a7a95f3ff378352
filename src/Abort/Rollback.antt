-- ===== src/Abort/Rollback.antt =====
-- c7/stm/core.c, `abort_with_mutex`: what a whole abort leaves behind.
use pypy_stmgc.Base.{
  ℕ, ◌≡◌, ◌≢◌, refl, ◌∙◌, Bool, false, ◌||◌, ◌==◌, if◌then◌else◌, arith, List, [], ◌∷◌,
}
use pypy_stmgc.Memory.{load}
use pypy_stmgc.Memory.Copy.{load-store}
use pypy_stmgc.State.{
  System, Objects, cards_set, has_flag, clear_flag, flags_of, set_flags_of, card_clear,
}
use pypy_stmgc.Cards.{reset_object_cards}
use pypy_stmgc.Abort.{clear_overflow_cards}
use pypy_stmgc.Abort.Reset.{is_card, is_card_of_some, Resettable, locks-reset_cards}

abbrev pub member : ℕ → List ℕ → Bool
member a [] = false
member a (x ∷ xs) = a == x || member a xs

clear_flag-clear : (flags : ℕ) → has_flag (clear_flag flags cards_set) cards_set ≡ false
clear_flag-clear flags = ground arith

module _ (o : Objects) (i obj : ℕ) (s : System) where
  abbrev cleared : System
  cleared =
      if has_flag (flags_of s i obj) cards_set
      then reset_object_cards o i obj card_clear false s
      else s

  load-cleared : (t a : ℕ) → a ≢ obj → load cleared.mem t a ≡ load s.mem t a
  unfolding reset_object_cards set_flags_of flags_of
  load-cleared t a ne =
      ground (arith, load-store s.mem i obj (clear_flag (flags_of s i obj) cards_set) t a)

  locks-cleared : (j : ℕ) → is_card o obj j ≡ false → cleared.write_locks j ≡ s.write_locks j
  locks-cleared j other = ground (arith, locks-reset_cards o i obj s j)

  flag-cleared :
      (t a : ℕ)
      → has_flag (load s.mem t a) cards_set ≡ false
      → has_flag (load cleared.mem t a) cards_set ≡ false
  unfolding reset_object_cards set_flags_of flags_of
  flag-cleared t a clear = ground (
    arith,
    load-store s.mem i obj (clear_flag (load s.mem i obj) cards_set) t a,
    clear_flag-clear (load s.mem i obj),
  )

pub load-clear_overflow :
    (o : Objects) (i : ℕ) (objs : List ℕ) (s : System) (t a : ℕ)
    → member a objs ≡ false
    → load (clear_overflow_cards o i objs s).mem t a ≡ load s.mem t a
unfolding clear_overflow_cards
load-clear_overflow o i [] s t a out = refl
load-clear_overflow o i (obj ∷ objs) s t a out =
    let here : a ≢ obj = ground arith in
    load-clear_overflow o i objs (cleared o i obj s) t a (ground arith)
    ∙ load-cleared o i obj s t a here

pub locks-clear_overflow :
    (o : Objects) (i : ℕ) (objs : List ℕ) (s : System) (j : ℕ)
    → is_card_of_some o objs j ≡ false
    → (clear_overflow_cards o i objs s).write_locks j ≡ s.write_locks j
unfolding clear_overflow_cards
locks-clear_overflow o i [] s j out = refl
locks-clear_overflow o i (obj ∷ objs) s j out =
    locks-clear_overflow o i objs (cleared o i obj s) j (ground arith)
    ∙ locks-cleared o i obj s j (ground arith)

flag-clear_overflow :
    (o : Objects) (i : ℕ) (objs : List ℕ) (s : System) (t a : ℕ)
    → has_flag (load s.mem t a) cards_set ≡ false
    → has_flag (load (clear_overflow_cards o i objs s).mem t a) cards_set ≡ false
unfolding clear_overflow_cards
flag-clear_overflow o i [] s t a clear = clear
flag-clear_overflow o i (obj ∷ objs) s t a clear =
    flag-clear_overflow o i objs (cleared o i obj s) t a (flag-cleared o i obj s t a clear)

pub rest-clear_overflow :
    (o : Objects) (i : ℕ) (objs : List ℕ) (s : System)
    → ((clear_overflow_cards o i objs s).segment ≡ s.segment)
      × ((clear_overflow_cards o i objs s).pause_signalled ≡ s.pause_signalled)
unfolding clear_overflow_cards reset_object_cards set_flags_of
rest-clear_overflow o i [] s = (refl, refl)
rest-clear_overflow o i (obj ∷ objs) s =
    ground (arith, rest-clear_overflow o i objs (cleared o i obj s))

pub Resettable-clear_overflow :
    (o : Objects) (i : ℕ) (overflow objs : List ℕ) (s : System)
    → Resettable o s.mem objs
    → Resettable o (clear_overflow_cards o i overflow s).mem objs
Resettable-clear_overflow o i overflow [] s r = tt
Resettable-clear_overflow o i overflow (obj ∷ objs) s (size, clear, r) = (
  size,
  flag-clear_overflow o i overflow s 0 obj clear,
  Resettable-clear_overflow o i overflow objs s r,
)
