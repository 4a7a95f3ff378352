-- ===== src/Publish/Whole.antt =====
-- c7/stm/core.c, `_card_wise_synchronize_object_now`: an object that is copied card by card reaches
-- the other segments whole.
use pypy_stmgc.Base.{
  ℕ, zero, suc, ◌+◌, ◌≤◌, ◌<◌, ◌≡◌, ◌≢◌, refl, ◌∙◌, true, false, ◌&&◌, ◌==◌, if◌then◌else◌, arith,
  none, some,
}
use pypy_stmgc.Memory.{Mem, nb_segments, backing, load}
use pypy_stmgc.Memory.Copy.{load-store}
use pypy_stmgc.Memory.Fragment.{within}
use pypy_stmgc.Memory.Synchronize.{load-page_wise}
use pypy_stmgc.State.{
  System, get_write_lock_idx, card_clear, cards_set, has_flag, clear_flag, flags_of, set_flags_of,
  Objects,
}
use pypy_stmgc.Cards.{last_card_index, reset_object_cards}
use pypy_stmgc.Publish.{
  CardLoop, cards_loop, page_wise, sync_cards, card_wise_synchronize_object_now,
}
use pypy_stmgc.Publish.Loop.{in_marked, load-loop}
use pypy_stmgc.Publish.Flag.{any_marked, loop-all_cleared}

none-some : (k : ℕ) → none ≢ some k
none-some k e = ground arith

own_value :
    (m : Mem) (me obj t a : ℕ)
    → (if a == obj && backing m.by_segment t a == backing m.by_segment me obj
        then load m me obj
        else load m t a)
      ≡ load m t a
unfolding load
own_value m me obj t a = ground arith

in_marked-none :
    (o : Objects) (me obj : ℕ) (n : ℕ) (locks : ℕ → ℕ) (c a : ℕ)
    → any_marked locks (get_write_lock_idx obj) c n ≡ false
    → in_marked o me obj locks c n a ≡ false
in_marked-none o me obj zero locks c a e = refl
in_marked-none o me obj (suc n) locks c a e =
    ground (arith, in_marked-none o me obj n locks (c + 1) a)

module _ (o : Objects) (me obj : ℕ) (big : 0 < o.size_rounded_up obj)
    (le_me : me ≤ nb_segments) where
  pub load-page_wise_object :
      (s : System) (t a : ℕ)
      → t ≤ nb_segments
      → load (page_wise o me obj s).mem t a
        ≡ (if within obj (o.size_rounded_up obj) a then load s.mem me a else load s.mem t a)
  unfolding page_wise
  load-page_wise_object s t a le =
      load-page_wise s.mem me obj (o.size_rounded_up obj) t a le_me le big

  in_marked-within :
      (n : ℕ) (locks : ℕ → ℕ) (c a : ℕ)
      → in_marked o me obj locks c n a ≡ true
      → within obj (o.size_rounded_up obj) a ≡ true
  in_marked-within zero locks c a e = ground arith
  in_marked-within (suc n) locks c a e = ground (arith, in_marked-within n locks (c + 1) a)

  -- Resetting the cards keeps every read, if the object's flag says that it has none.
  load-reset_clear :
      (s : System) (t a : ℕ)
      → has_flag (flags_of s me obj) cards_set ≡ false
      → load (reset_object_cards o me obj card_clear false s).mem t a ≡ load s.mem t a
  unfolding reset_object_cards set_flags_of flags_of
  load-reset_clear s t a clear =
      let same : clear_flag (load s.mem me obj) cards_set ≡ load s.mem me obj = rw clear in
      rw same (load-store s.mem me obj (load s.mem me obj) t a ∙ own_value s.mem me obj t a)

  abbrev start : System → CardLoop
  start s = record {
    locks = s.write_locks;
    memory = s.mem;
    start_card_index = none;
    all_cards_were_cleared = true;
  }

  load-sync_cards :
      (s : System) (t a : ℕ)
      → t ≤ nb_segments
      → load (sync_cards o me obj s).mem t a ≡ (
          if (if any_marked s.write_locks (get_write_lock_idx obj) 1 (last_card_index o obj)
            then in_marked o me obj s.write_locks 1 (last_card_index o obj) a
            else within obj (o.size_rounded_up obj) a)
          then load s.mem me a
          else load s.mem t a)
  unfolding sync_cards
  load-sync_cards s t a le = ground (
    arith,
    loop-all_cleared o me obj last last (start s) 1 (λ k q. absurd (none-some k q)),
    load-page_wise_object after t a le,
    looped t le,
    looped me le_me,
    in_marked-none o me obj last s.write_locks 1 a,
  )
    where
      last : ℕ
      last = last_card_index o obj

      l : CardLoop
      l = cards_loop o me obj last 1 last (start s)

      after : System
      after = record s { write_locks = l.locks; mem = l.memory }

      looped :
          (k : ℕ)
          → k ≤ nb_segments
          → load l.memory k a ≡ (
              if in_marked o me obj s.write_locks 1 last a then load s.mem me a else load s.mem k a)
      looped k le_k =
          load-loop o me obj last last (start s) 1 k a le_me le_k (omega arith)
            (λ j q. absurd (none-some j q)) (λ _. refl)

  -- Take an object that has a size and whose flag for set cards is clear, a segment `t`, and a
  -- byte that `t` reads as `me` does, unless the byte lies in a marked card of the object or the
  -- object has no marked card. There the copy of the object card by card leaves `t` with what the
  -- copy of the whole object leaves it with.
  pub card_wise_lem :
      (s : System) (t a : ℕ)
      → t ≤ nb_segments
      → has_flag (flags_of s me obj) cards_set ≡ false
      → (any_marked s.write_locks (get_write_lock_idx obj) 1 (last_card_index o obj) ≡ true
          → in_marked o me obj s.write_locks 1 (last_card_index o obj) a ≡ false
          → load s.mem t a ≡ load s.mem me a)
      → load (card_wise_synchronize_object_now o me obj s).mem t a
        ≡ load (page_wise o me obj s).mem t a
  unfolding card_wise_synchronize_object_now
  card_wise_lem s t a le clear agree =
      let reset : System = reset_object_cards o me obj card_clear false s in
      ground (
        arith,
        load-page_wise_object reset t a le,
        load-page_wise_object s t a le,
        load-reset_clear s t a clear,
        load-reset_clear s me a clear,
        load-sync_cards s t a le,
        in_marked-within (last_card_index o obj) s.write_locks 1 a,
        agree,
      )
