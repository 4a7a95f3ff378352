-- ===== src/Publish.antt =====
-- c7/stm/core.c, from `_has_private_page_in_range` to `push_modified_to_other_segments`: the objects of
-- a transaction that commits are carried to the other segments, the large ones card by card.
pub mod Cards
pub mod Loop
pub mod Flag
pub mod Whole
pub mod Push
use Prim.Native.Nat.{min}
use pypy_stmgc.Base.{
  ℕ, zero, suc, ◌+◌, ◌-◌, ◌*◌, ◌/◌, Bool, true, false, not, ◌&&◌, ◌||◌, ◌==◌, if◌then◌else◌, update,
  Option, none, some, List, [], ◌∷◌,
}
use pypy_stmgc.Memory.{Mem, nb_segments, is_private_page, memcpy, page_wise_synchronize_object_now}
use pypy_stmgc.State.{
  System, Segment, Objects, Outcome, done, fatal, M, ◌>>=◌, ◌>>◌, modify, set_segment, flags_of,
  has_flag, small_uniform, get_write_lock_idx, get_card_index_to_index, card_clear, card_marked_old,
  obj_should_use_cards,
}
use pypy_stmgc.Cards.{last_card_index, reset_object_cards}

-- The loop over the pages, with `n` pages left.
unfoldable pub any_private : Mem → ℕ → ℕ → ℕ → Bool
any_private m seg_num page zero = false
any_private m seg_num page (suc n) =
    is_private_page m seg_num page || any_private m seg_num (page + 1) n

unfoldable pub has_private_page_in_range : Mem → ℕ → ℕ → ℕ → Bool
has_private_page_in_range m seg_num start size =
    let first_page = start / 4096 in
    any_private m seg_num first_page ((start + size) / 4096 + 1 - first_page)

-- The bytes go to segment `i`, if that is another one with a page of its own among theirs.
unfoldable pub copy_range_to : Mem → ℕ → ℕ → ℕ → ℕ → Mem
copy_range_to m me start size i =
    if i == me
    then m
    else if has_private_page_in_range m i start size
    then memcpy m i me start size
    else m

-- The loop over the segments `i`, …, `i + n - 1`.
unfoldable pub copy_range_to_others : Mem → ℕ → ℕ → ℕ → ℕ → ℕ → Mem
copy_range_to_others m me start size i zero = m
copy_range_to_others m me start size i (suc n) =
    copy_range_to_others (copy_range_to m me start size i) me start size (i + 1) n

unfoldable pub copy_range : Mem → ℕ → ℕ → ℕ → Mem
copy_range m me start size =
    copy_range_to_others (memcpy m 0 me start size) me start size 1 nb_segments

-- Where the items of a card begin in the object.
unfoldable pub card_offset : Objects → ℕ → ℕ → ℕ
unfolding get_card_index_to_index
card_offset o obj card_index =
    o.card_base obj + get_card_index_to_index card_index * o.card_itemsize obj

-- What the loop over the cards carries along.
pub record CardLoop : Type 0 where
  pub locks : ℕ → ℕ
  pub memory : Mem
  pub start_card_index : Option ℕ
  pub all_cards_were_cleared : Bool

-- The first part of a turn: a marked card is cleared, and begins a range if there is none.
unfoldable pub take_card : ℕ → ℕ → CardLoop → CardLoop
take_card first card_index l =
    if l.locks (first + card_index) == card_marked_old
    then record l {
      locks = update l.locks (first + card_index) card_clear;
      start_card_index = elim l.start_card_index [ none ↦ some card_index | some c ↦ some c ];
      all_cards_were_cleared = elim l.start_card_index [
        | none ↦ false
        | some c ↦ l.all_cards_were_cleared
      ];
    }
    else l

-- The cards from `start_card_index` on that come before `next_card_index`, up to the object's end.
unfoldable pub copy_cards : Objects → ℕ → ℕ → ℕ → ℕ → Mem → Mem
copy_cards o me obj start_card_index next_card_index m =
    let start_card_offset = card_offset o obj start_card_index in
    let next_card_offset = min (card_offset o obj next_card_index) (o.size_rounded_up obj) in
    copy_range m me (obj + start_card_offset) (next_card_offset - start_card_offset)

-- The second part: a range that has ended is copied. `marked` says what the card was.
unfoldable pub end_range : Objects → ℕ → ℕ → ℕ → ℕ → Bool → CardLoop → CardLoop
end_range o me obj last_card_index card_index marked l = elim l.start_card_index [
  | none ↦ l
  | some c ↦
      if not marked || card_index == last_card_index
      then record l {
        memory = copy_cards o me obj c (if marked then card_index + 1 else card_index) l.memory;
        start_card_index = none;
      }
      else l
]

-- The loop, with `n` cards left.
unfoldable pub cards_loop : Objects → ℕ → ℕ → ℕ → ℕ → ℕ → CardLoop → CardLoop
cards_loop o me obj last_card_index card_index zero l = l
cards_loop o me obj last_card_index card_index (suc n) l =
    let first = get_write_lock_idx obj in
    let marked = l.locks (first + card_index) == card_marked_old in
    cards_loop o me obj last_card_index (card_index + 1) n
      (end_range o me obj last_card_index card_index marked (take_card first card_index l))

unfoldable pub page_wise : Objects → ℕ → ℕ → System → System
page_wise o me obj s = record s {
  mem = page_wise_synchronize_object_now s.mem me obj (o.size_rounded_up obj);
}

-- The heuristic: three marked cards stand for all of them.
unfoldable pub probably_all_marked : (ℕ → ℕ) → ℕ → ℕ → Bool
probably_all_marked locks first last_card_index =
    locks (first + 1) == card_marked_old
    && locks (first + last_card_index) == card_marked_old
    && locks (first + last_card_index / 2 + 1) == card_marked_old

-- The state when the loop is over.
unfoldable pub sync_cards : Objects → ℕ → ℕ → System → System
sync_cards o me obj s =
    let last = last_card_index o obj in
    let l = cards_loop o me obj last 1 last (record {
      locks = s.write_locks;
      memory = s.mem;
      start_card_index = none;
      all_cards_were_cleared = true;
    }) in
    let s' = record s { write_locks = l.locks; mem = l.memory } in
    if l.all_cards_were_cleared then page_wise o me obj s' else s'

unfoldable pub card_wise_synchronize_object_now : Objects → ℕ → ℕ → System → System
card_wise_synchronize_object_now o me obj s =
    if probably_all_marked s.write_locks (get_write_lock_idx obj) (last_card_index o obj)
    then page_wise o me obj (reset_object_cards o me obj card_clear false s)
    else sync_cards o me obj s

-- The case of the small objects is not written: it calls `abort()`.
unfoldable pub synchronize_object_now : Objects → ℕ → ℕ → Bool → M (Unit {0})
synchronize_object_now o me obj ignore_cards s =
    if has_flag (flags_of s me obj) small_uniform
    then fatal
    else done tt (
        if ignore_cards || not (obj_should_use_cards o obj)
        then page_wise o me obj s
        else card_wise_synchronize_object_now o me obj s)

unfoldable pub push_overflow_objects : Objects → ℕ → List ℕ → M (Unit {0})
push_overflow_objects o me [] s = done tt s
push_overflow_objects o me (obj ∷ objs) s =
    (do synchronize_object_now o me obj true; push_overflow_objects o me objs) s

unfoldable pub push_overflow_objects_from_privatized_pages : Objects → ℕ → M (Unit {0})
push_overflow_objects_from_privatized_pages o me s = elim (s.segment me).large_overflow_objects [
  | none ↦ done tt s
  | some objs ↦ push_overflow_objects o me objs s
]

unfoldable pub free_lock : ℕ → System → System
free_lock obj s = record s { write_locks = update s.write_locks (get_write_lock_idx obj) 0 }

unfoldable pub push_objects : Objects → ℕ → List ℕ → M (Unit {0})
push_objects o me [] s = done tt s
push_objects o me (obj ∷ objs) s =
    (do modify (free_lock obj); synchronize_object_now o me obj false; push_objects o me objs) s

unfoldable pub push_modified_to_other_segments : Objects → ℕ → M (Unit {0})
push_modified_to_other_segments o me s =
    (do
      push_objects o me (s.segment me).modified_old_objects
      modify (set_segment me (λ p. record p { modified_old_objects = [] })))
      s
