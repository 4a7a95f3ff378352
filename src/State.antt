-- ===== src/State.antt =====
-- c7/stmgc.h, c7/stm/core.h, c7/stm/sync.h and c7/stm/nursery.h: the state that the threads share,
-- and how a function of the library may end.
use pypy_stmgc.Base.{
  ℕ, ◌+◌, ◌-◌, ◌*◌, ◌/◌, ◌%◌, ◌≡◌, Bool, true, false, not, ◌&&◌, Option, List, ltb, ◌==◌,
  if◌then◌else◌, update,
}
use pypy_stmgc.Memory.{Mem, load, store}

-- `safe_point`; the test build has one more.
pub data SafePoint : Type 0 where
  no_transaction running wait_request_removed wait_at_safe_point wait_transaction_done : SafePoint

-- `transaction_state`; `ts_none` is TS_NONE.
pub data TransactionState : Type 0 where
  ts_none regular inevitable : TransactionState

-- `nursery_end`: NURSERY_END, or one of the signals NSE_SIGxxx that other threads put there.
pub data NurseryEnd : Type 0 where
  nursery_end_normal sig_abort sig_pause sig_commit_soon : NurseryEnd

-- `enum cond_type_e`
pub data Cond : Type 0 where
  segment_free at_safe_point request_removed inevitable_done aborted_done transaction_done : Cond

-- `nursery` is the memory of the nursery, of which each segment has its own.
-- `stm_segment_info_s` and `stm_priv_segment_info_s`. A list has its last item in front, so that
-- `LIST_FOREACH_R` goes along it; `none` is a list that is NULL.
pub record Segment : Type 0 where
  pub transaction_read_version : ℕ
  pub read_marker : ℕ → ℕ
  pub nursery : ℕ → ℕ
  pub nursery_current : ℕ
  pub nursery_end : NurseryEnd
  pub running_thread : Option ℕ
  pub modified_old_objects : List ℕ
  pub objects_pointing_to_nursery : Option (List ℕ)
  pub old_objects_with_cards : List ℕ
  pub large_overflow_objects : Option (List ℕ)
  pub young_outside_nursery : List ℕ
  pub young_weakrefs : List ℕ
  pub unique_start_time : ℕ
  pub overflow_number : ℕ
  pub overflow_number_has_been_used : Bool
  pub write_lock_num : ℕ
  pub safe_point : SafePoint
  pub transaction_state : TransactionState
  pub signal_when_done : Bool
  pub signalled_to_commit_soon : Bool
  pub shadowstack_at_start_of_transaction : ℕ
  pub threadlocal_at_start_of_transaction : ℕ

-- `stm_thread_local_t`
pub record ThreadLocal : Type 0 where
  pub associated_segment_num : ℕ
  pub shadowstack : ℕ
  pub thread_local_obj : ℕ
  pub last_abort_bytes_in_nursery : ℕ

pub record System : Type 0 where
  pub mem : Mem
  pub segment : ℕ → Segment
  pub thread : ℕ → ThreadLocal
  pub write_locks : ℕ → ℕ
  pub in_use1 : ℕ → Bool
  pub pause_signalled : Bool
  pub globally_unique_transaction : Bool
  pub global_start_time : ℕ
  pub highest_overflow_number : ℕ

-- `done` is a normal return; `aborted` is the jump back to the start of the transaction; `fatal` is
-- `stm_fatalerror` or `abort()`; `waiting` is a loop that has not ended within its fuel.
pub data Outcome {ℓ} (A : Type ℓ) : Type ℓ where
  done : A → System → Outcome A
  aborted : System → Outcome A
  fatal : Outcome A
  waiting : Outcome A

abbrev pub M : Type 0 → Type 0
M A = System → Outcome A

infixl 5 ◌>>=◌ ◌>>◌
abbrev pub ◌>>=◌ : {A B : Type 0} → M A → (A → M B) → M B
◌>>=◌ m f s = elim (m s) [
  | done a t ↦ f a t
  | aborted t ↦ aborted t
  | fatal ↦ fatal
  | waiting ↦ waiting
]

pub >>=-done :
    {A B : Type 0} (m : M A) (f : A → M B) (s : System) (a : A) (t : System)
    → m s ≡ done a t
    → (m >>= f) s ≡ f a t
>>=-done m f s a t e = rw (e, ◌>>=◌)

abbrev pub ◌>>◌ : {B : Type 0} → M (Unit {0}) → M B → M B
m >> k = m >>= λ _. k

abbrev pub pure : {A : Type 0} → A → M A
pure a s = done a s

-- A change of the state.
abbrev pub modify : (System → System) → M (Unit {0})
modify f s = done tt (f s)

-- A branch on what the state holds.
abbrev pub when : (System → Bool) → M (Unit {0}) → M (Unit {0})
when test m s = if test s then m s else done tt s

-- Segment `i` changed.
unfoldable pub set_segment : ℕ → (Segment → Segment) → System → System
set_segment i f s = record s { segment = update s.segment i (f (s.segment i)) }

unfoldable pub set_thread : ℕ → (ThreadLocal → ThreadLocal) → System → System
set_thread t f s = record s { thread = update s.thread t (f (s.thread t)) }

-- The flags of an object, a 32-bit word kept in the cell at its address: 1 GCFLAG_WRITE_BARRIER,
-- 2 GCFLAG_SMALL_UNIFORM, 4 GCFLAG_HAS_SHADOW, 8 GCFLAG_CARDS_SET, from 16 on the overflow number.
abbrev pub write_barrier : ℕ
write_barrier = 1

abbrev pub small_uniform : ℕ
small_uniform = 2

abbrev pub cards_set : ℕ
cards_set = 8

abbrev pub has_flag : ℕ → ℕ → Bool
has_flag flags bit = flags / bit % 2 == 1

abbrev pub set_flag : ℕ → ℕ → ℕ
set_flag flags bit = if has_flag flags bit then flags else flags + bit

abbrev pub clear_flag : ℕ → ℕ → ℕ
clear_flag flags bit = if has_flag flags bit then flags - bit else flags

-- `obj->stm_flags`, as segment `i` sees it.
unfoldable pub flags_of : System → ℕ → ℕ → ℕ
flags_of s i obj = load s.mem i obj

unfoldable pub set_flags_of : System → ℕ → ℕ → ℕ → System
set_flags_of s i obj flags = record s { mem = store s.mem i obj flags }

-- `IS_OVERFLOW_OBJ`
unfoldable pub is_overflow_obj : System → ℕ → ℕ → Bool
unfolding flags_of
is_overflow_obj s i obj = flags_of s i obj / 16 * 16 == (s.segment i).overflow_number

abbrev pub nb_pages : ℕ
nb_pages = 2500 * 256

abbrev pub first_object_page : ℕ
first_object_page = (nb_pages * 4096 / 16 + 4095) / 4096

abbrev pub nb_nursery_pages : ℕ
nb_nursery_pages = 4096 / 4

abbrev pub nursery_start : ℕ
nursery_start = first_object_page * 4096

abbrev pub end_nursery_page : ℕ
end_nursery_page = first_object_page + nb_nursery_pages

abbrev pub writelock_start : ℕ
writelock_start = end_nursery_page * 4096 / 16

unfoldable pub get_write_lock_idx : ℕ → ℕ
get_write_lock_idx obj = obj / 16 - writelock_start

abbrev pub card_size : ℕ
card_size = 32

abbrev pub card_clear : ℕ
card_clear = 0

abbrev pub card_marked : ℕ
card_marked = 100

abbrev pub card_marked_old : ℕ
card_marked_old = 101

unfoldable pub get_index_to_card_index : ℕ → ℕ
get_index_to_card_index index = index / card_size + 1

unfoldable pub get_card_index_to_index : ℕ → ℕ
get_card_index_to_index card_index = (card_index - 1) * card_size

unfoldable pub is_abort : NurseryEnd → Bool
is_abort sig_abort = true
is_abort _ = false

abbrev pub is_running : SafePoint → Bool
is_running running = true
is_running _ = false

unfoldable pub must_abort : System → ℕ → Bool
unfolding is_abort
must_abort s i = is_abort (s.segment i).nursery_end

unfoldable pub is_aborting_now : System → ℕ → Bool
unfolding is_abort
is_aborting_now s i =
    is_abort (s.segment i).nursery_end && not (is_running (s.segment i).safe_point)

-- What the user's program answers about its objects: `stmcb_size_rounded_up`,
-- `stmcb_obj_supports_cards` and `stmcb_get_card_base_itemsize`, for an object at its address.
pub record Objects : Type 0 where
  pub size_rounded_up : ℕ → ℕ
  pub supports_cards : ℕ → Bool
  pub card_base : ℕ → ℕ
  pub card_itemsize : ℕ → ℕ

abbrev pub min_card_obj_size : ℕ
min_card_obj_size = 32 * 17

unfoldable pub obj_should_use_cards : Objects → ℕ → Bool
obj_should_use_cards o obj =
    if o.supports_cards obj
    then (if ltb (o.size_rounded_up obj) min_card_obj_size then false else true)
    else false
