-- ===== src/GrowList.antt =====
-- c7/stm/list.h and c7/stm/list.c: `struct list_s`, a growing array of words.
pub mod Slices
pub mod Laws
use pypy_stmgc.Base.{
  ℕ, zero, suc, ◌+◌, ◌-◌, ◌*◌, ◌/◌, ◌%◌, ◌^◌, List, [], ◌∷◌, ◌++◌, Bool, true, false, ltb, leb,
  ◌==◌, if◌then◌else◌, update, w64,
}

-- `items` has `last_allocated + 1` places; what it holds behind them, or behind `count`, is
-- unspecified.
pub record ListS : Type 0 where
  pub count : ℕ
  pub last_allocated : ℕ
  pub items : ℕ → ℕ

-- `fatal` is `stm_fatalerror`; `fault` is a failed assertion, or an access outside the block.
pub data Result {ℓ} (A : Type ℓ) : Type ℓ where
  ok : A → Result A
  fatal : Result A
  fault : Result A

infixl 5 ◌>>=◌
abbrev pub ◌>>=◌ {ℓ κ} : {A : Type ℓ} {B : Type κ} → Result A → (A → Result B) → Result B
ok a >>= f = f a
fatal >>= f = fatal
fault >>= f = fault

-- `LIST_OVERCNT`; `x | 1` adds 1 to an even `x`.
unfoldable pub overcnt : ℕ → ℕ
overcnt n = let x = w64 (n / 2 * 3) in w64 (33 + (x + 1 - x % 2))

-- `LIST_SETSIZE`: the two fields, then the items.
unfoldable pub setsize : ℕ → ℕ
setsize n = w64 (16 + w64 (n * 8))

unfoldable pub load : ListS → ℕ → Result ℕ
load l i = if leb i l.last_allocated then ok (l.items i) else fault

unfoldable pub store : ListS → ℕ → ℕ → Result ListS
store l i v = if leb i l.last_allocated then ok (record l { items = update l.items i v }) else fault

unfoldable pub list_clear : ListS → ListS
list_clear l = record l { count = 0 }

unfoldable pub list_is_empty : ListS → Bool
list_is_empty l = l.count == 0

-- The value and the shorter list.
unfoldable pub list_pop_item : ListS → Result (ℕ × ListS)
unfolding load
list_pop_item l = if ltb 0 l.count then pop else fault
  where
    pop : Result (ℕ × ListS)
    pop = load l (l.count - 1) >>= λ v. ok (v, record l { count = l.count - 1 })

-- `LIST_FOREACH_R`: from the last item to the first, with what the body changes passed along.
unfoldable pub foreach_r {ℓ} : {S : Type ℓ} → (ℕ → S → S) → (ℕ → ℕ) → ℕ → S → S
foreach_r body items zero s = s
foreach_r body items (suc i) s = foreach_r body items i (body (items i) s)

-- `LIST_FOREACH_F`, from `i`, with `n` items left.
unfoldable pub foreach_f {ℓ} : {S : Type ℓ} → (ℕ → S → S) → (ℕ → ℕ) → ℕ → ℕ → S → S
foreach_f body items i zero s = s
foreach_f body items i (suc n) s = foreach_f body items (i + 1) n (body (items i) s)

-- `malloc` and `realloc` are the C library's: `avail size` says whether a call for `size` bytes
-- succeeds. A reallocated block keeps its items.
module _ (avail : ℕ → Bool) where
  unfoldable pub list_create : Result ListS
  unfolding setsize
  list_create =
      if avail (setsize 32)
      then ok (record { count = 0; last_allocated = 32 - 1; items = λ _. 0 })
      else fatal

  unfoldable pub list_grow : ListS → ℕ → Result ListS
  unfolding overcnt setsize
  list_grow l nalloc =
      if avail (setsize (overcnt nalloc))
      then ok (record l { last_allocated = overcnt nalloc - 1 })
      else fatal

  unfoldable pub list_append : ListS → ℕ → Result ListS
  unfolding list_grow store
  list_append l item = do
    let index = l.count
    let l' = record l { count = w64 (index + 1) }
    l'' ← (if ltb l.last_allocated index then list_grow l' index else ok l')
    store l'' index item

  unfoldable pub list_append2 : ListS → ℕ → ℕ → Result ListS
  unfolding list_grow store
  list_append2 l item0 item1 = do
    let index = l.count
    let l' = record l { count = w64 (index + 2) }
    l'' ← (if leb l.last_allocated index then list_grow l' (w64 (index + 1)) else ok l')
    l''' ← store l'' index item0
    store l''' (index + 1) item1

  -- `memcpy(lst->items + base, src + from, n)`, item by item.
  unfoldable pub copy_items : ListS → ℕ → ListS → ℕ → ℕ → Result ListS
  unfolding load store
  copy_items l base src from zero = ok l
  copy_items l base src from (suc n) = do
    l' ← copy_items l base src from n
    v ← load src (from + n)
    store l' (base + n) v

  unfoldable pub list_extend : ListS → ListS → ℕ → Result ListS
  unfolding list_grow copy_items
  list_extend l src slicestart = if leb src.count slicestart then ok l else extend
    where
      extend : Result ListS
      extend = do
        let base = l.count
        let l' = record l { count = w64 (base + src.count - slicestart) }
        let last = l'.count - 1
        l'' ← (if ltb l.last_allocated last then list_grow l' last else ok l')
        copy_items l'' base src slicestart (src.count - slicestart)
