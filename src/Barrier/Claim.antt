-- ===== src/Barrier/Claim.antt =====
-- c7/stm/core.c, `write_slowpath_common`: what a write barrier gives the transaction, and what the
-- other segments see of it.
use pypy_stmgc.Base.{
  ℕ, zero, suc, ◌+◌, ◌-◌, ◌/◌, ◌≤◌, ◌<◌, ◌≡◌, refl, ◌∙◌, ap, true, false, ◌&&◌, ◌||◌, leb, ltb,
  ◌==◌, if◌then◌else◌, update, arith, ◌∷◌,
}
use pypy_stmgc.Memory.{Mem, load, store, page_privatize, is_private_page}
use pypy_stmgc.Memory.Privatize.{page_privatize_lem, page_privatize-by_segment, store_isolated}
use pypy_stmgc.State.{
  System, Objects, done, >>=-done, modify, Cond, set_segment, flags_of, set_flags_of,
  is_overflow_obj, has_flag, clear_flag, write_barrier, small_uniform, cards_set,
  get_write_lock_idx,
}
use pypy_stmgc.Barrier.{
  add_pointing_to_nursery, reset_cards_if_set, without_barrier, stm_read, privatize_pages,
  privatize_object, take_lock, record_write, claim, write_slowpath_common, stm_write_slowpath,
}

load-privatize_pages :
    (n : ℕ) (m : Mem) (me page t a : ℕ)
    → 0 < me
    → load (privatize_pages m me page n) t a ≡ load m t a
unfolding privatize_pages
load-privatize_pages zero m me page t a pos = refl
load-privatize_pages (suc n) m me page t a pos =
    load-privatize_pages n (page_privatize m me page) me (page + 1) t a pos
    ∙ (page_privatize_lem m me page t a pos).1

bits-privatize_pages :
    (n : ℕ) (m : Mem) (me page t p : ℕ)
    → is_private_page (privatize_pages m me page n) t p
      ≡ ((leb page p && ltb p (page + n) && t == me) || is_private_page m t p)
unfolding privatize_pages
bits-privatize_pages zero m me page t p = ground arith
bits-privatize_pages (suc n) m me page t p = ground (
  arith,
  bits-privatize_pages n (page_privatize m me page) me (page + 1) t p,
  page_privatize-by_segment m me page p t,
)

stm_read-locks : (me obj : ℕ) (s : System) → (stm_read me obj s).write_locks ≡ s.write_locks
unfolding stm_read set_segment
stm_read-locks me obj s = refl

module _ (o : Objects) (me obj : ℕ) (pos : 0 < me) (big : 0 < o.size_rounded_up obj) where
  -- Privatizing the pages of an object changes no read; all its pages are private then, but for an
  -- object among the small ones, which has one page.
  load-privatize_object :
      (s : System) (t a : ℕ) → load (privatize_object o me obj s).mem t a ≡ load s.mem t a
  unfolding privatize_object
  load-privatize_object s t a = ground (
    arith,
    load-privatize_pages 1 s.mem me (obj / 4096) t a pos,
    load-privatize_pages ((obj + o.size_rounded_up obj - 1) / 4096 + 1 - obj / 4096) s.mem me
        (obj / 4096) t a pos,
  )

  first-private :
      (s : System) → is_private_page (privatize_object o me obj s).mem me (obj / 4096) ≡ true
  unfolding privatize_object
  first-private s = ground (
    arith,
    bits-privatize_pages 1 s.mem me (obj / 4096) me (obj / 4096),
    bits-privatize_pages ((obj + o.size_rounded_up obj - 1) / 4096 + 1 - obj / 4096) s.mem me
        (obj / 4096) me (obj / 4096),
  )

  -- Every page of an object that is not among the small ones is private.
  pages-private :
      (s : System) (p : ℕ)
      → has_flag (flags_of s me obj) small_uniform ≡ false
      → obj / 4096 ≤ p
      → p ≤ (obj + o.size_rounded_up obj - 1) / 4096
      → is_private_page (privatize_object o me obj s).mem me p ≡ true
  unfolding privatize_object
  pages-private s p large low high = ground (
    arith,
    bits-privatize_pages ((obj + o.size_rounded_up obj - 1) / 4096 + 1 - obj / 4096) s.mem me
        (obj / 4096) me p,
  )

  abbrev claimed : System → System
  claimed s = take_lock o me obj (stm_read me obj s)

  load-claimed : (s : System) (t a : ℕ) → load (claimed s).mem t a ≡ load s.mem t a
  unfolding take_lock stm_read set_segment
  load-claimed s t a = load-privatize_object _ t a

  claimed-private : (s : System) → is_private_page (claimed s).mem me (obj / 4096) ≡ true
  unfolding take_lock
  claimed-private s = first-private _

  claim-at_once :
      (wait : Cond → ℕ → System → System) (fuel : ℕ) (s : System)
      → s.write_locks (get_write_lock_idx obj) ≡ 0
      → claim o wait (suc fuel) me obj s ≡ done tt (take_lock o me obj s)
  unfolding claim
  claim-at_once wait fuel s free =
      let test : (s.write_locks (get_write_lock_idx obj) == 0) ≡ true = ground arith in rw test

  module _ (wait : Cond → ℕ → System → System) (s : System)
      (uncarded : has_flag (flags_of s me obj) cards_set ≡ false) where
    abbrev written : System
    written = record_write o me obj false (claimed s)

    -- With no card marked, all that is left to do is to clear the flags.
    written_lem :
        written
        ≡ set_flags_of
            (add_pointing_to_nursery me obj (claimed s))
            me
            obj
            (without_barrier (load s.mem me obj))
    unfolding record_write reset_cards_if_set flags_of add_pointing_to_nursery set_segment
    written_lem =
        let same = load-claimed s me obj in
        let none_set : has_flag (load (claimed s).mem me obj) cards_set ≡ false =
          rw same uncarded in
        rw (none_set) (rw same)

    claim-free :
        (fuel : ℕ)
        → s.write_locks (get_write_lock_idx obj) ≡ 0
        → is_overflow_obj s me obj ≡ false
        → stm_write_slowpath o wait (suc fuel) me obj s ≡ done tt written
    unfolding stm_write_slowpath write_slowpath_common
    claim-free fuel free old = rw old (
        >>=-done (claim o wait (suc fuel) me obj) (λ _. modify (record_write o me obj false))
          (stm_read me obj s) tt (claimed s)
          (claim-at_once wait fuel (stm_read me obj s)
            (ap (λ l. l (get_write_lock_idx obj)) (stm_read-locks me obj s) ∙ free)))

    load-written :
        (t a : ℕ)
        → load written.mem t a ≡ (
            if t == me && a == obj
            then clear_flag (clear_flag (load s.mem me obj) write_barrier) cards_set
            else load s.mem t a)
    unfolding set_flags_of add_pointing_to_nursery set_segment
    load-written t a = rw written_lem (
        ground (
          arith,
          load-claimed s t a,
          store_isolated (claimed s).mem me obj (without_barrier (load s.mem me obj)) t a pos
              (claimed-private s),
        ))

    written-private :
        (p : ℕ)
        → is_private_page (claimed s).mem me p ≡ true
        → is_private_page written.mem me p ≡ true
    unfolding set_flags_of add_pointing_to_nursery set_segment store
    written-private p before = rw written_lem before

    claimed-all_private :
        (p : ℕ)
        → has_flag (flags_of s me obj) small_uniform ≡ false
        → obj / 4096 ≤ p
        → p ≤ (obj + o.size_rounded_up obj - 1) / 4096
        → is_private_page (claimed s).mem me p ≡ true
    unfolding take_lock set_segment flags_of stm_read
    claimed-all_private p large = pages-private _ p large

    written-lists :
        (written.write_locks
          ≡ update s.write_locks (get_write_lock_idx obj) (s.segment me).write_lock_num)
        × ((written.segment me).modified_old_objects ≡ obj ∷ (s.segment me).modified_old_objects)
    unfolding set_flags_of add_pointing_to_nursery set_segment take_lock privatize_object stm_read
    written-lists = rw written_lem (ground arith, ground arith)

    -- For a segment that is not the shared one and an object that has a size, is not one of
    -- this transaction's own, has its lock free and its flag for set cards clear, the barrier
    -- returns without a retry. Then the lock is held under the segment's number and the other
    -- locks are what they were; the object comes first among the modified ones; its first page
    -- is private to the segment, and so are all its pages if it is not among the small ones;
    -- and every segment reads every address as before, but for two flags of the object that are
    -- clear now as this segment sees them.
    pub write_barrier_lem :
        (fuel : ℕ)
        → s.write_locks (get_write_lock_idx obj) ≡ 0
        → is_overflow_obj s me obj ≡ false
        → (t : System) × (stm_write_slowpath o wait (suc fuel) me obj s ≡ done tt t)
          × (t.write_locks
              ≡ update s.write_locks (get_write_lock_idx obj) (s.segment me).write_lock_num)
          × ((t.segment me).modified_old_objects ≡ obj ∷ (s.segment me).modified_old_objects)
          × (is_private_page t.mem me (obj / 4096) ≡ true)
          × ((p : ℕ)
              → has_flag (flags_of s me obj) small_uniform ≡ false
              → obj / 4096 ≤ p
              → p ≤ (obj + o.size_rounded_up obj - 1) / 4096
              → is_private_page t.mem me p ≡ true)
          × ((i a : ℕ)
              → load t.mem i a ≡ (
                  if i == me && a == obj
                  then clear_flag (clear_flag (load s.mem me obj) write_barrier) cards_set
                  else load s.mem i a))
    write_barrier_lem fuel free old = (
      written,
      claim-free fuel free old,
      written-lists.0,
      written-lists.1,
      written-private (obj / 4096) (claimed-private s),
      (λ p large low high. written-private p (claimed-all_private p large low high)),
      load-written,
    )
