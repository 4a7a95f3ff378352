-- ===== src/Lib.antt =====
-- A model of the transactional core of the c7 library (c7/stm): segments that share pages of
-- objects, write locks, read markers, safe points, conflicts, aborts and commits.
--
-- The allocator that large objects come from, and hashtables, are modelled beside it.
--
-- A segment is an address space for one running transaction. All segments see the same objects; a
-- page that a transaction writes to gets a private copy first. A transaction takes the lock of an
-- object before it writes to it (the write barrier) and leaves a marker where it reads (the read
-- barrier). When it commits it stops the other threads, looks for readers of what it has written,
-- lets contention management decide, and copies its objects to the shared pages and to the private
-- copies of the others. When it aborts it copies them back from the shared pages.
--
-- The parts, and the code that each one models:
--   * Base: library names, Boolean tests, lists and tables that the other files use.
--   * GrowList: c7/stm/list.h and c7/stm/list.c, `struct list_s`. Elsewhere such a list is a List
--     with the last item in front, the order in which LIST_FOREACH_R goes.
--   * AddressTree: the trees of the same two files, `struct tree_s`, as values.
--   * Memory: c7/stm/pages.h, c7/stm/pages.c, and the copying loops of c7/stm/core.c. `Mem` has the
--     cells of each segment's part of the file and the bits of `pages_privatized`; `backing` is the
--     mapping that the calls of remap_file_pages set up; `load` and `store` go through it.
--   * State: the structures of c7/stm/core.h, c7/stm/sync.h, c7/stm/nursery.h and c7/stmgc.h as the
--     record `System`, and `Outcome`, the ways in which a call ends: a return, the jump back to the
--     start of the transaction, a fatal error, or fuel that is used up.
--   * Cards: `_reset_object_cards` of c7/stm/nursery.c.
--   * Abort: c7/stm/core.c from `_finish_transaction` to `abort_with_mutex`, `throw_away_nursery` of
--     c7/stm/nursery.c, `release_thread_segment` of c7/stm/sync.c.
--   * Sync: c7/stm/sync.c.
--   * Contention: c7/stm/contention.c and `wait_for_end_of_inevitable_transaction` of c7/stm/sync.c.
--   * Barrier: `stm_read`, `stm_write` and `stm_write_card` of c7/stmgc.h and the slow paths of
--     c7/stm/core.c.
--   * Publish: c7/stm/core.c from `_has_private_page_in_range` to `push_modified_to_other_segments`.
--   * Commit: c7/stm/core.c, the start of a transaction, `_stm_become_inevitable`,
--     `detect_write_read_conflicts`, and `stm_commit_transaction` from the label `restart` on.
--   * LargeMalloc: c7/stm/largemalloc.c, the allocator of large objects. `Heap` has the headers of the
--     chunks by their addresses and the bins as lists; its child modules relate it to the list of
--     blocks, used and free, that the arena holds.
--   * Hashtable: c7/stm/hashtable.c. A table is a function from slots to entries, and an entry is its
--     address with its index. A lookup with its insertion is one step.
--   * Examples: small states, and the theorems at them.
--
-- Conventions. A segment or a thread is its number, and the segment that runs the code,
-- STM_SEGMENT, is an argument `me`. An object is its address. A cell holds a byte, but for the flags,
-- a word of 32 bits that is kept in the cell at the object's address. Numbers wrap around where they
-- are written with a remainder; addresses and sizes are small enough not to.
--
-- What is a parameter: the user program's callbacks on the size and the cards of an object
-- (`Objects`), whether the allocator has room (`avail`), what the other threads do to the state
-- while a thread is in `cond_wait` (`wait`), for a commit the major collection, and for the sweep
-- which objects are kept. A lookup in a hashtable has the address of the entry that it may make.
--
-- Fuel. The loops that wait for other threads end only when these do something: the pauses of
-- `enter_safe_point_if_requested` and `synchronize_all_threads`, the retries of the write barrier,
-- the restarts of a commit, the search for a free segment, the wait for an inevitable transaction.
-- They take fuel, and where nothing stands in the way 1 is enough. All other loops run over the
-- four segments, the cards or pages of an object, or a list, and need none. An insertion into a tree
-- has as fuel its 16 levels and one more, for the slot behind the last one. The sweep of the large
-- objects has fuel for its chunks; more than there are blocks is enough.
-- A search in a hashtable has fuel for the slots that it probes: since every slot is probed, some fuel
-- is enough for each search, and one restart is enough for a lookup.
--
-- What is not modelled: the buffers of the trees and the deques of c7/stm/list.c, the collections,
-- the allocator of small objects, what other threads do to a hashtable in between and the objects
-- behind its entries, finalizers, weak references, markers and timing, the user's callbacks
-- at commit, at abort and where a commit is asked for, the raw memory that an abort clears, saved
-- stacks, fork, and the setup of the library. The spinlocks are left out, since each function between
-- them is one step here. Assertions are left out too, as in a build with NDEBUG, and so is what only
-- the tests of the library compile.
pub mod Base
pub mod GrowList
pub mod AddressTree
pub mod Memory
pub mod State
pub mod Cards
pub mod Abort
pub mod Sync
pub mod Contention
pub mod Barrier
pub mod Publish
pub mod Commit
pub mod LargeMalloc
pub mod Hashtable
pub mod Examples
