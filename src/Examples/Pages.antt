-- ===== src/Examples/Pages.antt =====
-- The theorems on c7/stm/pages.c and the copying loops of c7/stm/core.c at concrete memories.
use pypy_stmgc.Base.{◌+◌, ◌≤◌, ◌≡◌, arith, true}
use pypy_stmgc.Memory.{
  is_private_page, load, backing, count_bits, page_privatize, page_check_and_reshare,
  page_wise_synchronize_object_now,
}
use pypy_stmgc.Memory.Privatize.{page_privatize_lem, accounting_lem, cost}
use pypy_stmgc.Memory.Synchronize.{load-page_wise}
use pypy_stmgc.Examples.Data.{obj, two_copies, no_copies}

page_wise_example : load (page_wise_synchronize_object_now two_copies 1 obj 64) 2 (obj + 8) ≡ 65
unfolding load backing
page_wise_example =
    load-page_wise two_copies 1 obj 64 2 (obj + 8) (omega arith) (omega arith) (omega arith)

page_privatize_example :
    (is_private_page (page_privatize no_copies 3 200000) 3 200000 ≡ true)
    × (load (page_privatize no_copies 3 200000) 3 obj ≡ load no_copies 3 obj)
page_privatize_example = page_privatize_lem no_copies 3 200000 3 obj (omega arith)

two_copies-covered : cost two_copies 200000 ≤ 100000
unfolding cost count_bits
two_copies-covered = ground arith

accounting_example :
    ((page_privatize two_copies 3 200000).total_allocated + cost two_copies 200000
      ≡ 100000 + cost (page_privatize two_copies 3 200000) 200000)
    × ((page_check_and_reshare two_copies 200000).total_allocated + cost two_copies 200000
        ≡ 100000 + cost (page_check_and_reshare two_copies 200000) 200000)
accounting_example =
    accounting_lem two_copies 3 200000 (omega arith) (omega arith) (omega arith) two_copies-covered
