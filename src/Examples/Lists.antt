-- ===== src/Examples/Lists.antt =====
-- The theorems on c7/stm/list.h at concrete lists.
use mathlib.Core.List.{foldr, foldl}
use pypy_stmgc.Base.{◌+◌, ◌*◌, ◌≡◌, arith, [], ◌∷◌}
use pypy_stmgc.GrowList.{list_append, list_extend, foreach_r, foreach_f}
use pypy_stmgc.GrowList.Laws.{IsValid, Gives, list_append-Gives, list_extend-Gives, foreach_lem}
use pypy_stmgc.Examples.Data.{two_items, any_size}

two_items-IsValid : IsValid two_items
two_items-IsValid = record { within = omega arith; small = omega arith }

list_append_example : Gives any_size (list_append any_size two_items 9) (5 ∷ 6 ∷ 9 ∷ [])
list_append_example = list_append-Gives any_size two_items 9 two_items-IsValid (omega arith)

list_extend_example : Gives any_size (list_extend any_size two_items two_items 1) (5 ∷ 6 ∷ 6 ∷ [])
list_extend_example =
    list_extend-Gives any_size two_items two_items 1 two_items-IsValid two_items-IsValid
      (omega arith)

foreach_example :
    (foreach_r (λ x t. x + 2 * t) two_items.items two_items.count 1
      ≡ foldr (λ x t. x + 2 * t) 1 (5 ∷ 6 ∷ []))
    × (foreach_f (λ x t. x + 2 * t) two_items.items 0 two_items.count 1
        ≡ foldl (λ t x. x + 2 * t) 1 (5 ∷ 6 ∷ []))
foreach_example = foreach_lem (λ x t. x + 2 * t) two_items 1
