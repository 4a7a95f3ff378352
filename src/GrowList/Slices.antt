-- ===== src/GrowList/Slices.antt =====
-- c7/stm/list.h: the items of an array as a list.
use native.Mathlib.Nat.{add-zero, zero-add, add-suc, add_assoc}
use pypy_stmgc.Base.{
  append-nil, ℕ, zero, suc, ◌+◌, ◌≤◌, ◌<◌, ◌≡◌, refl, List, [], ◌∷◌, ◌++◌, update, arith,
  append_assoc,
}
use pypy_stmgc.GrowList.{ListS}

-- `f from, …, f (from + n - 1)`
abbrev pub slice : (ℕ → ℕ) → ℕ → ℕ → List ℕ
slice f from zero = []
slice f from (suc n) = slice f from n ++ f (from + n) ∷ []

-- The list that an array stands for.
abbrev pub contents : ListS → List ℕ
contents l = slice l.items 0 l.count

pub slice-update_ge :
    (f : ℕ → ℕ) (from n i v : ℕ) → from + n ≤ i → slice (update f i v) from n ≡ slice f from n
slice-update_ge f from zero i v h = refl
slice-update_ge f from (suc n) i v h = ground (arith, slice-update_ge f from n i v)

pub slice-append :
    (f : ℕ → ℕ) (from n m : ℕ) → slice f from (n + m) ≡ slice f from n ++ slice f (from + n) m
slice-append f from n zero = simp (add-zero, append-nil)
slice-append f from n (suc m) = simp (add-suc, slice-append f from n m, append_assoc, add_assoc)

pub slice-shift :
    (f g : ℕ → ℕ) (a b n : ℕ)
    → ((i : ℕ) → i < n → f (a + i) ≡ g (b + i))
    → slice f a n ≡ slice g b n
slice-shift f g a b zero h = refl
slice-shift f g a b (suc n) h =
    let ih = slice-shift f g a b n (λ i lt. h i (omega arith)) in ground (arith, h n, ih)

pub slice-joined :
    (f g h : ℕ → ℕ) (c start n : ℕ)
    → ((i : ℕ) → i < n → f (c + i) ≡ h (start + i))
    → ((i : ℕ) → i < c → f i ≡ g i)
    → slice f 0 (c + n) ≡ slice g 0 c ++ slice h start n
slice-joined f g h c start n moved kept =
    let low : slice f 0 c ≡ slice g 0 c = slice-shift f g 0 0 c (λ i lt. rw zero-add (kept i lt)) in
    let high : slice f c n ≡ slice h start n = slice-shift f h c start n moved in
    rw (slice-append f 0 c n, zero-add, low, high)

pub slice-cons : (f : ℕ → ℕ) (i n : ℕ) → slice f i (suc n) ≡ f i ∷ slice f (i + 1) n
slice-cons f i zero = rw add-zero
slice-cons f i (suc n) = let e : i + suc n ≡ i + 1 + n = omega arith in rw (slice-cons f i n) (rw e)
