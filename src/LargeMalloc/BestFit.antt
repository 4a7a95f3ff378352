-- ===== src/LargeMalloc/BestFit.antt =====
-- c7/stm/largemalloc.c: the size of the smallest free block that fits.
use pypy_stmgc.Base.{
  ℕ, ◌≤◌, ◌<◌, ◌≡◌, refl, ap, sym, subst, Bool, true, false, ◌&&◌, ◌||◌, leb, ◌==◌, if◌then◌else◌,
  Option, none, some, List, [], ◌∷◌, arith, Bool-cases, Option-cases, inl, inr,
}
use pypy_stmgc.LargeMalloc.Layout.{Block, block_size, is_free}

-- The size of the smallest free block that has at least `request` bytes.
unfoldable pub best_fit : ℕ → List Block → Option ℕ
best_fit request [] = none
best_fit request (b ∷ bs) =
    let fits = is_free b && leb request (block_size b) in
    elim (best_fit request bs) [
      | none ↦ if fits then some (block_size b) else none
      | some n ↦ some (if fits && leb (block_size b) n then block_size b else n)
    ]

-- The blocks have a free one of the size.
abbrev pub has_free : ℕ → List Block → Bool
has_free k [] = false
has_free k (b ∷ bs) = (is_free b && block_size b == k) || has_free k bs

abbrev Best : ℕ → List Block → Option ℕ → Type 0
Best request bs none = (k : ℕ) → has_free k bs ≡ true → k < request
Best request bs (some n) =
    (has_free n bs ≡ true) × (request ≤ n) × ((k : ℕ) → has_free k bs ≡ true → request ≤ k → n ≤ k)

Best-cons_none :
    (request : ℕ) (b : Block) (bs : List Block)
    → Best request bs none
    → Best request
        (b ∷ bs)
        (if is_free b && leb request (block_size b) then some (block_size b) else none)
Best-cons_none request b bs best = elim (Bool-cases (is_free b && leb request (block_size b))) [
  | inl e ↦ rw e (ground (arith, e), ground (arith, e), λ k m big. ground (arith, m, best k))
  | inr e ↦ rw e (λ k m. ground (arith, e, m, best k))
]

Best-cons_some :
    (request : ℕ) (b : Block) (bs : List Block) (n : ℕ)
    → Best request bs (some n)
    → Best request (b ∷ bs) (
        some (
          if is_free b && leb request (block_size b) && leb (block_size b) n
          then block_size b
          else n))
Best-cons_some request b bs n (here, big, least) =
    let smaller = is_free b && leb request (block_size b) && leb (block_size b) n in
    elim (Bool-cases smaller) [
      | inl e ↦
          let e' : (if smaller then block_size b else n) ≡ block_size b = rw e refl in
          subst (λ m. Best request (b ∷ bs) (some m)) (sym e')
            (ground (arith, e), ground (arith, e), λ k m big'. ground (arith, e, m, least k))
      | inr e ↦
          let e' : (if smaller then block_size b else n) ≡ n = rw e refl in
          subst (λ m. Best request (b ∷ bs) (some m)) (sym e')
            (ground (arith, here), big, λ k m big'. ground (arith, e, m, least k))
    ]

best_fit-nil : (request : ℕ) → Best request [] (best_fit request [])
unfolding best_fit
best_fit-nil request = λ k m. absurd (ground (arith, m))

best_fit-cons_none :
    (request : ℕ) (b : Block) (bs : List Block)
    → best_fit request bs ≡ none
    → best_fit request (b ∷ bs)
      ≡ (if is_free b && leb request (block_size b) then some (block_size b) else none)
unfolding best_fit
best_fit-cons_none request b bs e = rw (e, best_fit) refl

best_fit-cons_some :
    (request : ℕ) (b : Block) (bs : List Block) (n : ℕ)
    → best_fit request bs ≡ some n
    → best_fit request (b ∷ bs)
      ≡ some (
          if is_free b && leb request (block_size b) && leb (block_size b) n
          then block_size b
          else n)
unfolding best_fit
best_fit-cons_some request b bs n e = rw (e, best_fit) refl

pub best_fit-Best : (request : ℕ) (bs : List Block) → Best request bs (best_fit request bs)
best_fit-Best request [] = best_fit-nil request
best_fit-Best request (b ∷ bs) =
    let ih = best_fit-Best request bs in
    elim (Option-cases (best_fit request bs)) [
      | inl e ↦
          subst (Best request (b ∷ bs)) (sym (best_fit-cons_none request b bs e))
            (Best-cons_none request b bs (subst (Best request bs) e ih))
      | inr (n, e) ↦
          subst (Best request (b ∷ bs)) (sym (best_fit-cons_some request b bs n e))
            (Best-cons_some request b bs n (subst (Best request bs) e ih))
    ]

pub Best-unique :
    (request : ℕ) (bs : List Block) (a b : Option ℕ) → Best request bs a → Best request bs b → a ≡ b
Best-unique request bs none none p q = refl
Best-unique request bs none (some n) p (here, big, _) = absurd (omega (arith, p n here))
Best-unique request bs (some n) none (here, big, _) q = absurd (omega (arith, q n here))
Best-unique request bs (some n) (some k) (here, big, least) (here', big', least') =
    ap some (omega (arith, least k here' big', least' n here big))
