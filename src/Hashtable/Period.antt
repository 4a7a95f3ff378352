-- ===== src/Hashtable/Period.antt =====
-- c7/stm/hashtable.c: the slots that are probed once `perturb` is 0, i ↦ 5 * i + 1.
use native.Mathlib.Nat.{add-mul-mod_self_right, mod-eq_of_lt}
use pypy_stmgc.Base.{
  ℕ, zero, suc, ◌+◌, ◌*◌, ◌^◌, ◌%◌, ◌<◌, ◌≡◌, refl, ap, sym, ◌∙◌, arith, inl, inr, ◌⊎◌,
}

unfoldable pub orbit : ℕ → ℕ → ℕ
orbit zero x = x
orbit (suc n) x = orbit n (5 * x + 1)

orbit_add : (m n x : ℕ) → orbit (m + n) x ≡ orbit n (orbit m x)
unfolding orbit
orbit_add zero n x = let e : 0 + n ≡ n = omega arith in rw e refl
orbit_add (suc m) n x =
    let e : suc m + n ≡ suc (m + n) = omega arith in rw e (orbit_add m n (5 * x + 1))

-- 1 + 5 + … + 5 ^ (n - 1)
unfoldable sum : ℕ → ℕ
sum zero = 0
sum (suc n) = 5 * sum n + 1

orbit-sum : (n x : ℕ) → orbit n x ≡ 4 * (sum n * x) + x + sum n
unfolding orbit sum
orbit-sum zero x = omega arith
orbit-sum (suc n) x = grind (arith, orbit-sum n (5 * x + 1))

sum_add : (m n : ℕ) → sum (m + n) ≡ 4 * (sum m * sum n) + sum m + sum n
unfolding sum
sum_add zero n = let e : 0 + n ≡ n = omega arith in rw e (omega arith)
sum_add (suc m) n =
    let e : suc m + n ≡ suc (m + n) = omega arith in rw e (grind (arith, sum_add m n))

-- 2 ^ k divides the sum of 2 ^ k powers, and what is left is odd.
sum_power : (k : ℕ) → (c : ℕ) × (sum (2 ^ k) ≡ 2 ^ k * (2 * c + 1))
unfolding sum
sum_power zero = (0, refl)
sum_power (suc k) =
    let (c, e) = sum_power k in
    let q = 2 ^ k in
    let twice : 2 ^ suc k ≡ q + q = omega arith in
    (
      2 * (2 ^ k * (2 * c + 1) * c) + 2 ^ k * (2 * c + 1) + c,
      rw twice (sum_add q q ∙ rw e grind arith),
    )

orbit_power : (k x : ℕ) → (d : ℕ) × (orbit (2 ^ k) x ≡ x + 2 ^ k + 2 ^ suc k * d)
orbit_power k x =
    let (c, e) = sum_power k in
    (
      2 * ((2 * c + 1) * x) + c,
      orbit-sum (2 ^ k) x
          ∙ rw e let twice : 2 ^ suc k ≡ 2 ^ k + 2 ^ k = omega arith in rw twice (grind arith),
    )

-- A multiple of `q` is between the two.
abbrev Cong : ℕ → ℕ → ℕ → Type 0
Cong q a b = (u : ℕ) × (v : ℕ) × (a + u * q ≡ b + v * q)

parity : (u : ℕ) → (h : ℕ) × ((u ≡ 2 * h) ⊎ (u ≡ 2 * h + 1))
parity zero = (0, inl refl)
parity (suc u) =
    let (h, halves) = parity u in
    elim halves [ inl e ↦ (h, inr (omega arith)) | inr e ↦ (h + 1, inl (omega arith)) ]

Cong-halves :
    (q a b u v h k : ℕ)
    → (u ≡ 2 * h) ⊎ (u ≡ 2 * h + 1)
    → (v ≡ 2 * k) ⊎ (v ≡ 2 * k + 1)
    → a + u * q ≡ b + v * q
    → Cong (q + q) a b ⊎ Cong (q + q) (a + q) b
Cong-halves q a b u v h k (inl s) (inl t) e = inl (h, k, grind (arith, rw (s, t) at e))
Cong-halves q a b u v h k (inl s) (inr t) e = inr (h, k + 1, grind (arith, rw (s, t) at e))
Cong-halves q a b u v h k (inr s) (inl t) e = inr (h, k, grind (arith, rw (s, t) at e))
Cong-halves q a b u v h k (inr s) (inr t) e = inl (h, k, grind (arith, rw (s, t) at e))

-- Modulo 2 * q there are two numbers that are the same modulo q.
Cong-double : (q a b : ℕ) → Cong q a b → Cong (q + q) a b ⊎ Cong (q + q) (a + q) b
Cong-double q a b (u, v, e) =
    let (h, halves) = parity u in
    let (k, halves') = parity v in Cong-halves q a b u v h k halves halves' e

shift :
    (q a b u v d : ℕ)
    → a + q + u * (q + q) ≡ b + v * (q + q)
    → a + q + (q + q) * d + u * (q + q) ≡ b + (v + d) * (q + q)
shift q a b u v d e = grind (arith, e)

-- Every number is reached modulo 2 ^ k, from everywhere.
orbit_reach : (k x y : ℕ) → (n : ℕ) × Cong (2 ^ k) (orbit n x) y
unfolding orbit
orbit_reach zero x y = (0, (y, x, omega arith))
orbit_reach (suc k) x y =
    let (n, near) = orbit_reach k x y in
    let twice : 2 ^ suc k ≡ 2 ^ k + 2 ^ k = omega arith in
    elim (Cong-double (2 ^ k) (orbit n x) y near) [
      | inl c ↦ (n, rw twice c)
      | inr (u, v, e) ↦
          let (d, e') = orbit_power k (orbit n x) in
          (
            n + 2 ^ k,
            (u, v + d, rw (orbit_add n (2 ^ k) x, e', twice) (shift (2 ^ k) (orbit n x) y u v d e)),
          )
    ]

pub orbit_reach_mod : (k x y : ℕ) → y < 2 ^ k → (n : ℕ) × (orbit n x % 2 ^ k ≡ y)
orbit_reach_mod k x y low =
    let (n, (u, v, e)) = orbit_reach k x y in
    (
      n,
      sym (add-mul-mod_self_right (orbit n x) u (2 ^ k))
          ∙ (ap (λ a. a % 2 ^ k) e ∙ (add-mul-mod_self_right y v (2 ^ k) ∙ mod-eq_of_lt low)),
    )
