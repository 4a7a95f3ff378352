-- ===== src/Base/Tables.antt =====
-- Arrays and tables as functions of an index.
use Prim.Native.Nat.{ℕ}
use pypy_stmgc.Base.Tests.{◌==◌, if◌then◌else◌}

-- `f[i] = v`
abbrev pub update {ℓ} : {A : Type ℓ} → (ℕ → A) → ℕ → A → ℕ → A
update f i v j = if j == i then v else f j
