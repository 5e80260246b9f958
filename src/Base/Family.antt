-- ===== src/Base/Family.antt =====
-- Families indexed by numbers.
use Prim.Native.Nat.{ℕ}
use tanh_lib.Base.Tests.{if◌then◌else◌, ◌==◌}

-- The family `f` with `a` at `i`.
abbrev pub update {ℓ} : {A : Type ℓ} → (ℕ → A) → ℕ → A → ℕ → A
update f i a j = if i == j then a else f j
