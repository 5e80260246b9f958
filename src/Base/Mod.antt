-- ===== src/Base/Mod.antt =====
-- Remainders by a variable, for indices that go round a buffer.
use Prim.Native.Nat.{ℕ, ◌+◌, ◌-◌, ◌%◌, ◌≤◌, ◌<◌}
use mathlib.Core.Path.{◌≡◌, ◌∙◌, ap}
use native.Mathlib.Nat.{mod-eq_of_lt, mod-eq-sub-mod, mod-add-mod, add-mod_right}
use native.Mathlib.Omega.{arith}

pub mod-eq_sub : {c n : ℕ} → c ≤ n → n < c + c → n % c ≡ n - c
mod-eq_sub {c} {n} h k = mod-eq-sub-mod {n = n} {m = c} h ∙ mod-eq_of_lt (omega arith)

pub mod_below : {c n : ℕ} → n < c → n % c ≡ n
mod_below h = mod-eq_of_lt h

pub mod_bound : {c : ℕ} (n : ℕ) → 0 < c → n % c < c
mod_bound n h = omega arith

pub mod_step : (c n k : ℕ) → (n % c + k) % c ≡ (n + k) % c
mod_step c n k = mod-add-mod n c k

pub mod_cong : (c : ℕ) {m n : ℕ} → m ≡ n → m % c ≡ n % c
mod_cong c e = ap (λ k. k % c) e

pub mod-add_self : (c n : ℕ) → (n + c) % c ≡ n % c
mod-add_self c n = add-mod_right n c
