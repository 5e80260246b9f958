-- ===== src/Modulation/Schedule/Fuel.antt =====
-- The nodes without an index, which the fuel has to cover.
use tanh_lib.Base.{
  ℕ, suc, ◌+◌, ◌<◌, ◌≤◌, ◌≡◌, ap, true, false, ◌==◌, if◌then◌else◌, List, [], ◌∷◌, Option, contains,
  length, arith, Bool-cases, inl, inr,
}
use tanh_lib.Modulation.Schedule.Inv.{has_index}

-- How many entries of a list of nodes have no index.
pub unseen : (ℕ → Option ℕ) → List ℕ → ℕ
unseen index [] = 0
unseen index (x ∷ xs) = (if has_index (index x) then 0 else 1) + unseen index xs

pub unseen-le :
    (i j : ℕ → Option ℕ) (xs : List ℕ)
    → ((x : ℕ) → has_index (i x) ≡ true → has_index (j x) ≡ true)
    → unseen j xs ≤ unseen i xs
unfolding unseen
unseen-le i j [] h = omega arith
unseen-le i j (x ∷ xs) h = ground (arith, unseen-le i j xs h, h x)

pub unseen-lt :
    (i j : ℕ → Option ℕ) (xs : List ℕ) (v : ℕ)
    → ((x : ℕ) → has_index (i x) ≡ true → has_index (j x) ≡ true)
    → contains v xs ≡ true
    → has_index (i v) ≡ false
    → has_index (j v) ≡ true
    → unseen j xs < unseen i xs
unfolding unseen
unseen-lt i j [] v h m e k = (cc)
unseen-lt i j (x ∷ xs) v h m e k = elim (Bool-cases (x == v)) [
  | inl same ↦ first (ground arith)
  | inr other ↦ ground (arith, unseen-lt i j xs v h (ground arith) e k, h x)
]
  where
    first : x ≡ v → suc (unseen j (x ∷ xs)) ≤ unseen i (x ∷ xs)
    first eq = ground (arith, unseen-le i j xs h, ap i eq, ap j eq)

pub unseen-le_length : (i : ℕ → Option ℕ) (xs : List ℕ) → unseen i xs ≤ length xs
unfolding unseen
unseen-le_length i [] = omega arith
unseen-le_length i (x ∷ xs) = ground (arith, unseen-le_length i xs)
