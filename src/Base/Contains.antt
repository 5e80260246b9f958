-- ===== src/Base/Contains.antt =====
-- Membership in a list of numbers as a test, and lists without repetition.
use Prim.Native.Nat.{ℕ}
use mathlib.Core.Path.{◌≡◌, refl, sym, ap, ◌∙◌}
use mathlib.Core.Bool.{Bool, true, false, ◌||◌}
use mathlib.Core.List.{List, [], ◌∷◌, ◌++◌, append-nil, append_assoc}
use native.Mathlib.Omega.{arith}
use mathlib.Core.Logic.{◌⊎◌}
use tanh_lib.Base.Tests.{◌==◌}

abbrev pub contains : ℕ → List ℕ → Bool
contains a [] = false
contains a (x ∷ xs) = (x == a) || contains a xs

pub contains-append :
    (a : ℕ) (xs ys : List ℕ) → contains a (xs ++ ys) ≡ (contains a xs || contains a ys)
contains-append a [] ys = refl
contains-append a (x ∷ xs) ys = ground (arith, contains-append a xs ys)

-- No number stands twice.
abbrev pub IsNodup : List ℕ → Type 0
IsNodup [] = Unit
IsNodup (x ∷ xs) = (contains x xs ≡ false) × IsNodup xs

pub IsNodup-append :
    (xs ys : List ℕ)
    → IsNodup xs
    → IsNodup ys
    → ((a : ℕ) → contains a xs ≡ true → contains a ys ≡ false)
    → IsNodup (xs ++ ys)
IsNodup-append [] ys nx ny apart = ny
IsNodup-append (x ∷ xs) ys nx ny apart = (
  ground (arith, contains-append x xs ys, apart x, nx.0),
  IsNodup-append xs ys nx.1 ny (λ a h. apart a (ground (arith, h))),
)

abbrev pub concat : List (List ℕ) → List ℕ
concat [] = []
concat (c ∷ cs) = c ++ concat cs

pub concat-snoc : (cs : List (List ℕ)) (c : List ℕ) → concat (cs ++ (c ∷ [])) ≡ concat cs ++ c
concat-snoc [] c = append-nil c
concat-snoc (b ∷ cs) c = ap (◌++◌ b) (concat-snoc cs c) ∙ sym (append_assoc b (concat cs) c)

pub contains-cases :
    (a x : ℕ) (xs : List ℕ) → contains a (x ∷ xs) ≡ true → (x ≡ a) ⊎ (contains a xs ≡ true)
contains-cases a x xs h = ground (arith, h)

pub contains-append_cases :
    (a : ℕ) (xs ys : List ℕ)
    → contains a (xs ++ ys) ≡ true
    → (contains a xs ≡ true) ⊎ (contains a ys ≡ true)
contains-append_cases a xs ys h = ground (arith, h, contains-append a xs ys)

pub IsNodup-drop : (xs ys : List ℕ) → IsNodup (xs ++ ys) → IsNodup ys
IsNodup-drop [] ys n = n
IsNodup-drop (x ∷ xs) ys n = IsNodup-drop xs ys n.1

pub IsNodup-apart :
    (xs ys : List ℕ) (a : ℕ) → IsNodup (xs ++ ys) → contains a ys ≡ true → contains a xs ≡ false
IsNodup-apart [] ys a n h = refl
IsNodup-apart (x ∷ xs) ys a n h =
    ground (arith, n.0, h, contains-append x xs ys, IsNodup-apart xs ys a n.1 h)
