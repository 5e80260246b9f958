-- ===== src/Modulation/Schedule/Inv.antt =====
-- What the search keeps between its steps: the stack, the indices and the components.
use tanh_lib.Base.{
  ℕ, ◌<◌, ◌≤◌, ◌≡◌, subst, Bool, true, false, ◌||◌, ◌==◌, List, [], ◌∷◌, ◌++◌, Option, none, some,
  contains, contains-append, IsNodup, concat, arith, Bool-cases, inl, inr,
}
use tanh_lib.Modulation.Schedule.{Graph, Tarjan, index_of}

-- Paths along the edges of the graph.
pub data Reach (adj : Graph) : ℕ → ℕ → Type 0 where
  here : {x : ℕ} → Reach adj x x
  step : {x y z : ℕ} → contains y (adj x) ≡ true → Reach adj y z → Reach adj x z

pub Reach-trans : {adj : Graph} {x y z : ℕ} → Reach adj x y → Reach adj y z → Reach adj x z
Reach-trans here q = q
Reach-trans (step e p) q = step e (Reach-trans p q)

abbrev pub has_index : Option ℕ → Bool
has_index none = false
has_index (some i) = true

-- The indices of the stack fall from `bound` on.
abbrev pub Descending : (ℕ → Option ℕ) → ℕ → List ℕ → Type 0
Descending index bound [] = Unit
Descending index bound (x ∷ xs) =
    (index_of (index x) < bound) × Descending index (index_of (index x)) xs

-- An edge out of a component leads to it or to a component before it, or into `seen`.
abbrev pub Ordered : Graph → List ℕ → List (List ℕ) → Type 0
Ordered adj seen [] = Unit
Ordered adj seen (c ∷ cs) =
    ((x y : ℕ)
      → contains x c ≡ true
      → contains y (adj x) ≡ true
      → (contains y seen || contains y c) ≡ true)
    × Ordered adj (seen ++ c) cs

-- The nodes of a component reach one another.
abbrev pub Linked : Graph → List (List ℕ) → Type 0
Linked adj [] = Unit
Linked adj (c ∷ cs) =
    ((x y : ℕ) → contains x c ≡ true → contains y c ≡ true → Reach adj x y) × Linked adj cs

pub record Inv (adj : Graph) (s : Tarjan) : Type 0 where
  pub stacked : (x : ℕ) → s.on_stack x ≡ contains x s.stack
  pub indexed : (x : ℕ) → has_index (s.index x) ≡ (contains x s.stack || contains x (concat s.sccs))
  pub descending : Descending s.index s.index_counter s.stack
  pub apart : (x : ℕ) → contains x s.stack ≡ true → contains x (concat s.sccs) ≡ false
  pub nodup : IsNodup (concat s.sccs)
  pub ordered : Ordered adj [] s.sccs
  pub linked : Linked adj s.sccs

-- Descending stacks.
module _ (index : ℕ → Option ℕ) where
  pub Descending-lt :
      (b : ℕ) (xs : List ℕ) (x : ℕ)
      → Descending index b xs
      → contains x xs ≡ true
      → index_of (index x) < b
  Descending-lt b [] x d h = (cc)
  Descending-lt b (y ∷ xs) x d h = elim (Bool-cases (y == x)) [
    | inl e ↦ let same : y ≡ x = ground arith in subst (λ z. index_of (index z) < b) same d.0
    | inr e ↦
        let rest = Descending-lt (index_of (index y)) xs x d.1 (ground arith) in
        omega (arith, rest, d.0)
  ]

  pub Descending-mono :
      (b c : ℕ) (xs : List ℕ) → b ≤ c → Descending index b xs → Descending index c xs
  Descending-mono b c [] h d = tt
  Descending-mono b c (x ∷ xs) h d = (omega (arith, d.0), d.1)

  pub Descending-drop :
      (b : ℕ) (xs ys : List ℕ) → Descending index b (xs ++ ys) → Descending index b ys
  Descending-drop b [] ys d = d
  Descending-drop b (x ∷ xs) ys d =
      Descending-mono _ b ys (omega (arith, d.0)) (Descending-drop (index_of (index x)) xs ys d.1)

  pub Descending-take :
      (b : ℕ) (xs ys : List ℕ) → Descending index b (xs ++ ys) → Descending index b xs
  Descending-take b [] ys d = tt
  Descending-take b (x ∷ xs) ys d = (d.0, Descending-take (index_of (index x)) xs ys d.1)

  -- What lies deeper has a smaller index.
  pub Descending-below :
      (b : ℕ) (xs ys : List ℕ) (x y : ℕ)
      → Descending index b (xs ++ ys)
      → contains x xs ≡ true
      → contains y ys ≡ true
      → index_of (index y) < index_of (index x)
  Descending-below b [] ys x y d h k = (cc)
  Descending-below b (z ∷ xs) ys x y d h k = elim (Bool-cases (z == x)) [
    | inl e ↦
        let same : z ≡ x = ground arith in
        subst (λ z. index_of (index y) < index_of (index z)) same
          (Descending-lt _ ys y (Descending-drop _ xs ys d.1) k)
    | inr e ↦ Descending-below (index_of (index z)) xs ys x y d.1 (ground arith) k
  ]

  pub Descending-apart :
      (b : ℕ) (xs ys : List ℕ) (x : ℕ)
      → Descending index b (xs ++ ys)
      → contains x xs ≡ true
      → contains x ys ≡ false
  Descending-apart b xs ys x d h = elim (Bool-cases (contains x ys)) [
    | inl k ↦ absurd (omega (arith, Descending-below b xs ys x x d h k))
    | inr k ↦ k
  ]

  pub Descending-IsNodup : (b : ℕ) (xs : List ℕ) → Descending index b xs → IsNodup xs
  Descending-IsNodup b [] d = tt
  Descending-IsNodup b (x ∷ xs) d = (
    Descending-apart b (x ∷ []) xs x d (ground arith),
    Descending-IsNodup (index_of (index x)) xs d.1,
  )

-- Components with one more at the end.
module _ (adj : Graph) where
  pub Ordered-snoc :
      (seen : List ℕ) (cs : List (List ℕ)) (c : List ℕ)
      → Ordered adj seen cs
      → ((x y : ℕ)
          → contains x c ≡ true
          → contains y (adj x) ≡ true
          → ((contains y seen || contains y (concat cs)) || contains y c) ≡ true)
      → Ordered adj seen (cs ++ (c ∷ []))
  Ordered-snoc seen [] c o h = ((λ x y m e. ground (arith, h x y m e)), tt)
  Ordered-snoc seen (b ∷ cs) c o h = (
    o.0,
    Ordered-snoc (seen ++ b) cs c o.1 (λ x y m e.
        ground (arith, h x y m e, contains-append y seen b, contains-append y b (concat cs))),
  )

  pub Ordered-closed :
      (seen : List ℕ) (cs : List (List ℕ)) (x y : ℕ)
      → Ordered adj seen cs
      → contains x (concat cs) ≡ true
      → contains y (adj x) ≡ true
      → (contains y seen || contains y (concat cs)) ≡ true
  Ordered-closed seen [] x y o m e = (cc)
  Ordered-closed seen (c ∷ cs) x y o m e = elim (Bool-cases (contains x c)) [
    | inl k ↦ ground (arith, o.0 x y k e, contains-append y c (concat cs))
    | inr k ↦ ground (
      arith,
      Ordered-closed (seen ++ c) cs x y o.1 (ground (arith, contains-append x c (concat cs))) e,
      contains-append y seen c,
      contains-append y c (concat cs),
    )
  ]

  pub Linked-snoc :
      (cs : List (List ℕ)) (c : List ℕ)
      → Linked adj cs
      → ((x y : ℕ) → contains x c ≡ true → contains y c ≡ true → Reach adj x y)
      → Linked adj (cs ++ (c ∷ []))
  Linked-snoc [] c l h = (h, tt)
  Linked-snoc (b ∷ cs) c l h = (l.0, Linked-snoc cs c l.1 h)
