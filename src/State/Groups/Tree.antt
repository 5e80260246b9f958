-- ===== src/State/Groups/Tree.antt =====
-- The shape of the tree of groups, which `create_group` keeps.
use tanh_lib.Base.{
  ℕ, ◌<◌, ◌≤◌, ◌≡◌, ◌⊎◌, inl, inr, refl, ◌∙◌, true, List, [], ◌∷◌, ◌++◌, none, some, arith,
  Bool-cases,
}
use tanh_lib.State.Paths.{Str, same}
use tanh_lib.State.Groups.{Groups, find_group}

pub same→eq : (a b : Str) → same a b ≡ true → a ≡ b
same→eq [] [] h = refl
same→eq [] (d ∷ ds) h = (cc)
same→eq (c ∷ cs) [] h = (cc)
same→eq (c ∷ cs) (d ∷ ds) h =
    let rest = same→eq cs ds (ground (arith, h)) in ground (arith, h, rest)

pub same_refl : (a : Str) → same a a ≡ true
same_refl [] = refl
same_refl (c ∷ cs) = let rest = same_refl cs in ground (arith, rest)

-- The group has the names of the list above it, its own first, up to the root.
abbrev pub IsAt : Groups → ℕ → List Str → Type 0
IsAt st g [] = g ≡ 0
IsAt st g (n ∷ ns) =
    (p : ℕ) × (p < g) × ((st.group g).parent ≡ some p) × ((st.group g).name ≡ n) × IsAt st p ns

-- The entries of `m_groups` name children that exist, and have the group as their parent.
abbrev pub HasChildren : Groups → ℕ → Type 0
HasChildren st g =
    (name : Str) (c : ℕ)
    → find_group name (st.group g).groups ≡ some c
    → (c < st.next) × (g < c) × ((st.group c).parent ≡ some g) × ((st.group c).name ≡ name)

pub record IsTree (st : Groups) : Type 0 where
  pub has_root : 0 < st.next
  pub root_parent : (st.group 0).parent ≡ none
  pub root_name : (st.group 0).name ≡ []
  pub children : (g : ℕ) → g < st.next → HasChildren st g

-- What was there stays, and every child is still found.
pub record Extends (s t : Groups) : Type 0 where
  pub next_le : s.next ≤ t.next
  pub parents : (g : ℕ) → g < s.next → (t.group g).parent ≡ (s.group g).parent
  pub names : (g : ℕ) → g < s.next → (t.group g).name ≡ (s.group g).name
  pub found :
      (g : ℕ) (name : Str) (c : ℕ)
      → g < s.next
      → find_group name (s.group g).groups ≡ some c
      → find_group name (t.group g).groups ≡ some c

pub Extends-refl : (s : Groups) → Extends s s
Extends-refl s = record {
  next_le = omega arith;
  parents = λ g b. refl;
  names = λ g b. refl;
  found = λ g name c b e. e;
}

pub Extends-trans : {s t u : Groups} → Extends s t → Extends t u → Extends s u
Extends-trans e f = record {
  next_le = omega (arith, e.next_le, f.next_le);
  parents = λ g b. f.parents g (omega (arith, b, e.next_le)) ∙ e.parents g b;
  names = λ g b. f.names g (omega (arith, b, e.next_le)) ∙ e.names g b;
  found = λ g name c b h. f.found g name c (omega (arith, b, e.next_le)) (e.found g name c b h);
}

pub IsAt-Extends :
    {s t : Groups} → Extends s t → (g : ℕ) (ns : List Str) → g < s.next → IsAt s g ns → IsAt t g ns
IsAt-Extends x g [] b h = h
IsAt-Extends x g (n ∷ ns) b (p, lt, parent, name, above) = (
  p,
  lt,
  x.parents g b ∙ parent,
  x.names g b ∙ name,
  IsAt-Extends x p ns (omega (arith, b, lt)) above,
)

-- What an entry at the end adds.
pub find_group-snoc :
    (name new : Str) (k c : ℕ) (gs : List (Str × ℕ))
    → find_group name gs ≡ some c
    → find_group name (gs ++ ((new, k) ∷ [])) ≡ some c
unfolding find_group
find_group-snoc name new k c [] h = (cc)
find_group-snoc name new k c ((n, g) ∷ gs) h = elim (Bool-cases (same n name)) [
  | inl e ↦ ground (arith, e, h)
  | inr e ↦
      let rest = find_group-snoc name new k c gs (ground (arith, e, h)) in ground (arith, e, rest)
]

pub find_group-new :
    (new : Str) (k : ℕ) (gs : List (Str × ℕ))
    → find_group new gs ≡ none
    → find_group new (gs ++ ((new, k) ∷ [])) ≡ some k
unfolding find_group
find_group-new new k [] h = rw (same_refl new) refl
find_group-new new k ((n, g) ∷ gs) h = elim (Bool-cases (same n new)) [
  | inl e ↦ ground (arith, e, h)
  | inr e ↦ let rest = find_group-new new k gs (ground (arith, e, h)) in ground (arith, e, rest)
]

pub find_group-cases :
    (name new : Str) (k c : ℕ) (gs : List (Str × ℕ))
    → find_group name (gs ++ ((new, k) ∷ [])) ≡ some c
    → (find_group name gs ≡ some c) ⊎ ((c ≡ k) × (new ≡ name))
unfolding find_group
find_group-cases name new k c [] h = elim (Bool-cases (same new name)) [
  | inl e ↦ inr (ground (arith, e, h), same→eq new name e)
  | inr e ↦ inl (ground (arith, e, h))
]
find_group-cases name new k c ((n, g) ∷ gs) h = elim (Bool-cases (same n name)) [
  | inl e ↦ inl (ground (arith, e, h))
  | inr e ↦ elim (find_group-cases name new k c gs (ground (arith, e, h))) [
    | inl old ↦ inl (ground (arith, e, old))
    | inr fresh ↦ inr fresh
  ]
]
